-- ===== src/Common.antt =====
-- src/common: the data structures, clients, files and memory that the processes share.
pub mod Bitset
pub mod EventRecorder
pub mod ConcurrentQueue
pub mod RpcClients
pub mod SubTimeFrame
pub mod RegionAllocator
pub mod FileWriter
pub mod FileReader
pub mod Readout
pub mod HeaderAdapter
