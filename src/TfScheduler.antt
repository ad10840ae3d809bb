-- ===== src/TfScheduler.antt =====
-- src/TfScheduler: the process that decides which TfBuilder builds which time frame.
pub mod Messages
pub mod TfBuilders
pub mod StfInfo
pub mod Threads
pub mod ConnManager
pub mod Instance
pub mod Service
