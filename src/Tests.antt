-- ===== src/Tests.antt =====
-- Concrete runs of the models, at which the hypotheses of the theorems hold.
pub mod BitVector
pub mod CommonExamples
pub mod BuilderExamples
pub mod SchedulerExamples
pub mod ConnectionExamples
pub mod PartitionExamples
pub mod RpcExamples
pub mod SenderExamples
pub mod StfBuilderExamples
pub mod HeaderExamples
pub mod InputExamples
pub mod AddressCounts
pub mod MemoryExamples
pub mod FileExamples
