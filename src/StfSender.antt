-- ===== src/StfSender.antt =====
-- src/StfSender: the process that holds SubTimeFrames until the scheduler decides on them.
pub mod Output
