-- ===== src/StfBuilder.antt =====
-- The StfBuilder (src/StfBuilder): from the readout's messages to the SubTimeFrames it sends on.
pub mod Builder
pub mod Sequencer
pub mod Topology
pub mod Input
