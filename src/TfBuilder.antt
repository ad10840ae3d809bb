-- ===== src/TfBuilder.antt =====
-- The TfBuilder (src/TfBuilder): its RPC service, the requests for SubTimeFrames, and their merging.
pub mod Input
pub mod Rpc
