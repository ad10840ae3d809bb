-- ===== src/Lib.antt =====
-- DataDistribution: models and proofs of the parts that decide which time frame is built where.
--
-- A time frame is made of one SubTimeFrame from each StfSender. The StfSenders announce their
-- SubTimeFrames to the TfScheduler, which collects the announcements by time frame, selects a TfBuilder
-- once a time frame is complete (or stale), and asks it to build the time frame; what is not built is
-- dropped at the StfSenders. A SubTimeFrame is built by the StfBuilder, from what the readout sends for
-- one range of time, and goes from there to the StfSender. A TfBuilder accepts a request if it has the
-- memory, requests the SubTimeFrames, and reports its memory back to the scheduler.
--
-- Prelude: the shared names, Boolean tests, lists, maps as association lists, 64-bit arithmetic.
--
-- Common: src/common.
--   Bitset: boost::dynamic_bitset, which is a parameter: the operations in use with their documented
--     behaviour.
--   EventRecorder: EventRecorder of Utilities.h (SetEvent, GetEvent, manageSize, reset).
--   ConcurrentQueue: ConcurrentContainerImpl of ConcurrentQueue.h; History has runs of its methods, Laws
--     what they deliver, Pipeline is IFifoPipeline.
--   SubTimeFrame: SubTimeFrame of src/common/SubTimeFrameDataModel.cxx (mergeStf is merge_stf), whose data
--     parts are their sizes; Merging holds the proofs.
--   FileWriter: SubTimeFrameFileWriter of src/common, as the sequence of what it writes; Layout holds the
--     proofs.
--   FileReader: SubTimeFrameFileReader (read, visit) on what the FileWriter writes. Blocks has the loop over
--     the data, Rebuilding the SubTimeFrame made of it, Ordering the order of the writer, Updating what
--     updateStf does to it, and RoundTrip both together.
--   Readout: ReadoutDataModel.h and .cxx, RDHReader and ReadoutDataUtils (rdhSanityCheck is
--     rdh_sanity_check, and so on). Packets has the checks of blocks, SubSpecs the sub-specifications.
--   HeaderAdapter: adaptHeaders of TimeFrameBuilder (src/common/SubTimeFrameBuilder.cxx); Adapted holds the
--     proofs.
--   RegionAllocator: RegionAllocatorResource of MemoryUtils.h with exact regions (do_allocate, try_reclaim,
--     and reclaim for the callback of the transport). Intervals is boost::icl::interval_map, a parameter;
--     Ownership holds the proofs.
--   RpcClients: the collections of gRPC clients in src/common/discovery; Lookup holds the proofs.
--
-- TfScheduler: src/TfScheduler.
--   Messages: the messages of src/common/discovery/discovery.proto, with the fields that are read.
--   TfBuilders: TfSchedulerTfBuilderInfo (updateTfBuilderInfo is update_tf_builder_info, and so on). The
--     TfBuilderInfo objects that its containers share live in a store. Selection, Topology, Updates,
--     Invariant and Preservation hold the proofs.
--   StfInfo: TfSchedulerStfInfo without its threads (addStfInfo, reset, the requests to drop). Invariant,
--     Preservation, Queued, Conservation and Refusals hold the proofs.
--   Threads: one round of each of its threads, over the scheduler and the TfBuilders together; Steps has
--     the steps of the scheduling threads. Invariant, Rounds, Alone, Interleavings and Decisions hold the
--     proofs.
--   ConnManager: TfSchedulerConnManager (connectTfBuilder is connect_tf_builder, and so on), with the
--     proofs in Connecting and Disconnecting; Ucx has the connections over UCX, with the proofs in
--     Undoing, and Ending the ends of connections, with the proofs in Clients and Futures. The calls made
--     are part of the state.
--   Instance: TfSchedulerInstanceRpcImpl, the state of the partition, its monitor and the gRPC service;
--     Lifecycle has its histories.
--   Service: the instance with its connections; Teardown has the end of a partition.
--
-- TfBuilder: src/TfBuilder.
--   Input: TfBuilderInput, a pass of each of its threads (StfPacingThread is pace, StfDeserializingThread
--     complete_first, StfMergerThread merge_next); Building and Safety hold the proofs. What
--     IovDeserializer makes of a message is an argument, which may fail.
--   Rpc: TfBuilderRpcImpl (recordTfBuilt, recordTfForwarded, BuildTfRequest, StfRequestThread,
--     getIdForTopoTf). Accounting, Requests and TopoIds hold the proofs.
--
-- StfBuilder: src/StfBuilder.
--   Builder: SubTimeFrameReadoutBuilder of src/common/SubTimeFrameBuilder.cxx (addHbFrames in the steps
--     filter_blocks, check_blocks and add_kept; getStf). Adding, Frames, Calls, Memory and Printing hold
--     the proofs.
--   Input: StfInputInterface, a round of StfReceiverThread (receive) and of StfBuilderThread (build_round).
--     Receiving and Spans hold the proofs.
--   Sequencer: its StfSequencerThread (sequence); Sequence holds the proofs.
--   Topology: topological SubTimeFrames, one for each link (addTopoStfData is add_topo_stf_data), and a
--     round of TopologicalStfBuilderThread. Collecting and Flushing hold the proofs.
--
-- StfSender: src/StfSender.
--   Output: StfSenderOutput, the SubTimeFrames that wait for the scheduler (StfSchedulerThread in the two
--     steps triage and reject, sendStfToTfBuilder, StfDropThread); Conservation holds the proofs.
--
-- Tests: concrete runs, and the theorems at them.
--
-- How the code is modelled. A method is one step on a state, and threads are lists of steps in any order;
-- PartitionMonitorThread takes no lock and is two steps. Of SchedulingThread and TopoSchedulingThread the
-- steps are those between which their locks are released (Threads/Steps), and a round as a whole besides.
-- Some steps are coarser than the locks of the source: disconnectTfBuilder takes its lock for each socket,
-- StfMergerThread takes one inside its pass, and HousekeepingThread takes its own again for each TfBuilder
-- that it erases, which is a call of its own too. Numbers are the native ones, with the wrap of 64-bit and
-- 32-bit arithmetic written out, but for the sizes of what is in memory
-- or in a file and the index of a socket. The clock (in milliseconds), the configuration, the answers of
-- remote processes and random numbers are arguments. A blocked pop answers that it waits, and so does a
-- request for memory. Undefined behaviour (a null pointer, an empty vector, an iterator past the end) is
-- the answer none. Log lines and monitoring are left out. The loop of StfRequestThread runs on fuel, as
-- much as there are requests, which is enough since each pass takes one. The loops over the packets of a
-- block run on fuel: the bytes of the block are enough, since each pass goes forward, but for the loop that
-- prints a block, which a packet can make endless; what runs out of fuel says so. All other loops run over
-- lists. A block of the readout is its size and the fields that an RDH shows at each of its offsets.
--
-- Ids of time frames are assumed below 2 ^ 61 where the event records matter: above, the new size of the
-- bit set wraps.
--
-- Not modelled: the RPC service of the StfSender, older versions of the headers in files, the threads
-- that read and write them, the reference counts of the data region, the transports over FairMQ and
-- UCX, and the devices. The StfSender with the highest buffer utilization, which HighWatermarkThread
-- computes in floating point, is an argument. The asserts of the source are not steps; that ids in the
-- map are not recorded as dropped or built is part of the invariant.
pub mod Prelude
pub mod Common
pub mod TfScheduler
pub mod TfBuilder
pub mod StfBuilder
pub mod StfSender
pub mod Tests
