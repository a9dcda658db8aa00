-- ===== src/Lib.antt =====
-- memfabric_hybrid: the global address manager, the range pool and the configuration store, modelled and verified.
--
-- MemFabric Hybrid joins the memory of the ranks of a cluster into one global address space. Each
-- process keeps the segments of that space in an address manager, which translates local and global
-- addresses and reserves ranges for new segments. The ranks find each other and exchange their
-- segments through a configuration store: a key-value server that one process runs, to which the
-- others send packed messages over TCP links.
--
-- What the files model, with paths from the root of the repository:
--
-- Base: lists, native numbers with 64-bit wrap-around, little-endian bytes, std::map as an ordered
--   association list (OrdMap), ordered maps of disjoint ranges (Ranges), std::unordered_map (Assoc),
--   std::sort of pairs (Pairs).
--
-- Hybm/Va: HybmVaManager, src/hybm/csrc/mm/hybm_va_manager.{h,cpp}.
--   Types holds the records and the four maps. Alloc holds AddVaInfo, RemoveOneVaInfo, CheckOverlap
--   and every lookup; Reserve holds AllocReserveGva, FreeReserveGva and FindFreeSpace; Direction holds
--   ClassifyAddress and InferCopyDirection. Invariant says what makes the maps valid. Recording,
--   Adding, AddResult, Dropping, Removal, Lookup, ReserveLaws and Reserve/Gaps hold the proofs.
--
-- Hybm/RangePool: RbtreeRangePool, src/hybm/csrc/common/hybm_rbtree_range_pool.{h,cpp}, and the element
--   of src/hybm/csrc/common/hybm_space_allocator.h. RangePool holds the two trees, CanAllocate,
--   Allocate and Release; Session, the runs of these with the elements that are alive. SizeTree, Free,
--   Allocating, Merging, Releasing, SessionLaws and SessionRuns hold the proofs.
--
-- Smem/Packer: SmemMessagePacker, src/smem/csrc/config_store/tcp_store/smem_message_packer.{h,cpp}.
--   Pack, Full and Unpack over lists of bytes, where a read outside of the buffer is a result of its
--   own. RoundTrip, Reads and Canonical hold the proofs.
--
-- Smem/Server: AccStoreServer, src/smem/csrc/config_store/tcp_store/smem_tcp_config_store_server.{h,cpp},
--   over SmemLocalMemoryBackend, src/smem/csrc/config_store/backend/smem_local_memory_backend.cpp.
--   State holds the server's tables and its requests and replies; Waiters, the GET requests that wait;
--   Handlers, SET, GET, REMOVE, CAS, WATCH and HEARTBEAT; Updates, APPEND and WRITE; Adding, ADD; Ranks,
--   FindOrInsertRank; Links, the links that come and go and one round of each thread; Receive, the
--   dispatch of a message. WaiterLaws, Watched, Waiting, Steps, Reach, Outcomes, Exchanging, AddingLaws, Writing, RankLaws,
--   StoreLaws, Timer and Overdue hold the proofs.
--
-- Smem/Client: TcpConfigStore, src/smem/csrc/config_store/tcp_store/smem_tcp_config_store.{h,cpp}.
--   Client holds Set, GetReal, Add, Remove, Append, Write and Cas over a parameter that sends and waits;
--   Serving, that parameter over a link to the server of Smem/Server; Calls, the calls as data and what
--   they mean on a map; Contexts, the table of requests that wait. Numbers, Decoding, Replies, Updating,
--   UpdateCalls, CallLaws, Refinement, ContextLaws, Wakeups and Watching hold the proofs.
--
-- Smem/Prefix: PrefixConfigStore, src/smem/csrc/config_store/tcp_store/smem_prefix_config_store.h, over the
--   calls of Smem/Client. Sharing holds the proofs.
--
-- Smem/Group: SmemNetGroupEngine, src/smem/csrc/net/smem_net_group_engine.{h,cpp}. Group holds GroupBarrier as
--   the ranks' calls of the store, one after the other; Rounds, the runs in which these come in any
--   order and some are lost; Gather, the bytes of GroupAllGather and SortGatherRecv; Joining, GroupJoin and
--   GroupLeave as calls of the store; Exclusion, their runs. Keys, Card, Members, Barrier, Steps, Sorting,
--   GatherLaws, Taking and Locking hold the proofs.
--
-- How the parts interact: ReceiveMessageHandler unpacks a message with the packer and calls a handler
-- with the server's state; a handler returns the new state, its replies and its result, and packs the
-- values that it sends back with the packer. A client packs a request, the server receives it, and the
-- client reads the first reply to its number. The ranks of a group make such calls, taken by their
-- meaning on a map of keys to values. A thread's round is a function as well. Registered operation
-- handlers, the handler of broken links and the state of the links are the parameters of
-- the model, in the record Hooks; the clock is the argument `now`, in milliseconds.
--
-- Bounds and fuel: the loop of FindOrInsertRank runs on fuel, as many rounds as the world has ranks;
-- std::to_string has fuel for 20 digits, which is enough for 64 bits. All other loops follow the
-- structure of a list. A 64-bit sum wraps where it is written add64 or sub64; a sum of the numbers of
-- ADD wraps as well, where the source's signed sum is undefined on overflow.
--
-- Where the source has no defined result, the model says so: `none` for a read through end() and for a
-- copy out of bounds, `overread` for a read behind a message.
--
-- Not modelled: locks (a method is one step), logging, the Dump methods, the start and the shutdown of
-- the server, the start, the shutdown and the reconnecting of its client, sockets and TLS, the
-- high-availability store, the listening thread of the group engine, its handling of
-- broken links and its exit broadcast, memory segments and entities, data operations, transports, and
-- the interfaces to the driver. Of the runs of GroupJoin and GroupLeave, those in which a rank makes its last
-- try of the event's key are left out: behind it the source goes on without the key. A Put of the
-- local backend always succeeds, so the branches for a failed Put are not there.
pub mod Base
pub mod Hybm
pub mod Smem
