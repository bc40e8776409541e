-- ===== src/Lib.antt =====
-- A verification library for Gossip-Pubsub, a Go program that replicates conflict-free data types
-- over a gossip network.
--
-- The program's parts. CRDT/crdt.go has vector clocks, a last-writer-wins set and a grow-only
-- counter with their merges. CRDT/Heap.go has the bounded log of operations. CRDT/MemoryStore.go
-- applies an operation to the object of its key and logs it. CRDT/CRDT_DBOps.go and CRDT/helper.go
-- are the engine: checked inputs, then the store. Publisher and Subscriber send and receive plain
-- messages over a topic of the pubsub library and keep metrics. CRDTSync is a node that publishes
-- the export of its engine and merges what other nodes publish. Peer keeps the identity of a node in
-- a file, and main.go and main_crdt.go put the parts together.
--
-- The files.
--   Base        shared names, tests, uint64 sums, the order of strings, sort.Strings
--   GoMap       Go maps: association lists with distinct keys (IsMap), read, write, delete, range
--   Clock       CRDT/crdt.go, VectorClock: Compare is compare, Merge is merge, Increment is
--               increment, Prune is prune, extractNodeID and deterministicMerge keep their names
--   LwwSet      CRDT/crdt.go, LWWSet: applyOp is apply_op, Contains, GetElements; Merge is
--               merge_with behind the tests in Crdt
--   Counter     CRDT/crdt.go, Counter: Increment, IncrementWithTimestamp, Value, Merge
--   Crdt        CRDT/crdt.go, the interface CRDT as a data type, and the errors of Merge
--   OpHeap      CRDT/Heap.go: approxSize, Append with its eviction loop, Stats
--   MemStore    CRDT/MemoryStore.go: AppendOp is append_op, with the reads, prune and export;
--               MemStore/Shared has AppendOp as append_shared and PruneVectorClocks as
--               prune_shared, on clocks at addresses
--   Engine      CRDT/CRDT_DBOps.go and CRDT/helper.go: LWWAdd, LWWRemove, CounterInc, the checks
--   Publisher   Publisher/Publisher.go: publishing, the loop, PublishBatch, PublishWithRetry
--   Subscriber  Subscriber/Subscriber.go: validateMessage, receiving with and without a handler,
--               the loop, the peers
--   Sync        CRDTSync/implementation.go, sync.go, types.go: syncCRDTState and applyCRDTSync keep
--               their names, receiveCRDTMessage is receive_crdt_message with accept_message;
--               Sync/Lifecycle has Start and Stop, Sync/Loops the goroutines, Sync/Report GetStats
--               and the printed values of utils.go; Sync/Gossip is a system of any number of nodes
--               that call these operations in any order over an unreliable network
--   Peer        Peer/Peer.go: the identity in Peer/Peer.json
--   Main        main.go: Main/Addresses the bootstrap list, Main/Keys the key of the host, with that
--               of main_crdt.go, Main/Messages the message table and the subscriber that fills it,
--               Main/Printing what is printed, Main/Program the functions main, as run_node, and
--               crdtMain of main_crdt.go, as crdt_main, with all ways in which they end
-- Below a file stand the modules of its proofs, named for what they prove, and Examples with runs
-- and with the listed theorems at concrete inputs.
--
-- How state is modelled. An object is a record; a method that writes into its receiver returns the
-- new record. A Go map is an association list whose order is the order of one run of range, which
-- Go leaves open; SameMap says that two lists are one map. Where a result depends on that order (the
-- node id that extractNodeID finds), what is said of two replicas gives each call an order of its
-- own. uint64 arithmetic is written out modulo 2^64. Every store method holds the store's mutex
-- throughout, so it is one step, but a call of the node that uses several of them is one step only
-- where no other goroutine uses the engine. Time is an
-- argument. Loops over data are recursions on lists and need no fuel, but for the loop of split in
-- main.go, which may jump ahead: it gets one round for each byte and one more, which is enough for
-- each separator that is not empty. The libraries that the publisher, the subscriber, the node and
-- the peer identity call, the clock, the files and the context are parameters: functions on a state
-- of the world. The endless loops of the subscribers are taken for any number of rounds, those of
-- the publishers for any list of events. A panic is a value: none, or an error of its own.
--
-- Not modelled: clocks are values, but for MemStore/Shared, where the log and the sets of the store
-- share clock maps at addresses (a caller's clock), and AppendOp and PruneVectorClocks change them in
-- place; the copies of GetAllCRDTs, which share clocks with the store, are values. A nil map, which
-- a received object can have, is an empty one, and a parameter, nil_map, says whether AddLocalData
-- meets one and panics. What is lost where another goroutine uses the engine between the copies of
-- applyCRDTSync and its writes is in Sync/Overlap; elsewhere a call of receiveCRDTMessage is one step.
-- Of the two main files the parsing of the flags and the log lines are not modelled, and of what is
-- printed the fixed text is not. The goroutines of a main
-- function are parts of their own: what they do while it waits is in the world that the wait returns,
-- and a panic of one of them ends the program when it begins to wait. Whether the handler of a
-- received message panics is a parameter, handler_panics. GetThroughput of the publisher is
-- floating-point arithmetic on one metric.
pub mod Base
pub mod GoMap
pub mod Clock
pub mod LwwSet
pub mod Counter
pub mod Crdt
pub mod OpHeap
pub mod MemStore
pub mod Engine
pub mod Publisher
pub mod Subscriber
pub mod Sync
pub mod Peer
pub mod Main
