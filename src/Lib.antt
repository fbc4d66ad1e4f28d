-- ===== src/Lib.antt =====
-- A model of stark8s: the coordinator (pkg/coordinator), the object store that it keeps its state in
-- (pkg/storage), the controller of workloads (pkg/controller) and the protocol server of a worker
-- (pkg/runtime), and theorems about them.
--
-- The program. A workload is a graph of operations and channels (api/graph). Pods of an operation
-- produce segments, sets of records that they keep themselves, and announce them on a channel; the
-- coordinator of the workload queues the segments, hands them to the pods of the consuming
-- operation, counts acknowledgements, and decides when a channel, an epoch, a loop or an operation is
-- finished. All its state is behind one lock, so a handler is a function from state to state. A
-- coordinator with an object store commits a snapshot of its state after each change, under a
-- checkpoint that it has claimed; a claim by another fences it. The controller reads what the
-- coordinator reports, seals channels, and sets the replicas and the phases of the operations of a
-- workload in the cluster. In a pod, the protocol server passes callbacks to an application process.
--
-- The files.
--   Graph               api/graph/graph.go: the declared graph.
--   Coordinator/Api     pkg/coordinator/api.go: requests, responses and metrics.
--   Coordinator/State   the types of pkg/coordinator/coordinator.go, the monad of its handlers, and
--                       `commitLocked` of pkg/coordinator/persistence.go.
--   Coordinator/Names, Channels, Balance, Pods, Settle, Topology, Registration, Segments, Produce,
--   Epochs, Consume, Acks, Metrics
--                       pkg/coordinator/coordinator.go, by the parts of its state and its handlers. A
--                       definition has the name of its function in snake case: `ack_session` is
--                       `AckSession`, and the rounds of its loop are `ack_one`.
--   Coordinator/Subscriptions, Retention
--                       pkg/coordinator/subscriptions.go.
--   Coordinator/Persistence
--                       pkg/coordinator/persistence.go: the snapshot, and restoring it.
--   Coordinator/Recovery
--                       `NewDurable` and `rebindHeldSegments` of pkg/coordinator/coordinator.go.
--   Coordinator/Delivery
--                       no code: an invariant on where the segments of a channel are, between the
--                       operations of the files above.
--   Storage/Objects     pkg/storage/store.go: a store, and in Objects/Laws what its clients rely on.
--   Storage/Paths, Local
--                       pkg/storage/local.go: the store in files.
--   Storage/Checkpoint  pkg/storage/checkpoint.go: claims and commits, each in its two halves.
--   Storage/Race        no code: clients of one checkpoint whose halves interleave, and an abstract
--                       register that they implement.
--   Controller/Types    api/v1alpha1/types.go: the declared workload and its statuses.
--   Controller/Validate, Cycles, Cluster, Operations, Workloads
--                       pkg/controller/reconciler.go.
--   Controller/Collective
--                       pkg/controller/collective.go.
--   Runtime/Server      pkg/runtime/protocol.go and server.go.
--   Prelude             what all files share: maps, lists, signed integers, tests.
--   Scenarios           concrete data and witnesses.
-- A folder with the name of a file holds the theorems about it.
--
-- The state. The structs are records with the same fields. A pointer to a segment is a number into
-- the store `heap` of its channel, below `fresh`; queues, log, history and indexes share the pointers,
-- as in the source. A map is an association list, and a loop over a map runs in the order of the list,
-- where Go leaves the order open; a map of Booleans that are all true is the list of its keys. Values
-- of int32 that may be negative are signed, the record counters are int64 and uint64 bit patterns that
-- wrap round at 2 ^ 64, and offsets, cursors, slots and lengths are natural numbers. Clocks are numbers
-- of nanoseconds, and the clock stands still during a handler. A record's value is its JSON text.
--
-- The handlers. A handler returns the new state with a result or an error, and keeps what it had
-- written before an error, as the source does; where the source takes a change back (`ConsumeSession`
-- and `ReleasedSession` after a failed commit), so does the model. An error of the source is a status
-- and a text; here it is a constructor for each text, with its status. A
-- coordinator with an object store carries the lists of the answers that its writer will give, in place
-- of the store itself, and the theorems hold for all of them or say that there is no store. A reader that waits for records is
-- run on the list of the states that it sees.
--
-- Storage. A store is a record of operations on a state of its own, whose laws are a record that the
-- store in files fills under all faults: its state is a directory with a list of the faults of the
-- calls to come. An operation of the store is one step, and a generation is a uint64 that wraps round,
-- so the theorems on races ask for fewer actions than there are generations. `json.Marshal` and
-- `json.Unmarshal` are parameters, with a round trip as their law.
--
-- The controller. A pass of `Reconcile` is a function of the cluster, which holds the objects that the
-- pass reads and writes, the answers that its API calls will get and the reports of the coordinator.
-- A reason of a phase is a constructor.
--
-- Snapshots. A snapshot is a record in which the append ids of segments stand for pointers; its JSON
-- is left out. Restoring is a loop over its segments, in any order.
--
-- The protocol server. Each request, and each part of a call of `Invoke` that takes the lock, is a
-- step; the replies that are sent are a list, and a history is a list of steps.
--
-- Loops. The loops of the source over slices and maps are structural. Those that run until nothing
-- changes are bounded by fuel: the loop of `cycleMembers` has two rounds for each channel and one
-- more, which a theorem below shows to be enough, since each round that changes something uses up an
-- edge in one of two directions; the loops of `markFiniteEpochChannels` and `componentMaxEpochs`
-- have as many, by the same count. A decimal numeral is written with one step more than its number,
-- which is more than it has digits. The search for cycles of `Validate` recurs through unvisited
-- operations only, so its depth is bounded by the number of operations, which a theorem shows.
--
-- What is not modelled. Glue: the HTTP layers of pkg/coordinator/server.go, pkg/runtime/client.go and
-- pkg/storage/http.go, decoding, drawing of random identities, and the commands. Of pkg/storage/local.go
-- the locks between processes, `LockWriter` included. Of pkg/controller the contents of pod templates,
-- services, accounts and network policies, and events; what an API call does is to fail or not. Of
-- pkg/runtime/server.go the handlers that adapt it to the worker library. Outside: the worker library of
-- pkg/sdk, pkg/etl, generated deep copies, and the examples.
pub mod Prelude
pub mod Graph
pub mod Coordinator
pub mod Storage
pub mod Controller
pub mod Runtime
pub mod Scenarios
