-- ===== src/Lib.antt =====
-- pyservicelib: the stateful and data-carrying parts of a library for stream services.
--
-- A service is a graph of operators. Values travel between its processes as bytes, which the
-- serializers write and read; pending requests and the values that wait for a join are held in
-- maps with two buckets, which a timer rotates; a Kafka source makes a request of each record; the join operators put values into such a map and
-- are asked back when a key may be complete. A stream calls its consumer directly or by way of a
-- task pool.
--
-- Paths below are under src/pyservicelib_gorundebug.
-- - Base: shared types, tests, lists, integers, results and dicts. Base/Outcome has the exceptions
--   as values, Base/Dicts Python's dict as an association list.
-- - Serde: runtime/serde/serde.py. Struct (the length header and Python's struct), Framing and
--   Sequences (the shared loops), Ints (IntSerde, RuneSerde), Utf8 and Scalars (BytesSerde,
--   StringSerde, BoolSerde, FloatSerde), Arrays (the list serdes of one scalar type), Values and
--   Wrappers (the values of Python, and each class's serialize_obj), Objects (the classes as one
--   data type, make_default_serde, and the recursion of ListSerde, TupleSerde and DictSerde),
--   Streams (StreamSerde, StreamKeyValueSerde). A byte is a number, a text the list of its code
--   points; an exception is an err.
-- - Store.Rotating: runtime/store/rotatingmap.py, RotatingMap; the timer is a step between calls.
-- - Store.Joining: runtime/store/hashmap.py, HashMapJoinStorage. Each stretch between two awaits is
--   a function: admit and deposit (the lookup and the append of _join_value), finish (after the
--   callback), expire and expire_cleanup (_after_func before and after its callback), rotate. Items
--   live in a store of their own, since buckets, callers and expiry tasks share them. join_round
--   composes the steps of a call that nothing interrupts; join_value repeats it.
-- - Operators: Join is operators/join.py and operators/multijoin.py, the callbacks that they hand
--   to the storage; Flow the calls downstream and the span around them; Case operators/case.py;
--   Split operators/split.py; Pass operators/filter.py, flatmapiterable.py, merge.py, link.py,
--   input.py and error.py.
-- - Runtime.Callers: runtime/common.py, RuntimeHelpers.make_caller, which chooses how a stream calls
--   its consumer, with the lookup of its pool in runtime/serviceapp.py.
-- - Pool: WaitGroup is runtime/pool/pool.py, _AsyncWaitGroup; Queued is runtime/pool/_queuedpool.py,
--   QueuedPool with priority=False: _add, _promote, one round of _executor, the end of a task, and
--   start, stop and the change of the target, as steps in any order. Heap is IndexedHeap of
--   runtime/pool/_scheduling.py: Order and Keys have its keys, Swaps, Up and Down the moves in the
--   tree, Views the heap as a map from tasks to keys, Push, Remove and Promote its operations.
--   Delay is runtime/pool/delaypool.py, DelayPoolImpl: Dispatch, Firing, Sound, Adding and Calls
--   have what its calls do, Steps its histories. Threads is runtime/pool/threadpool.py,
--   AsyncThreadPoolExecutor, with the loop of each of its threads.
-- - Runtime.Contexts: runtime/context/context.py, Context: its path of parents, deadlines, and the
--   callbacks of a cancellation. Runtime.Deadlines is a run of it.
-- - Runtime.Endpoint: runtime/datasource.py, what DataSourceEndpoint counts.
-- - Kafka: datasource/kafka/aiokafkads.py, _AIOKafkaTypedEndpointConsumer. Lanes is a task for each
--   partition that has records (_process_record, _run_partition, _resume_partition) and the limit on
--   requests (_acquire_concurrency, _release_concurrency); Offsets the marked offsets
--   (_mark_message, _flush_marked_offsets, commit_message) and the assignment of partitions
--   (_checkpoint_revoked, _checkpoint_assigned); Requests a request and its results
--   (_endpoint_request_inner, _consume_result). In each, Histories has the steps.
-- - Utils.RwLock: runtime/utils/asyncrwlock.py, AsyncRWLock. Tasks has the tasks that share it and
--   sleep at its condition, Steps what they do; a task is cancelled only while it waits.
--
-- Bounds and fuel: sizes are eight bytes, so lengths stay below 2 ^ 64; integers have the range of
-- their type. The loops of the heap take fuel: _up one more than the index, which each round halves;
-- _down and the loop of _ready one more than the number of entries. join_value runs over the list
-- of its clock readings, one for a round, and answers none where the list ends before the loop.
--
-- Parameters: floating point numbers with struct's formats f and d (Serde.Struct's Floats), and
-- those that are times with their order and minus infinity (Pool.Heap.Keys's Floats), the hashing and the
-- equality of dict keys and the conversions of numbers (Dynamic), the equality of map keys, and the
-- functions of the user.
--
-- Not modelled: the JSON fallback of dataclasses, which stands on reflection; the timer tasks of
-- the two maps; the watches of deadlines;
-- durations and telemetry; configuration, which is field access for the most part; the start and the
-- drain of the Kafka source and its transport metrics; the Kafka sink and the connectors to HTTP,
-- gRPC, cron and Temporal, which call libraries; and the generated models.
pub mod Base
pub mod Serde
pub mod Store
pub mod Operators
pub mod Utils
pub mod Pool
pub mod Kafka
pub mod Runtime
