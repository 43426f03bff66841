-- ===== src/Lib.antt =====
-- A library on the C++ framework pipeline-tools: the flow objects that pass data on, the queues
-- between pipelines, the smart buffers and the pool that hold data, the workers and the allocator of
-- CPU cores that run pipelines, the clients of RabbitMQ, and the HTTP server of the main program.
--
-- The parts and their files (the sources stand under core/src/ of the repository, unless their path
-- begins with server/ or missions/ or is main.cpp):
-- - Prelude: the numbers, lists and integers that all parts use. Prelude/Outcome is how a piece of
--   code ends: it returns, throws, blocks for ever, does something undefined, ends the process in
--   std::terminate, or runs out of fuel. Stateful code is a command from a state to such an outcome,
--   written in `do` blocks. Prelude/Store is an array of variables with a count over its first
--   entries, Prelude/Bits is about sets of small numbers as the bits of a word.
-- - Threads: utils/threads. Policy is ThreadPolicy.h. CpuManager is CPUManager.h and .cpp:
--   `allocate`, `deallocate` and `deallocate_all` are the three static methods, CpuManager/ParseCpus
--   is `parse_cpus`. CpuManager/Allocate, Conserves, Ledger and Race are about what the allocator
--   does with the pools. Worker is Worker.h and Worker.cpp, which call the allocator;
--   Worker/Lifecycle and Restart are about `start` and `stop`.
-- - Utils: Utils/Ranges is `parse_numeric_ranges` of utils/misc_utils.cpp, which `parse_cpus` calls;
--   Ranges/RoundTrip is about what it reads, Ranges/Total about every text. Strings is
--   utils/string_utils.cpp, Demangle is `demangle` of utils/misc_utils.cpp, Singleton
--   utils/singleton, Logging utils/logging/logger.cpp, and Config utils/config: `convert`, `get_env`
--   and `get`, with Config/Numbers and Config/Reading about them.
-- - Memory: utils/memory. Buffer is buffer_base.hpp, released_buffer.hpp and memory_location.h;
--   Unique is smart_buffers/unique_buffer.hpp, Shared is smart_buffers/shared_buffer.hpp, Pool is
--   mempool/MemPool.hpp, whose blocks are held by unique buffers that give them back.
--   Shared/Concurrent has the methods of shared_buffer.hpp one atomic access at a time: Counted,
--   Changes, Advances and Calls are about the counts, Safety and WaitFree are about what threads can
--   reach, Alone and Whole compare an uninterrupted method with the method as one step.
-- - Flow: flow. Messages has the texts of the exceptions, Any is the interface of `nstd::any`, Graph
--   has the objects and their links (Flow.hpp), Execute is `execute` with `produce` and the four
--   `process_any` (Flow.hpp, Producer.hpp and blocks/), in the open recursion in which objects
--   execute their consumers; Pipeline is Pipeline.hpp, and Mission the choice of queues between
--   pipelines (Mission.hpp). Execute/Fanout is about the loop over the consumers, Execute/Rounds and
--   Rounds/Fires are about the bit mask of an aggregator; Execute/Chains, Pipeline/Streams and
--   Pipeline/Built are about modules in a line behind a source; Mission/Exchange couples two
--   pipelines by a queue. Mission/Run is `start` and `stop` of Mission.cpp, which run each pipeline
--   in a worker of Threads; Run/Cores, Run/Few and Run/Unprivileged are about the cores and the
--   threads of these workers.
-- - Queues: utils/queues: IQueue.hpp and StdQueue.hpp, with modules/io/queue/QueueSource.hpp and
--   QueueSink.hpp, the source and the sink by which one pipeline feeds another, on any `IQueue`.
--   Queues/Moodycamel is MoodycamelQueue.hpp, BlockingQueue.hpp, LockFreeQueue.hpp and
--   QueueFactory.hpp.
-- - Modules: modules/io/ConstantSource.hpp, modules/io/PrintSink.hpp and modules/math, the `process`
--   functions that come with the framework.
-- - Rmq: utils/ipc/rmq. Rmq itself is MQEntity.h and MQEntity.cpp, Serialization is Concepts.h with
--   the branches of `publish` and `consume` on the type of a value, Publisher and Consumer are the
--   classes of these names (Consumer with modules/io/ipc/rmq/RMQSource.tpp), and Broker is what
--   their theorems take of the client library.
-- - Server: server/src/server. Swagger is swagger/EndpointMetadata and swagger/SwaggerGenerator,
--   with Swagger/Document, Swagger/Operation and Swagger/Codes about the document; Registry is
--   routes.hpp and routes.cpp with the macro of utils/web_utils.h, Registry/Start is about a start;
--   Json is the interface of `nlohmann::json`; and Program is main.cpp and
--   missions/example/src/register_routes.cpp, which use Utils and Server together.
--
-- State and operations. A C++ object is a record with the members of the class, a method is a
-- function from the state to the new one, and a method that can fail returns an outcome. Variables
-- that hold buffers, and flow objects, are known by numbers, so that two names of one object are two
-- equal numbers. A vector is a list in its order. A `size_t` has 64 bits and an `int` 32; where the
-- source can wrap around or overflow, `% 2 ^ w` or an undefined outcome is written out.
--
-- Bounds and fuel. `allocate` calls itself once at most, so its depth is 2: the call inside asks for
-- pinned cores, which need no further call. The loop of `parse_numeric_ranges` over a span has one
-- round more than the span has numbers, and `to_string` has one round more than the number it
-- writes, which has no more digits. `execute` nests as deep as the links of the graph: its fuel is
-- the greatest depth of nested calls, to be chosen above the rank of the object. Reference counts
-- are taken for fewer than 2^64 - 1 variables, among threads for fewer than 2^63.
--
-- Not in the repository, and so parameters: nstd::any (the record `AnyLib`, with its documented
-- results), pthread (the results of its calls), deleters and the user's `process` functions, and the
-- two files under /sys, by their first lines; `getenv`, `std::stod` and its numbers; nlohmann::json
-- (the record `JsonLib`); httplib, by the routes that it is given and whether it could bind;
-- SimpleAmqpClient (the record `Amqp`, with `Grants` for a broker that grants what some options ask
-- for); and the queues of moodycamel, a copy of another project's library (the record `MoodyQueue`,
-- with its documented results). DawgLog only shows in the entries that it is given; `throw_error` of
-- it logs and throws. The standard library is written out where the code uses it.
--
-- Not modelled: a failing `new`; the bytes behind pointers; memory orders, so that the atomic
-- accesses of threads come one after the other; what a new thread of a worker does before its job,
-- while `start` goes on: it is taken to be done first; the copy and move constructors of a worker;
-- `RMQSink::process`, whose call of `publish` no overload takes; `add_schema`, which nothing calls;
-- the inside of the loggers.
pub mod Prelude
pub mod Threads
pub mod Utils
pub mod Memory
pub mod Modules
pub mod Flow
pub mod Queues
pub mod Rmq
pub mod Server
