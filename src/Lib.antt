-- ===== src/Lib.antt =====
-- Verification library of the distributed key-value store: a text protocol over TCP, `kvserver` nodes
-- that keep a sharded store in memory, and `kvrouter`, which replicates each key on the nodes that a
-- consistent hash ring names. A client's bytes reach an incremental parser; each request that it
-- completes is answered by a server from its store, or by the router, which sends it on to the nodes
-- of the key's preference list and marks those that fail as down.
--
-- The files and what they model, with paths from the repository's root:
--   Prelude: byte strings as lists of numbers below 256, and the lemmas that the others share.
--   Protocol/Messages, Protocol/Text, Protocol/Encode: the data, the text helpers and the encoders of
--     src/common/protocol.hpp and src/common/protocol.cpp. `Parser` is the state of both parsers.
--   Protocol/RequestParser: `IncrementalParser`. The out-parameter of a complete parse stands beside
--     the status.
--   Protocol/ResponseParser: `ResponseParser`; its out-parameter is an argument.
--   Protocol/RequestLoop: the inner loop of `WorkerReactor::service_client` and of
--     `Router::handle_client`, for any reaction to a request or an error.
--   Hash, HashRing: the hash functions and `ConsistentHashRing` of src/common/hash_ring.cpp. The
--     `std::map` is the list of its entries by position, an iterator a rest of that list.
--   KvStore: `KVStore` of src/server/kv_store.cpp. A method holds its shard's lock, so it is one step.
--     KvStore/Counting, KvStore/Keys: sequences of SETs and DELETEs, for the counter.
--   Server/Requests, Server/Connection, Server/Pass: `WorkerReactor` of src/server/worker_reactor.cpp.
--   Server/Wakeup: `enqueue_client` and the pipe that wakes the reactor, as a relation of steps.
--   Server/Accept: the accept loop of src/server/server.cpp.
--   Transport: both `write_all` and `send_request`, on the results of the system calls.
--   Router/FailureDetector: src/router/failure_detector.cpp; a heartbeat round on the pings' outcomes.
--   Router/Routing: `route_read` and `route_write` of src/router/router.cpp. `Network` is a parameter:
--     what connecting and exchanging do, failures included. Router/Replication adds `Nodes`, the
--     assumption that a node that answers does so as the server's specification says.
--   Router/History: requests one after the other and reports of failed nodes, against a dictionary.
--   Router/Reply, Router/Client: `encode_response`, the constructor and `handle_client`.
--     Router/Client/Construction: the ring of the router that the constructor makes.
--   Router/FailureDetector/Heartbeat: any order of its locked steps.
--   Server/Interleaving: several clients of one reactor, whose bytes arrive in any order, against a
--     server that keeps one dictionary.
--   Server/Session: a client's session with a reactor, from its chunks to the responses.
--   Client, Client/Console: src/client/main.cpp, lines to requests, responses to output, and `main`.
--   CommandLine: `main` of src/server/main.cpp and src/router/main.cpp up to what is started, with
--     `parse_nodes`, `std::atoi`, `std::stoul`, and the loop over the options of the three tools.
--   Socket: `Socket` and the functions that make sockets of src/common/socket_utils.cpp,
--     and whether the calls that set a client's options succeed.
--   Workload: src/benchmark/workload.cpp, over any source of randomness.
--   Benchmark: kvbench. Its workers and the accounts of src/benchmark/main.cpp, and the percentiles
--     and texts of src/benchmark/stats.cpp.
--   FailoverBench: the samples, the summary, the timeline and the options of
--     src/tools/failover_bench.cpp.
--   Sorting: `std::sort` for the two.
--   HashReport: the counts and the report of src/tools/hash_report.cpp.
--   Tests: runs on fixed inputs, and each theorem applied at one.
--
-- Fuel: the request loop takes one unit for each round, and a round that goes on consumes a byte, so
-- one more than the buffer's length is enough, unless a line is overlong. `get_nodes` takes one unit
-- for each step of its iterator, and two passes over the ring are enough where every listed node
-- owns a position. A list of results of system calls that ends is a call that waits.
--
-- Machine integers: the hash and the store's counter are modulo 2 ^ 64; lengths are below 2 ^ 64 and
-- are not reduced. `std::atoi` returns an `int`: the result of `strtol`, cut to 32 bits.
--
-- Not modelled: threads and their interleavings other than as an order of locked steps or system calls,
-- signals and process start-up, timeouts of sockets, the router's accept loop, clocks, and the summaries
-- that the tools print. A `double` is an abstract type, whose operations are parameters.
pub mod Prelude
pub mod Protocol
pub mod Hash
pub mod KvStore
pub mod HashRing
pub mod Server
pub mod Transport
pub mod Router
pub mod Client
pub mod Workload
pub mod HashReport
pub mod Socket
pub mod Sorting
pub mod Benchmark
pub mod FailoverBench
pub mod CommandLine
pub mod Tests
