-- ===== src/Tests/Session.antt =====
-- A session with a reactor, the failure detector, the console and the sockets, at concrete inputs.
use distributed_kv_store.Prelude.{
  ℕ, ◌+◌, ◌<◌, ◌≡◌, ◌↔◌, refl, true, false, List, [], ◌∷◌, ◌++◌, none, some, arith, Bytes, codes,
  All, map, ◌⊎◌, eq_bytes, ◌==◌, if◌then◌else◌,
}
use distributed_kv_store.Protocol.Messages.{Parser, Request, Response, ResponseType, get, set}
use distributed_kv_store.Protocol.Text.{is_valid_key, all_above_space, to_string}
use distributed_kv_store.Protocol.Encode.{encode_request, encode_command}
use distributed_kv_store.Protocol.RequestParser.{try_parse_request}
use distributed_kv_store.Protocol.RequestParser.Sound.{WellFormed, try_parse_request-WellFormed}
use distributed_kv_store.Protocol.RequestLoop.Stream.{encode_all, join}
use distributed_kv_store.KvStore.{init}
use distributed_kv_store.KvStore.Invariant.{IsValid-init}
use distributed_kv_store.HashRing.{contains}
use distributed_kv_store.HashRing.Distinct.{Distinct}
use distributed_kv_store.Server.Connection.{WorkerReactor, find_parser}
use distributed_kv_store.Server.Interleaving.{
  Arrival, Simulates, serve_arrivals, serve_from, promise_of,
}
use distributed_kv_store.Server.Interleaving.Simulation.{serve_arrivals-Simulates}
use distributed_kv_store.Server.Wakeup.{
  Queue, polling, no_clients, push, wake, pushed, woken, pipe_full, Reach, here, next,
}
use distributed_kv_store.Server.Wakeup.Interleavings.{Reach-awake, Reach-taken}
use distributed_kv_store.Server.Session.{Serves, serve_chunks, serve_chunks-Serves}
use distributed_kv_store.Router.FailureDetector.{NodeAddress, id, is_alive, all_up}
use distributed_kv_store.Router.FailureDetector.Heartbeat.{
  Event, heartbeat, failed_request, happen_all, last_word, is_alive-last_word, Probe, full_round,
  probed_ids, AnsweredPong, heartbeat_round-ping_once,
}
use distributed_kv_store.Client.Console.{
  Exchanged, answered, failed, Connection, connected, Console, repl, requests_of, send_each,
  repl-send_each,
}
use distributed_kv_store.Socket.{no_sockets, construct, move_construct, move_assign, close_if_valid}
use distributed_kv_store.Socket.Ownership.{
  Operation, construct_from, destroy_at, move_from, assign_at, perform, perform_all, handed_out,
  owners, AllInRange, perform_all-owned_once,
}
use distributed_kv_store.Server.Connection.Table.{count}

-- The descriptors, with what was sent to them.
abbrev Sent : Type 0
Sent = List (ℕ × Bytes)

abbrev deliver : ℕ → Bytes → Sent → Sent
deliver fd bytes w = w ++ (fd, bytes) ∷ []

abbrev close : ℕ → Sent → Sent
close fd w = w

abbrev silent : Parser
silent = record { buffer = []; error_message = [] }

abbrev reactor : WorkerReactor deliver close
reactor = record {
  store = init;
  poll_fds = 3 ∷ 7 ∷ [];
  parsers = (7, silent) ∷ [];
  pending_clients = [];
  world = [];
}

abbrev set_k : Request
set_k = record { command = set; key = codes "k"; value = codes "a\nb" }

abbrev get_k : Request
get_k = record { command = get; key = codes "k"; value = [] }

parser_7 : find_parser 7 reactor.parsers ≡ some silent
unfolding find_parser
parser_7 = refl

valid_k : is_valid_key (codes "k") ≡ true
unfolding is_valid_key all_above_space
valid_k = refl

abbrev cut : List Bytes
cut = codes "SET k 3\na" ∷ codes "\nb\nGET " ∷ codes "k\n" ∷ []

cut_stream : join cut ≡ encode_all (set_k ∷ get_k ∷ [])
unfolding encode_all encode_request encode_command to_string
cut_stream = refl

serve_chunks-Serves_example :
    Serves deliver close 3 1 7
      (set_k ∷ get_k ∷ [])
      reactor
      (serve_chunks deliver close 3 1 7 cut reactor)
serve_chunks-Serves_example =
    serve_chunks-Serves deliver close 3 1 7 cut (set_k ∷ get_k ∷ []) [] reactor IsValid-init
      parser_7 (omega arith) ((valid_k, omega arith), (valid_k, tt)) cut_stream

-- Two clients, one of which sends a line that is no command between the halves of the other's SET.
abbrev crowd : WorkerReactor deliver close
crowd = record reactor { poll_fds = 3 ∷ 7 ∷ 8 ∷ []; parsers = (7, silent) ∷ (8, silent) ∷ [] }

abbrev arrivals : List Arrival
arrivals =
    record { index = 1; fd = 7; bytes = codes "SET k 1\n" }
    ∷ record { index = 2; fd = 8; bytes = codes "BAD\nGET k\n" }
    ∷ record { index = 1; fd = 7; bytes = codes "v\nGET k\n" }
    ∷ []

serve_arrivals-Simulates_example :
    Simulates deliver close
      (serve_arrivals deliver close 9 arrivals crowd)
      (serve_from deliver close 9 arrivals (promise_of deliver close crowd))
serve_arrivals-Simulates_example =
    serve_arrivals-Simulates deliver close 9 arrivals crowd IsValid-init

abbrev padded : Parser
padded = record { buffer = codes "GET  k\r\nPI"; error_message = [] }

try_parse_request-WellFormed_example : WellFormed (try_parse_request padded).0
try_parse_request-WellFormed_example = try_parse_request-WellFormed padded

abbrev node_a : NodeAddress
node_a = record { host = codes "a"; port = 1 }

abbrev node_b : NodeAddress
node_b = record { host = codes "b"; port = 2 }

abbrev pong : Response
pong = record { kind = ResponseType.pong; value = []; message = [] }

abbrev events : List Event
events = failed_request (id node_a) ∷ heartbeat node_b none ∷ heartbeat node_a (some pong) ∷ []

is_alive-last_word_example :
    is_alive (happen_all events (all_up (node_a ∷ node_b ∷ []) [])) (id node_a)
    ≡ last_word (id node_a) events (contains (map id (node_a ∷ node_b ∷ [])) (id node_a))
is_alive-last_word_example = is_alive-last_word (node_a ∷ node_b ∷ []) events (id node_a)

abbrev probes : List Probe
probes = (node_a, none) ∷ (node_b, some pong) ∷ []

probes-Distinct : Distinct (probed_ids probes)
unfolding contains id to_string eq_bytes
probes-Distinct = (refl, (refl, tt))

heartbeat_round-ping_once_example :
    All (λ (p : Probe). (is_alive (full_round probes []) (id p.0) ≡ true) ↔ AnsweredPong p.1) probes
    × ((node : Bytes)
        → contains (probed_ids probes) node ≡ false
        → is_alive (full_round probes []) node ≡ is_alive [] node)
heartbeat_round-ping_once_example = heartbeat_round-ping_once probes [] probes-Distinct

-- The world counts the requests; the third one fails.
abbrev connect : Bytes → ℕ → ℕ → Connection × ℕ
connect host port w = (connected, w)

abbrev exchange : Request → ℕ → Exchanged × ℕ
exchange req w = (if w == 2 then failed (codes "gone") else answered pong, w + 1)

abbrev console : Console connect exchange
console = record { out = []; err = []; world = 0 }

abbrev lines : List Bytes
lines = codes "PING" ∷ [] ∷ codes "SET k" ∷ codes "GET k" ∷ codes "PING" ∷ codes "PING" ∷ []

repl-send_each_example :
    ((repl connect exchange lines console).0
      ≡ (send_each connect exchange (requests_of connect exchange lines) 0).0)
    × ((repl connect exchange lines console).1.world
        ≡ (send_each connect exchange (requests_of connect exchange lines) 0).1)
repl-send_each_example = repl-send_each connect exchange lines console

abbrev operations : List Operation
operations = construct_from 5 ∷ construct_from 6 ∷ move_from 0 ∷ assign_at 1 2 ∷ destroy_at 1 ∷ []

operations-in_range : AllInRange no_sockets operations
unfolding perform construct move_construct move_assign close_if_valid
operations-in_range = (tt, (tt, (omega arith, ((omega arith, omega arith), (omega arith, tt)))))

perform_all-owned_once_example :
    owners 6 (perform_all operations no_sockets).objects
      + count 6 (perform_all operations no_sockets).closed
      + count 6 (perform_all operations no_sockets).released
    ≡ count 6 (handed_out operations)
perform_all-owned_once_example = perform_all-owned_once operations 6 operations-in_range

-- Two clients are enqueued, and the byte of the second is not written, since the pipe is full.
abbrev queue : Queue
queue = wake 0 (wake 1 (push 8 (push 7 no_clients)))

queue-Reach : Reach no_clients queue
unfolding wake push
queue-Reach =
    next
      (next (next (next here (pushed 7 no_clients)) (pushed 8 (push 7 no_clients)))
        (woken (push 8 (push 7 no_clients)) (omega arith)))
      (pipe_full (wake 1 (push 8 (push 7 no_clients))) (omega arith) (omega arith))

queue_polls : queue.phase ≡ polling
unfolding wake push
queue_polls = refl

queue_written : queue.waking ≡ 0
unfolding wake push
queue_written = refl

Reach-awake_example :
    (queue.taken ++ queue.pending_clients ≡ queue.enqueued)
    × ((queue.pending_clients ≡ []) ⊎ (0 < queue.pipe))
Reach-awake_example = Reach-awake queue queue-Reach queue_polls queue_written

Reach-taken_example :
    (t : Queue) × Reach queue t × (t.taken ≡ queue.enqueued) × (t.pending_clients ≡ [])
Reach-taken_example = Reach-taken queue queue-Reach
