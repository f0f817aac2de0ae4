-- ===== src/Tests/Transport.antt =====
-- The loops over the calls of the operating system, the reactor and the client, at concrete inputs.
use distributed_kv_store.Prelude.{
  take, not, ◌||◌, ℕ, ◌+◌, ◌≤◌, ◌≡◌, ◌≢◌, refl, Bool, true, false, List, [], ◌∷◌, ◌++◌, Option,
  none, some, arith, Bytes, codes, length, eq_bytes, find?, ==_iff, min,
}
use distributed_kv_store.Protocol.Messages.{Request, Response, ResponseType, complete, get, set}
use distributed_kv_store.Protocol.Text.{is_valid_key, all_above_space, to_string}
use distributed_kv_store.Protocol.Encode.{encode_request, encode_command, encode_value_response}
use distributed_kv_store.Protocol.RequestParser.{try_parse_request, max_command_line_len}
use distributed_kv_store.Protocol.RequestLoop.Termination.{unterminated}
use distributed_kv_store.Protocol.RequestLoop.Stream.{AllSendable, encode_all, join}
use distributed_kv_store.KvStore.{init}
use distributed_kv_store.HashRing.{HashRing, returned}
use distributed_kv_store.Router.Reply.{encode_response, encode_kind, read_into}
use distributed_kv_store.Router.Routing.{Network}
use distributed_kv_store.Router.Client.{Router, make_router, handle_client}
use distributed_kv_store.Router.Client.Session.{answer_each, handle_client_stream}
use distributed_kv_store.Transport.{
  WriteResult, wrote, would_block, interrupted, finished, write_all, send_request, answered, blank,
}
use distributed_kv_store.Transport.Delivery.{bytes_written, Delivered, write_all-Delivered}
use distributed_kv_store.Transport.Exchange.{arriving, send_request-answered}
use distributed_kv_store.Server.Connection.{
  WorkerReactor, received, service_client, fresh_parser, find_parser,
}
use distributed_kv_store.Server.Connection.Table.{one_if, count, count_keys}
use distributed_kv_store.Server.Connection.Lifetime.{Consistent}
use distributed_kv_store.Server.Connection.Ending.{EndsIf, all_set}
use distributed_kv_store.Socket.{OptionCalls}
use distributed_kv_store.Server.Pass.{turn}
use distributed_kv_store.Server.Pass.Invariance.{Ready, turn-Ready}
use distributed_kv_store.Server.Connection.Progress.{service_client_returns}
use distributed_kv_store.Client.{
  join_value, built, build_request, build_set, split_whitespace, split_from,
}
use distributed_kv_store.Client.Commands.{Spells, build_request-parses}
use distributed_kv_store.Workload.{make_generator, generate, generate-AllSendable}

abbrev few_results : List WriteResult
few_results = wrote 2 ∷ would_block ∷ interrupted ∷ wrote 9 ∷ []

write_all-Delivered_example :
    ((write_all few_results (codes "PONG\n")).0 ≡ take (bytes_written few_results) (codes "PONG\n"))
    × Delivered (codes "PONG\n") (write_all few_results (codes "PONG\n"))
    × (length (codes "PONG\n") ≤ bytes_written few_results
        → write_all few_results (codes "PONG\n") ≡ (codes "PONG\n", finished))
write_all-Delivered_example = write_all-Delivered few_results (codes "PONG\n")

abbrev get_k : Request
get_k = record { command = get; key = codes "k"; value = [] }

abbrev value_v : Response
value_v = record { kind = ResponseType.value; value = codes "v"; message = [] }

answer_in_chunks :
    join (codes "VAL" ∷ codes "UE 1\nv" ∷ codes "\n" ∷ []) ≡ encode_response value_v ++ []
unfolding encode_response encode_kind encode_value_response to_string
answer_in_chunks = refl

small_request : length (encode_request get_k) ≤ 9
unfolding encode_request encode_command
small_request = omega arith

send_request-answered_example :
    send_request
      (wrote 9 ∷ [])
      (arriving (codes "VAL" ∷ codes "UE 1\nv" ∷ codes "\n" ∷ []) (none ∷ []))
      get_k
    ≡ answered (read_into blank ResponseType.value value_v)
send_request-answered_example =
    send_request-answered value_v [] (omega arith) tt (wrote 9 ∷ [])
      (codes "VAL" ∷ codes "UE 1\nv" ∷ codes "\n" ∷ []) (none ∷ []) get_k
      (omega (arith, small_request)) answer_in_chunks

-- A reactor whose operating system keeps what was sent and what was closed.
abbrev deliver : ℕ → Bytes → List Bytes → List Bytes
deliver fd bytes sent = sent ++ bytes ∷ []

abbrev close : ℕ → List Bytes → List Bytes
close fd sent = sent

abbrev reactor : WorkerReactor deliver close
reactor = record {
  store = init;
  poll_fds = 3 ∷ 7 ∷ [];
  parsers = (7, fresh_parser) ∷ [];
  pending_clients = 8 ∷ [];
  world = [];
}

matched_fds : (fd : ℕ) → count fd reactor.poll_fds ≡ count_keys fd reactor.parsers + one_if 3 fd
unfolding count count_keys
matched_fds fd = omega arith

fds_once : (fd : ℕ) → count fd reactor.poll_fds + count fd reactor.pending_clients ≤ 1
unfolding count
fds_once fd = ground (arith, ==_iff 3 fd, ==_iff 7 fd, ==_iff 8 fd)

abbrev reactor-Consistent : Consistent deliver close 3 reactor
reactor-Consistent = record { matched = matched_fds; once = fds_once }

abbrev client : ℕ
client = 7

client_apart : client ≢ 3
client_apart h = omega (arith, h)

parser_7 : find_parser 7 reactor.parsers ≡ some fresh_parser
unfolding find_parser
parser_7 = refl

all_terminated : unterminated (codes "PING\n") ≤ max_command_line_len
unfolding unterminated find?
all_terminated = omega arith

service_client_returns_example :
    (r' : WorkerReactor deliver close) × (service_client deliver close 9 1 7
        (received (codes "PING\n") ∷ [])
        reactor
      ≡ returned r')
    × (r'.poll_fds ≡ 3 ∷ 7 ∷ [])
    × Consistent deliver close 3 r'
service_client_returns_example =
    service_client_returns deliver close 3 1 7 9 reactor reactor-Consistent refl client_apart
      fresh_parser (codes "PING\n") [] parser_7 (omega arith) (omega arith) all_terminated

-- A network on which no node can be reached.
abbrev dead : Network
dead = record { World = ℕ; connect = λ addr w. (false, w); exchange = λ n req w. (none, w) }

abbrev one_node : Router
one_node = make_router ((record { host = codes "a"; port = 1 }) ∷ []) 150 2

-- A client to which each response can be written.
abbrev deliver_to_client : Bytes → ℕ → Bool × ℕ
deliver_to_client bytes w = (true, w + 1)

valid_k : is_valid_key (codes "k") ≡ true
unfolding is_valid_key all_above_space
valid_k = refl

one_get : join (codes "GE" ∷ codes "T k\n" ∷ []) ≡ encode_all (get_k ∷ [])
unfolding encode_all encode_request encode_command
one_get = refl

handle_client_stream_example :
    handle_client dead one_node deliver_to_client 1000
      (arriving (codes "GE" ∷ codes "T k\n" ∷ []) (none ∷ []))
      []
      0
    ≡ answer_each dead one_node deliver_to_client 1000
        (get_k ∷ [])
        (record { alive = []; conns = []; world = 0 })
handle_client_stream_example =
    handle_client_stream dead one_node deliver_to_client 1000 (codes "GE" ∷ codes "T k\n" ∷ [])
      (get_k ∷ []) [] 0 (omega arith) (valid_k, tt) one_get

abbrev set_a_b : Request
set_a_b = record { command = set; key = codes "k"; value = codes "a b" }

built_set : build_request (split_whitespace (codes " set k  a b\t")) ≡ built set_a_b
unfolding build_request build_set join_value eq_bytes split_whitespace split_from
built_set = refl

build_request-parses_example :
    (try_parse_request (record { buffer = encode_request set_a_b ++ []; error_message = [] })
      ≡ (complete set_a_b, record { buffer = []; error_message = [] }))
    × Spells (split_whitespace (codes " set k  a b\t")) set_a_b
build_request-parses_example =
    build_request-parses (codes " set k  a b\t") set_a_b [] [] built_set (valid_k, omega arith)

-- A source of randomness that counts.
abbrev draw_key : ℕ → ℕ → ℕ × ℕ
draw_key limit rng = (min limit rng, rng + 1)

abbrev draw_get : ℕ → Bool × ℕ
draw_get rng = (false, rng + 1)

generate-AllSendable_example :
    AllSendable (generate draw_key draw_get 5 (make_generator draw_key draw_get 42 1000 8))
generate-AllSendable_example =
    generate-AllSendable draw_key draw_get 5 (make_generator draw_key draw_get 42 1000 8)
      (λ limit rng. omega arith) (omega arith) (omega arith)

-- Each key belongs to the node of its first byte.
abbrev first_byte : Bytes → Option Bytes
first_byte [] = some []
first_byte (c ∷ s) = some (c ∷ [])

has_owner : (k : Bytes) → first_byte k ≢ none
has_owner [] h = cc (h)
has_owner (c ∷ s) h = cc (h)

abbrev two_nodes : HashRing
two_nodes = record {
  virtual_nodes_per_node = 1;
  ring = (10, codes "a") ∷ (20, codes "b") ∷ [];
  nodes = codes "a" ∷ codes "b" ∷ [];
}

-- The whole turn, with every descriptor ready.
reactor-Ready :
    Ready deliver close 3 1000 (λ fd. true) (λ fd. received (codes "PING\n") ∷ []) reactor
reactor-Ready = record { valid = reactor-Consistent; first = refl }

-- Every option can be set.
abbrev options_work : ℕ → OptionCalls
options_work fd = record { get_flags = true; set_flags = true; set_no_delay = true }

turn-Ready_example :
    EndsIf
      (not true || all_set options_work reactor.pending_clients)
      (Ready deliver close 3 1000 (λ fd. true) (λ fd. received (codes "PING\n") ∷ []))
      (turn deliver close 1000
        (λ fd. true)
        (λ fd. received (codes "PING\n") ∷ [])
        options_work
        true
        reactor)
turn-Ready_example =
    turn-Ready deliver close 3 1000 (λ fd. true) (λ fd. received (codes "PING\n") ∷ []) options_work
      true reactor reactor-Ready
