-- ===== src/Tests/Router.antt =====
-- The router at concrete inputs, over nodes that answer while they are up.
use distributed_kv_store.Prelude.{
  ℕ, zero, suc, ◌<◌, ◌≡◌, ◌≢◌, refl, Bool, true, false, List, [], ◌∷◌, ◌++◌, Option, none, some,
  inl, inr, arith, Bytes, codes, eq_bytes, eq_bytes_refl, Bool-cases, if◌then◌else◌,
}
use distributed_kv_store.Protocol.Messages.{Request, Response, ResponseType, complete, get}
use distributed_kv_store.Protocol.Text.{is_valid_key, all_above_space, to_string, strip_trailing_cr}
use distributed_kv_store.Protocol.ResponseParser.{try_parse_response}
use distributed_kv_store.KvStore.Refinement.{Dictionary}
use distributed_kv_store.Server.Requests.{answer_to}
use distributed_kv_store.Hash.{fnv1a_hash}
use distributed_kv_store.HashRing.{HashRing, contains, vnode_position, returned, threw}
use distributed_kv_store.HashRing.Distinct.{Distinct}
use distributed_kv_store.HashRing.Collect.{owns}
use distributed_kv_store.Router.Reply.{
  encode_response, read_into, try_parse_response-encode_response,
}
use distributed_kv_store.Router.FailureDetector.{NodeAddress, is_alive, id, mark, mark_down}
use distributed_kv_store.Router.Routing.{
  Network, Routing, read_from, write_from, try_node, next_write, next_read, backend_connection,
  find_address, drop_conn, route_read, route_write,
}
use distributed_kv_store.Router.Failover.{AllDown, read_from_exhausted}
use distributed_kv_store.Router.Replication.{Nodes}
use distributed_kv_store.Router.ReadAfterWrite.{ReadsBack, set_request, get_request}
use distributed_kv_store.Router.Client.{make_router}
use distributed_kv_store.Router.Client.Construction.{
  Constructible, make_router-ReadsBack, make_router_throws,
}
use distributed_kv_store.Router.History.{Act, requested, reported, act_all, AllRight}
use distributed_kv_store.Router.History.Responses.{act_all-AllRight}

record World : Type 0 where
  held : Bytes → Dictionary
  up : Bytes → Bool

-- A node that is up answers and keeps what the request leaves.
abbrev exchange : Bytes → Request → World → Option Response × World
exchange n req w =
    if w.up n
    then (
      some (answer_to req.command req (w.held n)).0,
      record w {
        held = λ m. if eq_bytes n m then (answer_to req.command req (w.held n)).1 else w.held m;
      },
    )
    else (none, w)

abbrev net : Network
net = record { World = World; connect = λ addr w. (true, w); exchange = exchange }

answered :
    (n : Bytes) (req : Request) (w : World) (resp : Response)
    → (exchange n req w).0 ≡ some resp
    → (resp ≡ (answer_to req.command req (w.held n)).0)
      × ((exchange n req w).1.held n ≡ (answer_to req.command req (w.held n)).1)
answered n req w resp h = elim (Bool-cases (w.up n)) [
  | inr down ↦ let h' = rw down at h in cc h'
  | inl there ↦ let h' = rw there at h in rw (there, eq_bytes_refl n) (cc h', refl)
]

kept :
    (n m : Bytes) (req : Request) (w : World)
    → eq_bytes n m ≡ false
    → (exchange n req w).1.held m ≡ w.held m
kept n m req w ne = elim (Bool-cases (w.up n)) [
  | inr down ↦ rw down refl
  | inl there ↦ rw (there, ne) refl
]

abbrev nodes : Nodes net
nodes = record {
  view = λ w. w.held;
  connect_view = λ addr w m. refl;
  exchange_view = λ n req w resp ok h. answered n req w resp h;
  exchange_other = kept;
}

abbrev addresses : List NodeAddress
addresses = (record { host = codes "a"; port = 1 }) ∷ (record { host = codes "b"; port = 2 }) ∷ []

abbrev ring : HashRing
ring = record {
  virtual_nodes_per_node = 1;
  ring = (10, codes "a:1") ∷ (20, codes "b:2") ∷ [];
  nodes = codes "a:1" ∷ codes "b:2" ∷ [];
}

apart : Distinct ring.nodes
unfolding contains eq_bytes
apart = (refl, (refl, tt))

one_of_two : (id : Bytes) → contains ring.nodes id ≡ true → owns ring.ring id ≡ true
unfolding contains owns
one_of_two id h = h

valid_k : is_valid_key (codes "k") ≡ true
unfolding is_valid_key all_above_space
valid_k = refl

-- Both nodes are taken to be up, but only the second answers.
abbrev half_up : Routing net addresses
half_up = record {
  alive = (codes "a:1", true) ∷ (codes "b:2", true) ∷ [];
  conns = [];
  world = record { held = λ n key. none; up = λ n. eq_bytes n (codes "b:2") };
}

abbrev all_stopped : Routing net addresses
all_stopped = record half_up { world = record { held = λ n key. none; up = λ n. false } }

abbrev listed : List Bytes
listed = codes "a:1" ∷ codes "b:2" ∷ []

no_answer_read : (read_from net addresses listed (get_request (codes "k")) all_stopped).0 ≡ none
unfolding read_from next_read try_node backend_connection contains mark_down mark is_alive eq_bytes
    find_address id to_string answer_to drop_conn
no_answer_read = refl

no_answer_write :
    (write_from net addresses listed (set_request (codes "k") (codes "v")) none all_stopped).0
    ≡ none
unfolding write_from next_write try_node backend_connection contains mark_down mark is_alive
    eq_bytes find_address id to_string answer_to drop_conn
no_answer_write = refl

read_from_exhausted_example :
    AllDown net addresses
      (get_request (codes "k"))
      listed
      (read_from net addresses listed (get_request (codes "k")) all_stopped).1.alive
read_from_exhausted_example =
    read_from_exhausted net addresses (get_request (codes "k")) listed all_stopped no_answer_read

second_listed : contains listed (codes "b:2") ≡ true
unfolding contains eq_bytes
second_listed = refl

-- The second node answers and is alive after the write.
second_alive :
    is_alive
      (write_from net addresses listed (set_request (codes "k") (codes "v")) none half_up).1.alive
      (codes "b:2")
    ≡ true
unfolding write_from next_write try_node backend_connection contains mark_down mark is_alive
    eq_bytes find_address id to_string answer_to drop_conn
second_alive = refl

abbrev missing : Response
missing = record { kind = ResponseType.not_found; value = []; message = [] }

read_missing : (read_from net addresses listed (get_request (codes "k")) half_up).0 ≡ some missing
unfolding read_from next_read try_node backend_connection contains mark_down mark is_alive eq_bytes
    find_address id to_string answer_to drop_conn
read_missing = refl

nothing_held : (answer_to get (get_request (codes "k")) (λ key. none)).0 ≡ missing
unfolding answer_to
nothing_held = refl

abbrev failure : Response
failure = record { kind = ResponseType.error; value = []; message = codes "no" }

one_line : strip_trailing_cr (codes "no") ≡ codes "no"
unfolding strip_trailing_cr
one_line = refl

try_parse_response-encode_response_example :
    try_parse_response
      (record { buffer = encode_response failure ++ codes "OK"; error_message = [] })
      missing
    ≡ (
      complete (read_into missing ResponseType.error failure),
      record { buffer = codes "OK"; error_message = [] },
    )
try_parse_response-encode_response_example =
    try_parse_response-encode_response failure missing (codes "OK") [] (omega arith, one_line)

first_positions : vnode_position (codes "b:2") 0 ≢ vnode_position (codes "a:1") 0
unfolding vnode_position fnv1a_hash to_string
first_positions = λ h. omega (arith, h)

-- A virtual node for each of the two nodes.
addresses-Constructible : Constructible addresses 1
unfolding contains eq_bytes id to_string
addresses-Constructible = record {
  some_nodes = λ h. cc h;
  distinct = apart;
  some_vnodes = omega arith;
  keeps_first = (((λ i h. positions i h), tt), (tt, tt));
}
  where
    positions : (i : ℕ) → i < 1 → vnode_position (codes "b:2") i ≢ vnode_position (codes "a:1") 0
    positions zero h = first_positions
    positions (suc i) h = absurd (omega arith)

make_router-ReadsBack_example :
    ReadsBack net addresses nodes 5
      (make_router addresses 1 2).ring
      (make_router addresses 1 2).replication_factor
      (codes "k")
      (codes "v")
      half_up
make_router-ReadsBack_example =
    make_router-ReadsBack net addresses nodes 1 2 5 (codes "k") (codes "v") half_up
      addresses-Constructible (omega arith) valid_k (omega arith)

make_router_throws_example :
    (route_read net addresses 5
        (make_router addresses 0 2).ring
        (make_router addresses 0 2).replication_factor
        (get_request (codes "k"))
        half_up
      ≡ threw)
    × (route_write net addresses 5
          (make_router addresses 0 2).ring
          (make_router addresses 0 2).replication_factor
          (get_request (codes "k"))
          half_up
        ≡ threw)
make_router_throws_example = make_router_throws net addresses 2 5 (get_request (codes "k")) half_up

-- A SET, of which the first node does not answer, the report of another thread, and two GETs.
abbrev acts : List Act
acts =
    requested (set_request (codes "k") (codes "v"))
    ∷ reported (codes "a:1")
    ∷ requested (get_request (codes "k"))
    ∷ requested (get_request (codes "k"))
    ∷ []

act_all-AllRight_example :
    (resps : List Response) × (r' : Routing net addresses) × (act_all net addresses 5 ring 2 acts
        half_up
      ≡ returned (resps, r'))
    × AllRight acts (λ key. none) resps
act_all-AllRight_example =
    act_all-AllRight net addresses 5 ring 2 nodes acts (λ key. none) half_up
      (record { distinct = apart; placed = one_of_two }) (λ e. cc (e)) (omega arith)
      ((valid_k, omega arith), (valid_k, (valid_k, tt))) (λ key j up. refl)
