-- ===== src/Router/Client.antt =====
-- `Router::handle_client` and the constructor of `Router` (router/router.cpp). `deliver` is a call
-- of `write_all` on the client's descriptor, where `false` is its exception. Nothing catches that
-- exception, nor one of `get_nodes`: `threw` ends the process.
pub mod Session
pub mod Construction
use distributed_kv_store.Prelude.{
  ℕ, suc, ◌*◌, Bool, true, false, List, [], ◌∷◌, Option, none, some, Bytes, ltb, if◌then◌else◌,
}
use distributed_kv_store.Protocol.Messages.{
  Command, Request, Response, Parser, get, set, delete, ping,
}
use distributed_kv_store.Protocol.Encode.{encode_error_response, encode_pong_response}
use distributed_kv_store.Protocol.RequestParser.{feed}
use distributed_kv_store.Protocol.RequestLoop.{Event, request, failure, answer_requests}
use distributed_kv_store.HashRing.{HashRing, Outcome, returned, threw, running, empty, add_node}
use distributed_kv_store.Router.Reply.{encode_response}
use distributed_kv_store.Router.FailureDetector.{NodeAddress, id, Alive, all_up}
use distributed_kv_store.Router.Routing.{Network, Routing, route_read, route_write}

-- The members that the constructor fills and that no request changes, and the detector's first map.
pub record Router : Type 0 where
  pub nodes : List NodeAddress
  pub ring : HashRing
  pub replication_factor : ℕ
  pub alive : Alive

unfoldable pub add_nodes : List NodeAddress → HashRing → HashRing
add_nodes [] ring = ring
add_nodes (n ∷ ns) ring = add_nodes ns (add_node ring (id n))

unfoldable pub make_router : List NodeAddress → ℕ → ℕ → Router
make_router nodes virtual_nodes_per_node replication_factor = record {
  nodes = nodes;
  ring = add_nodes nodes (empty virtual_nodes_per_node);
  replication_factor = if ltb 1 replication_factor then replication_factor else 1;
  alive = all_up nodes [];
}

module _ (net : Network) (router : Router) (deliver : Bytes → net.World → Bool × net.World)
    (fuel : ℕ) where
  abbrev pub State : Type 0
  State = Routing net router.nodes

  abbrev pub encoded : Outcome (Response × State) → Outcome (Bytes × State)
  encoded (returned (resp, r)) = returned (encode_response resp, r)
  encoded threw = threw
  encoded running = running

  -- The bytes of the response to a request.
  unfoldable pub route : Command → Request → State → Outcome (Bytes × State)
  route ping req r = returned (encode_pong_response, r)
  route get req r =
      encoded (route_read net router.nodes fuel router.ring router.replication_factor req r)
  route set req r =
      encoded (route_write net router.nodes fuel router.ring router.replication_factor req r)
  route delete req r =
      encoded (route_write net router.nodes fuel router.ring router.replication_factor req r)

  unfoldable pub respond_to : Event → State → Outcome (Bytes × State)
  unfolding route
  respond_to (request req) r = route req.command req r
  respond_to (failure message) r = returned (encode_error_response message, r)

  abbrev pub written : State → Bool × net.World → Outcome State
  written r (true, w) = returned (record r { world = w })
  written r (false, w) = threw

  abbrev pub delivered : Outcome (Bytes × State) → Outcome State
  delivered (returned (bytes, r)) = written r (deliver bytes r.world)
  delivered threw = threw
  delivered running = running

  -- The body of the inner loop; after an exception nothing more happens.
  unfoldable pub react : Event → Outcome State → Outcome State
  unfolding respond_to
  react event (returned r) = delivered (respond_to event r)
  react event threw = threw
  react event running = running

  -- What follows a chunk; `rest` is the loop on what was left.
  unfoldable pub after_chunk :
      (Parser → State → Outcome State) → Option (Parser × Outcome State) → Outcome State
  after_chunk rest none = running
  after_chunk rest (some (p, returned r)) = rest p r
  after_chunk rest (some (p, threw)) = threw
  after_chunk rest (some (p, running)) = running

  -- The loop over `::read`; `none` is a result that is not positive. Where the list ends, it waits.
  unfoldable pub serve : List (Option Bytes) → Parser → State → Outcome State
  serve [] p r = running
  serve (none ∷ reads) p r = returned r
  serve (some chunk ∷ reads) p r =
      after_chunk (serve reads) (answer_requests react fuel (feed p chunk) (returned r))

  -- The connections are the thread's own, and none at first.
  unfoldable pub handle_client : List (Option Bytes) → Alive → net.World → Outcome State
  unfolding serve
  handle_client reads alive w =
      serve reads (record { buffer = []; error_message = [] })
        (record { alive = alive; conns = []; world = w })
