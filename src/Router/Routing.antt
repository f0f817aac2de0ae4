-- ===== src/Router/Routing.antt =====
-- `route_read` and `route_write` of router/router.cpp. The network and the nodes are a parameter: a
-- state, and what a connection attempt and an exchange on an open connection do to it; `none` and
-- `false` stand for an exception. A cached connection is the id of its node.
use distributed_kv_store.Prelude.{
  ℕ, Bool, true, false, List, [], ◌∷◌, ◌++◌, Option, none, some, Bytes, codes, eq_bytes, length,
  if◌then◌else◌,
}
use distributed_kv_store.Protocol.Messages.{Request, Response, ResponseType}
use distributed_kv_store.Protocol.Text.{to_string}
use distributed_kv_store.HashRing.{HashRing, Outcome, returned, threw, running, contains, get_nodes}
use distributed_kv_store.Router.FailureDetector.{NodeAddress, id, Alive, is_alive, mark_down}

pub record Network : Type 1 where
  pub World : Type 0
  pub connect : NodeAddress → World → Bool × World
  pub exchange : Bytes → Request → World → Option Response × World

unfoldable pub no_live_replica_error : ℕ → Response
no_live_replica_error tried = record {
  kind = ResponseType.error;
  value = [];
  message = (codes "no live replica for key (tried " ++ to_string tried) ++ codes ")";
}

unfoldable pub find_address : List NodeAddress → Bytes → Option NodeAddress
find_address [] node = none
find_address (n ∷ ns) node = if eq_bytes (id n) node then some n else find_address ns node

-- conns.erase(node_id)
unfoldable pub drop_conn : Bytes → List Bytes → List Bytes
drop_conn node [] = []
drop_conn node (n ∷ ns) = let rest = drop_conn node ns in if eq_bytes n node then rest else n ∷ rest

-- `if (!any_success) first_success = resp;`
abbrev pub first_of_two : Option Response → Option Response → Option Response
first_of_two none resp = resp
first_of_two (some first) resp = some first

module _ (net : Network) (addresses : List NodeAddress) where
  open net use {World, connect, exchange}

  -- The state of one client's thread: the detector's map, its connections, and the world.
  pub record Routing : Type 0 where
    pub alive : Alive
    pub conns : List Bytes
    pub world : World

  connected : Bytes → Routing → Bool × World → Bool × Routing
  connected node r (true, w) = (true, record r { conns = node ∷ r.conns; world = w })
  connected node r (false, w) = (false, record r { world = w })

  connect_address : Bytes → Routing → Option NodeAddress → Bool × Routing
  unfolding connected
  connect_address node r none = (false, r)
  connect_address node r (some addr) = connected node r (connect addr r.world)

  -- Whether there is a connection to the node now; `false` is an exception.
  unfoldable pub backend_connection : Bytes → Routing → Bool × Routing
  unfolding connect_address
  backend_connection node r =
      if contains r.conns node
      then (true, r)
      else connect_address node r (find_address addresses node)

  -- The handler of the exceptions: the node is marked down and its connection dropped.
  abbrev pub fail : Bytes → Routing → Routing
  fail node r = record r { alive = mark_down node r.alive; conns = drop_conn node r.conns }

  exchanged : Bytes → Routing → Option Response × World → Option Response × Routing
  exchanged node r (some resp, w) = (some resp, record r { world = w })
  exchanged node r (none, w) = (none, fail node (record r { world = w }))

  send_if : Bytes → Request → Bool × Routing → Option Response × Routing
  unfolding exchanged
  send_if node req (false, r) = (none, fail node r)
  send_if node req (true, r) = exchanged node r (exchange node req r.world)

  -- The `try` block of both loops with its handler; `none` where the handler ran.
  unfoldable pub try_node : Bytes → Request → Routing → Option Response × Routing
  unfolding send_if
  try_node node req r = send_if node req (backend_connection node r)

  -- A round of the loop of `route_read` after the node was tried; `rest` is the loop.
  unfoldable pub next_read :
      (Routing → Option Response × Routing) → Option Response × Routing → Option Response × Routing
  next_read rest (some resp, r) = (some resp, r)
  next_read rest (none, r) = rest r

  -- The loop of `route_read`: `none` if it ends without an answer.
  unfoldable pub read_from : List Bytes → Request → Routing → Option Response × Routing
  read_from [] req r = (none, r)
  read_from (node ∷ nodes) req r =
      if is_alive r.alive node
      then next_read (read_from nodes req) (try_node node req r)
      else read_from nodes req r

  unfoldable pub next_write :
      (Option Response → Routing → Option Response × Routing)
      → Option Response
      → Option Response × Routing
      → Option Response × Routing
  next_write rest first (resp, r) = rest (first_of_two first resp) r

  -- The loop of `route_write`, with the first success so far.
  unfoldable pub write_from :
      List Bytes → Request → Option Response → Routing → Option Response × Routing
  write_from [] req first r = (first, r)
  write_from (node ∷ nodes) req first r =
      if is_alive r.alive node
      then next_write (write_from nodes req) first (try_node node req r)
      else write_from nodes req first r

  abbrev pub or_error : ℕ → Option Response × Routing → Response × Routing
  or_error tried (none, r) = (no_live_replica_error tried, r)
  or_error tried (some resp, r) = (resp, r)

  abbrev pub with_nodes :
      Outcome (List Bytes) → (List Bytes → Response × Routing) → Outcome (Response × Routing)
  with_nodes (returned nodes) f = returned (f nodes)
  with_nodes threw f = threw
  with_nodes running f = running

  -- The fuel is that of `get_nodes`, whose exception no caller in the router handles.
  unfoldable pub route_read : ℕ → HashRing → ℕ → Request → Routing → Outcome (Response × Routing)
  route_read fuel ring replication_factor req r =
      with_nodes (get_nodes fuel ring req.key replication_factor)
        λ nodes. or_error (length nodes) (read_from nodes req r)

  unfoldable pub route_write : ℕ → HashRing → ℕ → Request → Routing → Outcome (Response × Routing)
  route_write fuel ring replication_factor req r =
      with_nodes (get_nodes fuel ring req.key replication_factor)
        λ nodes. or_error (length nodes) (write_from nodes req none r)
