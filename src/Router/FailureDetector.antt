-- ===== src/Router/FailureDetector.antt =====
-- router/node_address.hpp, and the liveness map of `FailureDetector` (router/failure_detector.cpp).
-- Each method holds the lock for all that it does; connecting and pinging are outcomes from outside.
pub mod Heartbeat
use distributed_kv_store.Prelude.{
  ℕ, ◌≡◌, refl, Bool, true, false, List, [], ◌∷◌, ◌++◌, Option, none, some, arith, Bytes, codes,
  eq_bytes, eq_bytes_iff, if◌then◌else◌,
}
use distributed_kv_store.Protocol.Messages.{Response, ResponseType}
use distributed_kv_store.Protocol.Text.{to_string}

pub record NodeAddress : Type 0 where
  pub host : Bytes
  pub port : ℕ

unfoldable pub id : NodeAddress → Bytes
unfolding to_string
id addr = (addr.host ++ codes ":") ++ to_string addr.port

-- `alive_`
abbrev pub Alive : Type 0
Alive = List (Bytes × Bool)

-- A node that the map does not know is not alive.
unfoldable pub is_alive : Alive → Bytes → Bool
is_alive [] node = false
is_alive ((n, up) ∷ alive) node = if eq_bytes n node then up else is_alive alive node

-- alive_[node] = up
unfoldable pub mark : Bool → Bytes → Alive → Alive
mark up node [] = (node, up) ∷ []
mark up node ((n, old) ∷ alive) =
    if eq_bytes n node then (n, up) ∷ alive else (n, old) ∷ mark up node alive

unfoldable pub mark_down : Bytes → Alive → Alive
unfolding mark
mark_down = mark false

unfoldable pub mark_up : Bytes → Alive → Alive
unfolding mark
mark_up = mark true

-- The constructor: every node is taken to be up.
unfoldable pub all_up : List NodeAddress → Alive → Alive
all_up [] alive = alive
all_up (n ∷ ns) alive = all_up ns (mark_up (id n) alive)

abbrev pub is_pong : ResponseType → Bool
is_pong ResponseType.pong = true
is_pong _ = false

-- `none` stands for an exception while connecting, setting the timeout, sending or receiving.
unfoldable pub ping_once : Option Response → Bool
ping_once none = false
ping_once (some resp) = is_pong resp.kind

-- What a node's turn in the loop meets: `running_` is false, or the outcome of the ping.
pub data Turn : Type 0 where
  stopped : Turn
  pinged : Option Response → Turn

-- One round of `heartbeat_loop` over the nodes.
unfoldable pub heartbeat_round : List NodeAddress → List Turn → Alive → Alive
heartbeat_round [] turns alive = alive
heartbeat_round (n ∷ ns) [] alive = alive
heartbeat_round (n ∷ ns) (stopped ∷ turns) alive = alive
heartbeat_round (n ∷ ns) (pinged reply ∷ turns) alive =
    heartbeat_round ns turns
      (if ping_once reply then mark_up (id n) alive else mark_down (id n) alive)

pub is_alive-mark :
    (up : Bool) (node j : Bytes) (alive : Alive)
    → is_alive (mark up node alive) j ≡ (if eq_bytes node j then up else is_alive alive j)
unfolding is_alive mark
is_alive-mark up node j [] = refl
is_alive-mark up node j ((n, old) ∷ alive) = ground (
  arith,
  is_alive-mark up node j alive,
  eq_bytes_iff n node,
  eq_bytes_iff n j,
  eq_bytes_iff node j,
)
