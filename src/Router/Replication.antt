-- ===== src/Router/Replication.antt =====
-- The replication promise of router/router.hpp, for nodes that answer requests as `kvserver` does
-- and may stop answering at any time: what a write leaves on the replicas, and what a read returns
-- after it.
use distributed_kv_store.Prelude.{
  ◌≡◌, refl, ap, ◌∙◌, Bool, true, false, List, [], ◌∷◌, Option, none, some, inl, inr, arith, Bytes,
  eq_bytes, Bool-cases, if◌then◌else◌,
}
use distributed_kv_store.Protocol.Messages.{Request, Response}
use distributed_kv_store.Protocol.RequestParser.RoundTrip.{Sendable}
use distributed_kv_store.KvStore.Refinement.{Dictionary}
use distributed_kv_store.Server.Requests.{answer_to}
use distributed_kv_store.HashRing.{contains}
use distributed_kv_store.Router.FailureDetector.{NodeAddress, is_alive}
use distributed_kv_store.Router.Routing.{Network, Routing, backend_connection, try_node, write_from}
use distributed_kv_store.Router.Failover.{tried, write_from_skip, write_from_try}

-- The nodes behind a network: what each holds, and how an exchange with one changes it. A failed
-- exchange may or may not have reached its node.
pub record Nodes (net : Network) : Type 0 where
  pub view : net.World → Bytes → Dictionary
  pub connect_view :
      (addr : NodeAddress) (w : net.World) (m : Bytes) → view (net.connect addr w).1 m ≡ view w m
  pub exchange_view :
      (n : Bytes) (req : Request) (w : net.World) (resp : Response)
      → Sendable req.command req
      → (net.exchange n req w).0 ≡ some resp
      → (resp ≡ (answer_to req.command req (view w n)).0)
        × (view (net.exchange n req w).1 n ≡ (answer_to req.command req (view w n)).1)
  pub exchange_other :
      (n m : Bytes) (req : Request) (w : net.World)
      → eq_bytes n m ≡ false
      → view (net.exchange n req w).1 m ≡ view w m

split_contains :
    (n : Bytes) (ns : List Bytes) (m : Bytes)
    → contains (n ∷ ns) m ≡ false
    → (eq_bytes n m ≡ false) × (contains ns m ≡ false)
unfolding contains
split_contains n ns m h = ground arith

module _ (net : Network) (addresses : List NodeAddress) (nodes : Nodes net) (req : Request) where
  abbrev pub view_at : Routing net addresses → Bytes → Dictionary
  view_at r m = nodes.view r.world m

  backend_connection-view :
      (n m : Bytes) (r : Routing net addresses)
      → view_at (backend_connection net addresses n r).1 m ≡ view_at r m
  unfolding backend_connection
  backend_connection-view n m r = grind (arith, nodes.connect_view)

  -- The connection that a try uses, and what the try does to the world.
  abbrev opened : Bytes → Routing net addresses → Bool × Routing net addresses
  opened n r = backend_connection net addresses n r

  tried-world :
      (n : Bytes) (r : Routing net addresses)
      → ((tried net addresses req n r).1.world ≡ (
          if (opened n r).0
          then (net.exchange n req (opened n r).1.world).1
          else (opened n r).1.world))
        × ((tried net addresses req n r).0
            ≡ (if (opened n r).0 then (net.exchange n req (opened n r).1.world).0 else none))
  unfolding try_node
  tried-world n r = ground arith

  pub try_node-other :
      (n m : Bytes) (r : Routing net addresses)
      → eq_bytes n m ≡ false
      → view_at (tried net addresses req n r).1 m ≡ view_at r m
  try_node-other n m r ne =
      ap (λ w. nodes.view w m) (tried-world n r).0
      ∙ either (opened n r).0
      ∙ backend_connection-view n m r
    where
      either :
          (b : Bool)
          → nodes.view
              (if b then (net.exchange n req (opened n r).1.world).1 else (opened n r).1.world)
              m
            ≡ view_at (opened n r).1 m
      either true = nodes.exchange_other n m req (opened n r).1.world ne
      either false = refl

  -- An acknowledged exchange is the node's answer, and has its effect.
  pub try_node-answered :
      (n : Bytes) (r : Routing net addresses) (resp : Response)
      → Sendable req.command req
      → (tried net addresses req n r).0 ≡ some resp
      → (resp ≡ (answer_to req.command req (view_at r n)).0)
        × (view_at (tried net addresses req n r).1 n ≡ (answer_to req.command req (view_at r n)).1)
  try_node-answered n r resp ok h = elim (Bool-cases (opened n r).0) [
    | inr closed ↦ cc ((tried-world n r).1, h, closed)
    | inl there ↦
        let answered : (net.exchange n req (opened n r).1.world).0 ≡ some resp =
          ground (arith, (tried-world n r).1) in
        let (a, v) = nodes.exchange_view n req (opened n r).1.world resp ok answered in
        let same = backend_connection-view n n r in
        let world : (tried net addresses req n r).1.world
            ≡ (net.exchange n req (opened n r).1.world).1 =
          ground (arith, (tried-world n r).0) in
        (
          a ∙ ap (λ d. (answer_to req.command req d).0) same,
          ap (λ w. nodes.view w n) world ∙ v ∙ ap (λ d. (answer_to req.command req d).1) same,
        )
  ]

  -- The nodes that are not on the list keep what they hold.
  pub write_from-other :
      (ns : List Bytes) (m : Bytes) (first : Option Response) (r : Routing net addresses)
      → contains ns m ≡ false
      → view_at (write_from net addresses ns req first r).1 m ≡ view_at r m
  write_from-other [] m first r h = unfold write_from in refl
  write_from-other (n ∷ ns) m first r h =
      let (ne, rest) = split_contains n ns m h in
      elim (Bool-cases (is_alive r.alive n)) [
        | inr down ↦
            ap (λ (x : Option Response × Routing net addresses). view_at x.1 m)
              (write_from_skip net addresses req n ns r first down)
            ∙ write_from-other ns m first r rest
        | inl up ↦
            ap (λ (x : Option Response × Routing net addresses). view_at x.1 m)
              (write_from_try net addresses req n ns r first up)
            ∙ write_from-other ns m _ (tried net addresses req n r).1 rest
            ∙ try_node-other n m r ne
      ]
