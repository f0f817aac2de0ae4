-- ===== src/Router/History/InSync.antt =====
-- Which replicas hold what the dictionary holds, while requests are routed.
use mathlib.Core.Path.{subst}
use distributed_kv_store.Prelude.{
  ◌≡◌, refl, sym, ap, ◌∙◌, true, false, List, [], ◌∷◌, Option, none, ◌⊎◌, inl, inr, arith, Bytes,
  eq_bytes, eq_bytes_iff, Bool-cases, Option-cases,
}
use distributed_kv_store.Protocol.Messages.{Command, Request, Response, get, set, delete, ping}
use distributed_kv_store.Protocol.RequestParser.RoundTrip.{Sendable}
use distributed_kv_store.KvStore.Refinement.{Dictionary}
use distributed_kv_store.Server.Requests.{answer_to}
use distributed_kv_store.HashRing.{contains}
use distributed_kv_store.HashRing.Distinct.{Distinct}
use distributed_kv_store.Router.FailureDetector.{NodeAddress, is_alive, mark_down, is_alive-mark}
use distributed_kv_store.Router.Routing.{Network, Routing, read_from, write_from}
use distributed_kv_store.Router.Failover.{
  tried, tried_failed, read_from-down, write_from-down, read_from_skip, read_from_try,
  next_read_failed, next_read_answered,
}
use distributed_kv_store.Router.Replication.{
  Nodes, try_node-other, try_node-answered, write_from-other,
}
use distributed_kv_store.Router.Consistency.{write_from-Applied}

-- What a request makes of a key depends on that key alone.
pub answer_to-key :
    (c : Command) (req : Request) (v d : Dictionary) (key : Bytes)
    → v key ≡ d key
    → (answer_to c req v).1 key ≡ (answer_to c req d).1 key
unfolding answer_to
answer_to-key get req v d key h = h
answer_to-key set req v d key h = rw h refl
answer_to-key delete req v d key h = rw h refl
answer_to-key ping req v d key h = h

pub answer_to-other :
    (c : Command) (req : Request) (d : Dictionary) (key : Bytes)
    → eq_bytes req.key key ≡ false
    → (answer_to c req d).1 key ≡ d key
unfolding answer_to
answer_to-other get req d key h = refl
answer_to-other set req d key h = rw h refl
answer_to-other delete req d key h = rw h refl
answer_to-other ping req d key h = refl

pub answer_to-get :
    (req : Request) (v d : Dictionary)
    → v req.key ≡ d req.key
    → (answer_to get req v).0 ≡ (answer_to get req d).0
unfolding answer_to
answer_to-get req v d h = rw h refl

module _ (net : Network) (addresses : List NodeAddress) (nodes : Nodes net)
    (list : Bytes → List Bytes) (distinct : (key : Bytes) → Distinct (list key)) where
  -- Every node that is alive holds, of the keys whose lists it is on, what the dictionary holds.
  abbrev pub InSync : Dictionary → Routing net addresses → Type 0
  InSync d r =
      (key j : Bytes)
      → contains (list key) j ≡ true
      → is_alive r.alive j ≡ true
      → nodes.view r.world j key ≡ d key

  pub write_from-InSync :
      (req : Request) (d : Dictionary) (r : Routing net addresses)
      → Sendable req.command req
      → InSync d r
      → InSync
          (answer_to req.command req d).1
          (write_from net addresses (list req.key) req none r).1
  write_from-InSync req d r ok synced key j there up =
      let ns = list req.key in
      elim (Bool-cases (is_alive r.alive j)) [
        | inr down ↦ cc (up, write_from-down net addresses req ns j none r down)
        | inl was_up ↦ elim (Bool-cases (contains ns j)) [
          | inl member ↦
              ap (λ (v : Dictionary). v key)
                (write_from-Applied net addresses nodes req ok ns none r j (distinct req.key) member
                  up)
              ∙ answer_to-key req.command req _ d key (synced key j there was_up)
          | inr apart ↦
              ap (λ (v : Dictionary). v key)
                (write_from-other net addresses nodes req ns j none r apart)
              ∙ synced key j there was_up
              ∙ sym (answer_to-other req.command req d key (different key j there apart))
        ]
      ]
    where
      different :
          (key j : Bytes)
          → contains (list key) j ≡ true
          → contains (list req.key) j ≡ false
          → eq_bytes req.key key ≡ false
      different key j there apart = elim (Bool-cases (eq_bytes req.key key)) [
        | inr ne ↦ ne
        | inl e ↦ cc (there, apart, ap (λ k. contains (list k) j) ((eq_bytes_iff req.key key).0 e))
      ]

  -- A try of a request that leaves a dictionary as it is leaves what a node holds, unless it failed.
  tried-view :
      (req : Request)
      → Sendable req.command req
      → ((v : Dictionary) → (answer_to req.command req v).1 ≡ v)
      → (n : Bytes) (r : Routing net addresses) (j : Bytes)
      → is_alive (tried net addresses req n r).1.alive j ≡ true
      → nodes.view (tried net addresses req n r).1.world j ≡ nodes.view r.world j
  tried-view req ok still n r j up = elim (Bool-cases (eq_bytes n j)) [
    | inr other ↦ try_node-other net addresses nodes req n j r other
    | inl same ↦ elim (Option-cases (tried net addresses req n r).0) [
      | inl failed ↦ cc (
        up,
        tried_failed net addresses req n r failed,
        ap (is_alive (tried net addresses req n r).1.alive) ((eq_bytes_iff n j).0 same),
      )
      | inr (resp, answered) ↦
          subst
            (λ (k : Bytes).
              nodes.view (tried net addresses req n r).1.world k ≡ nodes.view r.world k)
            ((eq_bytes_iff n j).0 same)
            ((try_node-answered net addresses nodes req n r resp ok answered).1
              ∙ still (nodes.view r.world n))
    ]
  ]

  -- A read that leaves a dictionary as it is leaves what the nodes hold that are alive then.
  read_from-view :
      (req : Request)
      → Sendable req.command req
      → ((v : Dictionary) → (answer_to req.command req v).1 ≡ v)
      → (ns : List Bytes) (r : Routing net addresses) (j : Bytes)
      → is_alive (read_from net addresses ns req r).1.alive j ≡ true
      → nodes.view (read_from net addresses ns req r).1.world j ≡ nodes.view r.world j
  read_from-view req ok still [] r j up = unfold read_from in refl
  read_from-view req ok still (n ∷ ns) r j up = elim (Bool-cases (is_alive r.alive n)) [
    | inr down ↦
        let e = read_from_skip net addresses req n ns r down in
        ap (λ (x : Option Response × Routing net addresses). nodes.view x.1.world j) e
        ∙ read_from-view req ok still ns r j (rw e at up)
    | inl was_up ↦ elim (Option-cases (tried net addresses req n r).0) [
      | inl failed ↦
          let e =
            read_from_try net addresses req n ns r was_up
            ∙ next_read_failed net addresses req _ (tried net addresses req n r) failed in
          ap (λ (x : Option Response × Routing net addresses). nodes.view x.1.world j) e
          ∙ read_from-view req ok still ns (tried net addresses req n r).1 j (rw e at up)
          ∙ tried-view req ok still n r j (before ns (tried net addresses req n r).1 (rw e at up))
      | inr (resp, answered) ↦
          let e =
            read_from_try net addresses req n ns r was_up
            ∙ next_read_answered net addresses req _ (tried net addresses req n r) resp answered in
          ap (λ (x : Option Response × Routing net addresses). nodes.view x.1.world j) e
          ∙ tried-view req ok still n r j (rw e at up)
    ]
  ]
    where
      before :
          (ns : List Bytes) (r' : Routing net addresses)
          → is_alive (read_from net addresses ns req r').1.alive j ≡ true
          → is_alive r'.alive j ≡ true
      before ns r' up' = elim (Bool-cases (is_alive r'.alive j)) [
        | inl yes' ↦ yes'
        | inr down ↦ cc (up', read_from-down net addresses req ns j r' down)
      ]

  pub read_from-InSync :
      (req : Request) (d : Dictionary) (r : Routing net addresses) (ns : List Bytes)
      → Sendable req.command req
      → ((v : Dictionary) → (answer_to req.command req v).1 ≡ v)
      → InSync d r
      → InSync d (read_from net addresses ns req r).1
  read_from-InSync req d r ns ok still synced key j there up =
      elim (Bool-cases (is_alive r.alive j)) [
        | inr down ↦ cc (up, read_from-down net addresses req ns j r down)
        | inl was_up ↦
            ap (λ (v : Dictionary). v key) (read_from-view req ok still ns r j up)
            ∙ synced key j there was_up
      ]

  pub mark_down-InSync :
      (node : Bytes) (d : Dictionary) (r : Routing net addresses)
      → InSync d r
      → InSync d (record r { alive = mark_down node r.alive })
  mark_down-InSync node d r synced key j there up =
      synced key j there (was_up (Bool-cases (is_alive r.alive j)))
    where
      was_up :
          (is_alive r.alive j ≡ true) ⊎ (is_alive r.alive j ≡ false) → is_alive r.alive j ≡ true
      was_up (inl h) = h
      was_up (inr h) = unfold mark_down in ground (arith, up, h, is_alive-mark false node j r.alive)
