-- ===== src/Router/History/Responses.antt =====
-- The responses to a history of requests are those of the dictionary.
use mathlib.Core.Path.{subst}
use distributed_kv_store.Prelude.{
  ℕ, ◌*◌, ◌<◌, ◌≡◌, ◌≢◌, refl, sym, ap, ◌∙◌, true, List, [], ◌∷◌, Option, none, some, inl, inr,
  Bytes, length,
}
use distributed_kv_store.Protocol.Messages.{Command, Request, Response, get, set, delete, ping}
use distributed_kv_store.Protocol.RequestParser.RoundTrip.{Sendable}
use distributed_kv_store.KvStore.Refinement.{Dictionary}
use distributed_kv_store.Server.Requests.{answer_to}
use distributed_kv_store.HashRing.{HashRing, returned, get_nodes}
use distributed_kv_store.HashRing.Distinct.{Distinct}
use distributed_kv_store.Router.FailureDetector.{NodeAddress, is_alive, mark_down}
use distributed_kv_store.Router.Routing.{
  Network, Routing, read_from, write_from, route_read, route_write, or_error, with_nodes,
}
use distributed_kv_store.Router.Failover.{tried}
use distributed_kv_store.Router.Replication.{Nodes}
use distributed_kv_store.Router.Consistency.{read_from-Answers}
use distributed_kv_store.HashRing.Preference.{IsCovered, get_nodes_total}
use distributed_kv_store.Router.History.{
  Act, requested, reported, held_after, Allowed, RightFor, AllRight, route_by, put_first,
  after_request, act_all,
}
use distributed_kv_store.Router.History.InSync.{
  InSync, answer_to-get, write_from-InSync, read_from-InSync, mark_down-InSync,
}

module _ (net : Network) (addresses : List NodeAddress) (fuel : ℕ) (ring : HashRing)
    (factor : ℕ) where
  module _ (nodes : Nodes net) (list : Bytes → List Bytes)
      (distinct : (key : Bytes) → Distinct (list key))
      (found : (key : Bytes) → get_nodes fuel ring key factor ≡ returned (list key)) where
    abbrev Synced : Dictionary → Routing net addresses → Type 0
    Synced = InSync net addresses nodes list distinct

    or_error_state :
        (tried : ℕ) (y : Option Response × Routing net addresses)
        → (or_error net addresses tried y).1 ≡ y.1
    or_error_state tried (none, r) = refl
    or_error_state tried (some resp, r) = refl

    route_write-InSync :
        (req : Request) (d : Dictionary) (r : Routing net addresses)
        → Sendable req.command req
        → Synced d r
        → (x : Response × Routing net addresses) × (route_write net addresses fuel ring factor req r
            ≡ returned x)
          × Synced (answer_to req.command req d).1 x.1
    unfolding route_write
    route_write-InSync req d r ok synced =
        let ns = list req.key in
        let y = write_from net addresses ns req none r in
        (
          or_error net addresses (length ns) y,
          ap
              (λ x.
                with_nodes net addresses x
                  λ l. or_error net addresses (length l) (write_from net addresses l req none r))
              (found req.key),
          subst (Synced (answer_to req.command req d).1) (sym (or_error_state (length ns) y))
              (write_from-InSync net addresses nodes list distinct req d r ok synced),
        )

    -- A GET leaves the dictionary, and what it finds is the dictionary's answer.
    still :
        (req : Request) → req.command ≡ get → (v : Dictionary) → (answer_to req.command req v).1 ≡ v
    unfolding answer_to
    still req e v = ap (λ c. (answer_to c req v).1) e

    read_right :
        (req : Request) (d : Dictionary) (y : Option Response × Routing net addresses) (tried : ℕ)
        → ((resp : Response) → y.0 ≡ some resp → resp ≡ (answer_to get req d).0)
        → RightFor get req d (or_error net addresses tried y).0
    read_right req d (none, r) tried h = inr (tried, refl)
    read_right req d (some resp, r) tried h = inl (h resp refl)

    route_read-InSync :
        (req : Request) (d : Dictionary) (r : Routing net addresses)
        → req.command ≡ get
        → Sendable req.command req
        → Synced d r
        → (x : Response × Routing net addresses) × (route_read net addresses fuel ring factor req r
            ≡ returned x)
          × RightFor get req d x.0
          × Synced (answer_to req.command req d).1 x.1
    unfolding route_read
    route_read-InSync req d r e ok synced =
        let ns = list req.key in
        let y = read_from net addresses ns req r in
        (
          or_error net addresses (length ns) y,
          ap
              (λ x.
                with_nodes net addresses x
                  λ l. or_error net addresses (length l) (read_from net addresses l req r))
              (found req.key),
          read_right req d y (length ns) (λ resp.
              read_from-Answers net addresses nodes req ok ns (answer_to get req d).0 resp r
                (distinct req.key)
                (λ j there up.
                  ap (λ c. (answer_to c req (nodes.view r.world j)).0) e
                  ∙ answer_to-get req (nodes.view r.world j) d (synced req.key j there up))),
          subst (Synced (answer_to req.command req d).1) (sym (or_error_state (length ns) y)) (
              subst (λ d'. Synced d' y.1) (sym (still req e d))
                (read_from-InSync net addresses nodes list distinct req d r ns ok (still req e)
                  synced)),
        )

    -- One request.
    route_by-InSync :
        (c : Command) (req : Request) (d : Dictionary) (r : Routing net addresses)
        → req.command ≡ c
        → Sendable req.command req
        → InSync net addresses nodes list distinct d r
        → (x : Response × Routing net addresses) × (route_by net addresses fuel ring factor c req r
            ≡ returned x)
          × RightFor c req d x.0
          × InSync net addresses nodes list distinct (answer_to req.command req d).1 x.1
    unfolding route_by answer_to
    route_by-InSync ping req d r e ok synced =
        (_, refl, tt, subst (λ c. Synced (answer_to c req d).1 r) (sym e) synced)
    route_by-InSync get req d r e ok synced = route_read-InSync req d r e ok synced
    route_by-InSync set req d r e ok synced =
        let (x, done, synced') = route_write-InSync req d r ok synced in (x, done, tt, synced')
    route_by-InSync delete req d r e ok synced =
        let (x, done, synced') = route_write-InSync req d r ok synced in (x, done, tt, synced')

    -- All requests of a history.
    act_all-InSync :
        (acts : List Act) (d : Dictionary) (r : Routing net addresses)
        → Allowed acts
        → InSync net addresses nodes list distinct d r
        → (resps : List Response) × (r' : Routing net addresses) × (act_all net addresses fuel ring
              factor acts r
            ≡ returned (resps, r'))
          × AllRight acts d resps
          × InSync net addresses nodes list distinct (held_after acts d) r'
    unfolding act_all held_after
    act_all-InSync [] d r ok synced = ([], r, refl, tt, synced)
    act_all-InSync (requested req ∷ acts) d r (ok, oks) synced =
        let (x, done, right, synced') = route_by-InSync req.command req d r refl ok synced in
        let (resps, r', rest, rights, last) =
          act_all-InSync acts (answer_to req.command req d).1 x.1 oks synced' in
        (
          x.0 ∷ resps,
          r',
          ap
                (after_request net addresses fuel ring factor
                  (act_all net addresses fuel ring factor acts))
                done
              ∙ ap (put_first net addresses fuel ring factor x.0) rest,
          (right, rights),
          last,
        )
    act_all-InSync (reported node ∷ acts) d r ok synced =
        act_all-InSync acts d (record r { alive = mark_down node r.alive }) ok
          (mark_down-InSync net addresses nodes list distinct node d r synced)

  -- For a ring covered by its nodes and fuel for `get_nodes`, from a state in which every node that is
  -- alive holds what a dictionary holds; for nodes that answer as the server does and may fail at any
  -- time; while requests that the server accepts are routed and other threads report failed nodes,
  -- and none is marked up: every request returns, and each GET returns what the dictionary then
  -- holds, or the error that no replica answered.
  pub act_all-AllRight :
      (nodes : Nodes net) (acts : List Act) (d : Dictionary) (r : Routing net addresses)
      → IsCovered ring
      → ring.ring ≢ []
      → 2 * length ring.ring < fuel
      → Allowed acts
      → ((key j : Bytes) → is_alive r.alive j ≡ true → nodes.view r.world j key ≡ d key)
      → (resps : List Response) × (r' : Routing net addresses) × (act_all net addresses fuel ring
            factor acts r
          ≡ returned (resps, r'))
        × AllRight acts d resps
  act_all-AllRight nodes acts d r covered ne enough ok synced =
      let total = λ (key : Bytes). get_nodes_total ring key factor fuel covered ne enough in
      let (resps, r', done, right, last) =
        act_all-InSync nodes (λ key. (total key).0) (λ key. (total key).2) (λ key. (total key).1)
          acts d r ok (λ key j there up. synced key j up) in
      (resps, r', done, right)
