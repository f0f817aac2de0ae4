-- ===== src/Router/Failover.antt =====
-- What the loops of the router do to the liveness map.
use mathlib.Core.Path.{subst}
use distributed_kv_store.Prelude.{
  sym, ◌≡◌, refl, ◌∙◌, true, false, List, [], ◌∷◌, Option, none, some, inl, inr, arith, Bytes,
  eq_bytes, eq_bytes_refl, All, Bool-cases, Option-cases, ap, if◌then◌else◌,
}
use distributed_kv_store.Protocol.Messages.{Request, Response}
use distributed_kv_store.Router.FailureDetector.{
  NodeAddress, Alive, is_alive, mark_down, is_alive-mark,
}
use distributed_kv_store.Router.Routing.{
  Network, Routing, backend_connection, try_node, next_read, read_from, next_write, write_from,
  first_of_two,
}

pub is_alive-mark_down :
    (node j : Bytes) (alive : Alive)
    → is_alive (mark_down node alive) j ≡ (if eq_bytes node j then false else is_alive alive j)
unfolding mark_down
is_alive-mark_down = is_alive-mark false

module _ (net : Network) (addresses : List NodeAddress) (req : Request) where
  -- The map after a node was tried.
  abbrev pub tried : Bytes → Routing net addresses → Option Response × Routing net addresses
  tried node r = try_node net addresses node req r

  abbrev pub alive_after : Bytes → Alive → Option Response → Alive
  alive_after node alive none = mark_down node alive
  alive_after node alive (some resp) = alive

  pub try_node-alive :
      (node : Bytes) (r : Routing net addresses)
      → (tried node r).1.alive ≡ alive_after node r.alive (tried node r).0
  unfolding try_node backend_connection
  try_node-alive node r = ground arith

  -- A node that is down stays down while requests are routed.
  pub tried-down :
      (node j : Bytes) (r : Routing net addresses)
      → is_alive r.alive j ≡ false
      → is_alive (tried node r).1.alive j ≡ false
  tried-down node j r h = rw (try_node-alive node r) (stays_down (tried node r).0)
    where
      stays_down : (o : Option Response) → is_alive (alive_after node r.alive o) j ≡ false
      stays_down none = ground (arith, is_alive-mark_down node j r.alive)
      stays_down (some resp) = h

  -- A node whose exchange failed is down.
  pub tried_failed :
      (node : Bytes) (r : Routing net addresses)
      → (tried node r).0 ≡ none
      → is_alive (tried node r).1.alive node ≡ false
  tried_failed node r h =
      rw (try_node-alive node r, h, is_alive-mark_down node node r.alive, eq_bytes_refl node) refl

  pub read_from-down :
      (nodes : List Bytes) (j : Bytes) (r : Routing net addresses)
      → is_alive r.alive j ≡ false
      → is_alive (read_from net addresses nodes req r).1.alive j ≡ false
  unfolding read_from next_read
  read_from-down [] j r h = h
  read_from-down (n ∷ ns) j r h =
      ground (arith, tried-down n j r, read_from-down ns j (tried n r).1, read_from-down ns j r)

  pub write_from-down :
      (nodes : List Bytes) (j : Bytes) (first : Option Response) (r : Routing net addresses)
      → is_alive r.alive j ≡ false
      → is_alive (write_from net addresses nodes req first r).1.alive j ≡ false
  unfolding write_from next_write
  write_from-down [] j first r h = h
  write_from-down (n ∷ ns) j first r h = ground (
    arith,
    tried-down n j r,
    write_from-down ns j (first_of_two first (tried n r).0) (tried n r).1,
    write_from-down ns j first r,
  )

  abbrev pub AllDown : List Bytes → Alive → Type 0
  AllDown nodes alive = All (λ n. is_alive alive n ≡ false) nodes

  -- The rounds of the two loops.
  module _ (n : Bytes) (ns : List Bytes) (r : Routing net addresses) where
    pub read_from_skip :
        is_alive r.alive n ≡ false
        → read_from net addresses (n ∷ ns) req r ≡ read_from net addresses ns req r
    unfolding read_from
    read_from_skip down = rw down refl

    pub read_from_try :
        is_alive r.alive n ≡ true
        → read_from net addresses (n ∷ ns) req r
          ≡ next_read net addresses (read_from net addresses ns req) (tried n r)
    unfolding read_from
    read_from_try up = rw up refl

    pub write_from_skip :
        (first : Option Response)
        → is_alive r.alive n ≡ false
        → write_from net addresses (n ∷ ns) req first r ≡ write_from net addresses ns req first r
    unfolding write_from
    write_from_skip first down = rw down refl

    pub write_from_try :
        (first : Option Response)
        → is_alive r.alive n ≡ true
        → write_from net addresses (n ∷ ns) req first r
          ≡ write_from net addresses ns req (first_of_two first (tried n r).0) (tried n r).1
    unfolding write_from next_write
    write_from_try first up = rw up refl

  -- After a failed try a read goes on; after an answer it ends.
  pub next_read_failed :
      (rest : Routing net addresses → Option Response × Routing net addresses)
      (x : Option Response × Routing net addresses)
      → x.0 ≡ none
      → next_read net addresses rest x ≡ rest x.1
  unfolding next_read
  next_read_failed rest (none, r) h = refl
  next_read_failed rest (some resp, r) h = cc

  pub next_read_answered :
      (rest : Routing net addresses → Option Response × Routing net addresses)
      (x : Option Response × Routing net addresses) (resp : Response)
      → x.0 ≡ some resp
      → next_read net addresses rest x ≡ x
  unfolding next_read
  next_read_answered rest (none, r) resp h = cc
  next_read_answered rest (some resp', r) resp h = refl

  -- A read that finds no answer leaves every node of its list marked down.
  pub read_from_exhausted :
      (nodes : List Bytes) (r : Routing net addresses)
      → (read_from net addresses nodes req r).0 ≡ none
      → AllDown nodes (read_from net addresses nodes req r).1.alive
  read_from_exhausted [] r h = tt
  read_from_exhausted (n ∷ ns) r h = elim (Bool-cases (is_alive r.alive n)) [
    | inr down ↦
        subst (λ (x : Option Response × Routing net addresses). AllDown (n ∷ ns) x.1.alive)
          (sym (read_from_skip n ns r down))
          (
            read_from-down ns n r down,
            read_from_exhausted ns r (rw (read_from_skip n ns r down) at h),
          )
    | inl up ↦ elim (Option-cases (tried n r).0) [
      | inl failed ↦
          let e = read_from_try n ns r up ∙ next_read_failed _ (tried n r) failed in
          subst (λ (x : Option Response × Routing net addresses). AllDown (n ∷ ns) x.1.alive)
            (sym e)
            (
              read_from-down ns n (tried n r).1 (tried_failed n r failed),
              read_from_exhausted ns (tried n r).1 (rw e at h),
            )
      | inr (resp, answered) ↦
          let e = read_from_try n ns r up ∙ next_read_answered _ (tried n r) resp answered in
          cc (ap (λ (x : Option Response × Routing net addresses). x.0) e, answered, h)
    ]
  ]

  first_of_two-none : (first resp : Option Response) → first_of_two first resp ≡ none → first ≡ none
  first_of_two-none none resp h = refl
  first_of_two-none (some a) resp h = cc

  write_from-first :
      (nodes : List Bytes) (first : Option Response) (r : Routing net addresses)
      → (write_from net addresses nodes req first r).0 ≡ none
      → first ≡ none
  unfolding write_from next_write
  write_from-first [] first r h = h
  write_from-first (n ∷ ns) first r h = ground (
    arith,
    write_from-first ns (first_of_two first (tried n r).0) (tried n r).1,
    write_from-first ns first r,
    first_of_two-none first (tried n r).0,
  )

  -- A write that no node acknowledges leaves every node of its list marked down.
  pub write_from_exhausted :
      (nodes : List Bytes) (first : Option Response) (r : Routing net addresses)
      → (write_from net addresses nodes req first r).0 ≡ none
      → AllDown nodes (write_from net addresses nodes req first r).1.alive
  write_from_exhausted [] first r h = tt
  write_from_exhausted (n ∷ ns) first r h = elim (Bool-cases (is_alive r.alive n)) [
    | inr down ↦
        subst (λ (x : Option Response × Routing net addresses). AllDown (n ∷ ns) x.1.alive)
          (sym (write_from_skip n ns r first down))
          (
            write_from-down ns n first r down,
            write_from_exhausted ns first r (rw (write_from_skip n ns r first down) at h),
          )
    | inl up ↦
        let h' = rw (write_from_try n ns r first up) at h in
        let none_yet = write_from-first ns (first_of_two first (tried n r).0) (tried n r).1 h' in
        subst (λ (x : Option Response × Routing net addresses). AllDown (n ∷ ns) x.1.alive)
          (sym (write_from_try n ns r first up))
          (
            write_from-down ns n _ (tried n r).1
                (tried_failed n r (second_none first (tried n r).0 none_yet)),
            write_from_exhausted ns _ (tried n r).1 h',
          )
  ]
    where
      second_none : (a b : Option Response) → first_of_two a b ≡ none → b ≡ none
      second_none none b e = e
      second_none (some a) b e = cc
