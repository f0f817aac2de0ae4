-- ===== src/HashRing/Preference.antt =====
-- The preference list: `get_nodes` against its documentation in common/hash_ring.hpp.
use distributed_kv_store.Prelude.{
  ℕ, ◌*◌, ◌<◌, ◌≤◌, ◌≡◌, ◌≢◌, refl, ap, ◌∙◌, true, false, List, [], ◌∷◌, some, inl, inr, arith,
  Bytes, ltb, ltb→lt, ltb→le, lt→ltb, length, min, Bool-cases,
}
use distributed_kv_store.Hash.{fnv1a_hash}
use distributed_kv_store.HashRing.{
  Ring, HashRing, contains, returned, wrap, owner, lower_bound, get_node, get_nodes, is_empty,
}
use distributed_kv_store.HashRing.Distinct.{Distinct, length-le_of_contains}
use distributed_kv_store.HashRing.Collect.{
  owns, collect, collect-Distinct, length-collect, collect-owns, collect_only, collect-cons,
  collect-nil, collect_more,
}
use distributed_kv_store.HashRing.Walk.{walk-collect}

-- The nodes of the ring, listed once each, and each with a position of its own.
pub record IsCovered (h : HashRing) : Type 0 where
  pub distinct : Distinct h.nodes
  pub placed : (id : Bytes) → contains h.nodes id ≡ true → owns h.ring id ≡ true

length-lower_bound : (pos : ℕ) (r : Ring) → length (lower_bound pos r) ≤ length r
unfolding lower_bound
length-lower_bound pos [] = omega arith
length-lower_bound pos ((q, o) ∷ r) = ground (arith, length-lower_bound pos r)

module _ (h : HashRing) (v : IsCovered h) (count : ℕ) (it : Ring) where
  abbrev found : List Bytes
  found = collect (min count (length h.nodes)) (collect (min count (length h.nodes)) [] it) h.ring

  found-le : length found ≤ min count (length h.nodes)
  found-le =
      length-collect (min count (length h.nodes)) _ h.ring
        (length-collect (min count (length h.nodes)) [] it (omega arith))

  -- Two passes are enough: what falls short would hold every node.
  length-found : length found ≡ min count (length h.nodes)
  length-found = elim (Bool-cases (ltb (length found) (min count (length h.nodes)))) [
    | inr full ↦ omega (arith, ltb→le _ _ full, found-le)
    | inl short ↦
        let lt = ltb→lt _ _ short in
        let all =
          length-le_of_contains h.nodes found v.distinct λ id held.
            collect-owns (min count (length h.nodes)) _ h.ring id lt (v.placed id held) in
        absurd (omega (arith, lt, all))
  ]

  found-Distinct : Distinct found
  found-Distinct =
      collect-Distinct (min count (length h.nodes)) _ h.ring
        (collect-Distinct (min count (length h.nodes)) [] it tt)

-- The rest of the entries is a part of the ring.
owns-lower_bound :
    (pos : ℕ) (r : Ring) (id : Bytes) → owns (lower_bound pos r) id ≡ true → owns r id ≡ true
unfolding lower_bound owns
owns-lower_bound pos [] id h = h
owns-lower_bound pos ((q, o) ∷ r) id h = ground (arith, owns-lower_bound pos r id)

nothing_held : (id : Bytes) → contains [] id ≡ false
unfolding contains
nothing_held id = refl

module _ (h : HashRing) (key : Bytes) (count fuel : ℕ) where
  abbrev start : Ring
  start = lower_bound (fnv1a_hash key) h.ring

  get_nodes-found :
      (v : IsCovered h)
      → h.ring ≢ []
      → 2 * length h.ring < fuel
      → get_nodes fuel h key count ≡ returned (found h v count start)
  unfolding get_nodes
  get_nodes-found v ne enough =
      let walked =
        walk-collect h.ring (min count (length h.nodes)) fuel start
          (omega (arith, length-lower_bound (fnv1a_hash key) h.ring))
          (omega (arith, length-found h v count start)) in
      rw (not_empty h.ring ne) walked
    where
      not_empty : (r : Ring) → r ≢ [] → is_empty r ≡ false
      not_empty [] n = absurd (n refl)
      not_empty (e ∷ r) n = refl

  found-owned :
      (v : IsCovered h) (id : Bytes)
      → contains (found h v count start) id ≡ true
      → owns h.ring id ≡ true
  found-owned v id held = elim (collect_only (min count (length h.nodes)) _ h.ring id held) [
    | inr o ↦ o
    | inl before ↦ elim (collect_only (min count (length h.nodes)) [] start id before) [
      | inl none_yet ↦ cc (none_yet, nothing_held id)
      | inr o ↦ owns-lower_bound (fnv1a_hash key) h.ring id o
    ]
  ]

  -- On a ring where each node has a position of its own, and with fuel for two passes, `get_nodes`
  -- returns min(count, number of nodes) different nodes, each of them the owner of a position.
  pub get_nodes_total :
      IsCovered h
      → h.ring ≢ []
      → 2 * length h.ring < fuel
      → (l : List Bytes) × (get_nodes fuel h key count ≡ returned l)
        × Distinct l
        × (length l ≡ min count (length h.nodes))
        × ((id : Bytes) → contains l id ≡ true → owns h.ring id ≡ true)
  get_nodes_total v ne enough = (
    found h v count start,
    get_nodes-found v ne enough,
    found-Distinct h v count start,
    length-found h v count start,
    found-owned v,
  )

-- The first node that two passes collect is the owner of the iterator.
collect-owner :
    (c : ℕ) (ring it : Ring)
    → 0 < c
    → ring ≢ []
    → (o : Bytes) × (ys : List Bytes) × (collect c (collect c [] it) ring ≡ o ∷ ys)
      × (owner (wrap ring it) ≡ some o)
collect-owner c [] it pos ne = absurd (ne refl)
collect-owner c ((q, o) ∷ r) [] pos ne =
    let (ys, e) = collect-cons c o [] r in
    (o, ys, rw (collect-nil c [], collect_more c [] q o r (lt→ltb 0 c pos), nothing_held o) e, refl)
collect-owner c ((q, o) ∷ r) ((p, u) ∷ it) pos ne =
    let (ys, e) = collect-cons c u [] it in
    let (zs, e') = collect-cons c u ys ((q, o) ∷ r) in
    (u, zs, rw (collect_more c [] p u it (lt→ltb 0 c pos), nothing_held u, e) e', refl)

-- On a ring where each node has a position of its own, with fuel for two passes and a count that is
-- not 0, the first of the preference list is the node that `get_node` returns.
pub get_nodes-head :
    (h : HashRing) (key : Bytes) (count fuel : ℕ)
    → IsCovered h
    → h.ring ≢ []
    → 2 * length h.ring < fuel
    → 0 < min count (length h.nodes)
    → (o : Bytes) × (rest : List Bytes) × (get_nodes fuel h key count ≡ returned (o ∷ rest))
      × (get_node h key ≡ some o)
unfolding get_node
get_nodes-head h key count fuel v ne enough pos =
    let (o, ys, e, e') =
      collect-owner (min count (length h.nodes)) h.ring (lower_bound (fnv1a_hash key) h.ring) pos
        ne in
    (o, ys, get_nodes-found h key count fuel v ne enough ∙ ap returned e, e')
