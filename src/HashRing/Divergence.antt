-- ===== src/HashRing/Divergence.antt =====
-- Where the loop of `get_nodes` does not end: it waits for more different nodes than own positions.
-- `add_node` lists a node once more each time it is called with it.
use mathlib.Core.Path.{subst}
use distributed_kv_store.Prelude.{
  ℕ, zero, suc, ◌+◌, ◌<◌, ◌≡◌, ◌≢◌, refl, true, [], ◌∷◌, arith, Bytes, eq_bytes_refl, ltb, lt→ltb,
  length, All, min, sym, Bool-cases, inl, inr, ◌==◌, if◌then◌else◌,
}
use distributed_kv_store.Hash.{fnv1a_hash}
use distributed_kv_store.HashRing.{
  Entry, Ring, assign, assign_vnodes, vnode_position, add_node, empty, contains, running, visit,
  walk, lower_bound, get_nodes, is_empty, threw,
}

abbrev OwnedBy : Bytes → Ring → Type 0
OwnedBy id = All (λ e. e.1 ≡ id)

OwnedBy-assign : (id : Bytes) (p : ℕ) (r : Ring) → OwnedBy id r → OwnedBy id (assign p id r)
unfolding assign
OwnedBy-assign id p [] h = (refl, tt)
OwnedBy-assign id p ((q, o) ∷ r) h = elim (Bool-cases (ltb p q)) [
  | inl before ↦ rw before (refl, h)
  | inr not_before ↦ rw not_before (elim (Bool-cases (p == q)) [
    | inl same ↦ rw same (refl, h.1)
    | inr after ↦ rw after (h.0, OwnedBy-assign id p r h.1)
  ])
]

OwnedBy-assign_vnodes :
    (n i : ℕ) (id : Bytes) (r : Ring) → OwnedBy id r → OwnedBy id (assign_vnodes n i id r)
unfolding assign_vnodes
OwnedBy-assign_vnodes zero i id r h = h
OwnedBy-assign_vnodes (suc n) i id r h =
    OwnedBy-assign_vnodes n (i + 1) id (assign (vnode_position id i) id r)
      (OwnedBy-assign id (vnode_position id i) r h)

OwnedBy-lower_bound : (id : Bytes) (p : ℕ) (r : Ring) → OwnedBy id r → OwnedBy id (lower_bound p r)
unfolding lower_bound
OwnedBy-lower_bound id p [] h = tt
OwnedBy-lower_bound id p ((q, o) ∷ r) h = elim (Bool-cases (ltb q p)) [
  | inl before ↦ rw before (OwnedBy-lower_bound id p r h.1)
  | inr here ↦ rw here h
]

contains-one : (id o : Bytes) → o ≡ id → contains (id ∷ []) o ≡ true
unfolding contains
contains-one id o e = rw (e, eq_bytes_refl id) refl

module _ (id : Bytes) (count : ℕ) (two : 1 < count) where
  -- The only owner is collected, and each further step leaves the result as it is.
  walk_endless :
      (e : Entry) (r : Ring)
      → OwnedBy id (e ∷ r)
      → (f : ℕ) (it : Ring) → OwnedBy id it
      → walk f (e ∷ r) count it (id ∷ []) ≡ running
  unfolding walk visit
  walk_endless e r owned zero it h = refl
  walk_endless e r owned (suc f) [] h =
      rw (lt→ltb 1 count two, contains-one id e.1 owned.0) (walk_endless e r owned f r owned.1)
  walk_endless e r owned (suc f) ((q, u) ∷ it) h =
      rw (lt→ltb 1 count two, contains-one id u h.0) (walk_endless e r owned f it h.1)

  -- The walk from the start, where the ring is not empty.
  walk_from_start :
      (r : Ring)
      → r ≢ []
      → OwnedBy id r
      → (f : ℕ) (it : Ring) → OwnedBy id it
      → (if is_empty r then threw else walk f r count it []) ≡ running
  unfolding walk visit contains
  walk_from_start [] ne owned f it h = absurd (ne refl)
  walk_from_start (e ∷ r) ne owned zero it h = refl
  walk_from_start (e ∷ r) ne owned (suc f) [] h = rw (lt→ltb 0 count (omega arith)) (
      subst (λ (x : Bytes). walk f (e ∷ r) count r (x ∷ []) ≡ running) (sym owned.0)
        (walk_endless e r owned f r owned.1))
  walk_from_start (e ∷ r) ne owned (suc f) ((q, u) ∷ it) h = rw (lt→ltb 0 count (omega arith)) (
      subst (λ (x : Bytes). walk f (e ∷ r) count it (x ∷ []) ≡ running) (sym h.0)
        (walk_endless e r owned f it h.1))

pub assign-ne-nil : (p : ℕ) (id : Bytes) (r : Ring) → assign p id r ≢ []
unfolding assign
assign-ne-nil p id [] = λ e. cc
assign-ne-nil p id ((q, o) ∷ r) = ground arith

pub assign_vnodes-ne-nil : (n i : ℕ) (id : Bytes) (r : Ring) → r ≢ [] → assign_vnodes n i id r ≢ []
unfolding assign_vnodes
assign_vnodes-ne-nil zero i id r ne = ne
assign_vnodes-ne-nil (suc n) i id r ne =
    assign_vnodes-ne-nil n (i + 1) id _ (assign-ne-nil (vnode_position id i) id r)

-- The positions of one node, placed twice.
twice_owned : (n : ℕ) (id : Bytes) → OwnedBy id (add_node (add_node (empty n) id) id).ring
unfolding add_node
twice_owned n id = OwnedBy-assign_vnodes n 0 id _ (OwnedBy-assign_vnodes n 0 id [] tt)

twice-ne-nil : (n : ℕ) (id : Bytes) → 0 < n → (add_node (add_node (empty n) id) id).ring ≢ []
unfolding add_node assign_vnodes
twice-ne-nil zero id pos = absurd (omega arith)
twice-ne-nil (suc n) id pos =
    assign_vnodes-ne-nil n 1 id _ (assign-ne-nil (vnode_position id 0) id _)

twice_listed : (n : ℕ) (id : Bytes) → length (add_node (add_node (empty n) id) id).nodes ≡ 2
unfolding add_node
twice_listed n id = refl

-- A ring with virtual nodes to which one node was added twice lists it twice and has one owner:
-- asked for two or more nodes, `get_nodes` still runs after any number of steps, for every key.
pub get_nodes-running :
    (n : ℕ) (id key : Bytes) (count fuel : ℕ)
    → 0 < n
    → 1 < count
    → get_nodes fuel (add_node (add_node (empty n) id) id) key count ≡ running
unfolding get_nodes
get_nodes-running n id key count fuel pos two =
    let h = add_node (add_node (empty n) id) id in
    let owned = twice_owned n id in
    walk_from_start id (min count (length h.nodes)) (omega (arith, twice_listed n id)) h.ring
      (twice-ne-nil n id pos) owned fuel _ (OwnedBy-lower_bound id (fnv1a_hash key) h.ring owned)
