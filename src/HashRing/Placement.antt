-- ===== src/HashRing/Placement.antt =====
-- Which keys move when a node comes or goes.
use distributed_kv_store.Prelude.{
  ℕ, zero, suc, ◌+◌, ◌<◌, ◌≡◌, ◌≢◌, refl, [], ◌∷◌, Option, none, some, ◌⊎◌, inl, inr, arith, Bytes,
  ◌==◌, All, All-mono, Bool-cases,
}
use distributed_kv_store.Hash.{fnv1a_hash}
use distributed_kv_store.HashRing.{
  Entry, Ring, HashRing, assign, erase, lower_bound, vnode_position, assign_vnodes, erase_vnodes,
  add_node, remove_node, wrap, owner, get_node,
}

-- The owner of a position: that of the first entry at or after it, or of the first entry of all.
owner_at : ℕ → Ring → Option Bytes
owner_at h ring = owner (wrap ring (lower_bound h ring))

module _ (p : ℕ) (id : Bytes) (h : ℕ) where
  -- One new entry takes over what it is first for, and nothing else.
  lower_bound-assign :
      (r : Ring)
      → (owner (lower_bound h (assign p id r)) ≡ some id)
        ⊎ (owner (lower_bound h (assign p id r)) ≡ owner (lower_bound h r))
  unfolding assign lower_bound
  lower_bound-assign [] = ground arith
  lower_bound-assign ((q, o) ∷ r) = ground (arith, lower_bound-assign r)

  owner-assign :
      (r : Ring) → r ≢ [] → (owner (assign p id r) ≡ some id) ⊎ (owner (assign p id r) ≡ owner r)
  unfolding assign
  owner-assign [] ne = absurd (ne refl)
  owner-assign ((q, o) ∷ r) ne = ground arith

  assign-ne-nil : (r : Ring) → assign p id r ≢ []
  unfolding assign
  assign-ne-nil [] = λ e. cc
  assign-ne-nil ((q, o) ∷ r) = ground arith

owner-wrap :
    (ring it : Ring)
    → owner (wrap ring it) ≡ (elim (owner it) [ none ↦ owner ring | some o ↦ some o ])
owner-wrap ring [] = refl
owner-wrap ring ((q, o) ∷ it) = refl

owner_at-assign :
    (p : ℕ) (id : Bytes) (h : ℕ) (r : Ring)
    → r ≢ []
    → (owner_at h (assign p id r) ≡ some id) ⊎ (owner_at h (assign p id r) ≡ owner_at h r)
unfolding owner_at
owner_at-assign p id h r ne = ground (
  arith,
  owner-wrap (assign p id r) (lower_bound h (assign p id r)),
  owner-wrap r (lower_bound h r),
  lower_bound-assign p id h r,
  owner-assign p id h r ne,
)

assign_vnodes-owner_at :
    (n i : ℕ) (id : Bytes) (h : ℕ) (r : Ring)
    → r ≢ []
    → (owner_at h (assign_vnodes n i id r) ≡ some id)
      ⊎ (owner_at h (assign_vnodes n i id r) ≡ owner_at h r)
unfolding assign_vnodes
assign_vnodes-owner_at zero i id h r ne = inr refl
assign_vnodes-owner_at (suc n) i id h r ne =
    let p = vnode_position id i in
    ground (
      arith,
      assign_vnodes-owner_at n (i + 1) id h (assign p id r) (assign-ne-nil p id h r),
      owner_at-assign p id h r ne,
    )

-- Adding a node to a ring that has one moves a key to the new node or leaves it where it was.
pub get_node-add_node :
    (ring : HashRing) (id key : Bytes)
    → ring.ring ≢ []
    → (get_node (add_node ring id) key ≡ some id)
      ⊎ (get_node (add_node ring id) key ≡ get_node ring key)
unfolding get_node add_node owner_at
get_node-add_node ring id key ne =
    assign_vnodes-owner_at ring.virtual_nodes_per_node 0 id (fnv1a_hash key) ring.ring ne

-- No other node has an entry at a position of `id`, below index `n`.
abbrev pub Alone : ℕ → Bytes → Ring → Type 0
Alone n id = All (λ e. (i : ℕ) → i < n → e.0 ≡ vnode_position id i → e.1 ≡ id)

module _ (p : ℕ) (id : Bytes) (h : ℕ) where
  lower_bound-erase :
      (r : Ring)
      → All (λ e. e.0 ≡ p → e.1 ≡ id) r
      → (owner (lower_bound h r) ≡ some id)
        ⊎ (owner (lower_bound h (erase p r)) ≡ owner (lower_bound h r))
  unfolding erase lower_bound
  lower_bound-erase [] a = inr refl
  lower_bound-erase ((q, o) ∷ r) a = ground (arith, lower_bound-erase r a.1, a.0)

  owner-erase :
      (r : Ring)
      → All (λ e. e.0 ≡ p → e.1 ≡ id) r
      → (owner r ≡ some id) ⊎ (owner (erase p r) ≡ owner r)
  unfolding erase
  owner-erase [] a = inr refl
  owner-erase ((q, o) ∷ r) a = ground (arith, a.0)

  owner_at-erase :
      (r : Ring)
      → All (λ e. e.0 ≡ p → e.1 ≡ id) r
      → (owner_at h r ≡ some id) ⊎ (owner_at h (erase p r) ≡ owner_at h r)
  unfolding owner_at
  owner_at-erase r a = ground (
    arith,
    owner-wrap (erase p r) (lower_bound h (erase p r)),
    owner-wrap r (lower_bound h r),
    lower_bound-erase r a,
    owner-erase r a,
  )

All-erase {κ} : (P : Entry → Type κ) (p : ℕ) (r : Ring) → All P r → All P (erase p r)
unfolding erase
All-erase P p [] a = tt
All-erase P p ((q, o) ∷ r) a = elim (Bool-cases (q == p)) [
  | inl e ↦ rw e a.1
  | inr e ↦ rw e (a.0, All-erase P p r a.1)
]

erase_vnodes-owner_at :
    (n i k : ℕ) (id : Bytes) (h : ℕ) (r : Ring)
    → i + n ≡ k
    → Alone k id r
    → (owner_at h r ≡ some id) ⊎ (owner_at h (erase_vnodes n i id r) ≡ owner_at h r)
unfolding erase_vnodes
erase_vnodes-owner_at zero i k id h r end a = inr refl
erase_vnodes-owner_at (suc n) i k id h r end a =
    let p = vnode_position id i in
    ground (
      arith,
      erase_vnodes-owner_at n (i + 1) k id h (erase p r) (omega arith)
          (All-erase (λ e. (j : ℕ) → j < k → e.0 ≡ vnode_position id j → e.1 ≡ id) p r a),
      owner_at-erase p id h r (
          All-mono (λ e. (j : ℕ) → j < k → e.0 ≡ vnode_position id j → e.1 ≡ id)
            (λ e. e.0 ≡ p → e.1 ≡ id) (λ e own. own i (omega arith)) r a),
    )

-- Removing a node moves only the keys that it owned, if no other node has a virtual node at one of
-- its positions.
pub get_node-remove_node :
    (ring : HashRing) (id key : Bytes)
    → Alone ring.virtual_nodes_per_node id ring.ring
    → get_node ring key ≢ some id
    → get_node (remove_node ring id) key ≡ get_node ring key
unfolding get_node remove_node owner_at
get_node-remove_node ring id key a ne =
    elim (erase_vnodes-owner_at ring.virtual_nodes_per_node 0 _ id (fnv1a_hash key) ring.ring
      (omega arith) a) [ inl e ↦ absurd (ne e) | inr e ↦ e ]
