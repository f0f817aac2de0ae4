-- ===== src/HashRing/Owners.antt =====
-- Which node owns a position of the ring while virtual nodes are placed, and how long the ring gets.
use distributed_kv_store.Prelude.{
  ℕ, zero, suc, ◌+◌, ◌<◌, ◌≤◌, ◌≡◌, ◌≢◌, refl, ap, ◌∙◌, true, [], ◌∷◌, Option, none, some, ◌⊎◌, inl,
  inr, arith, Bytes, eq_bytes_iff, ◌==◌, if◌then◌else◌, length, Bool-cases,
}
use distributed_kv_store.HashRing.{Ring, assign, assign_vnodes, vnode_position}
use distributed_kv_store.HashRing.Collect.{owns}

-- The owner of a position.
unfoldable pub held_by : ℕ → Ring → Option Bytes
held_by p [] = none
held_by p ((q, o) ∷ r) = if q == p then some o else held_by p r

pub held_by-assign :
    (p q : ℕ) (id : Bytes) (r : Ring)
    → held_by p (assign q id r) ≡ (if q == p then some id else held_by p r)
unfolding held_by assign
held_by-assign p q id [] = refl
held_by-assign p q id ((q', o) ∷ r) = ground (arith, held_by-assign p q id r)

-- An owner stays, if the positions of the node that is placed are others or the node is the owner.
pub held_by-assign_vnodes :
    (n i : ℕ) (id : Bytes) (r : Ring) (p : ℕ) (j : Bytes)
    → held_by p r ≡ some j
    → ((k : ℕ) → i ≤ k → k < i + n → (vnode_position id k ≢ p) ⊎ (id ≡ j))
    → held_by p (assign_vnodes n i id r) ≡ some j
unfolding assign_vnodes
held_by-assign_vnodes zero i id r p j held other = held
held_by-assign_vnodes (suc n) i id r p j held other =
    held_by-assign_vnodes n (i + 1) id (assign (vnode_position id i) id r) p j
      (held_by-assign p (vnode_position id i) id r ∙ kept (other i (omega arith) (omega arith)))
      (λ k lo hi. other k (omega (arith, lo)) (omega (arith, hi)))
  where
    kept :
        (vnode_position id i ≢ p) ⊎ (id ≡ j)
        → (if vnode_position id i == p then some id else held_by p r) ≡ some j
    kept (inl ne) = ground (arith, ne, held)
    kept (inr same) = elim (Bool-cases (vnode_position id i == p)) [
      | inl e ↦ rw e (ap some same)
      | inr ne ↦ rw ne held
    ]

pub held_by-owns : (p : ℕ) (j : Bytes) (r : Ring) → held_by p r ≡ some j → owns r j ≡ true
unfolding held_by owns
held_by-owns p j [] h = cc h
held_by-owns p j ((q, o) ∷ r) h = ground (arith, h, held_by-owns p j r, eq_bytes_iff o j)

length-assign : (p : ℕ) (a : Bytes) (r : Ring) → length (assign p a r) ≤ length r + 1
unfolding assign
length-assign p a [] = omega arith
length-assign p a ((q, o) ∷ r) = ground (arith, length-assign p a r)

pub length-assign_vnodes :
    (n i : ℕ) (a : Bytes) (r : Ring) → length (assign_vnodes n i a r) ≤ length r + n
unfolding assign_vnodes
length-assign_vnodes zero i a r = omega arith
length-assign_vnodes (suc n) i a r = omega (
  arith,
  length-assign_vnodes n (i + 1) a (assign (vnode_position a i) a r),
  length-assign (vnode_position a i) a r,
)
