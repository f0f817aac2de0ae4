-- ===== src/HashRing/Collect.antt =====
-- What a pass over ring entries collects: an account of the loop of `get_nodes` with no iterator.
use distributed_kv_store.Prelude.{
  ℕ, ◌<◌, ◌≤◌, ◌≡◌, refl, Bool, true, false, ◌||◌, List, [], ◌∷◌, ◌++◌, ◌⊎◌, inl, inr, arith, Bytes,
  eq_bytes, eq_bytes_iff, ltb, ltb→le, length, if◌then◌else◌, Bool-cases,
}
use distributed_kv_store.HashRing.{Ring, contains, push_new}
use distributed_kv_store.HashRing.Distinct.{
  Distinct, push_new-Distinct, contains-push_new, push_new-keeps, length-push_new, contains-append,
}

-- Whether a node owns an entry.
unfoldable pub owns : Ring → Bytes → Bool
owns [] id = false
owns ((q, o) ∷ r) id = eq_bytes o id || owns r id

-- What a pass over the entries collects, up to `count` nodes.
pub collect : ℕ → List Bytes → Ring → List Bytes
collect count result [] = result
collect count result ((q, o) ∷ r) =
    let rest = collect count (push_new result o) r in
    if ltb (length result) count then rest else result

module _ (count : ℕ) where
  pub collect-Distinct :
      (result : List Bytes) (r : Ring) → Distinct result → Distinct (collect count result r)
  unfolding collect
  collect-Distinct result [] d = d
  collect-Distinct result ((q, o) ∷ r) d = elim (Bool-cases (ltb (length result) count)) [
    | inl more ↦ rw more (collect-Distinct (push_new result o) r (push_new-Distinct result o d))
    | inr full ↦ rw full d
  ]

  pub length-collect :
      (result : List Bytes) (r : Ring)
      → length result ≤ count
      → length (collect count result r) ≤ count
  unfolding collect
  length-collect result [] h = h
  length-collect result ((q, o) ∷ r) h =
      ground (arith, length-collect (push_new result o) r, length-push_new result o)

  -- A pass that ends short has collected every owner that it met.
  pub collect-keeps :
      (result : List Bytes) (r : Ring) (id : Bytes)
      → contains result id ≡ true
      → contains (collect count result r) id ≡ true
  unfolding collect
  collect-keeps result [] id h = h
  collect-keeps result ((q, o) ∷ r) id h =
      ground (arith, collect-keeps (push_new result o) r id, push_new-keeps result o id)

  pub collect-owns :
      (result : List Bytes) (r : Ring) (id : Bytes)
      → length (collect count result r) < count
      → owns r id ≡ true
      → contains (collect count result r) id ≡ true
  unfolding collect owns
  collect-owns result [] id short h = cc
  collect-owns result ((q, o) ∷ r) id short h = elim (Bool-cases (ltb (length result) count)) [
    | inr full ↦ absurd (omega (arith, ltb→le _ _ full, (rw full at short)))
    | inl more ↦ rw more (elim (Bool-cases (eq_bytes o id)) [
      | inl same ↦
          collect-keeps (push_new result o) r id
            (rw (← (eq_bytes_iff o id).0 same) (contains-push_new result o))
      | inr other ↦ collect-owns (push_new result o) r id (rw more at short) (rw other at h)
    ])
  ]

  -- Nothing else is collected.
  pub collect_only :
      (result : List Bytes) (r : Ring) (id : Bytes)
      → contains (collect count result r) id ≡ true
      → (contains result id ≡ true) ⊎ (owns r id ≡ true)
  unfolding collect owns contains
  collect_only result [] id h = inl h
  collect_only result ((q, o) ∷ r) id h =
      ground (arith, collect_only (push_new result o) r id, contains-append result (o ∷ []) id)

  pub collect_full :
      (result : List Bytes) (r : Ring) → count ≤ length result → collect count result r ≡ result
  unfolding collect
  collect_full result [] h = refl
  collect_full result ((q, o) ∷ r) h = ground arith

  -- The first node of a list that is not empty stays the first.
  pub collect-cons :
      (x : Bytes) (xs : List Bytes) (r : Ring)
      → (ys : List Bytes) × (collect count (x ∷ xs) r ≡ x ∷ ys)
  unfolding collect
  collect-cons x xs [] = (xs, refl)
  collect-cons x xs ((q, o) ∷ r) = elim (Bool-cases (ltb (length (x ∷ xs)) count)) [
    | inr full ↦ (xs, rw full refl)
    | inl more ↦ rw more (elim (Bool-cases (contains (x ∷ xs) o)) [
      | inl there ↦ rw there (collect-cons x xs r)
      | inr fresh ↦ rw fresh (collect-cons x (xs ++ o ∷ []) r)
    ])
  ]

  pub collect-nil : (result : List Bytes) → collect count result [] ≡ result
  unfolding collect
  collect-nil result = refl

  pub collect_more :
      (result : List Bytes) (q : ℕ) (o : Bytes) (r : Ring)
      → ltb (length result) count ≡ true
      → collect count result ((q, o) ∷ r) ≡ collect count (push_new result o) r
  unfolding collect
  collect_more result q o r h = rw h refl
