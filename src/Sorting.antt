-- ===== src/Sorting.antt =====
-- `std::sort`, as benchmark/stats.cpp and tools/failover_bench.cpp call it. It leaves the order of
-- elements that compare equal open; the insertion sort here is one such order.
use mathlib.Core.List.{Memᴰ}
use mathlib.Core.List.Memᴰ.{head, tail}
use distributed_kv_store.Prelude.{
  ℕ, suc, ◌+◌, ◌≡◌, refl, Bool, true, false, List, [], ◌∷◌, ◌++◌, length, arith, ◌⊎◌, All, All-mono,
  Bool-cases, inl, inr, if◌then◌else◌,
}

module _ {ℓ} {A : Type ℓ} where
  -- How many elements pass a test.
  unfoldable pub tally_of : (A → Bool) → List A → ℕ
  tally_of p [] = 0
  tally_of p (x ∷ xs) = (if p x then 1 else 0) + tally_of p xs

  pub tally_of-append :
      (p : A → Bool) (xs ys : List A) → tally_of p (xs ++ ys) ≡ tally_of p xs + tally_of p ys
  unfolding tally_of
  tally_of-append p [] ys = omega arith
  tally_of-append p (x ∷ xs) ys = omega (arith, tally_of-append p xs ys)

  -- Each element passes exactly one of two tests, or none of them and the third.
  pub tally_of-split :
      (p q r : A → Bool)
      → ((x : A) → (if p x then 1 else 0) + (if q x then 1 else 0) ≡ (if r x then 1 else 0))
      → (xs : List A) → tally_of p xs + tally_of q xs ≡ tally_of r xs
  unfolding tally_of
  tally_of-split p q r h [] = omega arith
  tally_of-split p q r h (x ∷ xs) = omega (arith, h x, tally_of-split p q r h xs)

  pub tally_of-every :
      (p : A → Bool) (xs : List A) → All (λ x. p x ≡ true) xs → tally_of p xs ≡ length xs
  unfolding tally_of
  tally_of-every p [] h = refl
  tally_of-every p (x ∷ xs) (hx, hs) = rw hx (omega (arith, tally_of-every p xs hs))

module _ {ℓ} {A : Type ℓ} (before : A → A → Bool) where
  unfoldable insert : A → List A → List A
  insert x [] = x ∷ []
  insert x (y ∷ ys) = if before y x then y ∷ insert x ys else x ∷ y ∷ ys

  unfoldable pub sort : List A → List A
  unfolding insert
  sort [] = []
  sort (x ∷ xs) = insert x (sort xs)

  -- No element is before one that stands to its left.
  abbrev pub Sorted : List A → Type 0
  Sorted [] = Unit
  Sorted (x ∷ xs) = All (λ y. before y x ≡ false) xs × Sorted xs

  tally_of-insert :
      (p : A → Bool) (x : A) (ys : List A)
      → tally_of p (insert x ys) ≡ (if p x then 1 else 0) + tally_of p ys
  unfolding insert tally_of
  tally_of-insert p x [] = omega arith
  tally_of-insert p x (y ∷ ys) = elim (Bool-cases (before y x)) [
    | inl h ↦ rw h (omega (arith, tally_of-insert p x ys))
    | inr h ↦ rw h (omega arith)
  ]

  -- Sorting keeps each element as often as it was there.
  pub tally_of-sort : (p : A → Bool) (xs : List A) → tally_of p (sort xs) ≡ tally_of p xs
  unfolding sort tally_of
  tally_of-sort p [] = refl
  tally_of-sort p (x ∷ xs) = omega (arith, tally_of-insert p x (sort xs), tally_of-sort p xs)

  Memᴰ-insert : (a x : A) (ys : List A) → Memᴰ a (insert x ys) → (a ≡ x) ⊎ Memᴰ a ys
  unfolding insert
  Memᴰ-insert a x [] (head e) = inl e
  Memᴰ-insert a x [] (tail m) = inr m
  Memᴰ-insert a x (y ∷ ys) m = elim (Bool-cases (before y x)) [
    | inl h ↦ later (λ m'. Memᴰ-insert a x ys m') (rw h at m)
    | inr h ↦ first (rw h at m)
  ]
    where
      later :
          (Memᴰ a (insert x ys) → (a ≡ x) ⊎ Memᴰ a ys)
          → Memᴰ a (y ∷ insert x ys)
          → (a ≡ x) ⊎ Memᴰ a (y ∷ ys)
      later ih (head e) = inr (head e)
      later ih (tail m') = elim (ih m') [ inl e ↦ inl e | inr m'' ↦ inr (tail m'') ]

      first : Memᴰ a (x ∷ y ∷ ys) → (a ≡ x) ⊎ Memᴰ a (y ∷ ys)
      first (head e) = inl e
      first (tail m') = inr m'

  -- What stands in the sorted list stood in the list.
  pub Memᴰ-sort : (a : A) (xs : List A) → Memᴰ a (sort xs) → Memᴰ a xs
  unfolding sort
  Memᴰ-sort a [] m = m
  Memᴰ-sort a (x ∷ xs) m = elim (Memᴰ-insert a x (sort xs) m) [
    | inl e ↦ head e
    | inr m' ↦ tail (Memᴰ-sort a xs m')
  ]

  length-insert : (x : A) (ys : List A) → length (insert x ys) ≡ suc (length ys)
  unfolding insert
  length-insert x [] = refl
  length-insert x (y ∷ ys) = elim (Bool-cases (before y x)) [
    | inl h ↦ rw h (omega (arith, length-insert x ys))
    | inr h ↦ rw h refl
  ]

  pub length-sort : (xs : List A) → length (sort xs) ≡ length xs
  unfolding sort
  length-sort [] = refl
  length-sort (x ∷ xs) = omega (arith, length-insert x (sort xs), length-sort xs)

  All-insert {κ} : (P : A → Type κ) (x : A) (ys : List A) → P x → All P ys → All P (insert x ys)
  unfolding insert
  All-insert P x [] hx hs = (hx, tt)
  All-insert P x (y ∷ ys) hx (hy, hs) = elim (Bool-cases (before y x)) [
    | inl h ↦ rw h (hy, All-insert P x ys hx hs)
    | inr h ↦ rw h (hx, (hy, hs))
  ]

  -- A test that is neither reflexive nor symmetric on any values, and whose failure is transitive.
  pub record IsWeakOrder : Type ℓ where
    pub asymmetric : (a b : A) → before a b ≡ true → before b a ≡ false
    pub cotransitive : (a b c : A) → before b a ≡ false → before c b ≡ false → before c a ≡ false

  module _ (order : IsWeakOrder) where
    insert-Sorted : (x : A) (ys : List A) → Sorted ys → Sorted (insert x ys)
    unfolding insert
    insert-Sorted x [] h = (tt, tt)
    insert-Sorted x (y ∷ ys) (hy, hs) = elim (Bool-cases (before y x)) [
      | inl h ↦ rw h (
        All-insert (λ z. before z y ≡ false) x ys (order.asymmetric y x h) hy,
        insert-Sorted x ys hs,
      )
      | inr h ↦ rw h (
        (
          h,
          All-mono (λ z. before z y ≡ false) (λ z. before z x ≡ false)
              (λ z hz. order.cotransitive x y z h hz) ys hy,
        ),
        (hy, hs),
      )
    ]

    pub sort-Sorted : (xs : List A) → Sorted (sort xs)
    unfolding sort
    sort-Sorted [] = tt
    sort-Sorted (x ∷ xs) = insert-Sorted x (sort xs) (sort-Sorted xs)
