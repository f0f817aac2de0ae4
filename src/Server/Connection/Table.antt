-- ===== src/Server/Connection/Table.antt =====
-- The poll table and the parsers of a reactor: how often a descriptor stands in each.
use distributed_kv_store.Prelude.{
  ℕ, zero, suc, ◌+◌, ◌≤◌, ◌≡◌, refl, ap, List, [], ◌∷◌, ◌++◌, some, inl, inr, arith, get_elem?,
  set as set_elem, ◌==◌, ==_iff, if◌then◌else◌, Bool-cases,
}
use mathlib.Core.Option.{some-injective}
use distributed_kv_store.Protocol.Messages.{Parser}
use distributed_kv_store.Server.Connection.{
  Parsers, find_parser, put_parser, emplace_parser, erase_parser, back, pop_back, swap_remove,
}

-- 1 for the descriptor itself, 0 for any other.
abbrev pub one_if : ℕ → ℕ → ℕ
one_if x fd = if x == fd then 1 else 0

unfoldable pub count : ℕ → List ℕ → ℕ
count fd [] = 0
count fd (x ∷ xs) = one_if x fd + count fd xs

unfoldable pub count_keys : ℕ → Parsers → ℕ
count_keys fd [] = 0
count_keys fd ((k, p) ∷ ps) = one_if k fd + count_keys fd ps

module _ (fd : ℕ) where
  pub count-append : (xs ys : List ℕ) → count fd (xs ++ ys) ≡ count fd xs + count fd ys
  unfolding count
  count-append [] ys = omega arith
  count-append (x ∷ xs) ys = omega (arith, count-append xs ys)

  count-set :
      (xs : List ℕ) (i v : ℕ) {old : ℕ}
      → get_elem? xs i ≡ some old
      → count fd (set_elem xs i v) + one_if old fd ≡ count fd xs + one_if v fd
  unfolding count
  count-set [] i v h = cc (h)
  count-set (x ∷ xs) zero v h = rw (some-injective _ _ h) (omega arith)
  count-set (x ∷ xs) (suc i) v h = omega (arith, count-set xs i v h)

  count-pop_back :
      (x : ℕ) (xs : List ℕ) → count fd (pop_back x xs) + one_if (back x xs) fd ≡ count fd (x ∷ xs)
  unfolding count pop_back back
  count-pop_back x [] = omega arith
  count-pop_back x (y ∷ ys) = omega (arith, count-pop_back y ys)

  -- The last entry stays the last one when a copy of it is written anywhere.
  back-set : (x : ℕ) (xs : List ℕ) (i : ℕ) → back x (set_elem xs i (back x xs)) ≡ back x xs
  unfolding back
  back-set x [] i = refl
  back-set x (y ∷ ys) zero = back-same ys
    where
      back-same : (zs : List ℕ) → back (back y zs) zs ≡ back y zs
      back-same [] = refl
      back-same (z ∷ zs) = refl
  back-set x (y ∷ ys) (suc i) = back-set y ys i

  pub count-swap_remove :
      (xs : List ℕ) (i : ℕ) {old : ℕ}
      → get_elem? xs i ≡ some old
      → count fd (swap_remove xs i) + one_if old fd ≡ count fd xs
  unfolding swap_remove count back
  count-swap_remove [] i h = cc (h)
  count-swap_remove (x ∷ xs) zero h = omega (
    arith,
    count-set (x ∷ xs) zero (back x xs) h,
    count-pop_back (back x xs) xs,
    ap (λ b. one_if b fd) (back-head xs),
  )
    where
      back-head : (zs : List ℕ) → back (back x zs) zs ≡ back x zs
      back-head [] = refl
      back-head (z ∷ zs) = refl
  count-swap_remove (x ∷ xs) (suc i) h = omega (
    arith,
    count-set (x ∷ xs) (suc i) (back x xs) h,
    count-pop_back x (set_elem xs i (back x xs)),
    ap (λ b. one_if b fd) (back-set x xs i),
  )

  pub count_keys-put :
      (k : ℕ) (p : Parser) (ps : Parsers) → count_keys fd (put_parser k p ps) ≡ count_keys fd ps
  unfolding count_keys put_parser
  count_keys-put k p [] = refl
  count_keys-put k p ((j, q) ∷ ps) = ground (arith, count_keys-put k p ps)

  pub count_keys-emplace :
      (k : ℕ) (ps : Parsers)
      → count_keys k ps ≡ 0
      → count_keys fd (emplace_parser k ps) ≡ count_keys fd ps + one_if k fd
  unfolding count_keys emplace_parser
  count_keys-emplace k [] h = omega arith
  count_keys-emplace k ((j, q) ∷ ps) h = ground (arith, count_keys-emplace k ps)

  pub count_keys-erase :
      (k : ℕ) (ps : Parsers)
      → count_keys k ps ≡ 1
      → count_keys fd (erase_parser k ps) + one_if k fd ≡ count_keys fd ps
  unfolding count_keys erase_parser
  count_keys-erase k [] h = absurd (omega (arith, h))
  count_keys-erase k ((j, q) ∷ ps) h = ground (arith, count_keys-erase k ps)

  -- A key that is there is found.
  pub find_parser-there :
      (ps : Parsers) → count_keys fd ps ≡ 1 → (p : Parser) × (find_parser fd ps ≡ some p)
  unfolding count_keys find_parser
  find_parser-there [] h = absurd (omega (arith, h))
  find_parser-there ((j, q) ∷ ps) h = elim (Bool-cases (j == fd)) [
    | inl same ↦ (q, rw same refl)
    | inr other ↦ let (p, e) = find_parser-there ps (ground (arith, other)) in (p, rw other e)
  ]

-- An entry of the table is counted.
pub count-get_elem : (xs : List ℕ) (i : ℕ) {x : ℕ} → get_elem? xs i ≡ some x → 1 ≤ count x xs
unfolding count
count-get_elem [] i h = cc (h)
count-get_elem (y ∷ xs) zero {x} h = rw (some-injective _ _ h) (ground (arith, ==_iff x x))
count-get_elem (y ∷ xs) (suc i) h = omega (arith, count-get_elem xs i h)
