-- ===== src/Benchmark/Percentiles.antt =====
-- The percentiles are order statistics of the measured latencies.
use distributed_kv_store.Prelude.{
  ℕ, zero, suc, ◌+◌, ◌-◌, ◌^◌, ◌<◌, ◌≤◌, ◌≡◌, refl, Bool, true, false, not, List, [], ◌∷◌, length,
  get_or, if◌then◌else◌, arith, All, Bool-cases, inl, inr,
}
use distributed_kv_store.Sorting.{
  tally_of, tally_of-sort, sort, length-sort, Sorted, sort-Sorted, IsWeakOrder,
}
use distributed_kv_store.Benchmark.Stats.{
  PercentileStats, Quantile, p50, p95, p99, index, percentile, compute_percentiles,
}

module _ {D : Type 0} (below : D → D → Bool) (order : IsWeakOrder below) where
  below_irrefl : (a : D) → below a a ≡ false
  below_irrefl a = elim (Bool-cases (below a a)) [ inl h ↦ order.asymmetric a a h | inr h ↦ h ]

  All-get_or :
      (P : D → Type 0) (xs : List D) (i : ℕ) (d : D) → All P xs → i < length xs → P (get_or xs i d)
  All-get_or P [] i d h hi = absurd (omega arith)
  All-get_or P (x ∷ xs) zero d (hx, hs) hi = hx
  All-get_or P (x ∷ xs) (suc i) d (hx, hs) hi = All-get_or P xs i d hs (omega arith)

  tally_of-none : (p : D → Bool) (xs : List D) → All (λ x. p x ≡ false) xs → tally_of p xs ≡ 0
  unfolding tally_of
  tally_of-none p [] h = refl
  tally_of-none p (x ∷ xs) (hx, hs) = rw hx (omega (arith, tally_of-none p xs hs))

  -- At most `i` elements of a sorted list are below the one with index `i`, and more than `i` are not
  -- above it.
  Sorted-rank :
      (ys : List D) (i : ℕ) (d : D)
      → Sorted below ys
      → i < length ys
      → (tally_of (λ y. below y (get_or ys i d)) ys ≤ i)
        × (i < tally_of (λ y. not (below (get_or ys i d) y)) ys)
  unfolding tally_of
  Sorted-rank [] i d h hi = absurd (omega arith)
  Sorted-rank (y ∷ ys) zero d (hy, hs) hi =
      rw (below_irrefl y) (omega (arith, tally_of-none (λ z. below z y) ys hy), omega arith)
  Sorted-rank (y ∷ ys) (suc i) d (hy, hs) hi =
      let (fewer, more) = Sorted-rank ys i d hs (omega arith) in
      let v = get_or ys i d in
      let above : below v y ≡ false = All-get_or (λ z. below z y ≡ false) ys i d hy (omega arith) in
      (at_most (below y v) fewer, rw above (omega (arith, more)))
    where
      at_most : {n : ℕ} (b : Bool) → n ≤ i → (if b then 1 else 0) + n ≤ suc i
      at_most true h = omega (arith, h)
      at_most false h = omega (arith, h)

  -- Elements with greater indices are not below.
  Sorted-get_or :
      (ys : List D) (i j : ℕ) (d : D)
      → Sorted below ys
      → i ≤ j
      → j < length ys
      → below (get_or ys j d) (get_or ys i d) ≡ false
  Sorted-get_or [] i j d h hij hj = absurd (omega arith)
  Sorted-get_or (y ∷ ys) zero zero d h hij hj = below_irrefl y
  Sorted-get_or (y ∷ ys) zero (suc j) d (hy, hs) hij hj =
      All-get_or (λ z. below z y ≡ false) ys j d hy (omega arith)
  Sorted-get_or (y ∷ ys) (suc i) zero d h hij hj = absurd (omega arith)
  Sorted-get_or (y ∷ ys) (suc i) (suc j) d (hy, hs) hij hj =
      Sorted-get_or ys i j d hs (omega arith) (omega arith)

pub index-rank : (rank n : ℕ) → 0 < rank → rank ≤ n → n < 2 ^ 64 → index rank n + 1 ≡ rank
unfolding index
index-rank rank n some_rank fits bounded = ground arith

-- The statistic that a quantile is reported in.
unfoldable pub of_quantile : {D : Type 0} → Quantile → PercentileStats D → D
of_quantile p50 s = s.p50_ms
of_quantile p95 s = s.p95_ms
of_quantile p99 s = s.p99_ms

module _ {D : Type 0} (below : D → D → Bool) (add : D → D → D) (divide : D → ℕ → D)
    (rank : Quantile → ℕ → ℕ) (zero_ms : D) (order : IsWeakOrder below) where
  of_quantile-percentile :
      (q : Quantile) (x : D) (xs : List D)
      → of_quantile q (compute_percentiles below add divide rank zero_ms (x ∷ xs))
        ≡ percentile below add divide rank zero_ms (sort below (x ∷ xs)) q
  unfolding of_quantile compute_percentiles
  of_quantile-percentile p50 x xs = refl
  of_quantile-percentile p95 x xs = refl
  of_quantile-percentile p99 x xs = refl

  sorted_rank :
      (xs : List D) (i : ℕ)
      → i < length xs
      → (tally_of (λ y. below y (get_or (sort below xs) i zero_ms)) xs ≤ i)
        × (i < tally_of (λ y. not (below (get_or (sort below xs) i zero_ms) y)) xs)
  sorted_rank xs i h =
      let v = get_or (sort below xs) i zero_ms in
      let (fewer, more) =
        Sorted-rank below order (sort below xs) i zero_ms (sort-Sorted below order xs)
          (omega (arith, h, length-sort below xs)) in
      (
        omega (arith, fewer, tally_of-sort below (λ y. below y v) xs),
        omega (arith, more, tally_of-sort below (λ y. not (below v y)) xs),
      )

  -- Where `<` of the latencies is a weak order, which it is without NaN, and the rank of the quantile
  -- is between 1 and their number, itself below 2 ^ 64: the reported percentile is the latency with that rank. Fewer
  -- latencies are below it, and at least as many are not above it.
  pub compute_percentiles-rank :
      (q : Quantile) (xs : List D)
      → 0 < rank q (length xs)
      → rank q (length xs) ≤ length xs
      → length xs < 2 ^ 64
      → let v = of_quantile q (compute_percentiles below add divide rank zero_ms xs) in
        (tally_of (λ y. below y v) xs < rank q (length xs))
        × (rank q (length xs) ≤ tally_of (λ y. not (below v y)) xs)
  compute_percentiles-rank q [] some_rank fits bounded = absurd (omega arith)
  compute_percentiles-rank q (x ∷ xs) some_rank fits bounded =
      let n = length (x ∷ xs) in
      let at = index-rank (rank q n) n some_rank fits bounded in
      let (fewer, more) = sorted_rank (x ∷ xs) (index (rank q n) n) (omega (arith, at, fits)) in
      rw (of_quantile-percentile q x xs) (
        unfold percentile in
        rw (length-sort below (x ∷ xs)) (omega (arith, at, fewer), omega (arith, at, more)))

  -- Where `<` is a weak order and the ranks are such numbers that grow with the quantile: no percentile
  -- is below the minimum or a smaller percentile, nor above the maximum.
  pub compute_percentiles-Ordered :
      (xs : List D)
      → 0 < rank p50 (length xs)
      → rank p50 (length xs) ≤ rank p95 (length xs)
      → rank p95 (length xs) ≤ rank p99 (length xs)
      → rank p99 (length xs) ≤ length xs
      → length xs < 2 ^ 64
      → let s = compute_percentiles below add divide rank zero_ms xs in
        (below s.p50_ms s.min_ms ≡ false)
        × (below s.p95_ms s.p50_ms ≡ false)
        × (below s.p99_ms s.p95_ms ≡ false)
        × (below s.max_ms s.p99_ms ≡ false)
  compute_percentiles-Ordered [] h50 h95 h99 fits bounded = absurd (omega arith)
  compute_percentiles-Ordered (x ∷ xs) h50 h95 h99 fits bounded =
      let ys = sort below (x ∷ xs) in
      let n = length (x ∷ xs) in
      let len = length-sort below (x ∷ xs) in
      let at = λ (q : Quantile) (some_rank : 0 < rank q n) (fit : rank q n ≤ n).
        index-rank (rank q n) n some_rank fit bounded in
      let at50 = at p50 h50 (omega arith) in
      let at95 = at p95 (omega arith) (omega arith) in
      let at99 = at p99 (omega arith) fits in
      let ordered =
        λ (i j : ℕ). Sorted-get_or below order ys i j zero_ms (sort-Sorted below order (x ∷ xs)) in
      unfold compute_percentiles percentile in
      rw len (
        ordered 0 (index (rank p50 n) n) (omega arith) (omega (arith, at50, len)),
        ordered (index (rank p50 n) n) (index (rank p95 n) n) (omega (arith, at50, at95))
            (omega (arith, at95, len)),
        ordered (index (rank p95 n) n) (index (rank p99 n) n) (omega (arith, at95, at99))
            (omega (arith, at99, len)),
        ordered (index (rank p99 n) n) (n - 1) (omega (arith, at99)) (omega (arith, len)),
      )
