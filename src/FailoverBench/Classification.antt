-- ===== src/FailoverBench/Classification.antt =====
-- The summary counts each sample of each worker once, and its last error is the last one.
use mathlib.Core.List.{Memᴰ}
use mathlib.Core.List.Memᴰ.{head, tail}
use distributed_kv_store.Prelude.{
  ◌+◌, ◌≡◌, refl, sym, ◌∙◌, ◌⊎◌, Bool, true, false, not, ◌&&◌, List, [], ◌∷◌, length, arith, ltb,
  if◌then◌else◌, Bool-cases, inl, inr,
}
use distributed_kv_store.Sorting.{Memᴰ-sort, tally_of, tally_of-sort, IsWeakOrder}
use distributed_kv_store.FailoverBench.{
  Sample, Summary, max_ms, classify, classify_all, flatten, all_samples, nothing_seen, summarise,
  recovery_ms,
}

module _ {D : Type 0} (below : D → D → Bool) (kill_ts_ms : D) where
  abbrev pub is_before : Sample D → Bool
  is_before s = below s.end_ms kill_ts_ms

  abbrev pub is_after : Sample D → Bool
  is_after s = not (below s.end_ms kill_ts_ms)

  abbrev pub failed_before : Sample D → Bool
  failed_before s = below s.end_ms kill_ts_ms && not s.ok

  abbrev pub failed_after : Sample D → Bool
  failed_after s = not (below s.end_ms kill_ts_ms) && not s.ok

  -- What one more sample adds.
  classify-counts :
      (s : Sample D) (m : Summary D)
      → let m' = classify below kill_ts_ms s m in
        (m'.requests_before ≡ m.requests_before + (if is_before s then 1 else 0))
        × (m'.errors_before ≡ m.errors_before + (if failed_before s then 1 else 0))
        × (m'.requests_after ≡ m.requests_after + (if is_after s then 1 else 0))
        × (m'.errors_after ≡ m.errors_after + (if failed_after s then 1 else 0))
  unfolding classify
  classify-counts s m = ground arith

  classify_all-counts :
      (ss : List (Sample D)) (m : Summary D)
      → let r = classify_all below kill_ts_ms ss m in
        (r.requests_before ≡ m.requests_before + tally_of is_before ss)
        × (r.errors_before ≡ m.errors_before + tally_of failed_before ss)
        × (r.requests_after ≡ m.requests_after + tally_of is_after ss)
        × (r.errors_after ≡ m.errors_after + tally_of failed_after ss)
  unfolding classify_all tally_of
  classify_all-counts [] m = (omega arith, omega arith, omega arith, omega arith)
  classify_all-counts (s ∷ ss) m =
      let (b, eb, a, ea) = classify-counts s m in
      let (bs, ebs, afters, eas) = classify_all-counts ss (classify below kill_ts_ms s m) in
      (
        omega (arith, b, bs),
        omega (arith, eb, ebs),
        omega (arith, a, afters),
        omega (arith, ea, eas),
      )

  classify-any :
      (s : Sample D) (m : Summary D)
      → m.any_error_after ≡ ltb 0 m.errors_after
      → (classify below kill_ts_ms s m).any_error_after
        ≡ ltb 0 (classify below kill_ts_ms s m).errors_after
  unfolding classify
  classify-any s m h = ground (arith, h)

  -- The flag says whether there is an error after the kill.
  classify_all-any :
      (ss : List (Sample D)) (m : Summary D)
      → m.any_error_after ≡ ltb 0 m.errors_after
      → let r = classify_all below kill_ts_ms ss m in r.any_error_after ≡ ltb 0 r.errors_after
  unfolding classify_all
  classify_all-any [] m h = h
  classify_all-any (s ∷ ss) m h = classify_all-any ss _ (classify-any s m h)

  module _ (order : IsWeakOrder below) where
    below_irrefl : (a : D) → below a a ≡ false
    below_irrefl a = elim (Bool-cases (below a a)) [ inl h ↦ order.asymmetric a a h | inr h ↦ h ]

    max_ms-left : (a b : D) → below (max_ms below a b) a ≡ false
    max_ms-left a b = elim (Bool-cases (below a b)) [
      | inl h ↦ rw h (order.asymmetric a b h)
      | inr h ↦ rw h (below_irrefl a)
    ]

    max_ms-right : (a b : D) → below (max_ms below a b) b ≡ false
    max_ms-right a b = elim (Bool-cases (below a b)) [
      | inl h ↦ rw h (below_irrefl b)
      | inr h ↦ rw h h
    ]

    classify-last :
        (s : Sample D) (m : Summary D)
        → let t = (classify below kill_ts_ms s m).last_error_after_ts in
          (below t m.last_error_after_ts ≡ false) × (failed_after s && below t s.end_ms ≡ false)
    unfolding classify
    classify-last s m = ground (
      arith,
      max_ms-left m.last_error_after_ts s.end_ms,
      max_ms-right m.last_error_after_ts s.end_ms,
      below_irrefl m.last_error_after_ts,
    )

    -- The time of the last error is not below an earlier one, nor below that of any failed sample.
    classify_all-last :
        (ss : List (Sample D)) (m : Summary D)
        → let t = (classify_all below kill_ts_ms ss m).last_error_after_ts in
          (below t m.last_error_after_ts ≡ false)
          × (tally_of (λ s. failed_after s && below t s.end_ms) ss ≡ 0)
    unfolding classify_all tally_of
    classify_all-last [] m = (below_irrefl m.last_error_after_ts, refl)
    classify_all-last (s ∷ ss) m =
        let m' = classify below kill_ts_ms s m in
        let t = (classify_all below kill_ts_ms ss m').last_error_after_ts in
        let (later, covered) = classify_all-last ss m' in
        let (at_least, this) = classify-last s m in
        (
          order.cotransitive m.last_error_after_ts m'.last_error_after_ts t at_least later,
          ground
              (arith, covered, this, later, order.cotransitive s.end_ms m'.last_error_after_ts t),
        )

  tally_of-before_after :
      (ss : List (Sample D)) → tally_of is_before ss + tally_of is_after ss ≡ length ss
  unfolding tally_of
  tally_of-before_after [] = omega arith
  tally_of-before_after (s ∷ ss) = ground (arith, tally_of-before_after ss)

  -- The counters of the summary are the numbers of the samples of all workers whose outcome came
  -- before the kill, of those that failed among them, and of the same after it; together they are all
  -- samples. An error after the kill is flagged if and only if there is one, and without one the
  -- recovery time is zero.
  pub summarise-counts :
      (subtract : D → D → D) (zero_ms : D) (threads : List (List (Sample D)))
      → let r = summarise below kill_ts_ms threads in
        let ss = flatten below threads in
        (r.requests_before ≡ tally_of is_before ss)
        × (r.errors_before ≡ tally_of failed_before ss)
        × (r.requests_after ≡ tally_of is_after ss)
        × (r.errors_after ≡ tally_of failed_after ss)
        × (r.requests_before + r.requests_after ≡ length ss)
        × (r.any_error_after ≡ ltb 0 (tally_of failed_after ss))
        × (tally_of failed_after ss ≡ 0 → recovery_ms below subtract zero_ms kill_ts_ms r ≡ zero_ms)
  unfolding summarise recovery_ms
  summarise-counts subtract zero_ms threads =
      let ss = flatten below threads in
      let sorted = all_samples below threads in
      let (b, eb, a, ea) = classify_all-counts sorted (nothing_seen below kill_ts_ms) in
      let any = classify_all-any sorted (nothing_seen below kill_ts_ms) refl in
      let same : (p : Sample D → Bool) → tally_of p sorted ≡ tally_of p ss =
        λ p. unfold all_samples in tally_of-sort (λ x y. below x.end_ms y.end_ms) p ss in
      (
        omega (arith, b, same is_before),
        omega (arith, eb, same failed_before),
        omega (arith, a, same is_after),
        omega (arith, ea, same failed_after),
        omega (arith, b, a, same is_before, same is_after, tally_of-before_after ss),
        ground (arith, any, ea, same failed_after),
        λ none_failed. ground (arith, any, ea, same failed_after, none_failed),
      )

  -- The end of one of the samples that failed after the kill, or else the time of the kill.
  abbrev pub IsErrorTime : D → List (Sample D) → Type 0
  IsErrorTime t ss =
      (t ≡ kill_ts_ms) ⊎ ((s : Sample D) × Memᴰ s ss × (failed_after s ≡ true) × (s.end_ms ≡ t))

  -- One sample keeps the time, or puts its own there.
  classify-time :
      (s : Sample D) (m : Summary D)
      → let t = (classify below kill_ts_ms s m).last_error_after_ts in
        (t ≡ m.last_error_after_ts) ⊎ ((failed_after s ≡ true) × (s.end_ms ≡ t))
  unfolding classify
  classify-time s m = elim (Bool-cases (below s.end_ms kill_ts_ms)) [
    | inl early ↦ rw early (inl refl)
    | inr late ↦ rw late (elim (Bool-cases s.ok) [
      | inl fine ↦ rw fine (inl refl)
      | inr failed ↦ rw failed (elim (Bool-cases (below m.last_error_after_ts s.end_ms)) [
        | inl later ↦ rw later (inr (refl, refl))
        | inr earlier ↦ rw earlier (inl refl)
      ])
    ])
  ]

  classify_all-time :
      (ss : List (Sample D)) (m : Summary D)
      → let t = (classify_all below kill_ts_ms ss m).last_error_after_ts in
        (t ≡ m.last_error_after_ts)
        ⊎ ((s : Sample D) × Memᴰ s ss × (failed_after s ≡ true) × (s.end_ms ≡ t))
  unfolding classify_all
  classify_all-time [] m = inl refl
  classify_all-time (s ∷ ss) m = elim (classify_all-time ss (classify below kill_ts_ms s m)) [
    | inr (s', there, failed, e) ↦ inr (s', tail there, failed, e)
    | inl kept ↦ elim (classify-time s m) [
      | inl same ↦ inl (kept ∙ same)
      | inr (failed, e) ↦ inr (s, head refl, failed, e ∙ sym kept)
    ]
  ]

  -- Where `<` of the times is a weak order: the time of the last error is that of the kill or the end
  -- of a sample of some worker that failed after the kill; it is not below the kill, and no sample of
  -- any worker that failed after the kill ended later.
  pub summarise-last :
      (order : IsWeakOrder below) (threads : List (List (Sample D)))
      → let t = (summarise below kill_ts_ms threads).last_error_after_ts in
        IsErrorTime t (flatten below threads)
        × (below t kill_ts_ms ≡ false)
        × (tally_of (λ s. failed_after s && below t s.end_ms) (flatten below threads) ≡ 0)
  unfolding summarise all_samples
  summarise-last order threads =
      let ss = flatten below threads in
      let before = λ (x y : Sample D). below x.end_ms y.end_ms in
      let r =
        classify_all below kill_ts_ms (all_samples below threads) (nothing_seen below kill_ts_ms) in
      let (later, covered) =
        classify_all-last order (all_samples below threads) (nothing_seen below kill_ts_ms) in
      (
        elim (classify_all-time (all_samples below threads) (nothing_seen below kill_ts_ms)) [
          | inl same ↦ inl same
          | inr (s, there, failed, e) ↦ inr (s, Memᴰ-sort before s ss there, failed, e)
        ],
        later,
        sym (tally_of-sort before (λ s. failed_after s && below r.last_error_after_ts s.end_ms) ss)
            ∙ covered,
      )
