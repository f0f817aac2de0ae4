-- ===== src/FailoverBench/Timeline.antt =====
-- The timeline of kvfailover, a `std::map` from the start of a bucket of 100 ms to the requests and
-- errors in it, as the list of its entries. `hundreds` of a time is the conversion of a hundredth of
-- it to an integer; times count from the start of the run and are not negative.
use distributed_kv_store.Prelude.{
  ℕ, ◌+◌, ◌*◌, ◌<◌, Bool, true, false, List, [], ◌∷◌, ltb, ◌==◌, if◌then◌else◌, All,
}
use distributed_kv_store.FailoverBench.{Sample, all_samples}

pub record Bucket : Type 0 where
  pub start_ms : ℕ
  pub requests : ℕ
  pub errors : ℕ

abbrev pub error_of : Bool → ℕ
error_of true = 0
error_of false = 1

unfoldable pub count_in : ℕ → Bool → List Bucket → List Bucket
count_in start ok [] = record { start_ms = start; requests = 1; errors = error_of ok } ∷ []
count_in start ok (b ∷ bs) =
    if start == b.start_ms
    then record b { requests = b.requests + 1; errors = b.errors + error_of ok } ∷ bs
    else if ltb start b.start_ms
    then record { start_ms = start; requests = 1; errors = error_of ok } ∷ b ∷ bs
    else b ∷ count_in start ok bs

-- The entries for one start.
unfoldable pub requests_at : ℕ → List Bucket → ℕ
requests_at start [] = 0
requests_at start (b ∷ bs) = (if start == b.start_ms then b.requests else 0) + requests_at start bs

unfoldable pub errors_at : ℕ → List Bucket → ℕ
errors_at start [] = 0
errors_at start (b ∷ bs) = (if start == b.start_ms then b.errors else 0) + errors_at start bs

abbrev pub Increasing : List Bucket → Type 0
Increasing [] = Unit
Increasing (b ∷ bs) = All (λ c. b.start_ms < c.start_ms) bs × Increasing bs

module _ {D : Type 0} (hundreds : D → ℕ) where
  abbrev pub bucket_start : Sample D → ℕ
  bucket_start s = hundreds s.end_ms * 100

  unfoldable pub count_all_in : List (Sample D) → List Bucket → List Bucket
  unfolding count_in
  count_all_in [] bs = bs
  count_all_in (s ∷ ss) bs = count_all_in ss (count_in (bucket_start s) s.ok bs)

  unfoldable pub timeline : (D → D → Bool) → List (List (Sample D)) → List Bucket
  unfolding count_all_in
  timeline below threads = count_all_in (all_samples below threads) []
