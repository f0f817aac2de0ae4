-- ===== src/Benchmark/Stats.antt =====
-- `compute_percentiles` of benchmark/stats.cpp. A `double` is an abstract type with the operations that
-- are used; `rank q n` is `std::ceil(p * n)`, converted to an integer, for the `p` of the quantile.
use distributed_kv_store.Prelude.{
  ℕ, ◌+◌, ◌-◌, ◌%◌, ◌^◌, Bool, List, [], ◌∷◌, length, get_or, ltb, if◌then◌else◌,
}
use distributed_kv_store.Sorting.{sort}

pub record PercentileStats (D : Type 0) : Type 0 where
  pub p50_ms : D
  pub p95_ms : D
  pub p99_ms : D
  pub mean_ms : D
  pub min_ms : D
  pub max_ms : D

pub data Quantile : Type 0 where
  p50 p95 p99 : Quantile

-- `size_t idx = ... - 1`, which wraps, and is clamped.
unfoldable pub index : ℕ → ℕ → ℕ
index rank n = let idx = (rank + (2 ^ 64 - 1)) % 2 ^ 64 in if ltb idx n then idx else n - 1

module _ {D : Type 0} (below : D → D → Bool) (add : D → D → D) (divide : D → ℕ → D)
    (rank : Quantile → ℕ → ℕ) (zero_ms : D) where
  unfoldable pub sum_from : D → List D → D
  sum_from sum [] = sum
  sum_from sum (v ∷ vs) = sum_from (add sum v) vs

  -- `percentile` of a sorted list.
  unfoldable pub percentile : List D → Quantile → D
  unfolding index
  percentile sorted q = get_or sorted (index (rank q (length sorted)) (length sorted)) zero_ms

  abbrev pub stats_of_sorted : List D → PercentileStats D
  stats_of_sorted sorted = record {
    p50_ms = percentile sorted p50;
    p95_ms = percentile sorted p95;
    p99_ms = percentile sorted p99;
    mean_ms = divide (sum_from zero_ms sorted) (length sorted);
    min_ms = get_or sorted 0 zero_ms;
    max_ms = get_or sorted (length sorted - 1) zero_ms;
  }

  unfoldable pub compute_percentiles : List D → PercentileStats D
  unfolding sum_from percentile
  compute_percentiles [] = record {
    p50_ms = zero_ms;
    p95_ms = zero_ms;
    p99_ms = zero_ms;
    mean_ms = zero_ms;
    min_ms = zero_ms;
    max_ms = zero_ms;
  }
  compute_percentiles (x ∷ xs) = stats_of_sorted (sort below (x ∷ xs))
