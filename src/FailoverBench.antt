-- ===== src/FailoverBench.antt =====
-- `kvfailover` (tools/failover_bench.cpp): the samples that its workers take, and what they are
-- summarised to. A `double` is an abstract type with its `<` (`below`) and its `>=` (`at_least`).
pub mod Classification
pub mod Timeline
pub mod Options
use distributed_kv_store.Prelude.{
  ℕ, ◌+◌, Bool, true, false, not, ◌&&◌, ◌||◌, List, [], ◌∷◌, ◌++◌, Option, none, some, Bytes,
  length, if◌then◌else◌,
}
use distributed_kv_store.Protocol.Messages.{Request, Response, ResponseType}
use distributed_kv_store.Workload.{WorkloadGenerator, next}
use distributed_kv_store.Sorting.{sort}

pub record Sample (D : Type 0) : Type 0 where
  pub start_ms : D
  pub end_ms : D
  pub ok : Bool
  pub latency_ms : D

-- What one turn of a worker's loop meets: the time at its head, the times around the request, and the
-- response, where `none` is an exception.
pub record Turn (D : Type 0) : Type 0 where
  pub elapsed_ms : D
  pub start_ms : D
  pub reply : Request → Option Response
  pub end_ms : D
  pub latency_ms : D

pub record Summary (D : Type 0) : Type 0 where
  pub requests_before : ℕ
  pub errors_before : ℕ
  pub requests_after : ℕ
  pub errors_after : ℕ
  pub last_error_after_ts : D
  pub any_error_after : Bool

abbrev pub is_error : ResponseType → Bool
is_error ResponseType.error = true
is_error _ = false

module _ {D : Type 0} (no_latency : D) where
  unfoldable pub sample_of : Turn D → Option Response → Sample D
  sample_of t none = record {
    start_ms = t.start_ms;
    end_ms = t.end_ms;
    ok = false;
    latency_ms = no_latency;
  }
  sample_of t (some resp) = record {
    start_ms = t.start_ms;
    end_ms = t.end_ms;
    ok = not (is_error resp.kind);
    latency_ms = t.latency_ms;
  }

module _ {D Rng : Type 0} (at_least : D → D → Bool) (no_latency : D) (draw_key : ℕ → Rng → ℕ × Rng)
    (draw_get : Rng → Bool × Rng) where
  -- The loop of `worker`, up to the first turn that begins too late.
  unfoldable pub worker_loop :
      D → List (Turn D) → WorkloadGenerator draw_key draw_get → List (Sample D) → List (Sample D)
  unfolding next sample_of
  worker_loop duration_ms [] g samples = samples
  worker_loop duration_ms (t ∷ ts) g samples =
      let (req, g') = next draw_key draw_get g in
      let rest =
        worker_loop duration_ms ts g' (samples ++ sample_of no_latency t (t.reply req) ∷ []) in
      if at_least t.elapsed_ms duration_ms then samples else rest

module _ {D : Type 0} (below : D → D → Bool) where
  abbrev pub max_ms : D → D → D
  max_ms a b = if below a b then b else a

  -- A failure after the kill.
  abbrev pub count_error : Bool → D → Summary D → Summary D
  count_error true end_ms m = m
  count_error false end_ms m = record m {
    errors_after = m.errors_after + 1;
    any_error_after = true;
    last_error_after_ts = max_ms m.last_error_after_ts end_ms;
  }

  -- One turn of the loop that classifies.
  unfoldable pub classify : D → Sample D → Summary D → Summary D
  classify kill_ts_ms s m =
      if below s.end_ms kill_ts_ms
      then record m {
        requests_before = m.requests_before + 1;
        errors_before = m.errors_before + (if s.ok then 0 else 1);
      }
      else count_error s.ok s.end_ms (record m { requests_after = m.requests_after + 1 })

  unfoldable pub classify_all : D → List (Sample D) → Summary D → Summary D
  unfolding classify
  classify_all kill_ts_ms [] m = m
  classify_all kill_ts_ms (s ∷ ss) m = classify_all kill_ts_ms ss (classify kill_ts_ms s m)

  -- `all`, after it was sorted.
  unfoldable pub flatten : List (List (Sample D)) → List (Sample D)
  flatten [] = []
  flatten (v ∷ vs) = v ++ flatten vs

  unfoldable pub all_samples : List (List (Sample D)) → List (Sample D)
  unfolding flatten
  all_samples threads = sort (λ (a b : Sample D). below a.end_ms b.end_ms) (flatten threads)

  abbrev pub nothing_seen : D → Summary D
  nothing_seen kill_ts_ms = record {
    requests_before = 0;
    errors_before = 0;
    requests_after = 0;
    errors_after = 0;
    last_error_after_ts = kill_ts_ms;
    any_error_after = false;
  }

  unfoldable pub summarise : D → List (List (Sample D)) → Summary D
  unfolding classify_all all_samples
  summarise kill_ts_ms threads =
      classify_all kill_ts_ms (all_samples threads) (nothing_seen kill_ts_ms)

  unfoldable pub recovery_ms : (D → D → D) → D → D → Summary D → D
  recovery_ms subtract zero_ms kill_ts_ms m =
      if m.any_error_after then subtract m.last_error_after_ts kill_ts_ms else zero_ms

module _ {D : Type 0} (below at_least : D → D → Bool) where
  -- Whether a request failed in the last part of the run, which begins at `tail_ms`.
  unfoldable pub errors_at_tail : D → List (Sample D) → Bool
  errors_at_tail tail_ms [] = false
  errors_at_tail tail_ms (s ∷ ss) =
      at_least s.end_ms tail_ms && not s.ok || errors_at_tail tail_ms ss

  -- "recovery_bounded"
  unfoldable pub recovery_bounded : D → D → List (List (Sample D)) → Bool
  unfolding summarise errors_at_tail
  recovery_bounded kill_ts_ms tail_ms threads =
      not (summarise below kill_ts_ms threads).any_error_after
      || not (errors_at_tail tail_ms (all_samples below threads))
