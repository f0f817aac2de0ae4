-- ===== src/Benchmark.antt =====
-- benchmark/main.cpp: the workers of kvbench, how the requests are shared among them, and what their
-- results are put together to. A `double` is an abstract type. What `send_request` returns for the
-- request with a number, with the milliseconds that were measured, is a parameter; `none` is an
-- exception. The threads share nothing but the configuration, so that they run one after another.
pub mod Accounting
pub mod Latencies
pub mod Stats
pub mod Percentiles
pub mod Report
pub mod Options
use distributed_kv_store.Prelude.{
  ℕ, zero, suc, ◌+◌, ◌/◌, ◌%◌, ◌^◌, Bool, true, false, List, [], ◌∷◌, ◌++◌, Option, none, some,
  Bytes, ltb, if◌then◌else◌,
}
use distributed_kv_store.Protocol.Messages.{Request, Response, ResponseType, Command, get, set}
use distributed_kv_store.Workload.{WorkloadGenerator, make_generator, next}

-- `RunConfig` of benchmark/stats.hpp.
pub record RunConfig (D : Type 0) : Type 0 where
  pub host : Bytes
  pub port : ℕ
  pub requests : ℕ
  pub concurrency : ℕ
  pub get_ratio : D
  pub key_space : ℕ
  pub value_size : ℕ
  pub seed : ℕ
  pub git_rev : Bytes

pub record ThreadResult (D : Type 0) : Type 0 where
  pub get_latencies_ms : List D
  pub set_latencies_ms : List D
  pub errors : ℕ

abbrev pub no_result : {D : Type 0} → ThreadResult D
no_result = record { get_latencies_ms = []; set_latencies_ms = []; errors = 0 }

-- `num_requests` of thread `t`.
unfoldable pub share : {D : Type 0} → RunConfig D → ℕ → ℕ
share cfg t =
    cfg.requests / cfg.concurrency + (if ltb t (cfg.requests % cfg.concurrency) then 1 else 0)

-- What all threads measured.
pub record Merged (D : Type 0) : Type 0 where
  pub all_latencies : List D
  pub get_latencies : List D
  pub set_latencies : List D
  pub total_errors : ℕ

module _ {D : Type 0} where
  abbrev pub add_error : ThreadResult D → ThreadResult D
  add_error r = record r { errors = r.errors + 1 }

  -- A response that came, by its type and the request's command.
  unfoldable pub count_response : Command → ResponseType → D → ThreadResult D → ThreadResult D
  count_response command ResponseType.error ms r = add_error r
  count_response get _ ms r = record r { get_latencies_ms = r.get_latencies_ms ++ ms ∷ [] }
  count_response _ _ ms r = record r { set_latencies_ms = r.set_latencies_ms ++ ms ∷ [] }

  unfoldable pub count_reply : Request → Option (Response × D) → ThreadResult D → ThreadResult D
  unfolding count_response
  count_reply req none r = add_error r
  count_reply req (some (resp, ms)) r = count_response req.command resp.kind ms r

  unfoldable pub merge : List (ThreadResult D) → Merged D → Merged D
  merge [] m = m
  merge (r ∷ rs) m = merge rs (record {
    all_latencies = (m.all_latencies ++ r.get_latencies_ms) ++ r.set_latencies_ms;
    get_latencies = m.get_latencies ++ r.get_latencies_ms;
    set_latencies = m.set_latencies ++ r.set_latencies_ms;
    total_errors = m.total_errors + r.errors;
  })

abbrev pub nothing_merged : {D : Type 0} → Merged D
nothing_merged = record {
  all_latencies = [];
  get_latencies = [];
  set_latencies = [];
  total_errors = 0;
}

module _ {D Rng : Type 0} (seeded : ℕ → Rng) (draw_key : ℕ → Rng → ℕ × Rng)
    (draw_get : D → Rng → Bool × Rng) where
  -- The loop of `worker` from its request number `i` on.
  unfoldable pub worker_loop :
      {ratio : D}
      → (ℕ → Request → Option (Response × D))
      → ℕ
      → ℕ
      → WorkloadGenerator draw_key (draw_get ratio)
      → ThreadResult D
      → ThreadResult D
  unfolding next count_reply
  worker_loop reply zero i g r = r
  worker_loop reply (suc n) i g r =
      let (req, g') = next draw_key (draw_get _) g in
      worker_loop reply n (i + 1) g' (count_reply req (reply i req) r)

  -- `connected`: connecting and setting the option succeed.
  unfoldable pub worker :
      ℕ
      → ℕ
      → RunConfig D
      → Bool
      → (ℕ → Request → Option (Response × D))
      → ThreadResult D
      → ThreadResult D
  unfolding worker_loop
  worker t n cfg false reply r = record r { errors = r.errors + n }
  worker t n cfg true reply r =
      worker_loop reply n 0
        (make_generator draw_key (draw_get cfg.get_ratio) (seeded ((cfg.seed + t) % 2 ^ 64))
          cfg.key_space cfg.value_size)
        r

  -- The results of `left` threads from thread `t` on.
  unfoldable pub run_workers :
      RunConfig D
      → (ℕ → Bool)
      → (ℕ → ℕ → Request → Option (Response × D))
      → ℕ
      → ℕ
      → List (ThreadResult D)
  unfolding worker share
  run_workers cfg connected reply zero t = []
  run_workers cfg connected reply (suc left) t =
      worker t (share cfg t) cfg (connected t) (reply t) no_result
      ∷ run_workers cfg connected reply left (t + 1)

  unfoldable pub run_benchmark :
      RunConfig D → (ℕ → Bool) → (ℕ → ℕ → Request → Option (Response × D)) → Merged D
  unfolding run_workers merge
  run_benchmark cfg connected reply =
      merge (run_workers cfg connected reply cfg.concurrency 0) nothing_merged

-- What `main` returns after the run.
unfoldable pub exit_code : {D : Type 0} → Merged D → ℕ
exit_code m = if ltb 0 m.total_errors then 2 else 0
