-- ===== src/Benchmark/Accounting.antt =====
-- Every request of a run is counted once.
use native.Mathlib.Nat.{mod-lt}
use distributed_kv_store.Prelude.{
  ℕ, zero, suc, ◌+◌, ◌*◌, ◌/◌, ◌%◌, ◌<◌, ◌≡◌, refl, Bool, true, false, min, List, [], ◌∷◌, ◌++◌,
  Option, none, some, arith, length, length-append,
}
use distributed_kv_store.Protocol.Messages.{Request, Response, ResponseType, Command}
use distributed_kv_store.Workload.{WorkloadGenerator, next}
use distributed_kv_store.Benchmark.Latencies.{
  times, is_get, is_other, all_exchanges, run_benchmark-times,
}
use distributed_kv_store.Benchmark.{
  RunConfig, ThreadResult, no_result, share, Merged, count_response, count_reply, merge,
  nothing_merged, worker_loop, worker, run_workers, run_benchmark,
}

module _ {D : Type 0} where
  -- What a thread has counted.
  abbrev pub counted : ThreadResult D → ℕ
  counted r = length r.get_latencies_ms + length r.set_latencies_ms + r.errors

  unfoldable pub counted_by_all : List (ThreadResult D) → ℕ
  counted_by_all [] = 0
  counted_by_all (r ∷ rs) = counted r + counted_by_all rs

  count_response-counted :
      (command : Command) (kind : ResponseType) (ms : D) (r : ThreadResult D)
      → counted (count_response command kind ms r) ≡ counted r + 1
  unfolding count_response
  count_response-counted command kind ms r =
      let gets = length-append r.get_latencies_ms (ms ∷ []) in
      let sets = length-append r.set_latencies_ms (ms ∷ []) in ground (arith, gets, sets)

  count_reply-counted :
      (req : Request) (reply : Option (Response × D)) (r : ThreadResult D)
      → counted (count_reply req reply r) ≡ counted r + 1
  unfolding count_reply
  count_reply-counted req none r = omega arith
  count_reply-counted req (some (resp, ms)) r = count_response-counted req.command resp.kind ms r

  -- The shares of `left` threads from thread `t` on.
  unfoldable pub shares : RunConfig D → ℕ → ℕ → ℕ
  shares cfg zero t = 0
  shares cfg (suc left) t = share cfg t + shares cfg left (t + 1)

  shares-from :
      (cfg : RunConfig D) (left t : ℕ)
      → shares cfg left t + min t (cfg.requests % cfg.concurrency)
        ≡ left * (cfg.requests / cfg.concurrency) + min (left + t) (cfg.requests % cfg.concurrency)
  unfolding shares share
  shares-from cfg zero t = omega arith
  shares-from cfg (suc left) t = ground (arith, shares-from cfg left (t + 1))

  shares-requests :
      (cfg : RunConfig D) → 0 < cfg.concurrency → shares cfg cfg.concurrency 0 ≡ cfg.requests
  shares-requests cfg h =
      omega (arith, shares-from cfg cfg.concurrency 0, mod-lt cfg.requests {m = cfg.concurrency} h)

  -- What was merged is what the threads counted.
  merge-counted :
      (rs : List (ThreadResult D)) (m : Merged D)
      → length (merge rs m).all_latencies + (merge rs m).total_errors
        ≡ length m.all_latencies + m.total_errors + counted_by_all rs
  unfolding merge counted_by_all
  merge-counted [] m = omega arith
  merge-counted (r ∷ rs) m = omega (
    arith,
    merge-counted rs _,
    length-append (m.all_latencies ++ r.get_latencies_ms) r.set_latencies_ms,
    length-append m.all_latencies r.get_latencies_ms,
  )

  merge-lengths :
      (rs : List (ThreadResult D)) (m : Merged D)
      → length m.all_latencies ≡ length m.get_latencies + length m.set_latencies
      → length (merge rs m).all_latencies
        ≡ length (merge rs m).get_latencies + length (merge rs m).set_latencies
  unfolding merge
  merge-lengths [] m h = h
  merge-lengths (r ∷ rs) m h = merge-lengths rs _ (
      omega (
        arith,
        h,
        length-append (m.all_latencies ++ r.get_latencies_ms) r.set_latencies_ms,
        length-append m.all_latencies r.get_latencies_ms,
        length-append m.get_latencies r.get_latencies_ms,
        length-append m.set_latencies r.set_latencies_ms,
      ))

module _ {D Rng : Type 0} (seeded : ℕ → Rng) (draw_key : ℕ → Rng → ℕ × Rng)
    (draw_get : D → Rng → Bool × Rng) where
  worker_loop-counted :
      {ratio : D} (reply : ℕ → Request → Option (Response × D)) (n i : ℕ)
      (g : WorkloadGenerator draw_key (draw_get ratio)) (r : ThreadResult D)
      → counted (worker_loop seeded draw_key draw_get reply n i g r) ≡ n + counted r
  unfolding worker_loop
  worker_loop-counted reply zero i g r = omega arith
  worker_loop-counted {ratio} reply (suc n) i g r =
      let (req, g') = next draw_key (draw_get ratio) g in
      omega (
        arith,
        worker_loop-counted reply n (i + 1) g' (count_reply req (reply i req) r),
        count_reply-counted req (reply i req) r,
      )

  worker-counted :
      (t n : ℕ) (cfg : RunConfig D) (connected : Bool) (reply : ℕ → Request → Option (Response × D))
      → counted (worker seeded draw_key draw_get t n cfg connected reply no_result) ≡ n
  unfolding worker
  worker-counted t n cfg false reply = omega arith
  worker-counted t n cfg true reply = omega (arith, worker_loop-counted reply n 0 _ no_result)

  run_workers-counted :
      (cfg : RunConfig D) (connected : ℕ → Bool) (reply : ℕ → ℕ → Request → Option (Response × D))
      (left t : ℕ)
      → counted_by_all (run_workers seeded draw_key draw_get cfg connected reply left t)
        ≡ shares cfg left t
  unfolding run_workers shares counted_by_all
  run_workers-counted cfg connected reply zero t = refl
  run_workers-counted cfg connected reply (suc left) t = omega (
    arith,
    worker-counted t (share cfg t) cfg (connected t) (reply t),
    run_workers-counted cfg connected reply left (t + 1),
  )

  -- With at least one connection, whichever connections and requests fail: the latencies that a run
  -- reports and its errors are together as many as the requests that were asked for; there are as
  -- many latencies as those of the GETs and of the other requests together; and those of the GETs are
  -- the milliseconds, thread by thread and in order, of the GETs that were answered with no error,
  -- and likewise for the other requests.
  pub run_benchmark-counted :
      (cfg : RunConfig D) (connected : ℕ → Bool) (reply : ℕ → ℕ → Request → Option (Response × D))
      → 0 < cfg.concurrency
      → let m = run_benchmark seeded draw_key draw_get cfg connected reply in
        let xs = all_exchanges seeded draw_key draw_get cfg connected reply cfg.concurrency 0 in
        (length m.all_latencies + m.total_errors ≡ cfg.requests)
        × (length m.all_latencies ≡ length m.get_latencies + length m.set_latencies)
        × (m.get_latencies ≡ times is_get xs)
        × (m.set_latencies ≡ times is_other xs)
  unfolding run_benchmark
  run_benchmark-counted cfg connected reply h =
      let rs = run_workers seeded draw_key draw_get cfg connected reply cfg.concurrency 0 in
      let by_kind = run_benchmark-times seeded draw_key draw_get cfg connected reply in
      (
        omega (
          arith,
          merge-counted rs nothing_merged,
          run_workers-counted cfg connected reply cfg.concurrency 0,
          shares-requests cfg h,
        ),
        merge-lengths rs nothing_merged refl,
        by_kind.0,
        by_kind.1,
      )
