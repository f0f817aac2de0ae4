-- ===== src/Benchmark/Latencies.antt =====
-- Which latencies a run reports, by the requests that the threads exchanged.
use distributed_kv_store.Prelude.{
  ℕ, zero, suc, ◌+◌, ◌%◌, ◌^◌, ◌≡◌, refl, sym, ap, ◌∙◌, Bool, true, false, List, [], ◌∷◌, ◌++◌,
  append_assoc, append-nil, Option, none, some, arith,
}
use distributed_kv_store.Protocol.Messages.{
  Request, Response, ResponseType, Command, get, set, delete, ping,
}
use distributed_kv_store.Workload.{WorkloadGenerator, make_generator, next}
use distributed_kv_store.Benchmark.{
  RunConfig, ThreadResult, no_result, share, Merged, count_response, count_reply, merge,
  nothing_merged, worker_loop, worker, run_workers, run_benchmark,
}

-- A request and what came back, with the milliseconds.
abbrev pub Exchange : Type 0 → Type 0
Exchange D = Request × Option (Response × D)

abbrev pub is_get : Command → Bool
is_get get = true
is_get set = false
is_get delete = false
is_get ping = false

abbrev pub is_other : Command → Bool
is_other get = false
is_other set = true
is_other delete = true
is_other ping = true

abbrev pub is_error : ResponseType → Bool
is_error ResponseType.error = true
is_error _ = false

module _ {D : Type 0} where
  abbrev pub time_of : Bool → Bool → D → List D
  time_of true false ms = ms ∷ []
  time_of _ _ ms = []

  -- The latencies of the requests of a kind that were answered with no error, in order.
  unfoldable pub times : (Command → Bool) → List (Exchange D) → List D
  times kind [] = []
  times kind ((req, none) ∷ xs) = times kind xs
  times kind ((req, some (resp, ms)) ∷ xs) =
      time_of (kind req.command) (is_error resp.kind) ms ++ times kind xs

  times-append :
      (kind : Command → Bool) (xs ys : List (Exchange D))
      → times kind (xs ++ ys) ≡ times kind xs ++ times kind ys
  unfolding times
  times-append kind [] ys = refl
  times-append kind ((req, none) ∷ xs) ys = times-append kind xs ys
  times-append kind ((req, some (resp, ms)) ∷ xs) ys =
      let now = time_of (kind req.command) (is_error resp.kind) ms in
      ap (λ t. now ++ t) (times-append kind xs ys)
      ∙ sym (append_assoc now (times kind xs) (times kind ys))

  -- A result has the latencies of another and of what was exchanged since.
  record Adds (xs : List (Exchange D)) (r r' : ThreadResult D) : Type 0 where
    gets : r'.get_latencies_ms ≡ r.get_latencies_ms ++ times is_get xs
    sets : r'.set_latencies_ms ≡ r.set_latencies_ms ++ times is_other xs

  count_response-Adds :
      (c : Command) (k : ResponseType) (ms : D) (r : ThreadResult D)
      → ((count_response c k ms r).get_latencies_ms
          ≡ r.get_latencies_ms ++ time_of (is_get c) (is_error k) ms)
        × ((count_response c k ms r).set_latencies_ms
            ≡ r.set_latencies_ms ++ time_of (is_other c) (is_error k) ms)
  unfolding count_response
  count_response-Adds c k ms r =
      let g = append-nil r.get_latencies_ms in
      let s = append-nil r.set_latencies_ms in (ground (arith, g), ground (arith, s))

  count_reply-Adds :
      (req : Request) (reply : Option (Response × D)) (r : ThreadResult D)
      → Adds ((req, reply) ∷ []) r (count_reply req reply r)
  unfolding count_reply times
  count_reply-Adds req none r = record { gets = sym (append-nil _); sets = sym (append-nil _) }
  count_reply-Adds req (some (resp, ms)) r =
      let (g, s) = count_response-Adds req.command resp.kind ms r in
      record {
        gets = g ∙ ap (λ t. r.get_latencies_ms ++ t) (sym (append-nil _));
        sets = s ∙ ap (λ t. r.set_latencies_ms ++ t) (sym (append-nil _));
      }

  Adds-trans :
      (xs ys : List (Exchange D)) (r r' r'' : ThreadResult D)
      → Adds xs r r'
      → Adds ys r' r''
      → Adds (xs ++ ys) r r''
  Adds-trans xs ys r r' r'' a b = record {
    gets =
        b.gets
        ∙ ap (λ t. t ++ times is_get ys) a.gets
        ∙ append_assoc r.get_latencies_ms (times is_get xs) (times is_get ys)
        ∙ ap (λ t. r.get_latencies_ms ++ t) (sym (times-append is_get xs ys));
    sets =
        b.sets
        ∙ ap (λ t. t ++ times is_other ys) a.sets
        ∙ append_assoc r.set_latencies_ms (times is_other xs) (times is_other ys)
        ∙ ap (λ t. r.set_latencies_ms ++ t) (sym (times-append is_other xs ys));
  }

module _ {D Rng : Type 0} (seeded : ℕ → Rng) (draw_key : ℕ → Rng → ℕ × Rng)
    (draw_get : D → Rng → Bool × Rng) where
  -- The requests that a thread draws from its generator, with the replies.
  unfoldable pub exchanges :
      {ratio : D}
      → (ℕ → Request → Option (Response × D))
      → ℕ
      → ℕ
      → WorkloadGenerator draw_key (draw_get ratio)
      → List (Exchange D)
  exchanges reply zero i g = []
  exchanges reply (suc n) i g =
      let (req, g') = next draw_key (draw_get _) g in
      (req, reply i req) ∷ exchanges reply n (i + 1) g'

  -- None on a thread that could not connect.
  abbrev pub thread_exchanges :
      RunConfig D → Bool → (ℕ → Request → Option (Response × D)) → ℕ → List (Exchange D)
  thread_exchanges cfg false reply t = []
  thread_exchanges cfg true reply t = exchanges reply (share cfg t) 0 (
      make_generator draw_key (draw_get cfg.get_ratio) (seeded ((cfg.seed + t) % 2 ^ 64))
        cfg.key_space cfg.value_size)

  -- Those of `left` threads from thread `t` on, thread by thread.
  unfoldable pub all_exchanges :
      RunConfig D
      → (ℕ → Bool)
      → (ℕ → ℕ → Request → Option (Response × D))
      → ℕ
      → ℕ
      → List (Exchange D)
  unfolding exchanges
  all_exchanges cfg connected reply zero t = []
  all_exchanges cfg connected reply (suc left) t =
      thread_exchanges cfg (connected t) (reply t) t
      ++ all_exchanges cfg connected reply left (t + 1)

  worker_loop-Adds :
      {ratio : D} (reply : ℕ → Request → Option (Response × D)) (n i : ℕ)
      (g : WorkloadGenerator draw_key (draw_get ratio)) (r : ThreadResult D)
      → Adds (exchanges reply n i g) r (worker_loop seeded draw_key draw_get reply n i g r)
  unfolding worker_loop exchanges
  worker_loop-Adds reply zero i g r =
      unfold times in record { gets = sym (append-nil _); sets = sym (append-nil _) }
  worker_loop-Adds {ratio} reply (suc n) i g r =
      let (req, g') = next draw_key (draw_get ratio) g in
      Adds-trans ((req, reply i req) ∷ []) _ r (count_reply req (reply i req) r) _
        (count_reply-Adds req (reply i req) r)
        (worker_loop-Adds reply n (i + 1) g' (count_reply req (reply i req) r))

  worker-Adds :
      (t : ℕ) (cfg : RunConfig D) (connected : Bool) (reply : ℕ → Request → Option (Response × D))
      → Adds
          (thread_exchanges cfg connected reply t)
          no_result
          (worker seeded draw_key draw_get t (share cfg t) cfg connected reply no_result)
  unfolding worker
  worker-Adds t cfg false reply = unfold times in record { gets = refl; sets = refl }
  worker-Adds t cfg true reply = worker_loop-Adds reply (share cfg t) 0 _ no_result

  -- What has been merged, and the latencies of the threads that are still to come.
  merge-times :
      (cfg : RunConfig D) (connected : ℕ → Bool) (reply : ℕ → ℕ → Request → Option (Response × D))
      (left t : ℕ) (m : Merged D)
      → let r = merge (run_workers seeded draw_key draw_get cfg connected reply left t) m in
        let xs = all_exchanges cfg connected reply left t in
        (r.get_latencies ≡ m.get_latencies ++ times is_get xs)
        × (r.set_latencies ≡ m.set_latencies ++ times is_other xs)
  unfolding run_workers merge all_exchanges
  merge-times cfg connected reply zero t m =
      unfold times in (sym (append-nil m.get_latencies), sym (append-nil m.set_latencies))
  merge-times cfg connected reply (suc left) t m =
      let first = worker-Adds t cfg (connected t) (reply t) in
      let xs = thread_exchanges cfg (connected t) (reply t) t in
      let ys = all_exchanges cfg connected reply left (t + 1) in
      let (gets, sets) = merge-times cfg connected reply left (t + 1) _ in
      (
        gets
            ∙ ap (λ a. (m.get_latencies ++ a) ++ times is_get ys) first.gets
            ∙ append_assoc m.get_latencies (times is_get xs) (times is_get ys)
            ∙ ap (λ a. m.get_latencies ++ a) (sym (times-append is_get xs ys)),
        sets
            ∙ ap (λ a. (m.set_latencies ++ a) ++ times is_other ys) first.sets
            ∙ append_assoc m.set_latencies (times is_other xs) (times is_other ys)
            ∙ ap (λ a. m.set_latencies ++ a) (sym (times-append is_other xs ys)),
      )

  pub run_benchmark-times :
      (cfg : RunConfig D) (connected : ℕ → Bool) (reply : ℕ → ℕ → Request → Option (Response × D))
      → let m = run_benchmark seeded draw_key draw_get cfg connected reply in
        let xs = all_exchanges cfg connected reply cfg.concurrency 0 in
        (m.get_latencies ≡ times is_get xs) × (m.set_latencies ≡ times is_other xs)
  unfolding run_benchmark
  run_benchmark-times cfg connected reply =
      merge-times cfg connected reply cfg.concurrency 0 nothing_merged
