-- ===== src/Tests/Tools.antt =====
-- The command lines, the benchmark, the failover benchmark and the hash report, at concrete inputs.
-- A `double` is a natural number here.
use distributed_kv_store.Prelude.{
  ℕ, ◌+◌, ◌-◌, ◌*◌, ◌/◌, ◌%◌, ◌<◌, ◌≤◌, ◌≡◌, Bool, true, false, not, ◌&&◌, List, [], ◌∷◌, Option,
  none, some, arith, codes, length, ltb, ◌==◌, All,
}
use distributed_kv_store.Protocol.Messages.{Request, Response, ResponseType}
use distributed_kv_store.Sorting.{tally_of, IsWeakOrder}
use distributed_kv_store.Router.FailureDetector.{NodeAddress}
use distributed_kv_store.CommandLine.{parsed}
use distributed_kv_store.CommandLine.Nodes.RoundTrip.{Listable}
use distributed_kv_store.CommandLine.Router.{
  RouterArgs, Tellable, router_main, router_command_line, router_main-command_line,
}
use distributed_kv_store.Benchmark.{RunConfig, run_benchmark}
use distributed_kv_store.Benchmark.Latencies.{times, is_get, is_other, all_exchanges}
use distributed_kv_store.Benchmark.Accounting.{run_benchmark-counted}
use distributed_kv_store.Benchmark.Stats.{Quantile, p50, p95, p99, compute_percentiles}
use distributed_kv_store.Benchmark.Percentiles.{of_quantile, compute_percentiles-rank}
use distributed_kv_store.FailoverBench.{Sample, flatten, summarise, recovery_ms}
use distributed_kv_store.FailoverBench.Classification.{
  is_before, is_after, failed_before, failed_after, IsErrorTime, summarise-counts, summarise-last,
}
use distributed_kv_store.HashRing.{empty, add_node, get_node}
use distributed_kv_store.HashReport.{build_ring, make_keys}
use distributed_kv_store.HashReport.Remap.{owned}
use distributed_kv_store.HashReport.Report.{Report, make_report, total, nodes3, make_report-total}

abbrev some_nodes : List NodeAddress
some_nodes = record { host = codes "::1"; port = 7001 } ∷ record { host = codes "b"; port = 2 } ∷ []

some_nodes-Listable : All Listable some_nodes
some_nodes-Listable = (
  record { plain = (omega arith, (omega arith, (omega arith, tt))); port_fits = omega arith },
  (record { plain = (omega arith, tt); port_fits = omega arith }, tt),
)

abbrev router_args : RouterArgs
router_args = record { port = 6380; nodes = some_nodes; vnodes = 150; replicas = 2 }

router_args-Tellable : Tellable router_args
router_args-Tellable = record {
  some_nodes = λ h. cc h;
  listable = some_nodes-Listable;
  port_fits = omega arith;
  vnodes_fit = omega arith;
  some_replicas = omega arith;
  replicas_fit = omega arith;
}

router_main-command_line_example :
    router_main (router_command_line router_args) ≡ parsed router_args
router_main-command_line_example = router_main-command_line router_args router_args-Tellable

-- Every second draw is a GET; the engine counts its draws.
abbrev draw_key : ℕ → ℕ → ℕ × ℕ
draw_key limit rng = (rng % (limit + 1), rng + 1)

abbrev draw_get : ℕ → ℕ → Bool × ℕ
draw_get ratio rng = (rng % 2 == 0, rng + 1)

abbrev cfg : RunConfig ℕ
cfg = record {
  host = codes "127.0.0.1";
  port = 6380;
  requests = 11;
  concurrency = 3;
  get_ratio = 7;
  key_space = 5;
  value_size = 2;
  seed = 42;
  git_rev = codes "abc";
}

abbrev ok_response : Response
ok_response = record { kind = ResponseType.ok; value = []; message = [] }

-- The second connection cannot be made, and the second request of each other one fails.
abbrev connected : ℕ → Bool
connected t = not (t == 1)

abbrev reply_at : Bool → ℕ → Option (Response × ℕ)
reply_at true i = none
reply_at false i = some (ok_response, i)

abbrev reply : ℕ → ℕ → Request → Option (Response × ℕ)
reply t i req = reply_at (i == 1) i

run_benchmark-counted_example :
    let m = run_benchmark (λ s. s) draw_key draw_get cfg connected reply in
    let xs = all_exchanges (λ s. s) draw_key draw_get cfg connected reply 3 0 in
    (length m.all_latencies + m.total_errors ≡ 11)
    × (length m.all_latencies ≡ length m.get_latencies + length m.set_latencies)
    × (m.get_latencies ≡ times is_get xs)
    × (m.set_latencies ≡ times is_other xs)
run_benchmark-counted_example =
    run_benchmark-counted (λ s. s) draw_key draw_get cfg connected reply (omega arith)

ltb-IsWeakOrder : IsWeakOrder ltb
ltb-IsWeakOrder = record {
  asymmetric = λ a b h. ground (arith, h);
  cotransitive = λ a b c h h'. ground (arith, h, h');
}

-- A quantile of 50, 95 or 99 percent, rounded up.
abbrev percent : Quantile → ℕ
percent p50 = 50
percent p95 = 95
percent p99 = 99

abbrev rank : Quantile → ℕ → ℕ
rank q n = (percent q * n + 99) / 100

abbrev latencies : List ℕ
latencies = 5 ∷ 1 ∷ 9 ∷ 1 ∷ 7 ∷ []

compute_percentiles-rank_example :
    let v =
      of_quantile p50 (compute_percentiles ltb (λ a b. a + b) (λ a n. a / n) rank 0 latencies) in
    (tally_of (λ y. ltb y v) latencies < 3) × (3 ≤ tally_of (λ y. not (ltb v y)) latencies)
compute_percentiles-rank_example =
    compute_percentiles-rank ltb (λ a b. a + b) (λ a n. a / n) rank 0 ltb-IsWeakOrder p50 latencies
      (omega arith) (omega arith) (omega arith)

abbrev sample : ℕ → Bool → Sample ℕ
sample t ok = record { start_ms = t; end_ms = t; ok = ok; latency_ms = 1 }

-- The kill is at 2000; two requests fail after it.
abbrev threads : List (List (Sample ℕ))
threads =
    (sample 1990 true ∷ sample 2010 false ∷ [])
    ∷ (sample 1900 true ∷ sample 2090 false ∷ sample 2100 true ∷ [])
    ∷ []

summarise-counts_example :
    let r = summarise ltb 2000 threads in
    let ss = flatten ltb threads in
    (r.requests_before ≡ tally_of (is_before ltb 2000) ss)
    × (r.errors_before ≡ tally_of (failed_before ltb 2000) ss)
    × (r.requests_after ≡ tally_of (is_after ltb 2000) ss)
    × (r.errors_after ≡ tally_of (failed_after ltb 2000) ss)
    × (r.requests_before + r.requests_after ≡ length ss)
    × (r.any_error_after ≡ ltb 0 (tally_of (failed_after ltb 2000) ss))
    × (tally_of (failed_after ltb 2000) ss ≡ 0 → recovery_ms ltb (λ a b. a - b) 0 2000 r ≡ 0)
summarise-counts_example = summarise-counts ltb 2000 (λ a b. a - b) 0 threads

summarise-last_example :
    let t = (summarise ltb 2000 threads).last_error_after_ts in
    IsErrorTime ltb 2000 t (flatten ltb threads)
    × (ltb t 2000 ≡ false)
    × (tally_of (λ s. failed_after ltb 2000 s && ltb t s.end_ms) (flatten ltb threads) ≡ 0)
summarise-last_example = summarise-last ltb 2000 ltb-IsWeakOrder threads

make_report-total_example :
    (r : Report) × (make_report 10 2 ≡ some r)
    × (total r.modulo_stats ≡ 10)
    × (total r.ring_stats ≡ 10)
    × (owned
          (get_node (add_node (build_ring nodes3 (empty 2)) (codes "nodeD")))
          (codes "nodeD")
          (make_keys 10)
        ≡ owned (get_node (build_ring nodes3 (empty 2))) (codes "nodeD") (make_keys 10)
          + r.ring_remap)
make_report-total_example = make_report-total 10 2 (omega arith)
