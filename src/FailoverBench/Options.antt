-- ===== src/FailoverBench/Options.antt =====
-- The options of kvfailover (`main` of tools/failover_bench.cpp), and its JSON. `std::stod` and how a
-- `double` is printed are parameters; `std::stoull` reads as `std::stoul` does.
use distributed_kv_store.Prelude.{
  ℕ, ◌≡◌, Bool, true, false, not, ◌||◌, List, [], ◌∷◌, ◌++◌, Option, none, some, Bytes, codes,
  eq_bytes, ◌==◌, if◌then◌else◌, Bool-cases, inl, inr,
}
use distributed_kv_store.Protocol.Text.{to_string}
use distributed_kv_store.CommandLine.{Parsed, exited, parsed, OnParsed}
use distributed_kv_store.CommandLine.Numbers.{Signed, atoi, to_unsigned, stoul}
use distributed_kv_store.CommandLine.Options.{Flag, with_value, no_flag, assign_number, option_loop}
use distributed_kv_store.FailoverBench.{Summary}
use distributed_kv_store.FailoverBench.Timeline.{Bucket}

pub record Config (D : Type 0) : Type 0 where
  pub host : Bytes
  pub port : ℕ
  pub kill_pid : Signed
  pub duration_ms : D
  pub kill_at_ms : D
  pub concurrency : ℕ
  pub get_ratio : D
  pub key_space : ℕ
  pub value_size : ℕ
  pub seed : ℕ

pub record FailoverOptions (D : Type 0) : Type 0 where
  pub cfg : Config D
  pub output_path : Bytes

pub data FailoverFlag : Type 0 where
  host_flag port_flag kill_pid_flag duration_flag kill_at_flag concurrency_flag : FailoverFlag
  get_ratio_flag key_space_flag value_size_flag seed_flag output_flag : FailoverFlag

unfoldable pub failover_flag : Bytes → Flag FailoverFlag
failover_flag arg =
    if eq_bytes arg (codes "--host")
    then with_value host_flag
    else if eq_bytes arg (codes "--port")
    then with_value port_flag
    else if eq_bytes arg (codes "--kill-pid")
    then with_value kill_pid_flag
    else if eq_bytes arg (codes "--duration-ms")
    then with_value duration_flag
    else if eq_bytes arg (codes "--kill-at-ms")
    then with_value kill_at_flag
    else if eq_bytes arg (codes "--concurrency")
    then with_value concurrency_flag
    else if eq_bytes arg (codes "--get-ratio")
    then with_value get_ratio_flag
    else if eq_bytes arg (codes "--key-space")
    then with_value key_space_flag
    else if eq_bytes arg (codes "--value-size")
    then with_value value_size_flag
    else if eq_bytes arg (codes "--seed")
    then with_value seed_flag
    else if eq_bytes arg (codes "--output")
    then with_value output_flag
    else no_flag

-- A signed number above zero.
abbrev pub is_positive : Signed → Bool
is_positive n = not (n.negative || n.magnitude == 0)

module _ {D : Type 0} (stod : Bytes → Option D) (at_least : D → D → Bool)
    (duration kill_at ratio : D) where
  abbrev pub failover_defaults : FailoverOptions D
  failover_defaults = record {
    cfg = record {
      host = codes "127.0.0.1";
      port = 6380;
      kill_pid = record { negative = true; magnitude = 1 };
      duration_ms = duration;
      kill_at_ms = kill_at;
      concurrency = 20;
      get_ratio = ratio;
      key_space = 1000;
      value_size = 64;
      seed = 42;
    };
    output_path = [];
  }

  unfoldable pub failover_assign :
      FailoverFlag → Bytes → FailoverOptions D → Option (FailoverOptions D)
  failover_assign host_flag v o = some (record o { cfg = record o.cfg { host = v } })
  failover_assign port_flag v o =
      some (record o { cfg = record o.cfg { port = to_unsigned 16 (atoi v) } })
  failover_assign kill_pid_flag v o = some (record o { cfg = record o.cfg { kill_pid = atoi v } })
  failover_assign duration_flag v o =
      assign_number (stod v) (λ d. record o { cfg = record o.cfg { duration_ms = d } })
  failover_assign kill_at_flag v o =
      assign_number (stod v) (λ d. record o { cfg = record o.cfg { kill_at_ms = d } })
  failover_assign concurrency_flag v o =
      assign_number (stoul v) (λ n. record o { cfg = record o.cfg { concurrency = n } })
  failover_assign get_ratio_flag v o =
      assign_number (stod v) (λ r. record o { cfg = record o.cfg { get_ratio = r } })
  failover_assign key_space_flag v o =
      assign_number (stoul v) (λ n. record o { cfg = record o.cfg { key_space = n } })
  failover_assign value_size_flag v o =
      assign_number (stoul v) (λ n. record o { cfg = record o.cfg { value_size = n } })
  failover_assign seed_flag v o =
      assign_number (stoul v) (λ n. record o { cfg = record o.cfg { seed = n } })
  failover_assign output_flag v o = some (record o { output_path = v })

  abbrev check_failover : Option (Parsed (FailoverOptions D)) → Option (Parsed (FailoverOptions D))
  check_failover none = none
  check_failover (some (exited code)) = some (exited code)
  check_failover (some (parsed o)) =
      if not (is_positive o.cfg.kill_pid)
      then some (exited 1)
      else if at_least o.cfg.kill_at_ms o.cfg.duration_ms
      then some (exited 1)
      else some (parsed o)

  -- `none` is an exception that ends the program; else its exit code, or what it runs.
  unfoldable pub failover_main : List Bytes → Option (Parsed (FailoverOptions D))
  unfolding option_loop failover_assign failover_flag
  failover_main argv =
      check_failover (option_loop failover_flag failover_assign argv failover_defaults)

  abbrev pub OnRun : (FailoverOptions D → Type 0) → Option (Parsed (FailoverOptions D)) → Type 0
  OnRun P none = Unit
  OnRun P (some r) = OnParsed P r

  -- One process, and a time for its end that is not at or behind the end of the run.
  abbrev pub Killable : FailoverOptions D → Type 0
  Killable o =
      (is_positive o.cfg.kill_pid ≡ true) × (at_least o.cfg.kill_at_ms o.cfg.duration_ms ≡ false)

  check_failover-Killable :
      (r : Option (Parsed (FailoverOptions D))) → OnRun Killable (check_failover r)
  check_failover-Killable none = tt
  check_failover-Killable (some (exited code)) = tt
  check_failover-Killable (some (parsed o)) = elim (Bool-cases (is_positive o.cfg.kill_pid)) [
    | inr p ↦ rw p tt
    | inl p ↦ elim (Bool-cases (at_least o.cfg.kill_at_ms o.cfg.duration_ms)) [
      | inl b ↦ rw (p, b) tt
      | inr b ↦ rw (p, b) (p, b)
    ]
  ]

  -- Whatever the arguments: if kvfailover runs at all, the number that it gives to `kill` is above
  -- zero, and so names one process and never a group or all of them, and the kill is not at
  -- or behind the end of the run.
  pub failover_main-Killable : (argv : List Bytes) → OnRun Killable (failover_main argv)
  unfolding failover_main
  failover_main-Killable argv =
      check_failover-Killable (option_loop failover_flag failover_assign argv failover_defaults)

module _ {D : Type 0} (print : D → Bytes) where
  abbrev bucket_json : Bucket → Bytes
  bucket_json b =
      codes "    {\"bucket_start_ms\": "
      ++ to_string b.start_ms
      ++ codes ", \"requests\": "
      ++ to_string b.requests
      ++ codes ", \"errors\": "
      ++ to_string b.errors
      ++ codes "}"

  unfoldable pub buckets_json : Bool → List Bucket → Bytes
  buckets_json first [] = []
  buckets_json first (b ∷ bs) =
      (if first then [] else codes ",\n") ++ bucket_json b ++ buckets_json false bs

  abbrev summary_json : D → ℕ → Summary D → D → Bool → Bytes
  summary_json kill_ts_ms total m recovery bounded =
      codes "  \"kill_timestamp_ms\": "
      ++ print kill_ts_ms
      ++ codes ",\n  \"total_requests\": "
      ++ to_string total
      ++ codes ",\n  \"requests_before_kill\": "
      ++ to_string m.requests_before
      ++ codes ",\n  \"errors_before_kill\": "
      ++ to_string m.errors_before
      ++ codes ",\n  \"requests_after_kill\": "
      ++ to_string m.requests_after
      ++ codes ",\n  \"errors_after_kill\": "
      ++ to_string m.errors_after
      ++ codes ",\n  \"recovery_time_ms\": "
      ++ print recovery
      ++ codes ",\n  \"recovery_bounded\": "
      ++ (if bounded then codes "true" else codes "false")
      ++ codes ",\n  \"timeline_100ms_buckets\": [\n"

  -- The text of the output file; the host is written as it is.
  unfoldable pub failover_json :
      Config D → Bytes → D → ℕ → Summary D → D → Bool → List Bucket → Bytes
  unfolding buckets_json
  failover_json c pid kill_ts_ms total m recovery bounded buckets =
      codes "{\n  \"config\": {\n    \"host\": \""
      ++ c.host
      ++ codes "\",\n    \"port\": "
      ++ to_string c.port
      ++ codes ",\n    \"kill_pid\": "
      ++ pid
      ++ codes ",\n    \"duration_ms\": "
      ++ print c.duration_ms
      ++ codes ",\n    \"kill_at_ms\": "
      ++ print c.kill_at_ms
      ++ codes ",\n    \"concurrency\": "
      ++ to_string c.concurrency
      ++ codes ",\n    \"get_ratio\": "
      ++ print c.get_ratio
      ++ codes ",\n    \"key_space\": "
      ++ to_string c.key_space
      ++ codes ",\n    \"value_size\": "
      ++ to_string c.value_size
      ++ codes ",\n    \"seed\": "
      ++ to_string c.seed
      ++ codes "\n  },\n"
      ++ summary_json kill_ts_ms total m recovery bounded
      ++ buckets_json true buckets
      ++ codes "\n  ]\n}\n"
