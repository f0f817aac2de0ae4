-- ===== src/Benchmark/Options.antt =====
-- The options of kvbench (`main` of benchmark/main.cpp). `std::stod` is a parameter, as is the name
-- of the revision; `std::stoull` reads as `std::stoul` does.
use distributed_kv_store.Prelude.{
  ◌^◌, ◌<◌, ◌≡◌, refl, Bool, true, false, ◌||◌, List, [], ◌∷◌, Option, none, some, arith, Bytes,
  codes, eq_bytes, ◌==◌, if◌then◌else◌,
}
use distributed_kv_store.Protocol.Text.{to_string}
use distributed_kv_store.CommandLine.{Parsed, exited, parsed}
use distributed_kv_store.CommandLine.Numbers.{
  atoi, to_unsigned, to_unsigned-small, stoul, stoul-to_string,
}
use distributed_kv_store.CommandLine.Options.{
  Flag, with_value, switched, no_flag, assign_number, option_loop,
}
use distributed_kv_store.Benchmark.{RunConfig}

pub data BenchFlag : Type 0 where
  host_flag port_flag requests_flag concurrency_flag get_ratio_flag : BenchFlag
  key_space_flag value_size_flag seed_flag output_flag raw_flag : BenchFlag

unfoldable pub bench_flag : Bytes → Flag BenchFlag
bench_flag arg =
    if eq_bytes arg (codes "--host")
    then with_value host_flag
    else if eq_bytes arg (codes "--port")
    then with_value port_flag
    else if eq_bytes arg (codes "--requests")
    then with_value requests_flag
    else if eq_bytes arg (codes "--concurrency")
    then with_value concurrency_flag
    else if eq_bytes arg (codes "--get-ratio")
    then with_value get_ratio_flag
    else if eq_bytes arg (codes "--key-space")
    then with_value key_space_flag
    else if eq_bytes arg (codes "--value-size")
    then with_value value_size_flag
    else if eq_bytes arg (codes "--seed")
    then with_value seed_flag
    else if eq_bytes arg (codes "--output")
    then with_value output_flag
    else if eq_bytes arg (codes "--raw-output")
    then switched raw_flag
    else no_flag

pub record BenchOptions (D : Type 0) : Type 0 where
  pub cfg : RunConfig D
  pub output_path : Bytes
  pub raw_output : Bool

module _ {D : Type 0} (stod : Bytes → Option D) (default_ratio : D) where
  abbrev pub bench_defaults : BenchOptions D
  bench_defaults = record {
    cfg = record {
      host = codes "127.0.0.1";
      port = 6380;
      requests = 10000;
      concurrency = 50;
      get_ratio = default_ratio;
      key_space = 1000;
      value_size = 64;
      seed = 42;
      git_rev = [];
    };
    output_path = [];
    raw_output = false;
  }

  unfoldable pub bench_assign : BenchFlag → Bytes → BenchOptions D → Option (BenchOptions D)
  bench_assign host_flag v o = some (record o { cfg = record o.cfg { host = v } })
  bench_assign port_flag v o =
      some (record o { cfg = record o.cfg { port = to_unsigned 16 (atoi v) } })
  bench_assign requests_flag v o =
      assign_number (stoul v) (λ n. record o { cfg = record o.cfg { requests = n } })
  bench_assign concurrency_flag v o =
      assign_number (stoul v) (λ n. record o { cfg = record o.cfg { concurrency = n } })
  bench_assign get_ratio_flag v o =
      assign_number (stod v) (λ r. record o { cfg = record o.cfg { get_ratio = r } })
  bench_assign key_space_flag v o =
      assign_number (stoul v) (λ n. record o { cfg = record o.cfg { key_space = n } })
  bench_assign value_size_flag v o =
      assign_number (stoul v) (λ n. record o { cfg = record o.cfg { value_size = n } })
  bench_assign seed_flag v o =
      assign_number (stoul v) (λ n. record o { cfg = record o.cfg { seed = n } })
  bench_assign output_flag v o = some (record o { output_path = v })
  bench_assign raw_flag v o = some (record o { raw_output = true })

  abbrev check_bench : Option (Parsed (BenchOptions D)) → Option (Parsed (BenchOptions D))
  check_bench none = none
  check_bench (some (exited code)) = some (exited code)
  check_bench (some (parsed o)) =
      if o.cfg.requests == 0 || o.cfg.concurrency == 0 then some (exited 1) else some (parsed o)

  -- `none` is an exception that ends the program.
  unfoldable pub bench_main : List Bytes → Option (Parsed (BenchOptions D))
  unfolding option_loop bench_assign bench_flag
  bench_main argv = check_bench (option_loop bench_flag bench_assign argv bench_defaults)

  abbrev pub bench_command_line : RunConfig D → List Bytes
  bench_command_line c =
      codes "--host"
      ∷ c.host
      ∷ codes "--port"
      ∷ to_string c.port
      ∷ codes "--requests"
      ∷ to_string c.requests
      ∷ codes "--concurrency"
      ∷ to_string c.concurrency
      ∷ codes "--key-space"
      ∷ to_string c.key_space
      ∷ codes "--value-size"
      ∷ to_string c.value_size
      ∷ codes "--seed"
      ∷ to_string c.seed
      ∷ []

  -- Numbers that fit their types, at least one request, and at least one connection.
  pub record Runnable (c : RunConfig D) : Type 0 where
    pub port_fits : c.port < 2 ^ 16
    pub some_requests : 0 < c.requests
    pub requests_fit : c.requests < 2 ^ 64
    pub some_connections : 0 < c.concurrency
    pub connections_fit : c.concurrency < 2 ^ 64
    pub key_space_fits : c.key_space < 2 ^ 64
    pub value_size_fits : c.value_size < 2 ^ 64
    pub seed_fits : c.seed < 2 ^ 64

  -- A host and numbers that fit, written as options, are what kvbench runs with, with the default
  -- share of GETs.
  pub bench_main-command_line :
      (c : RunConfig D)
      → Runnable c
      → bench_main (bench_command_line c)
        ≡ some (
            parsed (record {
              cfg = record c { get_ratio = default_ratio; git_rev = [] };
              output_path = [];
              raw_output = false;
            }))
  unfolding bench_main bench_flag eq_bytes option_loop bench_assign
  bench_main-command_line c h =
      let requests_there : (c.requests == 0) ≡ false = ground (arith, h.some_requests) in
      let connections_there : (c.concurrency == 0) ≡ false = ground (arith, h.some_connections) in
      rw
        (
          to_unsigned-small 16 c.port (omega (arith, h.port_fits)) h.port_fits,
          stoul-to_string c.requests h.requests_fit,
          stoul-to_string c.concurrency h.connections_fit,
          stoul-to_string c.key_space h.key_space_fits,
          stoul-to_string c.value_size h.value_size_fits,
          stoul-to_string c.seed h.seed_fits,
          requests_there,
          connections_there,
        )
        refl
