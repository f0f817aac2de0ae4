-- ===== src/Benchmark/Report.antt =====
-- The texts of benchmark/stats.cpp: the results as JSON and the samples as CSV, and those parts of
-- `main` that write them. How a `double` is printed is a parameter.
use distributed_kv_store.Prelude.{
  ℕ, ◌≡◌, refl, false, ◌||◌, List, [], ◌∷◌, ◌++◌, Option, none, some, Bytes, codes, ◌==◌,
  if◌then◌else◌, Bool-cases, inl, inr,
}
use distributed_kv_store.Protocol.Text.{to_string}
use distributed_kv_store.Benchmark.{RunConfig, ThreadResult}
use distributed_kv_store.Benchmark.Stats.{PercentileStats}

unfoldable pub json_escape : Bytes → Bytes
json_escape [] = []
json_escape (c ∷ s) =
    if c == b'"' || c == b'\\' then b'\\' ∷ c ∷ json_escape s else c ∷ json_escape s

pub record RunResult (D : Type 0) : Type 0 where
  pub config : RunConfig D
  pub wall_clock_seconds : D
  pub throughput_rps : D
  pub overall : PercentileStats D
  pub get_stats : PercentileStats D
  pub set_stats : PercentileStats D
  pub error_count : ℕ

abbrev pub to_csv_header : Bytes
to_csv_header = codes "op,latency_ms\n"

module _ {D : Type 0} (print : D → Bytes) where
  unfoldable pub percentiles_json : PercentileStats D → Bytes
  percentiles_json s =
      codes "{\"p50\":"
      ++ print s.p50_ms
      ++ codes ",\"p95\":"
      ++ print s.p95_ms
      ++ codes ",\"p99\":"
      ++ print s.p99_ms
      ++ codes ",\"mean\":"
      ++ print s.mean_ms
      ++ codes ",\"min\":"
      ++ print s.min_ms
      ++ codes ",\"max\":"
      ++ print s.max_ms
      ++ codes "}"

  abbrev pub config_json : RunConfig D → Bytes → Bytes
  config_json c rest =
      codes "  \"config\": {\n    \"host\": \""
      ++ json_escape c.host
      ++ codes "\",\n    \"port\": "
      ++ to_string c.port
      ++ codes ",\n    \"requests\": "
      ++ to_string c.requests
      ++ codes ",\n    \"concurrency\": "
      ++ to_string c.concurrency
      ++ codes ",\n    \"get_ratio\": "
      ++ print c.get_ratio
      ++ codes ",\n    \"key_space\": "
      ++ to_string c.key_space
      ++ codes ",\n    \"value_size\": "
      ++ to_string c.value_size
      ++ codes ",\n    \"seed\": "
      ++ to_string c.seed
      ++ codes ",\n    \"git_rev\": \""
      ++ json_escape c.git_rev
      ++ codes "\"\n  },\n"
      ++ rest

  unfoldable pub to_json : RunResult D → Bytes
  unfolding percentiles_json
  to_json r =
      codes "{\n"
      ++ config_json r.config (
          codes "  \"wall_clock_seconds\": "
          ++ print r.wall_clock_seconds
          ++ codes ",\n  \"throughput_rps\": "
          ++ print r.throughput_rps
          ++ codes ",\n  \"error_count\": "
          ++ to_string r.error_count
          ++ codes ",\n  \"latency_ms\": {\n    \"overall\": "
          ++ percentiles_json r.overall
          ++ codes ",\n    \"get\": "
          ++ percentiles_json r.get_stats
          ++ codes ",\n    \"set\": "
          ++ percentiles_json r.set_stats
          ++ codes "\n  }\n}\n")

  unfoldable pub to_csv_row : D → Bytes → Bytes
  to_csv_row latency_ms op = op ++ codes "," ++ print latency_ms ++ codes "\n"

  unfoldable pub csv_rows : Bytes → List D → Bytes
  csv_rows op [] = []
  csv_rows op (v ∷ vs) = to_csv_row v op ++ csv_rows op vs

  unfoldable pub csv_of_threads : List (ThreadResult D) → Bytes
  csv_of_threads [] = []
  csv_of_threads (r ∷ rs) =
      csv_rows (codes "GET") r.get_latencies_ms
      ++ csv_rows (codes "SET") r.set_latencies_ms
      ++ csv_of_threads rs

-- A character in front of what was read.
abbrev read_char : ℕ → Option (Bytes × Bytes) → Option (Bytes × Bytes)
read_char c none = none
read_char c (some (s, rest)) = some (c ∷ s, rest)

-- A reader of a JSON string that stands behind its opening quote: the string, and what follows its
-- closing quote. Of the escapes it knows those of a quote and a backslash.
unfoldable pub read_json_string : Bytes → Option (Bytes × Bytes)
read_json_string [] = none
read_json_string (c ∷ []) = if c == b'"' then some ([], []) else none
read_json_string (c ∷ d ∷ s) =
    let escaped = read_json_string s in
    let plain = read_json_string (d ∷ s) in
    if c == b'"'
    then some ([], d ∷ s)
    else if c == b'\\'
    then read_char d escaped
    else read_char c plain

read_json_string-quote : (t : Bytes) → read_json_string (b'"' ∷ t) ≡ some ([], t)
unfolding read_json_string
read_json_string-quote [] = refl
read_json_string-quote (d ∷ t) = refl

read_json_string-plain :
    (c : ℕ) (t : Bytes)
    → (c == b'"') ≡ false
    → (c == b'\\') ≡ false
    → read_json_string (c ∷ t) ≡ read_char c (read_json_string t)
unfolding read_json_string
read_json_string-plain c [] hq hb = rw hq refl
read_json_string-plain c (d ∷ t) hq hb = rw (hq, hb) refl

read_json_string-escaped :
    (c : ℕ) (t : Bytes) → read_json_string (b'\\' ∷ c ∷ t) ≡ read_char c (read_json_string t)
unfolding read_json_string
read_json_string-escaped c t = refl

-- A string that was escaped and quoted is read back, up to its closing quote and no further.
pub read_json_string-json_escape :
    (s rest : Bytes) → read_json_string (json_escape s ++ b'"' ∷ rest) ≡ some (s, rest)
unfolding json_escape
read_json_string-json_escape [] rest = read_json_string-quote rest
read_json_string-json_escape (c ∷ s) rest =
    let ih = read_json_string-json_escape s rest in
    let t = json_escape s ++ b'"' ∷ rest in
    elim (Bool-cases (c == b'"')) [
      | inl q ↦ rw q (rw (read_json_string-escaped c t, ih) refl)
      | inr nq ↦ elim (Bool-cases (c == b'\\')) [
        | inl b ↦ rw (nq, b) (rw (read_json_string-escaped c t, ih) refl)
        | inr nb ↦ rw (nq, nb) (rw (read_json_string-plain c t nq nb, ih) refl)
      ]
    ]
