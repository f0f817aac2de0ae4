-- ===== src/CommandLine.antt =====
-- The command lines of the programs: the loops over `argv` (server/main.cpp, router/main.cpp,
-- client/main.cpp, benchmark/main.cpp, tools/failover_bench.cpp), as far as what they start.
pub mod Numbers
pub mod Nodes
pub mod Server
pub mod Router
pub mod Options
use distributed_kv_store.Prelude.{ℕ, Bool, true, false, Bytes, codes, eq_bytes, if◌then◌else◌}

-- The program ends with an exit code, or goes on with what it was told.
pub data Parsed {ℓ} (A : Type ℓ) : Type ℓ where
  exited : ℕ → Parsed A
  parsed : A → Parsed A

-- `--help`, or an argument that is not known.
abbrev pub help_or_unknown {ℓ} : {A : Type ℓ} → Bytes → Parsed A
help_or_unknown arg = if eq_bytes arg (codes "--help") then exited 0 else exited 1

-- What holds of all that the program goes on with.
abbrev pub OnParsed {ℓ κ} : {A : Type ℓ} → (A → Type κ) → Parsed A → Type κ
OnParsed P (exited code) = Unit
OnParsed P (parsed a) = P a

module _ {ℓ κ} {A : Type ℓ} (P : A → Type κ) where
  pub OnParsed-if :
      (b : Bool) (x y : Parsed A) → OnParsed P x → OnParsed P y → OnParsed P (if b then x else y)
  OnParsed-if true x y hx hy = hx
  OnParsed-if false x y hx hy = hy

  pub help_or_unknown-OnParsed : (arg : Bytes) → OnParsed P (help_or_unknown arg)
  help_or_unknown-OnParsed arg = OnParsed-if (eq_bytes arg (codes "--help")) _ _ tt tt
