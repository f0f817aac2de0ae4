-- ===== src/CommandLine/Options.antt =====
-- The loop over `argv` of the tools kvbench, kvfailover and kvhashreport. Their `next` returns an empty
-- string at the end of the line, and an exception of a conversion leaves `main`: it is `none`.
use distributed_kv_store.Prelude.{◌≡◌, refl, List, [], ◌∷◌, Option, none, some, Bytes}
use distributed_kv_store.CommandLine.{Parsed, parsed, help_or_unknown}

-- What an argument is: an option with a value, one without, or neither.
pub data Flag (F : Type 0) : Type 0 where
  with_value : F → Flag F
  switched : F → Flag F
  no_flag : Flag F

-- A number that was converted, or the exception.
abbrev pub assign_number : {A O : Type 0} → Option A → (A → O) → Option O
assign_number none f = none
assign_number (some a) f = some (f a)

module _ {F O : Type 0} (flag : Bytes → Flag F) (assign : F → Bytes → O → Option O) where
  abbrev last_option : Option O → Option (Parsed O)
  last_option none = none
  last_option (some o) = some (parsed o)

  abbrev go_on : (O → Option (Parsed O)) → Option O → Option (Parsed O)
  go_on next none = none
  go_on next (some o) = next o

  unfoldable pub option_loop : List Bytes → O → Option (Parsed O)
  option_loop [] o = some (parsed o)
  option_loop (arg ∷ []) o = elim (flag arg) [
    | with_value f ↦ last_option (assign f [] o)
    | switched f ↦ last_option (assign f [] o)
    | no_flag ↦ some (help_or_unknown arg)
  ]
  option_loop (arg ∷ value ∷ rest) o = elim (flag arg) [
    | with_value f ↦ go_on (option_loop rest) (assign f value o)
    | switched f ↦ go_on (option_loop (value ∷ rest)) (assign f [] o)
    | no_flag ↦ some (help_or_unknown arg)
  ]

  -- An option with its value is assigned first.
  pub option_loop-with_value :
      (arg value : Bytes) (f : F) (rest : List Bytes) (o o' : O)
      → flag arg ≡ with_value f
      → assign f value o ≡ some o'
      → option_loop (arg ∷ value ∷ rest) o ≡ option_loop rest o'
  unfolding option_loop
  option_loop-with_value arg value f rest o o' hf ha = rw (option_loop, hf, ha) refl

  pub option_loop-switched :
      (arg : Bytes) (f : F) (rest : List Bytes) (o o' : O)
      → flag arg ≡ switched f
      → assign f [] o ≡ some o'
      → option_loop (arg ∷ rest) o ≡ option_loop rest o'
  unfolding option_loop
  option_loop-switched arg f [] o o' hf ha = rw (option_loop, hf, ha) refl
  option_loop-switched arg f (r ∷ rest) o o' hf ha = rw (option_loop, hf, ha) refl
