-- ===== src/Protocol/Text.antt =====
-- The text helpers in the anonymous namespace of common/protocol.cpp, and `std::to_string`.
pub mod Tokens
pub mod Decimal
use distributed_kv_store.Prelude.{
  ℕ, zero, suc, ◌+◌, ◌-◌, ◌*◌, ◌/◌, ◌%◌, ◌^◌, Bool, true, false, not, ◌&&◌, ◌||◌, List, [], ◌∷◌,
  ◌++◌, Option, none, some, Bytes, find?, take, drop, length, ltb, leb, ◌==◌, if◌then◌else◌,
}
use distributed_kv_store.Protocol.Messages.{max_key_len, max_value_len}

abbrev pub space : ℕ
space = b' '

abbrev pub lf : ℕ
lf = 10

abbrev pub cr : ℕ
cr = 13

-- The loop over the key's bytes.
unfoldable pub all_above_space : Bytes → Bool
all_above_space [] = true
all_above_space (c ∷ s) = if leb c 0x20 then false else all_above_space s

unfoldable pub is_valid_key : Bytes → Bool
is_valid_key [] = false
is_valid_key (c ∷ s) = if ltb max_key_len (length (c ∷ s)) then false else all_above_space (c ∷ s)

-- One round of `split_spaces` for each piece; `rest` is the line from `start` on, and the fuel
-- bounds the rounds.
unfoldable pub split_from : ℕ → Bytes → List Bytes → List Bytes
split_from zero rest tokens = tokens
split_from (suc f) rest tokens = elim (find? space rest) [
  | none ↦ tokens ++ rest ∷ []
  | some n ↦ split_from f (drop (suc n) rest) (tokens ++ take n rest ∷ [])
]

unfoldable pub split_spaces : Bytes → List Bytes
split_spaces line = split_from (suc (length line)) line []

abbrev pub is_digit : ℕ → Bool
is_digit c = leb b'0' c && leb c b'9'

unfoldable pub all_digits : Bytes → Bool
all_digits [] = true
all_digits (c ∷ s) = if is_digit c then all_digits s else false

-- The number that digits spell behind `n`.
unfoldable pub decimal_from : ℕ → Bytes → ℕ
decimal_from n [] = n
decimal_from n (c ∷ s) = decimal_from (n * 10 + (c - b'0')) s

-- `std::stoull` on a text of digits: it throws where the number is no unsigned 64-bit integer.
unfoldable pub stoull : Bytes → Option ℕ
stoull s = let v = decimal_from 0 s in if ltb v (2 ^ 64) then some v else none

abbrev pub at_most : ℕ → Option ℕ → Option ℕ
at_most limit none = none
at_most limit (some v) = if ltb limit v then none else some v

unfoldable pub parse_length : Bytes → Option ℕ
unfolding all_digits stoull
parse_length [] = none
parse_length (c ∷ s) =
    if ltb 10 (length (c ∷ s))
    then none
    else if not (all_digits (c ∷ s))
    then none
    else at_most max_value_len (stoull (c ∷ s))

-- A line with its last byte dropped if that is a carriage return.
unfoldable pub strip_trailing_cr : Bytes → Bytes
strip_trailing_cr [] = []
strip_trailing_cr (c ∷ []) = if c == cr then [] else c ∷ []
strip_trailing_cr (c ∷ d ∷ s) = c ∷ strip_trailing_cr (d ∷ s)

-- `std::to_string` of an unsigned number; the fuel bounds the number of digits.
unfoldable pub digits : ℕ → ℕ → Bytes
digits zero n = []
digits (suc f) n =
    let front = digits f (n / 10) in
    if ltb n 10 then (b'0' + n) ∷ [] else front ++ (b'0' + n % 10) ∷ []

unfoldable pub to_string : ℕ → Bytes
unfolding digits
to_string n = digits (suc n) n
