-- ===== src/CommandLine/Numbers.antt =====
-- `std::atoi` and `std::stoul`, and the casts of their results to unsigned types. What `std::atoi`
-- returns for a number that is no `int` is left open by its documentation; here it is what the usual
-- libraries do, the result of `strtol`, which stops at the bounds of 64 bits, cast to 32 bits.
use native.Mathlib.Nat.{mod-eq_of_lt, mod-lt, pow-suc}
use distributed_kv_store.Prelude.{
  ℕ, zero, suc, ◌-◌, ◌%◌, ◌^◌, ◌<◌, ◌≡◌, ◌≢◌, refl, ap, min, Bool, true, false, [], ◌∷◌, Option,
  none, some, Bytes, All, ltb, lt→ltb, ◌==◌, if◌then◌else◌, arith,
}
use distributed_kv_store.Protocol.Text.{is_digit, decimal_from, digits, to_string}
use distributed_kv_store.Protocol.Text.Decimal.{
  IsDigit, digits-IsDigit, decimal_from-digits, digits-ne-nil,
}
use distributed_kv_store.Client.{is_space}

pub record Signed : Type 0 where
  pub negative : Bool
  pub magnitude : ℕ

unfoldable pub skip_space : Bytes → Bytes
skip_space [] = []
skip_space (c ∷ s) = if is_space c then skip_space s else c ∷ s

unfoldable pub read_sign : Bytes → Bool × Bytes
read_sign [] = (false, [])
read_sign (c ∷ s) =
    if c == b'-' then (true, s) else if c == b'+' then (false, s) else (false, c ∷ s)

unfoldable pub leading_digits : Bytes → Bytes
leading_digits [] = []
leading_digits (c ∷ s) = if is_digit c then c ∷ leading_digits s else []

-- A cast to an unsigned type of `w` bits.
abbrev pub to_unsigned : ℕ → Signed → ℕ
to_unsigned w v = if v.negative then (2 ^ w - v.magnitude % 2 ^ w) % 2 ^ w else v.magnitude % 2 ^ w

-- The bounds of a signed 64-bit number.
abbrev at_bound : Signed → Signed
at_bound v = record v { magnitude = min v.magnitude (if v.negative then 2 ^ 63 else 2 ^ 63 - 1) }

-- 32 bits as an `int`.
abbrev from_word : ℕ → Signed
from_word m =
    if ltb m (2 ^ 31)
    then record { negative = false; magnitude = m }
    else record { negative = true; magnitude = 2 ^ 32 - m }

abbrev to_int : Signed → Signed
to_int v = from_word (to_unsigned 32 (at_bound v))

unfoldable pub atoi : Bytes → Signed
unfolding read_sign skip_space leading_digits
atoi s =
    let (negative, rest) = read_sign (skip_space s) in
    to_int (record { negative = negative; magnitude = decimal_from 0 (leading_digits rest) })

abbrev in_range : Bool → ℕ → Option ℕ
in_range negative m =
    if ltb m (2 ^ 64)
    then some (to_unsigned 64 (record { negative = negative; magnitude = m }))
    else none

abbrev from_digits : Bool → Bytes → Option ℕ
from_digits negative [] = none
from_digits negative (c ∷ s) = in_range negative (decimal_from 0 (c ∷ s))

-- `none` is an exception: no digits, or no unsigned 64-bit number.
unfoldable pub stoul : Bytes → Option ℕ
unfolding read_sign skip_space leading_digits
stoul s =
    let (negative, rest) = read_sign (skip_space s) in from_digits negative (leading_digits rest)

leading_digits-IsDigit : (s : Bytes) → All IsDigit s → leading_digits s ≡ s
unfolding leading_digits
leading_digits-IsDigit [] h = refl
leading_digits-IsDigit (c ∷ s) (hc, hs) = rw hc (ap (λ t. c ∷ t) (leading_digits-IsDigit s hs))

-- Digits begin with neither white space nor a sign.
unsigned-IsDigit : (s : Bytes) → All IsDigit s → read_sign (skip_space s) ≡ (false, s)
unfolding read_sign skip_space
unsigned-IsDigit [] h = refl
unsigned-IsDigit (c ∷ s) (hc, hs) = ground (arith, hc)

-- An `int` that is not negative is kept.
to_int-small :
    (n : ℕ)
    → n < 2 ^ 31
    → to_int (record { negative = false; magnitude = n })
      ≡ record { negative = false; magnitude = n }
to_int-small n h =
    let kept : min n (2 ^ 63 - 1) % 2 ^ 32 ≡ n = ground (arith, h) in
    rw kept (rw (lt→ltb n (2 ^ 31) h) refl)

pub atoi-to_string :
    (n : ℕ) → n < 2 ^ 31 → atoi (to_string n) ≡ record { negative = false; magnitude = n }
unfolding atoi to_string
atoi-to_string n h =
    let ds = digits-IsDigit (suc n) n in
    rw
      (
        unsigned-IsDigit (digits (suc n) n) ds,
        leading_digits-IsDigit (digits (suc n) n) ds,
        decimal_from-digits (suc n) n (omega arith),
      )
      (to_int-small n h)

pub to_unsigned-small : (w n : ℕ) → n < 2 ^ 31 → n < 2 ^ w → to_unsigned w (atoi (to_string n)) ≡ n
to_unsigned-small w n h fits = rw (atoi-to_string n h) (mod-eq_of_lt fits)

pow_pos : (w : ℕ) → 0 < 2 ^ w
pow_pos zero = omega arith
pow_pos (suc w) = rw (pow-suc 2 w) (omega (arith, pow_pos w))

pub to_unsigned-lt : (w : ℕ) (v : Signed) → to_unsigned w v < 2 ^ w
to_unsigned-lt w v = either v.negative
  where
    either :
        (b : Bool)
        → (if b then (2 ^ w - v.magnitude % 2 ^ w) % 2 ^ w else v.magnitude % 2 ^ w) < 2 ^ w
    either true = mod-lt (2 ^ w - v.magnitude % 2 ^ w) {m = 2 ^ w} (pow_pos w)
    either false = mod-lt v.magnitude {m = 2 ^ w} (pow_pos w)

pub stoul-to_string : (n : ℕ) → n < 2 ^ 64 → stoul (to_string n) ≡ some n
unfolding stoul to_string
stoul-to_string n h =
    let ds = digits-IsDigit (suc n) n in
    rw (unsigned-IsDigit (digits (suc n) n) ds, leading_digits-IsDigit (digits (suc n) n) ds)
      (filled (digits (suc n) n) (digits-ne-nil (suc n) n (omega arith))
        (decimal_from-digits (suc n) n (omega arith)))
  where
    filled : (s : Bytes) → s ≢ [] → decimal_from 0 s ≡ n → from_digits false s ≡ some n
    filled [] ne e = absurd (ne refl)
    filled (c ∷ s) ne e = rw e (rw (lt→ltb n (2 ^ 64) h) (ap some (mod-eq_of_lt h)))
