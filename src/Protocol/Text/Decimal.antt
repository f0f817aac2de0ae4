-- ===== src/Protocol/Text/Decimal.antt =====
-- Decimal numbers
use native.Mathlib.Nat.{pow-suc}
use distributed_kv_store.Prelude.{
  ℕ, zero, suc, ◌+◌, ◌-◌, ◌*◌, ◌/◌, ◌%◌, ◌^◌, ◌≤◌, ◌<◌, ◌≡◌, ◌≢◌, refl, ap, ◌∙◌, true, false, [],
  ◌∷◌, ◌++◌, All-mono, some, arith, Bytes, length, length-append, Lacks, All, All-append, ltb,
  Bool-cases, inl, inr, ltb→le, le→ltb, lt→ltb,
}
use distributed_kv_store.Protocol.Messages.{max_value_len}
use distributed_kv_store.Protocol.Text.{
  all_digits, decimal_from, parse_length, digits, to_string, is_digit,
}

abbrev pub IsDigit : ℕ → Type 0
IsDigit c = is_digit c ≡ true

decimal_from-append :
    (s t : Bytes) (n : ℕ) → decimal_from n (s ++ t) ≡ decimal_from (decimal_from n s) t
unfolding decimal_from
decimal_from-append [] t n = refl
decimal_from-append (c ∷ s) t n = decimal_from-append s t (n * 10 + (c - b'0'))

-- Reading the printed digits of a number gives the number.
pub decimal_from-digits : (f n : ℕ) → n < f → decimal_from 0 (digits f n) ≡ n
unfolding decimal_from digits
decimal_from-digits zero n h = absurd (omega arith)
decimal_from-digits (suc f) n h = elim (Bool-cases (ltb n 10)) [
  | inl small ↦ rw small (omega arith)
  | inr big ↦
      let le : 10 ≤ n = ltb→le _ _ big in
      rw
        (
          big,
          decimal_from-append (digits f (n / 10)) ((b'0' + n % 10) ∷ []) 0,
          decimal_from-digits f (n / 10) (omega arith),
        )
        (omega arith)
]

pub digits-IsDigit : (f n : ℕ) → All IsDigit (digits f n)
unfolding digits
digits-IsDigit zero n = tt
digits-IsDigit (suc f) n = elim (Bool-cases (ltb n 10)) [
  | inl small ↦ rw small (ground arith)
  | inr big ↦
      rw big (All-append IsDigit (digits f (n / 10)) _ (digits-IsDigit f (n / 10)) (ground arith))
]

tenth-lt_pow : (k n : ℕ) → n < 10 ^ suc (suc k) → n / 10 < 10 ^ suc k
tenth-lt_pow k n h = let h' : n < 10 ^ suc k * 10 = rw (pow-suc 10 (suc k)) at h in omega arith

pub length-digits : (k f n : ℕ) → n < 10 ^ suc k → length (digits f n) ≤ suc k
unfolding digits
length-digits k zero n h = omega arith
length-digits zero (suc f) n h = rw (lt→ltb n 10 h) (omega arith)
length-digits (suc k) (suc f) n h = elim (Bool-cases (ltb n 10)) [
  | inl small ↦ rw small (omega arith)
  | inr big ↦ rw big (
      omega (
        arith,
        length-append {0} (digits f (n / 10)) ((b'0' + n % 10) ∷ []),
        length-digits k f (n / 10) (tenth-lt_pow k n h),
      ))
]

pub digits-ne-nil : (f n : ℕ) → n < f → digits f n ≢ []
unfolding digits
digits-ne-nil zero n h e = absurd (omega arith)
digits-ne-nil (suc f) n h e =
    ground (arith, ap length e, length-append {0} (digits f (n / 10)) ((b'0' + n % 10) ∷ []))

all_digits-IsDigit : (s : Bytes) → All IsDigit s → all_digits s ≡ true
unfolding all_digits
all_digits-IsDigit [] h = refl
all_digits-IsDigit (c ∷ s) (hc, hs) = rw hc (all_digits-IsDigit s hs)

-- What `parse_length` returns on a text of at most ten digits.
parse_length-digits :
    (s : Bytes)
    → s ≢ []
    → All IsDigit s
    → length s ≤ 10
    → decimal_from 0 s ≤ max_value_len
    → parse_length s ≡ some (decimal_from 0 s)
unfolding parse_length
parse_length-digits [] ne ds short fits = absurd (ne refl)
parse_length-digits (c ∷ s) ne ds short fits =
    rw (le→ltb 10 (length (c ∷ s)) short, all_digits-IsDigit (c ∷ s) ds) (ground arith)

-- A length that the program prints is read back, if it is one that the protocol allows.
pub parse_length-to_string : (n : ℕ) → n ≤ max_value_len → parse_length (to_string n) ≡ some n
unfolding to_string
parse_length-to_string n h =
    let value = decimal_from-digits (suc n) n (omega arith) in
    parse_length-digits (digits (suc n) n) (digits-ne-nil (suc n) n (omega arith))
      (digits-IsDigit (suc n) n) (omega (arith, length-digits 6 (suc n) n (omega arith)))
      (rw value h)
    ∙ ap some value

-- A printed number holds digits only, so neither a space nor a line end.
pub to_string-Lacks : (c n : ℕ) → is_digit c ≡ false → Lacks c (to_string n)
unfolding to_string
to_string-Lacks c n h =
    All-mono IsDigit (λ d. d ≢ c) (λ d hd e. ground arith) (digits (suc n) n)
      (digits-IsDigit (suc n) n)

-- An accepted length is at most 1 MiB, and is the number that its at most ten digits spell.
pub parse_length_sound :
    (s : Bytes) (n : ℕ)
    → parse_length s ≡ some n
    → (n ≤ max_value_len) × (length s ≤ 10) × (n ≡ decimal_from 0 s) × (all_digits s ≡ true)
unfolding parse_length
parse_length_sound [] n h = cc
parse_length_sound (c ∷ s) n h = ground arith

-- A length that the protocol allows has at most ten digits.
pub length-to_string : (n : ℕ) → n ≤ max_value_len → length (to_string n) ≤ 10
unfolding to_string
length-to_string n h = omega (arith, length-digits 6 (suc n) n (omega arith))
