-- ===== src/Prelude/Strings.antt =====
-- Byte strings: `std::string` as a list of byte values, with the members that the program calls.
use Prim.Native.Nat.{ℕ, zero, suc, ◌<◌}
use Prim.Native.Char.{code}
use Prim.Native.String.{String}
use mathlib.Core.Path.{◌≡◌, refl}
use mathlib.Core.Logic.{◌≢◌, ◌↔◌}
use mathlib.Core.Bool.{Bool, true, false, ◌&&◌}
use mathlib.Core.List.{List, [], ◌∷◌, ◌++◌}
use mathlib.Core.Option.{Option, none, some}
use native.Mathlib.Omega.{arith}
use distributed_kv_store.Prelude.Tests.{◌==◌, if◌then◌else◌}
use distributed_kv_store.Prelude.Lists.{length, take, drop}

abbrev pub Bytes : Type 0
Bytes = List ℕ

-- The bytes of an ASCII literal.
abbrev pub codes : String → Bytes
codes String.[] = []
codes (String.◌∷◌ c s) = code c ∷ codes s

-- std::string operator==
unfoldable pub eq_bytes : Bytes → Bytes → Bool
eq_bytes [] [] = true
eq_bytes [] (c ∷ t) = false
eq_bytes (c ∷ s) [] = false
eq_bytes (c ∷ s) (d ∷ t) = c == d && eq_bytes s t

pub eq_bytes_iff : (s t : Bytes) → (eq_bytes s t ≡ true) ↔ (s ≡ t)
unfolding eq_bytes
eq_bytes_iff [] [] = ((λ h. refl), λ h. refl)
eq_bytes_iff [] (c ∷ t) = ((λ h. cc), λ h. cc)
eq_bytes_iff (c ∷ s) [] = ((λ h. cc), λ h. cc)
eq_bytes_iff (c ∷ s) (d ∷ t) =
    let ih = eq_bytes_iff s t in ((λ h. ground (arith, ih)), λ h. ground (arith, ih))

pub eq_bytes_refl : (s : Bytes) → eq_bytes s s ≡ true
eq_bytes_refl s = (eq_bytes_iff s s).1 refl

pub eq_bytes_comm : (s t : Bytes) → eq_bytes s t ≡ eq_bytes t s
eq_bytes_comm s t = ground (arith, eq_bytes_iff s t, eq_bytes_iff t s)

abbrev pub All {ℓ κ} : {A : Type ℓ} → (A → Type κ) → List A → Type κ
All P [] = Unit
All P (x ∷ xs) = P x × All P xs

pub All-append {ℓ κ} :
    {A : Type ℓ} (P : A → Type κ) (xs ys : List A) → All P xs → All P ys → All P (xs ++ ys)
All-append P [] ys _ hy = hy
All-append P (x ∷ xs) ys (px, hx) hy = (px, All-append P xs ys hx hy)

pub All-mono {ℓ κ μ} :
    {A : Type ℓ} (P : A → Type κ) (Q : A → Type μ)
    → ((a : A) → P a → Q a)
    → (xs : List A) → All P xs
    → All Q xs
All-mono P Q f [] h = tt
All-mono P Q f (x ∷ xs) (p, h) = (f x p, All-mono P Q f xs h)

abbrev pub Lacks : ℕ → Bytes → Type 0
Lacks b = All (λ c. c ≢ b)

-- One position further.
abbrev pub shift : Option ℕ → Option ℕ
shift none = none
shift (some n) = some (suc n)

-- s.find(c): the first position of the byte.
unfoldable pub find? : ℕ → Bytes → Option ℕ
find? c [] = none
find? c (d ∷ s) = if d == c then some 0 else shift (find? c s)

pub find?-lt : (c : ℕ) (s : Bytes) (n : ℕ) → find? c s ≡ some n → n < length s
unfolding find?
find?-lt c [] n h = cc
find?-lt c (d ∷ s) zero h = omega arith
find?-lt c (d ∷ s) (suc n) h = ground (arith, find?-lt c s n)

pub find?-append : (c : ℕ) (s t : Bytes) (n : ℕ) → find? c s ≡ some n → find? c (s ++ t) ≡ some n
unfolding find?
find?-append c [] t n h = cc
find?-append c (d ∷ s) t zero h = ground arith
find?-append c (d ∷ s) t (suc n) h = ground (arith, find?-append c s t n)

-- The first occurrence splits the text, and the part before it lacks the byte.
pub find?-split :
    (c : ℕ) (s : Bytes) (n : ℕ)
    → find? c s ≡ some n
    → (s ≡ take n s ++ c ∷ drop (suc n) s) × Lacks c (take n s)
unfolding find?
find?-split c [] n h = cc
find?-split c (d ∷ s) zero h = ground arith
find?-split c (d ∷ s) (suc n) h = ground (arith, find?-split c s n)

pub find?-Lacks : (c : ℕ) (s : Bytes) → Lacks c s → find? c s ≡ none
unfolding find?
find?-Lacks c [] h = refl
find?-Lacks c (d ∷ s) h = ground (arith, find?-Lacks c s)

pub find?-none : (c : ℕ) (s : Bytes) → find? c s ≡ none → Lacks c s
unfolding find?
find?-none c [] h = tt
find?-none c (d ∷ s) h = ground (arith, find?-none c s)

pub find?-first : (c : ℕ) (s t : Bytes) → Lacks c s → find? c (s ++ c ∷ t) ≡ some (length s)
unfolding find?
find?-first c [] t h = ground arith
find?-first c (d ∷ s) t h = ground (arith, find?-first c s t)
