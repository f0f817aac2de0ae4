-- ===== src/Protocol/RequestParser/Sound.antt =====
-- What a complete parse returns, whatever the bytes were.
use distributed_kv_store.Prelude.{
  ℕ, suc, ◌+◌, ◌≤◌, ◌<◌, ◌≡◌, refl, sym, ap, Bool, true, false, ◌||◌, List, [], ◌∷◌, Option, none,
  some, inl, inr, arith, Bytes, codes, eq_bytes, find?, take, drop, length, length-take, ltb,
  if◌then◌else◌, Bool-cases, Option-cases, All, leb, get_elem?,
}
use distributed_kv_store.Protocol.Messages.{
  max_key_len, max_value_len, Command, Request, Parser, ParseStatus, incomplete, complete, error,
  get, set, delete, ping,
}
use distributed_kv_store.Protocol.Text.{
  is_valid_key, all_above_space, parse_length, split_spaces, strip_trailing_cr, lf,
}
use distributed_kv_store.Protocol.Text.Decimal.{parse_length_sound}
use distributed_kv_store.Protocol.RequestParser.{
  with_key, valid_key_arg, set_args, is_lf, parse_key_command, parse_ping, parse_set, parse_command,
  parse_tokens, try_parse_request, max_command_line_len,
}
use distributed_kv_store.Protocol.RequestParser.RoundTrip.{Sendable, carried}

-- A key of 1 to 250 bytes, none of them a space or a control character below it.
abbrev pub IsKey : Bytes → Type 0
IsKey key = (0 < length key) × (length key ≤ 250) × All (λ c. 0x20 < c) key

-- The limits on the fields that the command carries; the others are empty.
abbrev pub Allowed : Command → Request → Type 0
Allowed get req = IsKey req.key × (req.value ≡ [])
Allowed delete req = IsKey req.key × (req.value ≡ [])
Allowed set req = IsKey req.key × (length req.value ≤ 1048576)
Allowed ping req = (req.key ≡ []) × (req.value ≡ [])

abbrev pub WellFormed : ParseStatus Request → Type 0
WellFormed incomplete = Unit
WellFormed error = Unit
WellFormed (complete req) = Allowed req.command req

-- What the tests of the parser leave.
abbrev Tested : ParseStatus Request → Type 0
Tested incomplete = Unit
Tested error = Unit
Tested (complete req) = Sendable req.command req × (carried req.command req ≡ req)

Tested-if :
    (b : Bool) (x y : ParseStatus Request × Parser)
    → Tested x.0
    → Tested y.0
    → Tested (if b then x else y).0
Tested-if true x y hx hy = hx
Tested-if false x y hx hy = hy

valid_key_arg-valid :
    (args : List Bytes) (key : Bytes) → valid_key_arg args ≡ some key → is_valid_key key ≡ true
valid_key_arg-valid [] key h = cc (h)
valid_key_arg-valid (k ∷ []) key h = ground arith
valid_key_arg-valid (k ∷ t ∷ ts) key h = cc (h)

set_args-valid :
    (args : List Bytes) (key : Bytes) (n : ℕ)
    → set_args args ≡ some (key, n)
    → (is_valid_key key ≡ true) × (n ≤ max_value_len)
set_args-valid [] key n h = cc (h)
set_args-valid (k ∷ []) key n h = cc (h)
set_args-valid (k ∷ len ∷ []) key n h = elim (Bool-cases (is_valid_key k)) [
  | inr bad ↦ let h' = rw bad at h in cc (h')
  | inl good ↦ by_length (parse_length len) refl (rw good at h)
]
  where
    by_length :
        (o : Option ℕ)
        → parse_length len ≡ o
        → with_key k o ≡ some (key, n)
        → (is_valid_key key ≡ true) × (n ≤ max_value_len)
    by_length none e h' = cc (h')
    by_length (some m) e h' = let bound = (parse_length_sound len m e).0 in ground (arith, bound)
set_args-valid (k ∷ len ∷ t ∷ ts) key n h = cc (h)

parse_key_command-Tested :
    (p : Parser) (n : ℕ) (is_get : Bool) (cmd : Bytes) (key : Option Bytes)
    → ((k : Bytes) → key ≡ some k → is_valid_key k ≡ true)
    → Tested (parse_key_command p n (if is_get then get else delete) cmd key).0
unfolding parse_key_command
parse_key_command-Tested p n is_get cmd none h = tt
parse_key_command-Tested p n true cmd (some key) h = (h key refl, refl)
parse_key_command-Tested p n false cmd (some key) h = (h key refl, refl)

parse_ping-Tested : (p : Parser) (n : ℕ) (args : List Bytes) → Tested (parse_ping p n args).0
unfolding parse_ping
parse_ping-Tested p n [] = (tt, refl)
parse_ping-Tested p n (t ∷ ts) = tt

parse_set-Tested :
    (p : Parser) (n : ℕ) (args : Option (Bytes × ℕ))
    → ((key : Bytes) (m : ℕ)
        → args ≡ some (key, m)
        → (is_valid_key key ≡ true) × (m ≤ max_value_len))
    → Tested (parse_set p n args).0
unfolding parse_set
parse_set-Tested p n none h = tt
parse_set-Tested p n (some (key, m)) h =
    let (valid, fits) = h key m refl in
    Tested-if (ltb (length p.buffer) (suc n + m + 1)) _ _ tt (
      Tested-if (is_lf (get_elem? p.buffer (suc n + m))) _ _
        ((valid, omega (arith, fits, length-take {0} m (drop (suc n) p.buffer))), refl) tt)

parse_tokens-Tested :
    (p : Parser) (n : ℕ) (tokens : List Bytes) → Tested (parse_tokens p n tokens).0
unfolding parse_tokens parse_command
parse_tokens-Tested p n [] = tt
parse_tokens-Tested p n ([] ∷ args) = tt
parse_tokens-Tested p n ((c ∷ cmd) ∷ args) =
    Tested-if (eq_bytes (c ∷ cmd) (codes "GET") || eq_bytes (c ∷ cmd) (codes "DELETE")) _ _
      (parse_key_command-Tested p n (eq_bytes (c ∷ cmd) (codes "GET")) (c ∷ cmd)
        (valid_key_arg args) (valid_key_arg-valid args))
      (Tested-if (eq_bytes (c ∷ cmd) (codes "PING")) _ _ (parse_ping-Tested p n args) (
        Tested-if (eq_bytes (c ∷ cmd) (codes "SET")) _ _
          (parse_set-Tested p n (set_args args) (set_args-valid args)) tt))

try_parse_request-Tested : (p : Parser) → Tested (try_parse_request p).0
unfolding try_parse_request
try_parse_request-Tested p = elim (Option-cases (find? lf p.buffer)) [
  | inl missing ↦
      rw (missing, Tested, try_parse_request)
        (Tested-if (ltb max_command_line_len (length p.buffer)) _ _ tt tt)
  | inr (n, there) ↦
      rw (there, Tested, try_parse_request)
        (parse_tokens-Tested p n (split_spaces (strip_trailing_cr (take n p.buffer))))
]

all_above_space-All : (s : Bytes) → all_above_space s ≡ true → All (λ c. 0x20 < c) s
unfolding all_above_space
all_above_space-All [] h = tt
all_above_space-All (c ∷ s) h = elim (Bool-cases (leb c 0x20)) [
  | inl low ↦ let h' = rw low at h in cc (h')
  | inr high ↦ (ground arith, all_above_space-All s (rw high at h))
]

is_valid_key-IsKey : (key : Bytes) → is_valid_key key ≡ true → IsKey key
unfolding is_valid_key
is_valid_key-IsKey [] h = cc (h)
is_valid_key-IsKey (c ∷ s) h = elim (Bool-cases (ltb max_key_len (length (c ∷ s)))) [
  | inl long ↦ let h' = rw long at h in cc (h')
  | inr fits ↦ (omega arith, ground arith, all_above_space-All (c ∷ s) (rw fits at h))
]

Tested-Allowed :
    (command : Command) (req : Request)
    → Sendable command req
    → carried command req ≡ req
    → Allowed command req
Tested-Allowed get req ok e = (is_valid_key-IsKey req.key ok, sym (ap (λ r. r.value) e))
Tested-Allowed delete req ok e = (is_valid_key-IsKey req.key ok, sym (ap (λ r. r.value) e))
Tested-Allowed set req (valid, fits) e = (is_valid_key-IsKey req.key valid, fits)
Tested-Allowed ping req ok e = (sym (ap (λ r. r.key) e), sym (ap (λ r. r.value) e))

Tested-WellFormed : (x : ParseStatus Request) → Tested x → WellFormed x
Tested-WellFormed incomplete h = tt
Tested-WellFormed error h = tt
Tested-WellFormed (complete req) (ok, e) = Tested-Allowed req.command req ok e

-- Whatever the buffer holds, a complete parse returns a GET, SET or DELETE whose key has 1 to 250
-- bytes, all of them above 0x20, or a PING without a key; a SET with a value of at most 1 MiB, any
-- other request with no value.
pub try_parse_request-WellFormed : (p : Parser) → WellFormed (try_parse_request p).0
try_parse_request-WellFormed p = Tested-WellFormed _ (try_parse_request-Tested p)
