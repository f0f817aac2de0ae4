-- ===== src/Protocol/RequestParser/Progress.antt =====
-- What a call of `try_parse_request` consumes: nothing where it is incomplete, a non-empty prefix of
-- the buffer where it decides a terminated line, and nothing on an overlong line with no terminator.
use distributed_kv_store.Prelude.{
  ℕ, suc, ◌+◌, ◌-◌, Bool, ap, ◌<◌, ◌≤◌, ◌≡◌, ◌≢◌, refl, true, false, List, [], ◌∷◌, Option, none,
  some, ◌⊎◌, inl, inr, arith, Bytes, codes, eq_bytes, find?, take, drop, length, ltb, ltb→le,
  find?-lt, get_elem?, Bool-cases, if◌then◌else◌, ◌||◌,
}
use distributed_kv_store.Protocol.Messages.{Command, Parser, ParseStatus, incomplete, error}
use distributed_kv_store.Protocol.Text.{lf, split_spaces, strip_trailing_cr}
use distributed_kv_store.Protocol.RequestParser.{
  accept, reject, max_command_line_len, is_lf, set_args, valid_key_arg, parse_key_command,
  parse_ping, parse_set, parse_command, parse_tokens, try_parse_request,
}

-- The parse is decided, and its first `k + 1` bytes are gone.
pub record Consumed {ℓ} {A : Type ℓ} (p : Parser) (r : ParseStatus A × Parser) : Type ℓ where
  pub decided : r.0 ≢ incomplete
  pub count : ℕ
  pub within : count < length p.buffer
  pub rest : r.1.buffer ≡ drop (suc count) p.buffer

abbrev pub Progress {ℓ} : {A : Type ℓ} → Parser → ParseStatus A × Parser → Type ℓ
Progress p r = (r ≡ (incomplete, p)) ⊎ Consumed p r

module _ {ℓ} {A : Type ℓ} (p : Parser) (n : ℕ) (pos : 0 < n) (fits : n ≤ length p.buffer) where
  pub accept-Consumed : (a : A) → Consumed p (accept p n a)
  accept-Consumed a =
      let e : n ≡ suc (n - 1) = omega arith in
      record {
        decided = λ e. cc;
        count = n - 1;
        within = omega arith;
        rest = ap (λ k. drop k p.buffer) e;
      }

  pub reject-Consumed : (message : Bytes) → Consumed {A = A} p (reject p n message)
  reject-Consumed message =
      let e : n ≡ suc (n - 1) = omega arith in
      record {
        decided = λ e. cc;
        count = n - 1;
        within = omega arith;
        rest = ap (λ k. drop k p.buffer) e;
      }

  pub accept_or_reject-Consumed :
      (a : A) (message : Bytes) (b : Bool)
      → Consumed p (if b then accept p n a else reject p n message)
  accept_or_reject-Consumed a message true = accept-Consumed a
  accept_or_reject-Consumed a message false = reject-Consumed message

pub if-Progress {ℓ} :
    {A : Type ℓ} {p : Parser} (b : Bool) (x y : ParseStatus A × Parser)
    → Progress p x
    → Progress p y
    → Progress p (if b then x else y)
if-Progress true x y hx hy = hx
if-Progress false x y hx hy = hy

module _ (p : Parser) (n : ℕ) (fits : n < length p.buffer) where
  parse_key_command-Progress :
      (command : Command) (cmd : Bytes) (key : Option Bytes)
      → Progress p (parse_key_command p n command cmd key)
  unfolding parse_key_command
  parse_key_command-Progress command cmd none = inr (reject-Consumed p (suc n) (omega arith) fits _)
  parse_key_command-Progress command cmd (some key) =
      inr (accept-Consumed p (suc n) (omega arith) fits _)

  parse_ping-Progress : (args : List Bytes) → Progress p (parse_ping p n args)
  unfolding parse_ping
  parse_ping-Progress [] = inr (accept-Consumed p (suc n) (omega arith) fits _)
  parse_ping-Progress (t ∷ ts) = inr (reject-Consumed p (suc n) (omega arith) fits _)

  parse_set-Progress : (args : Option (Bytes × ℕ)) → Progress p (parse_set p n args)
  unfolding parse_set
  parse_set-Progress none = inr (reject-Consumed p (suc n) (omega arith) fits _)
  parse_set-Progress (some (key, v)) = elim (Bool-cases (ltb (length p.buffer) (suc n + v + 1))) [
    | inl short ↦ inl (rw short refl)
    | inr long ↦ inr (
        rw long (
          accept_or_reject-Consumed p (suc n + v + 1) (omega arith) (ltb→le _ _ long) _ _
            (is_lf (get_elem? p.buffer (suc n + v)))))
  ]

  parse_command-Progress :
      (cmd : Bytes) (args : List Bytes) → Progress p (parse_command p n cmd args)
  unfolding parse_command
  parse_command-Progress cmd args =
      if-Progress (eq_bytes cmd (codes "GET") || eq_bytes cmd (codes "DELETE")) _ _
        (parse_key_command-Progress _ cmd (valid_key_arg args))
        (if-Progress (eq_bytes cmd (codes "PING")) _ _ (parse_ping-Progress args) (
          if-Progress (eq_bytes cmd (codes "SET")) _ _ (parse_set-Progress (set_args args))
            (inr (reject-Consumed p (suc n) (omega arith) fits _))))

  parse_tokens-Progress : (tokens : List Bytes) → Progress p (parse_tokens p n tokens)
  unfolding parse_tokens
  parse_tokens-Progress [] = inr (reject-Consumed p (suc n) (omega arith) fits _)
  parse_tokens-Progress ([] ∷ args) = inr (reject-Consumed p (suc n) (omega arith) fits _)
  parse_tokens-Progress ((c ∷ cmd) ∷ args) = parse_command-Progress (c ∷ cmd) args

-- An overlong line with no terminator is refused, and all of it stays in the buffer.
pub try_parse_request-overlong :
    (p : Parser)
    → find? lf p.buffer ≡ none
    → max_command_line_len < length p.buffer
    → try_parse_request p ≡ (error, record p { error_message = codes "command line too long" })
unfolding try_parse_request
try_parse_request-overlong p e h = rw (e, try_parse_request) (ground arith)

pub try_parse_request-unterminated :
    (p : Parser)
    → find? lf p.buffer ≡ none
    → length p.buffer ≤ max_command_line_len
    → try_parse_request p ≡ (incomplete, p)
unfolding try_parse_request
try_parse_request-unterminated p e h = rw (e, try_parse_request) (ground arith)

pub try_parse_request-Progress :
    (p : Parser) {n : ℕ} → find? lf p.buffer ≡ some n → Progress p (try_parse_request p)
unfolding try_parse_request
try_parse_request-Progress p {n} e =
    rw (e, try_parse_request)
      (parse_tokens-Progress p n (find?-lt lf p.buffer n e)
        (split_spaces (strip_trailing_cr (take n p.buffer))))
