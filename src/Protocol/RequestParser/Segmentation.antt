-- ===== src/Protocol/RequestParser/Segmentation.antt =====
-- TCP segmentation: what a parse of a terminated command line decides does not depend on the bytes
-- that arrive later.
use distributed_kv_store.Prelude.{
  ℕ, suc, ◌+◌, ◌<◌, ◌≤◌, ◌≡◌, ◌≢◌, refl, Bool, true, false, List, [], ◌∷◌, ◌++◌, Option, none, some,
  arith, Bytes, codes, eq_bytes, find?, find?-lt, find?-append, take, length, take-append,
  drop-append, get_elem?, ltb, Bool-cases, inl, inr, if◌then◌else◌,
}
use distributed_kv_store.Protocol.Messages.{
  Command, Request, Parser, ParseStatus, incomplete, get, delete,
}
use distributed_kv_store.Protocol.Text.{lf, split_spaces, strip_trailing_cr}
use distributed_kv_store.Protocol.Payload.{
  payload-le, payload_fits-append, payload_end-append, payload-append,
}
use distributed_kv_store.Protocol.RequestParser.{
  feed, accept, reject, is_lf, set_args, valid_key_arg, parse_key_command, parse_ping, parse_set,
  parse_command, parse_tokens, try_parse_request,
}

-- The result of a parse whose buffer has received more bytes since.
abbrev pub fed {ℓ} : {A : Type ℓ} → Bytes → ParseStatus A × Parser → ParseStatus A × Parser
fed more (status, p) = (status, feed p more)

module _ {ℓ} {A : Type ℓ} (p : Parser) (more : Bytes) (n : ℕ) (fits : n ≤ length p.buffer) where
  pub accept-feed : (a : A) → accept (feed p more) n a ≡ fed more (accept p n a)
  accept-feed a = rw (drop-append n p.buffer more fits) refl

  pub reject-feed :
      (message : Bytes) → reject {A = A} (feed p more) n message ≡ fed more (reject p n message)
  reject-feed message = rw (drop-append n p.buffer more fits) refl

module _ {ℓ} {A : Type ℓ} (p : Parser) (more : Bytes) (n : ℕ) (fits : n ≤ length p.buffer) where
  pub accept_or_reject-feed :
      (a : A) (message : Bytes) (b : Bool)
      → (if b then accept (feed p more) n a else reject (feed p more) n message)
        ≡ fed more (if b then accept p n a else reject p n message)
  accept_or_reject-feed a message true = accept-feed p more n fits a
  accept_or_reject-feed a message false = reject-feed p more n fits message

module _ (p : Parser) (more : Bytes) (n : ℕ) (fits : n < length p.buffer) where
  parse_key_command-feed :
      (command : Command) (cmd : Bytes) (key : Option Bytes)
      → parse_key_command (feed p more) n command cmd key
        ≡ fed more (parse_key_command p n command cmd key)
  unfolding parse_key_command
  parse_key_command-feed command cmd none = reject-feed p more (suc n) fits _
  parse_key_command-feed command cmd (some key) = accept-feed p more (suc n) fits _

  parse_ping-feed :
      (args : List Bytes) → parse_ping (feed p more) n args ≡ fed more (parse_ping p n args)
  unfolding parse_ping
  parse_ping-feed [] = accept-feed p more (suc n) fits _
  parse_ping-feed (t ∷ ts) = reject-feed p more (suc n) fits _

  parse_set-feed :
      (args : Option (Bytes × ℕ))
      → (parse_set p n args).0 ≢ incomplete
      → parse_set (feed p more) n args ≡ fed more (parse_set p n args)
  unfolding parse_set
  parse_set-feed none h = reject-feed p more (suc n) fits _
  parse_set-feed (some (key, v)) h = elim (Bool-cases (ltb (length p.buffer) (suc n + v + 1))) [
    | inl short ↦ absurd (h (rw short refl))
    | inr long ↦
        rw
          (
            long,
            payload_fits-append p.buffer more (suc n) v long,
            payload_end-append p.buffer more (suc n) v long,
            payload-append p.buffer more (suc n) v long,
          )
          (accept_or_reject-feed p more (suc n + v + 1) (payload-le p.buffer more (suc n) v long) _
            _ (is_lf (get_elem? p.buffer (suc n + v))))
  ]

  parse_command-feed :
      (cmd : Bytes) (args : List Bytes)
      → (parse_command p n cmd args).0 ≢ incomplete
      → parse_command (feed p more) n cmd args ≡ fed more (parse_command p n cmd args)
  unfolding parse_command
  parse_command-feed cmd args h = ground (
    arith,
    parse_key_command-feed (if eq_bytes cmd (codes "GET") then get else delete) cmd
        (valid_key_arg args),
    parse_ping-feed args,
    parse_set-feed (set_args args),
    reject-feed {A = Request} p more (suc n) fits (codes "unknown command: " ++ cmd),
  )

  parse_tokens-feed :
      (tokens : List Bytes)
      → (parse_tokens p n tokens).0 ≢ incomplete
      → parse_tokens (feed p more) n tokens ≡ fed more (parse_tokens p n tokens)
  unfolding parse_tokens
  parse_tokens-feed [] h = reject-feed p more (suc n) fits _
  parse_tokens-feed ([] ∷ args) h = reject-feed p more (suc n) fits _
  parse_tokens-feed ((c ∷ cmd) ∷ args) h = parse_command-feed (c ∷ cmd) args h

-- If the buffer holds a line feed and the parse is decided, it is decided the same way whatever
-- bytes arrive later: the same status, request and message, and the later bytes are left in the
-- buffer behind the rest.
pub try_parse_request-feed :
    (p : Parser) (more : Bytes) {n : ℕ}
    → find? lf p.buffer ≡ some n
    → (try_parse_request p).0 ≢ incomplete
    → try_parse_request (feed p more) ≡ fed more (try_parse_request p)
unfolding try_parse_request
try_parse_request-feed p more {n} e h =
    rw
      (
        find?-append lf p.buffer more n e,
        try_parse_request,
        take-append n p.buffer more (omega (arith, find?-lt lf p.buffer n e)),
        e,
      )
      (parse_tokens-feed p more n (find?-lt lf p.buffer n e)
        (split_spaces (strip_trailing_cr (take n p.buffer))) (rw (e, try_parse_request) at h))
