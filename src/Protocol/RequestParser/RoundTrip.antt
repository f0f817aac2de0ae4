-- ===== src/Protocol/RequestParser/RoundTrip.antt =====
-- The request parser reads back what `encode_request` writes.
use distributed_kv_store.Prelude.{
  ℕ, ◌<◌, ◌≤◌, ◌≡◌, ◌≢◌, refl, true, [], ◌∷◌, ◌++◌, append_assoc, arith, Bytes, codes, eq_bytes,
  find?-first, take-length, drop-suc-length, length, Lacks, All-append,
}
use distributed_kv_store.Protocol.Messages.{
  max_value_len, Command, Request, complete, get, set, delete, ping,
}
use distributed_kv_store.Protocol.Text.{lf, cr, space, is_valid_key, split_spaces, to_string}
use distributed_kv_store.Protocol.Text.Tokens.{
  split_spaces-one, split_spaces-two, split_spaces-three, is_valid_key-Lacks,
  strip_trailing_cr-Lacks,
}
use distributed_kv_store.Protocol.Text.Decimal.{parse_length-to_string, to_string-Lacks}
use distributed_kv_store.Protocol.Encode.{encode_request, encode_command}
use distributed_kv_store.Protocol.Payload.{framed_fits, framed_end, framed_value, framed_rest}
use distributed_kv_store.Protocol.RequestParser.{
  parse_key_command, parse_ping, parse_set, parse_command, parse_tokens, try_parse_request,
}

-- The bounds of the protocol on the fields that the command carries.
abbrev pub Sendable : Command → Request → Type 0
Sendable get req = is_valid_key req.key ≡ true
Sendable delete req = is_valid_key req.key ≡ true
Sendable set req = (is_valid_key req.key ≡ true) × (length req.value ≤ max_value_len)
Sendable ping req = Unit

-- The request with the fields that its command does not carry empty.
abbrev pub carried : Command → Request → Request
carried get req = record req { command = get; value = [] }
carried delete req = record req { command = delete; value = [] }
carried set req = record req { command = set }
carried ping req = record { command = ping; key = []; value = [] }

-- The parse of a terminated line.
try_parse_request-line :
    (line rest e : Bytes)
    → Lacks lf line
    → Lacks cr line
    → try_parse_request (record { buffer = line ++ lf ∷ rest; error_message = e })
      ≡ parse_tokens
          (record { buffer = line ++ lf ∷ rest; error_message = e })
          (length line)
          (split_spaces line)
unfolding try_parse_request
try_parse_request-line line rest e no_lf no_cr =
    rw
      (
        find?-first lf line rest no_lf,
        try_parse_request,
        take-length line (lf ∷ rest),
        strip_trailing_cr-Lacks line no_cr,
      )
      refl

-- A command word and a valid key.
word_key-Lacks :
    (c : ℕ) (word key : Bytes)
    → c ≤ space
    → Lacks c word
    → is_valid_key key ≡ true
    → Lacks c (word ++ key)
word_key-Lacks c word key le lacks valid =
    All-append (λ d. d ≢ c) word key lacks (is_valid_key-Lacks c key le valid)

parse-get :
    (key rest e : Bytes)
    → is_valid_key key ≡ true
    → try_parse_request (record { buffer = (codes "GET " ++ key) ++ lf ∷ rest; error_message = e })
      ≡ (
        complete (record { command = get; key = key; value = [] }),
        record { buffer = rest; error_message = e },
      )
unfolding parse_tokens parse_command parse_key_command eq_bytes
parse-get key rest e valid =
    rw
      (
        try_parse_request-line (codes "GET " ++ key) rest e
            (word_key-Lacks lf (codes "GET ") key (omega arith) (omega arith) valid)
            (word_key-Lacks cr (codes "GET ") key (omega arith) (omega arith) valid),
        split_spaces-two (codes "GET") key (λ p. cc) (omega arith)
            (is_valid_key-Lacks space key (omega arith) valid),
        valid,
        drop-suc-length (codes "GET " ++ key) lf rest,
      )
      refl

parse-delete :
    (key rest e : Bytes)
    → is_valid_key key ≡ true
    → try_parse_request
        (record { buffer = (codes "DELETE " ++ key) ++ lf ∷ rest; error_message = e })
      ≡ (
        complete (record { command = delete; key = key; value = [] }),
        record { buffer = rest; error_message = e },
      )
unfolding parse_tokens parse_command parse_key_command eq_bytes
parse-delete key rest e valid =
    rw
      (
        try_parse_request-line (codes "DELETE " ++ key) rest e
            (word_key-Lacks lf (codes "DELETE ") key (omega arith) (omega arith) valid)
            (word_key-Lacks cr (codes "DELETE ") key (omega arith) (omega arith) valid),
        split_spaces-two (codes "DELETE") key (λ p. cc) (omega arith)
            (is_valid_key-Lacks space key (omega arith) valid),
        valid,
        drop-suc-length (codes "DELETE " ++ key) lf rest,
      )
      refl

parse-ping :
    (rest e : Bytes)
    → try_parse_request (record { buffer = codes "PING" ++ lf ∷ rest; error_message = e }) ≡ (
      complete (record { command = ping; key = []; value = [] }),
      record { buffer = rest; error_message = e },
    )
unfolding parse_tokens parse_command parse_ping eq_bytes
parse-ping rest e =
    rw
      (
        try_parse_request-line (codes "PING") rest e (omega arith) (omega arith),
        split_spaces-one (codes "PING") (omega arith),
      )
      refl

-- The line of a SET request.
abbrev set_line : Bytes → ℕ → Bytes
set_line key n = codes "SET " ++ (key ++ space ∷ to_string n)

set_line-Lacks :
    (c : ℕ) (key : Bytes) (n : ℕ) → c < space → is_valid_key key ≡ true → Lacks c (set_line key n)
set_line-Lacks c key n small valid =
    All-append (λ d. d ≢ c) (codes "SET ") (key ++ space ∷ to_string n) (omega arith)
      (All-append (λ d. d ≢ c) key (space ∷ to_string n)
        (is_valid_key-Lacks c key (omega arith) valid)
        (omega arith, to_string-Lacks c n (ground arith)))

parse-set :
    (key value rest e : Bytes)
    → is_valid_key key ≡ true
    → length value ≤ max_value_len
    → try_parse_request (record {
      buffer = set_line key (length value) ++ lf ∷ (value ++ lf ∷ rest);
      error_message = e;
    })
      ≡ (
        complete (record { command = set; key = key; value = value }),
        record { buffer = rest; error_message = e },
      )
unfolding parse_tokens parse_command parse_set eq_bytes
parse-set key value rest e valid fits =
    let line = set_line key (length value) in
    rw
      (
        try_parse_request-line line (value ++ lf ∷ rest) e
            (set_line-Lacks lf key (length value) (omega arith) valid)
            (set_line-Lacks cr key (length value) (omega arith) valid),
        split_spaces-three (codes "SET") key (to_string (length value)) (omega arith)
            (is_valid_key-Lacks space key (omega arith) valid)
            (to_string-Lacks space (length value) refl),
        valid,
        parse_length-to_string (length value) fits,
        framed_fits line value rest,
        framed_end line value rest,
        framed_value line value rest,
        framed_rest line value rest,
      )
      refl

encode_command-parses :
    (c : Command) (req : Request) (rest e : Bytes)
    → Sendable c req
    → try_parse_request (record { buffer = encode_command c req ++ rest; error_message = e })
      ≡ (complete (carried c req), record { buffer = rest; error_message = e })
unfolding encode_command
encode_command-parses get req rest e h =
    rw (append_assoc (codes "GET " ++ req.key) (lf ∷ []) rest) (parse-get req.key rest e h)
encode_command-parses delete req rest e h =
    rw (append_assoc (codes "DELETE " ++ req.key) (lf ∷ []) rest) (parse-delete req.key rest e h)
encode_command-parses set req rest e (valid, fits) =
    simp append_assoc (simp append_assoc at (parse-set req.key req.value rest e valid fits))
encode_command-parses ping req rest e h = parse-ping rest e

-- A request whose key is valid and whose value is at most 1 MiB, in so far as its command carries
-- them, is parsed back from its encoding, whatever follows; the bytes behind it stay in the buffer.
pub try_parse_request-encode_request :
    (req : Request) (rest e : Bytes)
    → Sendable req.command req
    → try_parse_request (record { buffer = encode_request req ++ rest; error_message = e })
      ≡ (complete (carried req.command req), record { buffer = rest; error_message = e })
unfolding encode_request
try_parse_request-encode_request req rest e h = encode_command-parses req.command req rest e h
