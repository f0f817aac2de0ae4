-- ===== src/Protocol/RequestParser/Prefix.antt =====
-- A parse while the bytes of a request, and whatever follows it, are still arriving.
use distributed_kv_store.Prelude.{
  ◌≤◌, ◌≡◌, refl, true, sym, ap, ◌∙◌, [], ◌∷◌, ◌++◌, append_assoc, ◌⊎◌, inl, inr, arith, Bytes,
  codes, find?, find?-none, length, length-append, Lacks, Option-cases,
}
use distributed_kv_store.Protocol.Messages.{
  max_key_len, Command, Request, Parser, ParseStatus, incomplete, complete, get, set, delete, ping,
}
use distributed_kv_store.Protocol.Text.{lf, space, is_valid_key, to_string}
use distributed_kv_store.Protocol.Text.Decimal.{length-to_string}
use distributed_kv_store.Protocol.Encode.{encode_request, encode_command}
use distributed_kv_store.Protocol.RequestParser.{max_command_line_len, try_parse_request}
use distributed_kv_store.Protocol.RequestParser.Segmentation.{fed, try_parse_request-feed}
use distributed_kv_store.Protocol.RequestParser.Progress.{
  try_parse_request-Progress, try_parse_request-unterminated,
}
use distributed_kv_store.Protocol.RequestParser.RoundTrip.{
  Sendable, carried, try_parse_request-encode_request,
}

length-is_valid_key : (key : Bytes) → is_valid_key key ≡ true → length key ≤ max_key_len
unfolding is_valid_key
length-is_valid_key [] h = omega arith
length-is_valid_key (c ∷ key) h = ground arith

-- The encoding of a request begins with a line of at most 265 bytes.
pub record Line (bytes : Bytes) : Type 0 where
  pub line : Bytes
  pub rest : Bytes
  pub whole : bytes ≡ line ++ lf ∷ rest
  pub short : length line ≤ max_command_line_len

encode_command-Line :
    (c : Command) (req : Request) (tail : Bytes)
    → Sendable c req
    → Line (encode_command c req ++ tail)
unfolding encode_command
encode_command-Line get req tail h = record {
  line = codes "GET " ++ req.key;
  rest = tail;
  whole = append_assoc (codes "GET " ++ req.key) (lf ∷ []) tail;
  short = omega (arith, length-is_valid_key req.key h);
}
encode_command-Line delete req tail h = record {
  line = codes "DELETE " ++ req.key;
  rest = tail;
  whole = append_assoc (codes "DELETE " ++ req.key) (lf ∷ []) tail;
  short = omega (arith, length-is_valid_key req.key h);
}
encode_command-Line set req tail (valid, fits) = record {
  line = codes "SET " ++ (req.key ++ space ∷ to_string (length req.value));
  rest = req.value ++ lf ∷ tail;
  whole = simp append_assoc;
  short = omega (
    arith,
    length-append {0} req.key (space ∷ to_string (length req.value)),
    length-is_valid_key req.key valid,
    length-to_string (length req.value) fits,
  );
}
encode_command-Line ping req tail h = record {
  line = codes "PING";
  rest = tail;
  whole = refl;
  short = omega arith;
}

-- A prefix with no line feed is no longer than the line.
pub length-le_line :
    (b more line rest : Bytes) → Lacks lf b → b ++ more ≡ line ++ lf ∷ rest → length b ≤ length line
length-le_line [] more line rest h e = omega arith
length-le_line (c ∷ b) more [] rest h e = absurd (h.0 (cc))
length-le_line (c ∷ b) more (d ∷ line) rest h e =
    omega (arith, length-le_line b more line rest h.1 (cc))

-- A result that further bytes complete to the parse of a request is that parse.
fed-complete :
    (more tail e : Bytes) (req : Request) (r : ParseStatus Request × Parser)
    → fed more r ≡ (complete req, record { buffer = tail; error_message = e })
    → (b : Bytes) × (r ≡ (complete req, record { buffer = b; error_message = e }))
      × (b ++ more ≡ tail)
fed-complete more tail e req (status, p) h = (p.buffer, cc, cc)

-- While a request that the server accepts arrives, with any bytes behind it, a parse is incomplete
-- or returns this request, and then the bytes that it leaves are those that follow it.
pub try_parse_request_prefix :
    (req : Request) (b more tail e : Bytes)
    → Sendable req.command req
    → b ++ more ≡ encode_request req ++ tail
    → (try_parse_request (record { buffer = b; error_message = e })
        ≡ (incomplete, record { buffer = b; error_message = e }))
      ⊎ ((b' : Bytes) × (try_parse_request (record { buffer = b; error_message = e })
            ≡ (complete (carried req.command req), record { buffer = b'; error_message = e }))
          × (b' ++ more ≡ tail))
try_parse_request_prefix req b more tail e ok split = elim (Option-cases (find? lf b)) [
  | inl none_there ↦
      let first = encode_command-Line req.command req tail ok in
      inl (
        try_parse_request-unterminated (record { buffer = b; error_message = e }) none_there
          (omega (
            arith,
            first.short,
            length-le_line b more first.line first.rest (find?-none lf b none_there)
                (split ∙ (unfold encode_request in first.whole)),
          )))
  | inr (n, there) ↦
      let p : Parser = record { buffer = b; error_message = e } in
      elim (try_parse_request-Progress p there) [
        | inl none_yet ↦ inl none_yet
        | inr c ↦ inr (
            fed-complete more tail e (carried req.command req) (try_parse_request p) (
              sym (try_parse_request-feed p more there c.decided)
              ∙ ap (λ x. try_parse_request (record { buffer = x; error_message = e })) split
              ∙ try_parse_request-encode_request req tail e ok))
      ]
]
