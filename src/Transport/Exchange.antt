-- ===== src/Transport/Exchange.antt =====
-- `send_request` (common/protocol.cpp) with a peer that answers, whatever the calls cut.
use distributed_kv_store.Prelude.{
  ℕ, ◌≤◌, ◌≡◌, ◌≢◌, refl, sym, ap, ◌∙◌, List, [], ◌∷◌, ◌++◌, append_assoc, append-nil, Option, none,
  some, ◌⊎◌, inl, inr, arith, Bytes, codes, length, find?, find?-none, Option-cases,
}
use distributed_kv_store.Protocol.Messages.{
  Request, Response, ResponseType, Parser, ParseStatus, incomplete, complete, error,
}
use distributed_kv_store.Protocol.Text.{lf, to_string}
use distributed_kv_store.Protocol.Text.Decimal.{length-to_string}
use distributed_kv_store.Protocol.Encode.{
  encode_request, encode_value_response, encode_not_found_response, encode_ok_response,
  encode_deleted_response, encode_error_response, encode_pong_response,
}
use distributed_kv_store.Protocol.RequestParser.{feed}
use distributed_kv_store.Protocol.RequestParser.Segmentation.{fed}
use distributed_kv_store.Protocol.RequestParser.Prefix.{length-le_line}
use distributed_kv_store.Protocol.RequestLoop.Stream.{join}
use distributed_kv_store.Protocol.ResponseParser.{
  max_response_line_len, try_parse_response, parse_response_line, parse_value,
}
use distributed_kv_store.Protocol.ResponseParser.Segmentation.{try_parse_response-feed}
use distributed_kv_store.Router.Reply.{
  Carryable, read_into, encode_response, encode_kind, try_parse_response-encode_response,
}
use distributed_kv_store.Transport.{
  WriteResult, finished, Ending, then_read, sender_retries, blank, Exchanged, answered, after_parse,
  read_response, write_loop, send_all, send_request,
}
use distributed_kv_store.Transport.Delivery.{capacity, write_loop-finished}

-- The line that an encoding begins with.
record Line (bytes : Bytes) : Type 0 where
  line : Bytes
  rest : Bytes
  whole : bytes ≡ line ++ lf ∷ rest
  short : length line ≤ max_response_line_len

-- A message that a client reads while its line end is still to come has room for it.
abbrev pub Short : ResponseType → Response → Type 0
Short ResponseType.error resp = length resp.message ≤ 4000
Short _ resp = Unit

encode_kind-Line :
    (kind : ResponseType) (resp : Response) (tail : Bytes)
    → Carryable kind resp
    → Short kind resp
    → Line (encode_kind kind resp ++ tail)
unfolding encode_kind encode_value_response encode_not_found_response encode_ok_response
    encode_deleted_response encode_error_response encode_pong_response
encode_kind-Line ResponseType.value resp tail h s = record {
  line = codes "VALUE " ++ to_string (length resp.value);
  rest = resp.value ++ lf ∷ tail;
  whole = simp append_assoc;
  short = omega (arith, length-to_string (length resp.value) h);
}
encode_kind-Line ResponseType.not_found resp tail h s = record {
  line = codes "NOT_FOUND";
  rest = tail;
  whole = refl;
  short = omega arith;
}
encode_kind-Line ResponseType.ok resp tail h s = record {
  line = codes "OK";
  rest = tail;
  whole = refl;
  short = omega arith;
}
encode_kind-Line ResponseType.deleted resp tail h s = record {
  line = codes "DELETED";
  rest = tail;
  whole = refl;
  short = omega arith;
}
encode_kind-Line ResponseType.error resp tail h s = record {
  line = codes "ERROR " ++ resp.message;
  rest = tail;
  whole = simp append_assoc;
  short = omega (arith, s);
}
encode_kind-Line ResponseType.pong resp tail h s = record {
  line = codes "PONG";
  rest = tail;
  whole = refl;
  short = omega arith;
}

try_parse_response-unterminated :
    (p : Parser) (out : Response)
    → find? lf p.buffer ≡ none
    → length p.buffer ≤ max_response_line_len
    → try_parse_response p out ≡ (incomplete, p)
unfolding try_parse_response
try_parse_response-unterminated p out e h = rw (e, try_parse_response) (ground arith)

-- A terminated line is decided, or nothing changes.
try_parse_response-cases :
    (p : Parser) (out : Response) {n : ℕ}
    → find? lf p.buffer ≡ some n
    → (try_parse_response p out ≡ (incomplete, p)) ⊎ ((try_parse_response p out).0 ≢ incomplete)
unfolding try_parse_response parse_response_line parse_value
try_parse_response-cases p out e = rw (e, try_parse_response) (ground arith)

fed-complete :
    (more : Bytes) (tail : Parser) (resp : Response) (r : ParseStatus Response × Parser)
    → fed more r ≡ (complete resp, tail)
    → r.0 ≡ complete resp
fed-complete more tail resp (status, p) h = cc

-- What has arrived of a response is incomplete, or is read as the response.
try_parse_response_prefix :
    (resp out : Response) (b more tail : Bytes)
    → Carryable resp.kind resp
    → Short resp.kind resp
    → b ++ more ≡ encode_response resp ++ tail
    → (try_parse_response (record { buffer = b; error_message = [] }) out
        ≡ (incomplete, record { buffer = b; error_message = [] }))
      ⊎ ((try_parse_response (record { buffer = b; error_message = [] }) out).0
          ≡ complete (read_into out resp.kind resp))
try_parse_response_prefix resp out b more tail ok short split =
    let p : Parser = record { buffer = b; error_message = [] } in
    elim (Option-cases (find? lf b)) [
      | inl none_there ↦
          let first = encode_kind-Line resp.kind resp tail ok short in
          inl (
            try_parse_response-unterminated p out none_there (
              omega (
                arith,
                first.short,
                length-le_line b more first.line first.rest (find?-none lf b none_there)
                    (split ∙ (unfold encode_response in first.whole)),
              )))
      | inr (n, there) ↦ elim (try_parse_response-cases p out there) [
        | inl none_yet ↦ inl none_yet
        | inr decided ↦ inr (
            fed-complete more _ _ (try_parse_response p out) (
              sym (try_parse_response-feed p out more there decided)
              ∙ ap (λ x. try_parse_response (record { buffer = x; error_message = [] }) out) split
              ∙ try_parse_response-encode_response resp out tail [] ok))
      ]
    ]

after_parse-complete :
    (rest : Parser → Exchanged) (resp : Response) (r : ParseStatus Response × Parser)
    → r.0 ≡ complete resp
    → after_parse rest r ≡ answered resp
unfolding after_parse
after_parse-complete rest resp (complete a, p) h = cc (h)
after_parse-complete rest resp (incomplete, p) h = cc (h)
after_parse-complete rest resp (error, p) h = cc (h)

-- The chunks arrive, then whatever the later reads return.
abbrev pub arriving : List Bytes → List (Option Bytes) → List (Option Bytes)
arriving [] reads = reads
arriving (c ∷ cs) reads = some c ∷ arriving cs reads

module _ (resp : Response) (tail : Bytes) (ok : Carryable resp.kind resp)
    (short : Short resp.kind resp) where
  read_response_whole :
      (reads : List (Option Bytes)) (p : Parser)
      → (try_parse_response p blank).0 ≡ complete (read_into blank resp.kind resp)
      → read_response reads p ≡ answered (read_into blank resp.kind resp)
  unfolding read_response
  read_response_whole [] p h = after_parse-complete _ _ _ h
  read_response_whole (none ∷ reads) p h = after_parse-complete _ _ _ h
  read_response_whole (some c ∷ reads) p h = after_parse-complete _ _ _ h

  read_response-arriving :
      (cs : List Bytes) (reads : List (Option Bytes)) (b : Bytes)
      → b ++ join cs ≡ encode_response resp ++ tail
      → read_response (arriving cs reads) (record { buffer = b; error_message = [] })
        ≡ answered (read_into blank resp.kind resp)
  unfolding read_response after_parse
  read_response-arriving [] reads b split =
      let whole = sym (append-nil b) ∙ split in
      read_response_whole reads _ (
        ap (λ x. (try_parse_response (record { buffer = x; error_message = [] }) blank).0) whole
        ∙ ap (λ x. x.0) (try_parse_response-encode_response resp blank tail [] ok))
  read_response-arriving (c ∷ cs) reads b split =
      elim (try_parse_response_prefix resp blank b (c ++ join cs) tail ok short split) [
        | inr h ↦ read_response_whole (some c ∷ arriving cs reads) _ h
        | inl e ↦
            ap (λ x. after_parse (λ q. read_response (arriving cs reads) (feed q c)) x) e
            ∙ read_response-arriving cs reads (b ++ c) (append_assoc b c (join cs) ∙ split)
      ]

  -- If the writes can carry the request, and the peer sends the encoding of a response that the wire
  -- can carry, whose message has at most 4000 bytes, in chunks cut anywhere, then `send_request`
  -- returns this response, whatever follows it.
  pub send_request-answered :
      (writes : List WriteResult) (cs : List Bytes) (reads : List (Option Bytes)) (req : Request)
      → length (encode_request req) ≤ capacity sender_retries writes
      → join cs ≡ encode_response resp ++ tail
      → send_request writes (arriving cs reads) req ≡ answered (read_into blank resp.kind resp)
  unfolding send_request send_all
  send_request-answered writes cs reads req enough split =
      read_next (write_loop sender_retries writes (encode_request req))
        (write_loop-finished sender_retries writes (encode_request req) enough)
    where
      read_next :
          (r : Bytes × Ending)
          → r.1 ≡ finished
          → then_read (arriving cs reads) r ≡ answered (read_into blank resp.kind resp)
      read_next (out, e) h = rw h (read_response-arriving cs reads [] split)
