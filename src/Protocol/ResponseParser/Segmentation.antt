-- ===== src/Protocol/ResponseParser/Segmentation.antt =====
-- What a parse of a terminated response line decides does not depend on the bytes that arrive later.
use distributed_kv_store.Prelude.{
  ℕ, suc, ◌+◌, ◌<◌, ◌≡◌, ◌≢◌, refl, Option, none, some, arith, Bytes, find?, find?-lt, find?-append,
  take, drop, length, take-append, get_elem?, ltb, Bool-cases, inl, inr,
}
use distributed_kv_store.Protocol.Messages.{Response, Parser, incomplete}
use distributed_kv_store.Protocol.Text.{lf, strip_trailing_cr, parse_length}
use distributed_kv_store.Protocol.Payload.{
  payload-le, payload_fits-append, payload_end-append, payload-append,
}
use distributed_kv_store.Protocol.RequestParser.{feed, is_lf}
use distributed_kv_store.Protocol.RequestParser.Segmentation.{
  fed, accept-feed, reject-feed, accept_or_reject-feed,
}
use distributed_kv_store.Protocol.ResponseParser.{
  parse_value, parse_response_line, try_parse_response,
}

module _ (p : Parser) (more : Bytes) (out : Response) (n : ℕ) (fits : n < length p.buffer) where
  parse_value-feed :
      (len : Option ℕ)
      → (parse_value p out n len).0 ≢ incomplete
      → parse_value (feed p more) out n len ≡ fed more (parse_value p out n len)
  unfolding parse_value
  parse_value-feed none h = reject-feed p more (suc n) fits _
  parse_value-feed (some v) h = elim (Bool-cases (ltb (length p.buffer) (suc n + v + 1))) [
    | inl short ↦ absurd (h (rw short refl))
    | inr long ↦
        rw
          (
            long,
            payload_fits-append p.buffer more (suc n) v long,
            payload_end-append p.buffer more (suc n) v long,
            payload-append p.buffer more (suc n) v long,
          )
          (accept_or_reject-feed p more (suc n + v + 1) (payload-le p.buffer more (suc n) v long) _
            _ (is_lf (get_elem? p.buffer (suc n + v))))
  ]

  parse_response_line-feed :
      (line : Bytes)
      → (parse_response_line p out n line).0 ≢ incomplete
      → parse_response_line (feed p more) out n line ≡ fed more (parse_response_line p out n line)
  unfolding parse_response_line
  parse_response_line-feed line h =
      ground
        (arith, parse_value-feed (parse_length (drop 6 line)), accept-feed p more (suc n) fits out)

-- If the buffer holds a line feed and the parse is decided, it is decided the same way whatever
-- bytes arrive later, and the later bytes are left in the buffer behind the rest.
pub try_parse_response-feed :
    (p : Parser) (out : Response) (more : Bytes) {n : ℕ}
    → find? lf p.buffer ≡ some n
    → (try_parse_response p out).0 ≢ incomplete
    → try_parse_response (feed p more) out ≡ fed more (try_parse_response p out)
unfolding try_parse_response
try_parse_response-feed p out more {n} e h =
    rw
      (
        find?-append lf p.buffer more n e,
        try_parse_response,
        take-append n p.buffer more (omega (arith, find?-lt lf p.buffer n e)),
        e,
      )
      (parse_response_line-feed p more out n (find?-lt lf p.buffer n e)
        (strip_trailing_cr (take n p.buffer)) (rw (e, try_parse_response) at h))
