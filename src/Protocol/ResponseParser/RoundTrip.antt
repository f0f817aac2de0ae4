-- ===== src/Protocol/ResponseParser/RoundTrip.antt =====
-- The response parser reads back what the encoders of responses write.
use distributed_kv_store.Prelude.{
  ◌≤◌, ◌≡◌, ◌≢◌, refl, ap, [], ◌∷◌, ◌++◌, append_assoc, arith, Bytes, codes, eq_bytes, find?-first,
  take-length, drop-suc-length, length, drop, ltb, if◌then◌else◌, Lacks, All-append,
}
use distributed_kv_store.Protocol.Messages.{max_value_len, Response, ResponseType, complete}
use distributed_kv_store.Protocol.Text.{lf, cr, strip_trailing_cr, to_string}
use distributed_kv_store.Protocol.Text.Tokens.{strip_trailing_cr-Lacks}
use distributed_kv_store.Protocol.Text.Decimal.{parse_length-to_string, to_string-Lacks}
use distributed_kv_store.Protocol.Encode.{
  encode_value_response, encode_not_found_response, encode_ok_response, encode_deleted_response,
  encode_error_response, encode_pong_response,
}
use distributed_kv_store.Protocol.Payload.{framed_fits, framed_end, framed_value, framed_rest}
use distributed_kv_store.Protocol.ResponseParser.{
  has_prefix, parse_value, parse_response_line, try_parse_response,
}

-- The parse of a terminated line.
try_parse_response-line :
    (line rest e : Bytes) (out : Response)
    → Lacks lf line
    → strip_trailing_cr line ≡ line
    → try_parse_response (record { buffer = line ++ lf ∷ rest; error_message = e }) out
      ≡ parse_response_line
          (record { buffer = line ++ lf ∷ rest; error_message = e })
          out
          (length line)
          line
unfolding try_parse_response
try_parse_response-line line rest e out no_lf no_cr =
    rw (find?-first lf line rest no_lf, try_parse_response, take-length line (lf ∷ rest), no_cr)
      refl

try_parse_response-word :
    (line rest e : Bytes) (out : Response)
    → Lacks lf line
    → Lacks cr line
    → try_parse_response (record { buffer = line ++ lf ∷ rest; error_message = e }) out
      ≡ parse_response_line
          (record { buffer = line ++ lf ∷ rest; error_message = e })
          out
          (length line)
          line
try_parse_response-word line rest e out no_lf no_cr =
    try_parse_response-line line rest e out no_lf (strip_trailing_cr-Lacks line no_cr)

strip-error :
    (m : Bytes)
    → strip_trailing_cr m ≡ m
    → strip_trailing_cr (codes "ERROR " ++ m) ≡ codes "ERROR " ++ m
unfolding strip_trailing_cr
strip-error [] h = refl
strip-error (c ∷ m) h = ap (λ t. codes "ERROR " ++ t) h

-- `line.size() > 6 ? line.substr(6) : ""`
error_text :
    (m : Bytes)
    → (if ltb 6 (length (codes "ERROR " ++ m)) then drop 6 (codes "ERROR " ++ m) else []) ≡ m
error_text [] = refl
error_text (c ∷ m) = ground arith

module _ (rest e : Bytes) (out : Response) where
  -- Each answer is read back as the kind that it stands for, whatever follows, and the other fields
  -- of the out-parameter stay.
  pub encode_ok_response-parses :
      try_parse_response (record { buffer = encode_ok_response ++ rest; error_message = e }) out ≡ (
        complete (record out { kind = ResponseType.ok }),
        record { buffer = rest; error_message = e },
      )
  unfolding encode_ok_response parse_response_line eq_bytes
  encode_ok_response-parses =
      rw (try_parse_response-word (codes "OK") rest e out (omega arith) (omega arith)) refl

  pub encode_deleted_response-parses :
      try_parse_response
        (record { buffer = encode_deleted_response ++ rest; error_message = e })
        out
      ≡ (
        complete (record out { kind = ResponseType.deleted }),
        record { buffer = rest; error_message = e },
      )
  unfolding encode_deleted_response parse_response_line eq_bytes
  encode_deleted_response-parses =
      rw (try_parse_response-word (codes "DELETED") rest e out (omega arith) (omega arith)) refl

  pub encode_not_found_response-parses :
      try_parse_response
        (record { buffer = encode_not_found_response ++ rest; error_message = e })
        out
      ≡ (
        complete (record out { kind = ResponseType.not_found }),
        record { buffer = rest; error_message = e },
      )
  unfolding encode_not_found_response parse_response_line eq_bytes
  encode_not_found_response-parses =
      rw (try_parse_response-word (codes "NOT_FOUND") rest e out (omega arith) (omega arith)) refl

  pub encode_pong_response-parses :
      try_parse_response (record { buffer = encode_pong_response ++ rest; error_message = e }) out
      ≡ (
        complete (record out { kind = ResponseType.pong }),
        record { buffer = rest; error_message = e },
      )
  unfolding encode_pong_response parse_response_line eq_bytes
  encode_pong_response-parses =
      rw (try_parse_response-word (codes "PONG") rest e out (omega arith) (omega arith)) refl

  pub encode_value_response-parses :
      (value : Bytes)
      → length value ≤ max_value_len
      → try_parse_response
          (record { buffer = encode_value_response value ++ rest; error_message = e })
          out
        ≡ (
          complete (record out { kind = ResponseType.value; value = value }),
          record { buffer = rest; error_message = e },
        )
  unfolding encode_value_response parse_response_line parse_value eq_bytes has_prefix
  encode_value_response-parses value fits =
      let line = codes "VALUE " ++ to_string (length value) in
      let no_lf : Lacks lf line =
        All-append (λ d. d ≢ lf) (codes "VALUE ") (to_string (length value)) (omega arith)
          (to_string-Lacks lf (length value) refl) in
      let no_cr : Lacks cr line =
        All-append (λ d. d ≢ cr) (codes "VALUE ") (to_string (length value)) (omega arith)
          (to_string-Lacks cr (length value) refl) in
      rw
        (
          append_assoc (to_string (length value)) (lf ∷ (value ++ lf ∷ [])) rest,
          append_assoc value (lf ∷ []) rest,
          try_parse_response-line line (value ++ lf ∷ rest) e out no_lf
              (strip_trailing_cr-Lacks line no_cr),
          parse_length-to_string (length value) fits,
          framed_fits line value rest,
          framed_end line value rest,
          framed_value line value rest,
          framed_rest line value rest,
        )
        refl

  pub encode_error_response-parses :
      (m : Bytes)
      → Lacks lf m
      → strip_trailing_cr m ≡ m
      → try_parse_response
          (record { buffer = encode_error_response m ++ rest; error_message = e })
          out
        ≡ (
          complete (record out { kind = ResponseType.error; message = m }),
          record { buffer = rest; error_message = e },
        )
  unfolding encode_error_response parse_response_line eq_bytes has_prefix
  encode_error_response-parses m no_lf no_cr =
      rw
        (
          append_assoc m (lf ∷ []) rest,
          try_parse_response-line (codes "ERROR " ++ m) rest e out
              (All-append (λ d. d ≢ lf) (codes "ERROR ") m (omega arith) no_lf)
              (strip-error m no_cr),
          drop-suc-length (codes "ERROR " ++ m) lf rest,
          error_text m,
        )
        refl
