-- ===== src/Router/Reply.antt =====
-- `encode_response` of router/router.cpp: a response of a node, encoded again for the client.
use distributed_kv_store.Prelude.{◌≤◌, ◌≡◌, ◌++◌, Bytes, length, Lacks}
use distributed_kv_store.Protocol.Messages.{max_value_len, Response, ResponseType, complete}
use distributed_kv_store.Protocol.Text.{lf, strip_trailing_cr}
use distributed_kv_store.Protocol.Encode.{
  encode_value_response, encode_not_found_response, encode_ok_response, encode_deleted_response,
  encode_error_response, encode_pong_response,
}
use distributed_kv_store.Protocol.ResponseParser.{try_parse_response}
use distributed_kv_store.Protocol.ResponseParser.RoundTrip.{
  encode_value_response-parses, encode_not_found_response-parses, encode_ok_response-parses,
  encode_deleted_response-parses, encode_error_response-parses, encode_pong_response-parses,
}

unfoldable pub encode_kind : ResponseType → Response → Bytes
encode_kind ResponseType.value resp = encode_value_response resp.value
encode_kind ResponseType.not_found resp = encode_not_found_response
encode_kind ResponseType.ok resp = encode_ok_response
encode_kind ResponseType.deleted resp = encode_deleted_response
encode_kind ResponseType.error resp = encode_error_response resp.message
encode_kind ResponseType.pong resp = encode_pong_response

-- The switch on `resp.type`.
unfoldable pub encode_response : Response → Bytes
unfolding encode_kind
encode_response resp = encode_kind resp.kind resp

-- What a response of this kind may carry on the wire: a value of at most 1 MiB, or a message of one
-- line that does not end in a carriage return.
abbrev pub Carryable : ResponseType → Response → Type 0
Carryable ResponseType.value resp = length resp.value ≤ max_value_len
Carryable ResponseType.error resp =
    Lacks lf resp.message × (strip_trailing_cr resp.message ≡ resp.message)
Carryable _ resp = Unit

-- The out-parameter once a response of this kind has been read into it.
abbrev pub read_into : Response → ResponseType → Response → Response
read_into out ResponseType.value resp = record out { kind = ResponseType.value; value = resp.value }
read_into out ResponseType.error resp = record out {
  kind = ResponseType.error;
  message = resp.message;
}
read_into out ResponseType.not_found resp = record out { kind = ResponseType.not_found }
read_into out ResponseType.ok resp = record out { kind = ResponseType.ok }
read_into out ResponseType.deleted resp = record out { kind = ResponseType.deleted }
read_into out ResponseType.pong resp = record out { kind = ResponseType.pong }

encode_kind-parses :
    (kind : ResponseType) (resp out : Response) (rest e : Bytes)
    → Carryable kind resp
    → try_parse_response (record { buffer = encode_kind kind resp ++ rest; error_message = e }) out
      ≡ (complete (read_into out kind resp), record { buffer = rest; error_message = e })
unfolding encode_kind
encode_kind-parses ResponseType.value resp out rest e h =
    encode_value_response-parses rest e out resp.value h
encode_kind-parses ResponseType.not_found resp out rest e h =
    encode_not_found_response-parses rest e out
encode_kind-parses ResponseType.ok resp out rest e h = encode_ok_response-parses rest e out
encode_kind-parses ResponseType.deleted resp out rest e h =
    encode_deleted_response-parses rest e out
encode_kind-parses ResponseType.error resp out rest e h =
    encode_error_response-parses rest e out resp.message h.0 h.1
encode_kind-parses ResponseType.pong resp out rest e h = encode_pong_response-parses rest e out

-- Every response that the wire can carry is read back from its encoding, whatever follows, with its
-- kind and the field that the kind carries.
pub try_parse_response-encode_response :
    (resp out : Response) (rest e : Bytes)
    → Carryable resp.kind resp
    → try_parse_response (record { buffer = encode_response resp ++ rest; error_message = e }) out
      ≡ (complete (read_into out resp.kind resp), record { buffer = rest; error_message = e })
unfolding encode_response
try_parse_response-encode_response resp out rest e h =
    encode_kind-parses resp.kind resp out rest e h
