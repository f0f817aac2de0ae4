-- ===== src/Protocol/ResponseParser.antt =====
-- `ResponseParser` of common/protocol.cpp. `out` is the out-parameter: a branch writes the members
-- that the source writes, and leaves the others.
pub mod Segmentation
pub mod RoundTrip
use distributed_kv_store.Prelude.{
  ℕ, suc, ◌+◌, Bool, true, false, ◌||◌, [], ◌∷◌, ◌++◌, Option, none, some, Bytes, codes, eq_bytes,
  find?, take, drop, length, get_elem?, ltb, ◌==◌, ◌&&◌, if◌then◌else◌,
}
use distributed_kv_store.Protocol.Messages.{
  Response, ResponseType, Parser, ParseStatus, incomplete, error,
}
use distributed_kv_store.Protocol.Text.{lf, parse_length, strip_trailing_cr}
use distributed_kv_store.Protocol.RequestParser.{accept, reject, is_lf}

abbrev pub ParseResult : Type 0
ParseResult = ParseStatus Response × Parser

abbrev pub max_response_line_len : ℕ
max_response_line_len = 4096

-- `line.rfind(prefix, 0) == 0`
unfoldable pub has_prefix : Bytes → Bytes → Bool
has_prefix [] line = true
has_prefix (c ∷ s) [] = false
has_prefix (c ∷ s) (d ∷ line) = d == c && has_prefix s line

unfoldable pub parse_value : Parser → Response → ℕ → Option ℕ → ParseResult
parse_value p out line_end none = reject p (suc line_end) (codes "malformed VALUE response")
parse_value p out line_end (some value_len) =
    let value_start = suc line_end in
    let needed = value_start + value_len + 1 in
    if ltb (length p.buffer) needed
    then (incomplete, p)
    else if is_lf (get_elem? p.buffer (value_start + value_len))
    then accept p needed (record out {
      kind = ResponseType.value;
      value = take value_len (drop value_start p.buffer);
    })
    else reject p needed (codes "expected newline after value")

unfoldable pub parse_response_line : Parser → Response → ℕ → Bytes → ParseResult
parse_response_line p out line_end line =
    if eq_bytes line (codes "OK")
    then accept p (suc line_end) (record out { kind = ResponseType.ok })
    else if eq_bytes line (codes "DELETED")
    then accept p (suc line_end) (record out { kind = ResponseType.deleted })
    else if eq_bytes line (codes "NOT_FOUND")
    then accept p (suc line_end) (record out { kind = ResponseType.not_found })
    else if eq_bytes line (codes "PONG")
    then accept p (suc line_end) (record out { kind = ResponseType.pong })
    else if eq_bytes line (codes "ERROR") || has_prefix (codes "ERROR ") line
    then accept p (suc line_end) (record out {
      kind = ResponseType.error;
      message = if ltb 6 (length line) then drop 6 line else [];
    })
    else if has_prefix (codes "VALUE ") line
    then parse_value p out line_end (parse_length (drop 6 line))
    else reject p (suc line_end) (codes "unknown response: " ++ line)

unfoldable pub try_parse_response : Parser → Response → ParseResult
try_parse_response p out = elim (find? lf p.buffer) [
  | none ↦
      if ltb max_response_line_len (length p.buffer)
      then (error, record p { error_message = codes "response line too long" })
      else (incomplete, p)
  | some line_end ↦ parse_response_line p out line_end (strip_trailing_cr (take line_end p.buffer))
]
