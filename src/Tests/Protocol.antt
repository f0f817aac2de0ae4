-- ===== src/Tests/Protocol.antt =====
-- The codec of common/protocol.cpp and the loops on it, at concrete inputs.
use distributed_kv_store.Prelude.{
  ℕ, ◌+◌, ◌≤◌, ◌≡◌, refl, true, [], ◌∷◌, ◌++◌, none, some, ◌⊎◌, arith, Bytes, codes, find?,
  eq_bytes, replicate,
}
use distributed_kv_store.Protocol.Messages.{
  Request, Response, ResponseType, Parser, incomplete, complete, get, set, ping,
}
use distributed_kv_store.Protocol.Text.{
  lf, is_valid_key, all_above_space, split_spaces, split_from, parse_length, all_digits,
  decimal_from, to_string, strip_trailing_cr, stoull,
}
use distributed_kv_store.Protocol.Encode.{encode_request, encode_command}
use distributed_kv_store.Protocol.RequestParser.{
  try_parse_request, parse_tokens, parse_command, parse_key_command, parse_ping,
  max_command_line_len,
}
use distributed_kv_store.Protocol.RequestParser.RoundTrip.{try_parse_request-encode_request}
use distributed_kv_store.Protocol.RequestParser.Prefix.{try_parse_request_prefix}
use distributed_kv_store.Protocol.RequestLoop.{Event, answer, answer_requests}
use distributed_kv_store.Protocol.RequestLoop.Termination.{
  unterminated, answer_requests-total, answer_requests-stuck,
}
use distributed_kv_store.Protocol.RequestLoop.Stream.{encode_all}
use distributed_kv_store.Protocol.ResponseParser.{try_parse_response, parse_response_line}

abbrev get_k : Request
get_k = record { command = get; key = codes "k"; value = [] }

abbrev set_k : Request
set_k = record { command = set; key = codes "k"; value = codes "a\nb" }

abbrev ping_all : Request
ping_all = record { command = ping; key = []; value = [] }

abbrev buffered : Bytes → Parser
buffered b = record { buffer = b; error_message = [] }

-- A loop that counts its rounds.
abbrev count : Event → ℕ → ℕ
count event n = n + 1

valid_k : is_valid_key (codes "k") ≡ true
unfolding is_valid_key all_above_space
valid_k = refl

encoded_set : encode_request set_k ≡ codes "SET k 3\na\nb\n"
unfolding encode_request encode_command to_string
encoded_set = refl

cut_stream :
    codes "SET k 3\na" ++ codes "\nb\nGET " ++ codes "k\n" ++ [] ≡ encode_all (set_k ∷ get_k ∷ [])
unfolding encode_all encode_request encode_command to_string
cut_stream = refl

line_there : find? lf (codes "GET k\nPI") ≡ some 5
unfolding find?
line_there = refl

parsed_get :
    try_parse_request (buffered (codes "GET k\nPI")) ≡ (complete get_k, buffered (codes "PI"))
unfolding try_parse_request parse_tokens parse_command parse_key_command split_spaces split_from
    is_valid_key all_above_space strip_trailing_cr find? eq_bytes
parsed_get = refl

try_parse_request-encode_request_example :
    try_parse_request (buffered (encode_request set_k ++ codes "PI"))
    ≡ (complete set_k, buffered (codes "PI"))
try_parse_request-encode_request_example =
    try_parse_request-encode_request set_k (codes "PI") [] (valid_k, omega arith)

prefix_of_set : codes "SET k 3\na" ++ codes "\nb\nPI" ≡ encode_request set_k ++ codes "PI"
unfolding encode_request encode_command to_string
prefix_of_set = refl

try_parse_request_prefix_example :
    (try_parse_request (buffered (codes "SET k 3\na"))
      ≡ (incomplete, buffered (codes "SET k 3\na")))
    ⊎ ((b' : Bytes) × (try_parse_request (buffered (codes "SET k 3\na"))
          ≡ (complete set_k, buffered b'))
        × (b' ++ codes "\nb\nPI" ≡ codes "PI"))
try_parse_request_prefix_example =
    try_parse_request_prefix set_k (codes "SET k 3\na") (codes "\nb\nPI") (codes "PI") []
      (valid_k, omega arith) prefix_of_set

parsed_one :
    answer_requests count 2 (buffered (codes "GET k\nPI")) 0 ≡ some (buffered (codes "PI"), 1)
unfolding answer_requests answer try_parse_request parse_tokens parse_command parse_key_command
    split_spaces split_from is_valid_key all_above_space strip_trailing_cr find? eq_bytes
parsed_one = refl

parsed_two : answer_requests count 2 (buffered (codes "PING\n")) 1 ≡ some (buffered [], 2)
unfolding answer_requests answer try_parse_request parse_tokens parse_command parse_ping
    split_spaces split_from strip_trailing_cr find? eq_bytes
parsed_two = refl

few_unterminated : unterminated (codes "GET k\nPI") ≤ max_command_line_len
unfolding unterminated find?
few_unterminated = omega arith

answer_requests-total_example :
    (x : Parser × ℕ) × (answer_requests count 9 (buffered (codes "GET k\nPI")) 0 ≡ some x)
answer_requests-total_example =
    answer_requests-total count 9 (buffered (codes "GET k\nPI")) 0 (omega arith) few_unterminated

overlong_line : find? lf (replicate 266 b'x') ≡ none
unfolding find?
overlong_line = refl

answer_requests-stuck_example : answer_requests count 50 (buffered (replicate 266 b'x')) 0 ≡ none
answer_requests-stuck_example =
    answer_requests-stuck count 50 (buffered (replicate 266 b'x')) 0 overlong_line (omega arith)

leading_zeros : parse_length (codes "0042") ≡ some 42
unfolding parse_length all_digits stoull decimal_from
leading_zeros = refl

abbrev blank : Response
blank = record { kind = ResponseType.ok; value = []; message = [] }

response_line_there : find? lf (codes "PONG\nOK") ≡ some 4
unfolding find?
response_line_there = refl

parsed_pong : try_parse_response (buffered (codes "PONG\nOK")) blank ≡ (
  complete (record { kind = ResponseType.pong; value = []; message = [] }),
  buffered (codes "OK"),
)
unfolding try_parse_response parse_response_line strip_trailing_cr find? eq_bytes
parsed_pong = refl
