-- ===== src/Protocol/RequestParser.antt =====
-- `IncrementalParser` of common/protocol.cpp. An outcome stands beside the parser that the call
-- leaves; each branch is a helper by clauses on the tokens behind the command.
pub mod Segmentation
pub mod Progress
pub mod RoundTrip
pub mod Prefix
pub mod Sound
use distributed_kv_store.Prelude.{
  ℕ, suc, ◌+◌, Bool, false, ◌||◌, List, [], ◌∷◌, ◌++◌, Option, none, some, Bytes, codes, eq_bytes,
  find?, take, drop, length, get_elem?, ltb, ◌==◌, if◌then◌else◌,
}
use distributed_kv_store.Protocol.Messages.{
  max_key_len, Command, Request, Parser, ParseStatus, incomplete, complete, error, get, set, delete,
  ping,
}
use distributed_kv_store.Protocol.Text.{
  lf, is_valid_key, split_spaces, parse_length, strip_trailing_cr,
}

abbrev pub ParseResult : Type 0
ParseResult = ParseStatus Request × Parser

abbrev pub max_command_line_len : ℕ
max_command_line_len = 4 + max_key_len + 1 + 10

abbrev pub feed : Parser → Bytes → Parser
feed p bytes = record p { buffer = p.buffer ++ bytes }

-- `buffer_.erase(0, n)`, and the end of the call.
abbrev pub accept {ℓ} : {A : Type ℓ} → Parser → ℕ → A → ParseStatus A × Parser
accept p n a = (complete a, record p { buffer = drop n p.buffer })

abbrev pub reject {ℓ} : {A : Type ℓ} → Parser → ℕ → Bytes → ParseStatus A × Parser
reject p n message = (error, record p { buffer = drop n p.buffer; error_message = message })

-- `tokens.size() == 2 && is_valid_key(tokens[1])`, with the key.
abbrev pub valid_key_arg : List Bytes → Option Bytes
valid_key_arg (key ∷ []) = if is_valid_key key then some key else none
valid_key_arg _ = none

-- `GET` and `DELETE`.
unfoldable pub parse_key_command : Parser → ℕ → Command → Bytes → Option Bytes → ParseResult
parse_key_command p line_end command cmd none =
    reject p (suc line_end) (codes "malformed " ++ (cmd ++ codes " request"))
parse_key_command p line_end command cmd (some key) =
    accept p (suc line_end) (record { command = command; key = key; value = [] })

unfoldable pub parse_ping : Parser → ℕ → List Bytes → ParseResult
parse_ping p line_end [] = accept p (suc line_end) (record { command = ping; key = []; value = [] })
parse_ping p line_end (t ∷ ts) = reject p (suc line_end) (codes "malformed PING request")

-- The key and the length of a `SET` line, if both are well formed.
abbrev pub with_key : Bytes → Option ℕ → Option (Bytes × ℕ)
with_key key none = none
with_key key (some n) = some (key, n)

abbrev pub set_args : List Bytes → Option (Bytes × ℕ)
set_args (key ∷ len ∷ []) = if is_valid_key key then with_key key (parse_length len) else none
set_args _ = none

-- Whether the byte at a position is a line feed.
abbrev pub is_lf : Option ℕ → Bool
is_lf none = false
is_lf (some c) = c == lf

unfoldable pub parse_set : Parser → ℕ → Option (Bytes × ℕ) → ParseResult
parse_set p line_end none = reject p (suc line_end) (codes "malformed SET request")
parse_set p line_end (some (key, value_len)) =
    let value_start = suc line_end in
    let needed = value_start + value_len + 1 in
    if ltb (length p.buffer) needed
    then (incomplete, p)
    else if is_lf (get_elem? p.buffer (value_start + value_len))
    then accept p needed
        (record { command = set; key = key; value = take value_len (drop value_start p.buffer) })
    else reject p needed (codes "expected newline after value")

-- The commands that are compared with the first token, which is not empty.
unfoldable pub parse_command : Parser → ℕ → Bytes → List Bytes → ParseResult
parse_command p line_end cmd args =
    if eq_bytes cmd (codes "GET") || eq_bytes cmd (codes "DELETE")
    then parse_key_command p line_end (if eq_bytes cmd (codes "GET") then get else delete) cmd
        (valid_key_arg args)
    else if eq_bytes cmd (codes "PING")
    then parse_ping p line_end args
    else if eq_bytes cmd (codes "SET")
    then parse_set p line_end (set_args args)
    else reject p (suc line_end) (codes "unknown command: " ++ cmd)

unfoldable pub parse_tokens : Parser → ℕ → List Bytes → ParseResult
parse_tokens p line_end [] = reject p (suc line_end) (codes "empty command")
parse_tokens p line_end ([] ∷ args) = reject p (suc line_end) (codes "empty command")
parse_tokens p line_end ((c ∷ cmd) ∷ args) = parse_command p line_end (c ∷ cmd) args

unfoldable pub try_parse_request : Parser → ParseResult
try_parse_request p = elim (find? lf p.buffer) [
  | none ↦
      if ltb max_command_line_len (length p.buffer)
      then (error, record p { error_message = codes "command line too long" })
      else (incomplete, p)
  | some line_end ↦
      parse_tokens p line_end (split_spaces (strip_trailing_cr (take line_end p.buffer)))
]
