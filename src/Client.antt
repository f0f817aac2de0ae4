-- ===== src/Client.antt =====
-- `kvclient` (client/main.cpp): a line of input as a request, and a response as output.
pub mod Words
pub mod Commands
pub mod Console
use distributed_kv_store.Prelude.{
  ℕ, zero, suc, Bool, true, false, ◌||◌, List, [], ◌∷◌, ◌++◌, Option, none, some, Bytes, codes,
  eq_bytes, ltb, leb, ◌==◌, ◌&&◌, if◌then◌else◌,
}
use distributed_kv_store.Protocol.Messages.{
  Command, Request, Response, ResponseType, get, set, delete, ping,
}
use distributed_kv_store.Protocol.Text.{space, lf}

-- `std::isspace` of the classic locale.
abbrev pub is_space : ℕ → Bool
is_space c = c == space || leb 9 c && leb c 13

-- A token that is not empty, put before the others.
abbrev pub push_token : Bytes → List Bytes → List Bytes
push_token [] tokens = tokens
push_token (c ∷ token) tokens = (c ∷ token) ∷ tokens

-- The loop over `iss >> tok`, with the part of a token that was read.
unfoldable pub split_from : Bytes → Bytes → List Bytes
split_from token [] = push_token token []
split_from token (c ∷ line) =
    let ended = split_from [] line in
    let longer = split_from (token ++ c ∷ []) line in
    if is_space c then push_token token ended else longer

unfoldable pub split_whitespace : Bytes → List Bytes
split_whitespace line = split_from [] line

-- The loop that appends the tokens behind the third.
unfoldable pub join_value : Bytes → List Bytes → Bytes
join_value value [] = value
join_value value (t ∷ ts) = join_value ((value ++ codes " ") ++ t) ts

-- A request, or the message in `err`.
pub data Built : Type 0 where
  built : Request → Built
  refused : Bytes → Built

-- `GET` and `DELETE`, with the tokens behind the command.
unfoldable pub build_key_command : Command → Bytes → List Bytes → Built
build_key_command command usage (key ∷ []) =
    built (record { command = command; key = key; value = [] })
build_key_command command usage _ = refused usage

unfoldable pub build_set : List Bytes → Built
build_set (key ∷ value ∷ more) =
    built (record { command = set; key = key; value = join_value value more })
build_set _ = refused (codes "usage: SET key value...")

unfoldable pub build_ping : List Bytes → Built
build_ping [] = built (record { command = ping; key = []; value = [] })
build_ping (t ∷ ts) = refused (codes "usage: PING")

-- The request starts with empty members.
unfoldable pub build_request : List Bytes → Built
build_request [] = refused (codes "empty command")
build_request (cmd ∷ args) =
    if eq_bytes cmd (codes "GET") || eq_bytes cmd (codes "get")
    then build_key_command get (codes "usage: GET key") args
    else if eq_bytes cmd (codes "DELETE") || eq_bytes cmd (codes "delete")
    then build_key_command delete (codes "usage: DELETE key") args
    else if eq_bytes cmd (codes "SET") || eq_bytes cmd (codes "set")
    then build_set args
    else if eq_bytes cmd (codes "PING") || eq_bytes cmd (codes "ping")
    then build_ping args
    else refused (codes "unknown command: " ++ cmd)

-- What a response prints on the two streams, and the exit code.
pub record Printed : Type 0 where
  pub out : Bytes
  pub err : Bytes
  pub code : ℕ

abbrev to_out : Bytes → Printed
to_out bytes = record { out = bytes; err = []; code = 0 }

unfoldable pub print_kind : ResponseType → Response → Printed
print_kind ResponseType.ok resp = to_out (codes "OK\n")
print_kind ResponseType.deleted resp = to_out (codes "DELETED\n")
print_kind ResponseType.not_found resp = to_out (codes "NOT_FOUND\n")
print_kind ResponseType.value resp = to_out (resp.value ++ lf ∷ [])
print_kind ResponseType.pong resp = to_out (codes "PONG\n")
print_kind ResponseType.error resp = record {
  out = [];
  err = codes "ERROR " ++ (resp.message ++ lf ∷ []);
  code = 1;
}

unfoldable pub print_response : Response → Printed
unfolding print_kind
print_response resp = print_kind resp.kind resp
