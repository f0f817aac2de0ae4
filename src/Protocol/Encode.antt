-- ===== src/Protocol/Encode.antt =====
-- The encoders of common/protocol.cpp.
use distributed_kv_store.Prelude.{[], ◌∷◌, ◌++◌, Bytes, codes, length}
use distributed_kv_store.Protocol.Messages.{Command, Request, get, set, delete, ping}
use distributed_kv_store.Protocol.Text.{space, lf, to_string}

unfoldable pub encode_command : Command → Request → Bytes
encode_command get req = codes "GET " ++ req.key ++ lf ∷ []
encode_command delete req = codes "DELETE " ++ req.key ++ lf ∷ []
encode_command set req =
    codes "SET "
    ++ (req.key ++ space ∷ (to_string (length req.value) ++ lf ∷ (req.value ++ lf ∷ [])))
encode_command ping req = codes "PING\n"

-- The switch on `req.command`.
unfoldable pub encode_request : Request → Bytes
unfolding encode_command
encode_request req = encode_command req.command req

unfoldable pub encode_value_response : Bytes → Bytes
encode_value_response value =
    codes "VALUE " ++ (to_string (length value) ++ lf ∷ (value ++ lf ∷ []))

unfoldable pub encode_not_found_response : Bytes
encode_not_found_response = codes "NOT_FOUND\n"

unfoldable pub encode_ok_response : Bytes
encode_ok_response = codes "OK\n"

unfoldable pub encode_deleted_response : Bytes
encode_deleted_response = codes "DELETED\n"

unfoldable pub encode_error_response : Bytes → Bytes
encode_error_response message = codes "ERROR " ++ (message ++ lf ∷ [])

unfoldable pub encode_pong_response : Bytes
encode_pong_response = codes "PONG\n"
