-- ===== src/Protocol/Messages.antt =====
-- The data of common/protocol.hpp: commands, requests, responses, and what a parse returns.
use distributed_kv_store.Prelude.{ℕ, ◌*◌, Bytes}

abbrev pub max_key_len : ℕ
max_key_len = 250

abbrev pub max_value_len : ℕ
max_value_len = 1024 * 1024

pub data Command : Type 0 where
  get set delete ping : Command

pub record Request : Type 0 where
  pub command : Command
  pub key : Bytes
  pub value : Bytes

pub data ResponseType : Type 0 where
  value not_found ok deleted error pong : ResponseType

-- The field `type` of the source.
pub record Response : Type 0 where
  pub kind : ResponseType
  pub value : Bytes
  pub message : Bytes

-- `ParseStatus`; a complete parse carries the message that the out-parameter then holds.
pub data ParseStatus {ℓ} (A : Type ℓ) : Type ℓ where
  incomplete : ParseStatus A
  complete : A → ParseStatus A
  error : ParseStatus A

-- The two members of `IncrementalParser` and of `ResponseParser`.
pub record Parser : Type 0 where
  pub buffer : Bytes
  pub error_message : Bytes
