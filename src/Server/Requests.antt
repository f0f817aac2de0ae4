-- ===== src/Server/Requests.antt =====
-- `WorkerReactor::handle_request`: one request against the store, and its answer.
use distributed_kv_store.Prelude.{◌≡◌, refl, Bool, true, false, [], Option, none, some, Bytes}
use distributed_kv_store.Protocol.Messages.{
  Command, Request, Response, ResponseType, get, set, delete, ping,
}
use distributed_kv_store.Protocol.Encode.{
  encode_value_response, encode_not_found_response, encode_ok_response, encode_deleted_response,
  encode_pong_response,
}
use distributed_kv_store.KvStore
use distributed_kv_store.KvStore.{KvStore}
use distributed_kv_store.KvStore.Invariant.{IsValid, set-IsValid, remove-IsValid}
use distributed_kv_store.KvStore.Refinement.{Dictionary, update, holds, get-set, get-remove}
use distributed_kv_store.Router.Reply.{encode_response}

abbrev value_or_not_found : Option Bytes → Bytes
value_or_not_found none = encode_not_found_response
value_or_not_found (some v) = encode_value_response v

abbrev deleted_or_not_found : Bool → Bytes
deleted_or_not_found false = encode_not_found_response
deleted_or_not_found true = encode_deleted_response

unfoldable pub handle_command : Command → KvStore → Request → Bytes × KvStore
handle_command get s req = (value_or_not_found (KvStore.get s req.key), s)
handle_command set s req = (encode_ok_response, KvStore.set s req.key req.value)
handle_command delete s req =
    let (removed, s') = KvStore.remove s req.key in (deleted_or_not_found removed, s')
handle_command ping s req = (encode_pong_response, s)

-- The switch on `req.command`.
unfoldable pub handle_request : KvStore → Request → Bytes × KvStore
unfolding handle_command
handle_request s req = handle_command req.command s req

abbrev plain : ResponseType → Response
plain kind = record { kind = kind; value = []; message = [] }

abbrev found : Option Bytes → Response
found none = plain ResponseType.not_found
found (some v) = record { kind = ResponseType.value; value = v; message = [] }

abbrev removed : Option Bytes → Response
removed none = plain ResponseType.not_found
removed (some v) = plain ResponseType.deleted

-- What a node promises: its answer, and the dictionary afterwards, from the dictionary before.
unfoldable pub answer_to : Command → Request → Dictionary → Response × Dictionary
answer_to get req d = (found (d req.key), d)
answer_to set req d = (plain ResponseType.ok, update d req.key (some req.value))
answer_to delete req d = (removed (d req.key), update d req.key none)
answer_to ping req d = (plain ResponseType.pong, d)

pub record Refines (s : KvStore) (req : Request) (result : Bytes × KvStore) : Type 0 where
  pub answer : result.0 ≡ encode_response (answer_to req.command req (KvStore.get s)).0
  pub contents :
      (j : Bytes) → KvStore.get result.1 j ≡ (answer_to req.command req (KvStore.get s)).1 j
  pub valid : IsValid result.1

deleted-holds : (o : Option Bytes) → deleted_or_not_found (holds o) ≡ encode_response (removed o)
unfolding encode_response
deleted-holds none = refl
deleted-holds (some v) = refl

found-value : (o : Option Bytes) → value_or_not_found o ≡ encode_response (found o)
unfolding encode_response
found-value none = refl
found-value (some v) = refl

-- A record of the three facts for each command.
refines :
    (c : Command) {s : KvStore} (req : Request)
    → IsValid s
    → ((handle_command c s req).0 ≡ encode_response (answer_to c req (KvStore.get s)).0)
      × ((j : Bytes)
          → KvStore.get (handle_command c s req).1 j ≡ (answer_to c req (KvStore.get s)).1 j)
      × IsValid (handle_command c s req).1
unfolding handle_command answer_to
refines get {s} req v = (found-value (KvStore.get s req.key), λ j. refl, v)
refines set {s} req v = (
  unfold encode_response in refl,
  λ j. get-set req.key req.value j v,
  set-IsValid req.key req.value v,
)
refines delete {s} req v =
    let (there, rest) = get-remove req.key v in
    (rw there (deleted-holds (KvStore.get s req.key)), rest, remove-IsValid req.key v)
refines ping {s} req v = (unfold encode_response in refl, λ j. refl, v)

-- On a well-formed store every request is answered as the dictionary specifies, leaves what the
-- dictionary specifies at every key, and leaves the store well formed.
pub handle_request-Refines :
    (s : KvStore) (req : Request) → IsValid s → Refines s req (handle_request s req)
unfolding handle_request
handle_request-Refines s req v =
    let (a, c, w) = refines req.command {s = s} req v in
    record { answer = a; contents = c; valid = w }
