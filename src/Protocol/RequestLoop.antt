-- ===== src/Protocol/RequestLoop.antt =====
-- The inner loop of `WorkerReactor::service_client` (server/worker_reactor.cpp) and of
-- `Router::handle_client` (router/router.cpp), which answers what the buffer holds until a parse is
-- incomplete. The two differ in what they do with a request or an error: `handle`, on a state of
-- its own. The fuel bounds the rounds; `none` means that it ran out.
pub mod Chunks
pub mod Termination
pub mod Stream
use distributed_kv_store.Prelude.{ℕ, zero, suc, Option, none, some, Bytes}
use distributed_kv_store.Protocol.Messages.{
  Request, Parser, ParseStatus, incomplete, complete, error,
}
use distributed_kv_store.Protocol.RequestParser.{try_parse_request}

-- A request, or `parser.error_message()` after an error.
pub data Event : Type 0 where
  request : Request → Event
  failure : Bytes → Event

module _ {ℓ} {S : Type ℓ} (handle : Event → S → S) where
  -- One round: `rest` is the loop.
  unfoldable pub answer :
      (Parser → S → Option (Parser × S)) → ParseStatus Request × Parser → S → Option (Parser × S)
  answer rest (incomplete, p) s = some (p, s)
  answer rest (complete req, p) s = rest p (handle (request req) s)
  answer rest (error, p) s = rest p (handle (failure p.error_message) s)

  unfoldable pub answer_requests : ℕ → Parser → S → Option (Parser × S)
  answer_requests zero p s = none
  answer_requests (suc f) p s = answer (answer_requests f) (try_parse_request p) s
