-- ===== src/Transport.antt =====
-- The loops over `::write` and `::read`: the two `write_all` (server/worker_reactor.cpp,
-- router/router.cpp) and `send_request` (common/protocol.cpp). What the operating system returns is
-- an argument: the results of the calls, in order. A list that ends early is a call that waits.
pub mod Delivery
pub mod Exchange
use distributed_kv_store.Prelude.{
  ℕ, zero, suc, Bool, true, false, List, [], ◌∷◌, ◌++◌, Option, none, some, Bytes, take, drop,
  if◌then◌else◌,
}
use distributed_kv_store.Protocol.Messages.{
  Request, Response, ResponseType, Parser, ParseStatus, incomplete, complete, error,
}
use distributed_kv_store.Protocol.Encode.{encode_request}
use distributed_kv_store.Protocol.RequestParser.{feed}
use distributed_kv_store.Protocol.ResponseParser.{try_parse_response}

-- A number of bytes, `EAGAIN` or `EWOULDBLOCK`, `EINTR`, or another error.
pub data WriteResult : Type 0 where
  wrote : ℕ → WriteResult
  would_block interrupted failed : WriteResult

pub data Ending : Type 0 where
  finished broken waiting : Ending

-- The errors after which the reactor tries again; the other loops try again on `EINTR` only.
abbrev pub reactor_retries : WriteResult → Bool
reactor_retries would_block = true
reactor_retries interrupted = true
reactor_retries _ = false

abbrev pub sender_retries : WriteResult → Bool
sender_retries interrupted = true
sender_retries _ = false

-- What has gone out, and how the loop ended.
abbrev pub sent_before : Bytes → Bytes × Ending → Bytes × Ending
sent_before out (rest, ending) = (out ++ rest, ending)

unfoldable pub write_loop : (WriteResult → Bool) → List WriteResult → Bytes → Bytes × Ending
write_loop retries rs [] = ([], finished)
write_loop retries [] (c ∷ bytes) = ([], waiting)
write_loop retries (wrote zero ∷ rs) (c ∷ bytes) = ([], broken)
write_loop retries (wrote (suc n) ∷ rs) (c ∷ bytes) =
    sent_before (take (suc n) (c ∷ bytes)) (write_loop retries rs (drop (suc n) (c ∷ bytes)))
write_loop retries (would_block ∷ rs) (c ∷ bytes) =
    let rest = write_loop retries rs (c ∷ bytes) in
    if retries would_block then rest else ([], broken)
write_loop retries (interrupted ∷ rs) (c ∷ bytes) =
    let rest = write_loop retries rs (c ∷ bytes) in
    if retries interrupted then rest else ([], broken)
write_loop retries (failed ∷ rs) (c ∷ bytes) = ([], broken)

-- The reactor's `write_all`, which gives up silently on a broken connection.
unfoldable pub write_all : List WriteResult → Bytes → Bytes × Ending
unfolding write_loop
write_all = write_loop reactor_retries

-- The router's `write_all`, and the first loop of `send_request`: `broken` is an exception.
unfoldable pub send_all : List WriteResult → Bytes → Bytes × Ending
unfolding write_loop
send_all = write_loop sender_retries

-- How `send_request` ends: it returns, it throws, or it waits in a call.
pub data Exchanged : Type 0 where
  answered : Response → Exchanged
  threw pending : Exchanged

-- `Response resp;`, whose type is not set yet: every complete parse sets it.
abbrev pub blank : Response
blank = record { kind = ResponseType.value; value = []; message = [] }

-- A round of the second loop after the parse; `rest` is the loop on what was read.
unfoldable pub after_parse : (Parser → Exchanged) → ParseStatus Response × Parser → Exchanged
after_parse rest (complete resp, p) = answered resp
after_parse rest (error, p) = threw
after_parse rest (incomplete, p) = rest p

-- `none` stands for a result of `::read` that is not positive.
unfoldable pub read_response : List (Option Bytes) → Parser → Exchanged
read_response [] p = after_parse (λ q. pending) (try_parse_response p blank)
read_response (none ∷ reads) p = after_parse (λ q. threw) (try_parse_response p blank)
read_response (some chunk ∷ reads) p =
    after_parse (λ q. read_response reads (feed q chunk)) (try_parse_response p blank)

abbrev pub then_read : List (Option Bytes) → Bytes × Ending → Exchanged
then_read reads (out, finished) = read_response reads (record { buffer = []; error_message = [] })
then_read reads (out, broken) = threw
then_read reads (out, waiting) = pending

unfoldable pub send_request : List WriteResult → List (Option Bytes) → Request → Exchanged
unfolding read_response
send_request writes reads req = then_read reads (send_all writes (encode_request req))
