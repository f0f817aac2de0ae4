-- ===== src/Server/Connection.antt =====
-- The state of a `WorkerReactor` (server/worker_reactor.hpp, server/worker_reactor.cpp) and the
-- methods that change it. A client's parser, its entry in the poll table and its descriptor live
-- and end together. The operating system is a state of its own, which `deliver`, the call of
-- `write_all` on a descriptor, and `close` change; what `::read` returns is an argument.
-- Whether the calls that set the options of a new client's socket succeed is an argument, and the
-- bytes of the wakeup pipe are left out. An index of the
-- poll table comes with its descriptor, since no caller passes one out of range.
pub mod Ending
pub mod Table
pub mod Lifetime
pub mod Progress
use distributed_kv_store.Prelude.{
  ℕ, zero, suc, Bool, true, false, List, [], ◌∷◌, ◌++◌, Option, none, some, Bytes, get_elem?,
  set as set_elem, length, ltb, ◌==◌, if◌then◌else◌,
}
use distributed_kv_store.Protocol.Messages.{Parser}
use distributed_kv_store.Protocol.Encode.{encode_error_response}
use distributed_kv_store.Protocol.RequestParser.{feed}
use distributed_kv_store.Protocol.RequestLoop.{Event, request, failure, answer_requests}
use distributed_kv_store.KvStore.{KvStore}
use distributed_kv_store.HashRing.{Outcome, returned, threw, running}
use distributed_kv_store.Server.Requests.{handle_request}
use distributed_kv_store.Socket.{OptionCalls, set_nonblocking, set_tcp_nodelay}

-- `parsers_`
abbrev pub Parsers : Type 0
Parsers = List (ℕ × Parser)

abbrev pub fresh_parser : Parser
fresh_parser = record { buffer = []; error_message = [] }

unfoldable pub find_parser : ℕ → Parsers → Option Parser
find_parser fd [] = none
find_parser fd ((k, p) ∷ ps) = if k == fd then some p else find_parser fd ps

-- The parser behind the reference that `parsers_.at(fd)` returns is changed in place.
unfoldable pub put_parser : ℕ → Parser → Parsers → Parsers
put_parser fd p [] = []
put_parser fd p ((k, q) ∷ ps) = if k == fd then (k, p) ∷ ps else (k, q) ∷ put_parser fd p ps

-- parsers_.emplace(fd, IncrementalParser{}), which keeps a parser that is there
unfoldable pub emplace_parser : ℕ → Parsers → Parsers
emplace_parser fd [] = (fd, fresh_parser) ∷ []
emplace_parser fd ((k, p) ∷ ps) = if k == fd then (k, p) ∷ ps else (k, p) ∷ emplace_parser fd ps

-- parsers_.erase(fd)
unfoldable pub erase_parser : ℕ → Parsers → Parsers
erase_parser fd [] = []
erase_parser fd ((k, p) ∷ ps) = if k == fd then ps else (k, p) ∷ erase_parser fd ps

-- poll_fds_.back(), of a table that is not empty
unfoldable pub back : ℕ → List ℕ → ℕ
back x [] = x
back x (y ∷ ys) = back y ys

-- poll_fds_.pop_back()
unfoldable pub pop_back : ℕ → List ℕ → List ℕ
pop_back x [] = []
pop_back x (y ∷ ys) = x ∷ pop_back y ys

abbrev pub drop_back : List ℕ → List ℕ
drop_back [] = []
drop_back (x ∷ xs) = pop_back x xs

-- The entry at `i` becomes a copy of the last one, and the last one goes.
unfoldable pub swap_remove : List ℕ → ℕ → List ℕ
swap_remove [] i = []
swap_remove (x ∷ xs) i = drop_back (set_elem (x ∷ xs) i (back x xs))

-- What `::read` returns: bytes, 0, `EAGAIN` or `EWOULDBLOCK`, `EINTR`, or another error.
pub data ReadResult : Type 0 where
  received : Bytes → ReadResult
  end_of_file no_data interrupted failed : ReadResult

abbrev pub buffer_size : ℕ
buffer_size = 4096

-- The response to a request or to a parse error.
unfoldable pub respond : Event → KvStore → Bytes × KvStore
unfolding handle_request
respond (request req) s = handle_request s req
respond (failure message) s = (encode_error_response message, s)

module _ {World : Type 0} (deliver : ℕ → Bytes → World → World) (close : ℕ → World → World) where
  pub record WorkerReactor : Type 0 where
    pub store : KvStore
    pub poll_fds : List ℕ
    pub parsers : Parsers
    pub pending_clients : List ℕ
    pub world : World

  unfoldable pub enqueue_client : ℕ → WorkerReactor → WorkerReactor
  enqueue_client fd r = record r { pending_clients = r.pending_clients ++ fd ∷ [] }

  -- The loop over the descriptors that were swapped out, up to an exception.
  unfoldable pub accept_clients : (ℕ → OptionCalls) → List ℕ → WorkerReactor → Outcome WorkerReactor
  unfolding set_nonblocking set_tcp_nodelay
  accept_clients calls [] r = returned r
  accept_clients calls (fd ∷ fds) r =
      let rest =
        accept_clients calls fds
          (record r { poll_fds = r.poll_fds ++ fd ∷ []; parsers = emplace_parser fd r.parsers }) in
      if set_nonblocking (calls fd)
      then (if set_tcp_nodelay (calls fd) then rest else threw)
      else threw

  unfoldable pub accept_pending_clients : (ℕ → OptionCalls) → WorkerReactor → Outcome WorkerReactor
  accept_pending_clients calls r =
      accept_clients calls r.pending_clients (record r { pending_clients = [] })

  unfoldable pub close_client : ℕ → ℕ → WorkerReactor → WorkerReactor
  close_client i fd r = record r {
    poll_fds = swap_remove r.poll_fds i;
    parsers = erase_parser fd r.parsers;
    world = close fd r.world;
  }

  -- A response of the reactor to one event of the connection's loop.
  abbrev pub react : ℕ → Event → KvStore × World → KvStore × World
  react fd event (s, w) = let (bytes, s') = respond event s in (s', deliver fd bytes w)

  -- The state after the inner loop, unless it is still running.
  abbrev pub answered :
      ℕ → WorkerReactor → Option (Parser × (KvStore × World)) → Outcome WorkerReactor
  answered fd r none = running
  answered fd r (some (p, (s, w))) =
      returned (record r { store = s; parsers = put_parser fd p r.parsers; world = w })

  -- `none` is the exception of `parsers_.at(fd)`.
  abbrev pub take_in : ℕ → ℕ → Bytes → WorkerReactor → Option Parser → Outcome WorkerReactor
  take_in fuel fd bytes r none = threw
  take_in fuel fd bytes r (some p) =
      answered fd r (answer_requests (react fd) fuel (feed p bytes) (r.store, r.world))

  -- A round of the loop over `::read` once bytes were taken in; `rest` is the loop.
  abbrev pub next_round :
      (WorkerReactor → Outcome (Bool × WorkerReactor))
      → Bytes
      → Outcome WorkerReactor
      → Outcome (Bool × WorkerReactor)
  next_round rest bytes (returned r) =
      if ltb (length bytes) buffer_size then returned (false, r) else rest r
  next_round rest bytes threw = threw
  next_round rest bytes running = running

  -- The loop over `::read`, with `should_close`; it is running where the results end.
  unfoldable pub service_reads :
      ℕ → ℕ → List ReadResult → WorkerReactor → Outcome (Bool × WorkerReactor)
  service_reads fuel fd [] r = running
  service_reads fuel fd (received bytes ∷ reads) r =
      next_round (service_reads fuel fd reads) bytes
        (take_in fuel fd bytes r (find_parser fd r.parsers))
  service_reads fuel fd (end_of_file ∷ reads) r = returned (true, r)
  service_reads fuel fd (no_data ∷ reads) r = returned (false, r)
  service_reads fuel fd (interrupted ∷ reads) r = service_reads fuel fd reads r
  service_reads fuel fd (failed ∷ reads) r = returned (true, r)

  abbrev pub close_if : ℕ → ℕ → Outcome (Bool × WorkerReactor) → Outcome WorkerReactor
  close_if i fd (returned (true, r)) = returned (close_client i fd r)
  close_if i fd (returned (false, r)) = returned r
  close_if i fd threw = threw
  close_if i fd running = running

  -- The client at index `i` of the poll table, whose descriptor is `fd`; fuel for the inner loop.
  unfoldable pub service_client :
      ℕ → ℕ → ℕ → List ReadResult → WorkerReactor → Outcome WorkerReactor
  unfolding close_client
  service_client fuel i fd reads r = close_if i fd (service_reads fuel fd reads r)
