-- ===== src/Server/Interleaving.antt =====
-- Several clients of one reactor: the chunks of their streams arrive in any order, and may hold
-- anything. The reactor over its sharded store against a server that keeps a dictionary.
pub mod Simulation
use mathlib.Core.Path.{fun_ext, subst}
use distributed_kv_store.Prelude.{
  ℕ, zero, suc, ◌≡◌, refl, sym, ap, Bool, true, false, List, [], ◌∷◌, Option, none, some, Bytes,
  length, ltb, if◌then◌else◌,
}
use distributed_kv_store.Protocol.Messages.{
  Request, Parser, ParseStatus, complete, incomplete, error,
}
use distributed_kv_store.Protocol.Encode.{encode_error_response}
use distributed_kv_store.Protocol.RequestParser.{feed, try_parse_request}
use distributed_kv_store.Protocol.RequestLoop.{Event, request, failure, answer, answer_requests}
use distributed_kv_store.KvStore
use distributed_kv_store.KvStore.{KvStore}
use distributed_kv_store.KvStore.Invariant.{IsValid}
use distributed_kv_store.KvStore.Refinement.{Dictionary}
use distributed_kv_store.HashRing.{Outcome, returned, threw, running}
use distributed_kv_store.Router.Reply.{encode_response}
use distributed_kv_store.Server.Requests.{answer_to, handle_request, handle_request-Refines}
use distributed_kv_store.Server.Connection.{
  Parsers, find_parser, put_parser, received, no_data, respond, WorkerReactor, react, answered,
  take_in, next_round, buffer_size, service_reads, close_if, service_client,
}

-- Bytes that arrive from the client at an index of the poll table.
pub record Arrival : Type 0 where
  pub index : ℕ
  pub fd : ℕ
  pub bytes : Bytes

-- The response that a dictionary gives to a request or to a parse error.
unfoldable pub respond_from : Event → Dictionary → Bytes × Dictionary
respond_from (request req) d = let (a, d') = answer_to req.command req d in (encode_response a, d')
respond_from (failure message) d = (encode_error_response message, d)

module _ {World : Type 0} (deliver : ℕ → Bytes → World → World) (close : ℕ → World → World) where
  abbrev pub Reactor : Type 0
  Reactor = WorkerReactor deliver close

  -- What a server promises: one dictionary, and a parser for each client.
  pub record DictionaryServer : Type 0 where
    pub dictionary : Dictionary
    pub parsers : Parsers
    pub world : World

  abbrev pub promise_of : Reactor → DictionaryServer
  promise_of r = record { dictionary = KvStore.get r.store; parsers = r.parsers; world = r.world }

  abbrev pub react_from : ℕ → Event → Dictionary × World → Dictionary × World
  react_from fd event (d, w) = let (bytes, d') = respond_from event d in (d', deliver fd bytes w)

  abbrev pub answered_from :
      ℕ → DictionaryServer → Option (Parser × (Dictionary × World)) → Outcome DictionaryServer
  answered_from fd a none = running
  answered_from fd a (some (p, (d, w))) =
      returned (record { dictionary = d; parsers = put_parser fd p a.parsers; world = w })

  abbrev pub take_in_from :
      ℕ → ℕ → Bytes → DictionaryServer → Option Parser → Outcome DictionaryServer
  take_in_from fuel fd bytes a none = threw
  take_in_from fuel fd bytes a (some p) =
      answered_from fd a
        (answer_requests (react_from fd) fuel (feed p bytes) (a.dictionary, a.world))

  abbrev pub and_then {ℓ} : {A : Type ℓ} → (A → Outcome A) → Outcome A → Outcome A
  and_then rest (returned a) = rest a
  and_then rest threw = threw
  and_then rest running = running

  module _ (fuel : ℕ) where
    -- A read that returns the bytes, and one that finds no more, for each arrival.
    unfoldable pub serve_arrivals : List Arrival → Reactor → Outcome Reactor
    serve_arrivals [] r = returned r
    serve_arrivals (x ∷ xs) r =
        and_then (serve_arrivals xs)
          (service_client deliver close fuel x.index x.fd (received x.bytes ∷ no_data ∷ []) r)

    unfoldable pub serve_from : List Arrival → DictionaryServer → Outcome DictionaryServer
    serve_from [] a = returned a
    serve_from (x ∷ xs) a =
        and_then (serve_from xs) (take_in_from fuel x.fd x.bytes a (find_parser x.fd a.parsers))

  -- The same outcome, and where it returns, a well-formed store that holds the dictionary.
  abbrev pub Simulates : Outcome Reactor → Outcome DictionaryServer → Type 0
  Simulates (returned r) (returned a) = IsValid r.store × (promise_of r ≡ a)
  Simulates threw threw = Unit
  Simulates running running = Unit
  Simulates _ _ = ⊥
