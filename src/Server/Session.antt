-- ===== src/Server/Session.antt =====
-- A client's whole session with a `WorkerReactor`: from the bytes that arrive, however `::poll` and
-- `::read` cut them, through the parser and the store to the responses, against a dictionary.
use mathlib.Core.Path.{fun_ext, subst}
use mathlib.Core.Option.{some-injective}
use distributed_kv_store.Prelude.{
  ℕ, ◌<◌, ◌≡◌, refl, sym, ap, ◌∙◌, List, [], ◌∷◌, map, Option, none, some, Bytes, length, arith,
}
use distributed_kv_store.Protocol.Messages.{
  Command, Request, Response, Parser, get, set, delete, ping,
}
use distributed_kv_store.Protocol.RequestParser.{feed}
use distributed_kv_store.Protocol.RequestParser.RoundTrip.{carried}
use distributed_kv_store.Protocol.RequestLoop.{answer_requests}
use distributed_kv_store.Protocol.RequestLoop.Stream.{
  AllSendable, encode_all, handle_all, join, receive, receive_stream,
}
use distributed_kv_store.KvStore
use distributed_kv_store.KvStore.{KvStore}
use distributed_kv_store.KvStore.Invariant.{IsValid}
use distributed_kv_store.KvStore.Refinement.{Dictionary}
use distributed_kv_store.HashRing.{Outcome, returned}
use distributed_kv_store.Router.Reply.{encode_response}
use distributed_kv_store.Server.Requests.{answer_to, handle_request, handle_request-Refines}
use distributed_kv_store.Server.Interleaving.{and_then}
use distributed_kv_store.Server.Interleaving.Simulation.{service_client-take_in}
use distributed_kv_store.Server.Connection.{
  Parsers, find_parser, put_parser, received, no_data, respond, WorkerReactor, react, answered,
  take_in, service_client,
}

-- What a dictionary answers to the requests, in order, and what it holds in the end.
unfoldable pub answers : List Request → Dictionary → List Response
answers [] d = []
answers (r ∷ rs) d = let (a, d') = answer_to r.command r d in a ∷ answers rs d'

unfoldable pub dictionary_after : List Request → Dictionary → Dictionary
dictionary_after [] d = d
dictionary_after (r ∷ rs) d = dictionary_after rs (answer_to r.command r d).1

carried-answer_to :
    (c : Command) (req : Request) (d : Dictionary)
    → answer_to (carried c req).command (carried c req) d ≡ answer_to c req d
unfolding answer_to
carried-answer_to get req d = refl
carried-answer_to set req d = refl
carried-answer_to delete req d = refl
carried-answer_to ping req d = refl

find_parser-put :
    (fd : ℕ) (p q : Parser) (ps : Parsers)
    → find_parser fd ps ≡ some q
    → find_parser fd (put_parser fd p ps) ≡ some p
unfolding find_parser put_parser
find_parser-put fd p q [] h = cc (h)
find_parser-put fd p q ((k, r) ∷ ps) h = ground (arith, find_parser-put fd p q ps)

module _ {World : Type 0} (deliver : ℕ → Bytes → World → World) (close : ℕ → World → World) where
  -- The responses are handed over one after the other.
  unfoldable pub deliver_all : ℕ → List Bytes → World → World
  deliver_all fd [] w = w
  deliver_all fd (bytes ∷ rest) w = deliver_all fd rest (deliver fd bytes w)

  -- Each request handled on the store is what the dictionary answers.
  handle_all-answers :
      (fd : ℕ) (rs : List Request) (s : KvStore) (w : World)
      → IsValid s
      → (s' : KvStore) × (handle_all (react deliver close fd) rs (s, w)
          ≡ (s', deliver_all fd (map encode_response (answers rs (KvStore.get s))) w))
        × (KvStore.get s' ≡ dictionary_after rs (KvStore.get s))
        × IsValid s'
  unfolding handle_all answers dictionary_after deliver_all respond
  handle_all-answers fd [] s w v = (s, refl, refl, v)
  handle_all-answers fd (r ∷ rs) s w v =
      let req = carried r.command r in
      let step = handle_request-Refines s req v in
      let same = carried-answer_to r.command r (KvStore.get s) in
      let answer = step.answer ∙ ap (λ x. encode_response x.0) same in
      let dict = fun_ext step.contents ∙ ap (λ x. x.1) same in
      let (s', done, contents, v') =
        handle_all-answers fd rs (handle_request s req).1 (deliver fd (handle_request s req).0 w)
          step.valid in
      (
        s',
        done
            ∙ ap
                (λ (x : Bytes × Dictionary).
                  (s', deliver_all fd (map encode_response (answers rs x.1)) (deliver fd x.0 w)))
                (λ i. (answer i, dict i)),
        contents ∙ ap (dictionary_after rs) dict,
        v',
      )

  module _ (fuel i fd : ℕ) where
    -- `::poll` reports the client for each chunk; the read after it finds no more.
    unfoldable pub serve_chunks :
        List Bytes → WorkerReactor deliver close → Outcome (WorkerReactor deliver close)
    serve_chunks [] r = returned r
    serve_chunks (c ∷ cs) r =
        and_then deliver close (serve_chunks cs)
          (service_client deliver close fuel i fd (received c ∷ no_data ∷ []) r)

    -- The reactor behind a session: the state that the loop over the chunks ends with.
    record Holds (s : KvStore) (w : World) (table : List ℕ)
        (r : Outcome (WorkerReactor deliver close)) : Type 0 where
      reactor : WorkerReactor deliver close
      done : r ≡ returned reactor
      store : reactor.store ≡ s
      world : reactor.world ≡ w
      same_table : reactor.poll_fds ≡ table

    receive-none : (cs : List Bytes) → receive (react deliver close fd) fuel cs none ≡ none
    unfolding receive
    receive-none [] = refl
    receive-none (c ∷ cs) = refl

    serve_chunks-receive :
        (cs : List Bytes) (r : WorkerReactor deliver close) (p q : Parser) (s : KvStore) (w : World)
        → find_parser fd r.parsers ≡ some p
        → receive (react deliver close fd) fuel cs (some (p, (r.store, r.world))) ≡ some (q, (s, w))
        → Holds s w r.poll_fds (serve_chunks cs r)
    unfolding serve_chunks receive
    serve_chunks-receive [] r p q s w found e = record {
      reactor = r;
      done = refl;
      store = ap (λ x. x.1.0) (some-injective _ _ e);
      world = ap (λ x. x.1.1) (some-injective _ _ e);
      same_table = refl;
    }
    serve_chunks-receive (c ∷ cs) r p q s w found e =
        next (answer_requests (react deliver close fd) fuel (feed p c) (r.store, r.world)) refl e
          (λ p' s' w' found' e'.
            serve_chunks-receive cs
              (record r { store = s'; parsers = put_parser fd p' r.parsers; world = w' }) p' q s w
              found' e')
      where
        next :
            (x : Option (Parser × (KvStore × World)))
            → answer_requests (react deliver close fd) fuel (feed p c) (r.store, r.world) ≡ x
            → receive (react deliver close fd) fuel cs x ≡ some (q, (s, w))
            → ((p' : Parser) (s' : KvStore) (w' : World)
                → find_parser fd (put_parser fd p' r.parsers) ≡ some p'
                → receive (react deliver close fd) fuel cs (some (p', (s', w'))) ≡ some (q, (s, w))
                → Holds s w r.poll_fds (
                    serve_chunks cs
                      (record r { store = s'; parsers = put_parser fd p' r.parsers; world = w' })))
            → Holds s w r.poll_fds (
                and_then deliver close
                  (serve_chunks cs)
                  (service_client deliver close fuel i fd (received c ∷ no_data ∷ []) r))
        next none e1 e2 k = let no_result = receive-none cs in cc (no_result, e2)
        next (some (p', (s', w'))) e1 e2 k =
            let r' : WorkerReactor deliver close = record r {
              store = s';
              parsers = put_parser fd p' r.parsers;
              world = w';
            } in
            let taken : take_in deliver close fuel fd c r (find_parser fd r.parsers) ≡ returned r' =
              ap (take_in deliver close fuel fd c r) found ∙ ap (answered deliver close fd r) e1 in
            subst (Holds s w r.poll_fds)
              (sym (
                ap (and_then deliver close (serve_chunks cs))
                  (service_client-take_in deliver close fuel i fd c r ∙ taken)))
              (k p' s' w' (find_parser-put fd p' p r.parsers found) e2)

    -- How a session ends: the loop returns, the responses are those of the dictionary, handed over
    -- in order, and the store holds what the dictionary holds then.
    pub record Serves (rs : List Request) (r : WorkerReactor deliver close)
        (result : Outcome (WorkerReactor deliver close)) : Type 0 where
      pub after : WorkerReactor deliver close
      pub returns : result ≡ returned after
      pub sent :
          after.world
          ≡ deliver_all fd (map encode_response (answers rs (KvStore.get r.store))) r.world
      pub held : KvStore.get after.store ≡ dictionary_after rs (KvStore.get r.store)
      pub valid : IsValid after.store
      pub same_table : after.poll_fds ≡ r.poll_fds

    -- For a reactor with a well-formed store and a client whose parser holds no bytes: however the
    -- encodings of requests that the server accepts are cut into chunks, with more fuel than there
    -- are requests, the calls of `service_client` return, with the connection open; the responses
    -- are those of a dictionary, one for each request and in order; and the store holds what the
    -- dictionary holds after the requests.
    pub serve_chunks-Serves :
        (cs : List Bytes) (rs : List Request) (e : Bytes) (r : WorkerReactor deliver close)
        → IsValid r.store
        → find_parser fd r.parsers ≡ some (record { buffer = []; error_message = e })
        → length rs < fuel
        → AllSendable rs
        → join cs ≡ encode_all rs
        → Serves rs r (serve_chunks cs r)
    serve_chunks-Serves cs rs e r v found enough ok split =
        let (s, done, contents, valid) = handle_all-answers fd rs r.store r.world v in
        let h =
          serve_chunks-receive cs r _ (record { buffer = []; error_message = e }) s _ found
            (receive_stream (react deliver close fd) fuel cs rs e (r.store, r.world) enough ok split
              ∙ ap (λ x. some (record { buffer = []; error_message = e }, x)) done) in
        record {
          after = h.reactor;
          returns = h.done;
          sent = h.world;
          held = ap KvStore.get h.store ∙ contents;
          valid = subst IsValid (sym h.store) valid;
          same_table = h.same_table;
        }
