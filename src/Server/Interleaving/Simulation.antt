-- ===== src/Server/Interleaving/Simulation.antt =====
-- The reactor simulates the server with one dictionary.
use mathlib.Core.Path.{fun_ext, subst}
use distributed_kv_store.Prelude.{
  ℕ, zero, suc, ◌≡◌, refl, sym, ap, Bool, true, false, List, [], ◌∷◌, Option, none, some, Bytes,
  length, ltb, if◌then◌else◌,
}
use distributed_kv_store.Protocol.Messages.{
  Request, Parser, ParseStatus, complete, incomplete, error,
}
use distributed_kv_store.Protocol.Encode.{encode_error_response}
use distributed_kv_store.Protocol.RequestParser.{feed, try_parse_request}
use distributed_kv_store.Protocol.RequestLoop.{Event, request, failure, answer, answer_requests}
use distributed_kv_store.KvStore
use distributed_kv_store.KvStore.{KvStore}
use distributed_kv_store.KvStore.Invariant.{IsValid}
use distributed_kv_store.KvStore.Refinement.{Dictionary}
use distributed_kv_store.HashRing.{Outcome, returned, threw, running}
use distributed_kv_store.Server.Requests.{handle_request, handle_request-Refines}
use distributed_kv_store.Server.Connection.{
  find_parser, put_parser, received, no_data, respond, react, answered, take_in, next_round,
  buffer_size, service_reads, close_if, service_client,
}
use distributed_kv_store.Server.Interleaving.{
  Arrival, respond_from, Reactor, DictionaryServer, promise_of, react_from, answered_from,
  take_in_from, and_then, serve_arrivals, serve_from, Simulates,
}

module _ {World : Type 0} (deliver : ℕ → Bytes → World → World) (close : ℕ → World → World) where
  abbrev Agree :
      Option (Parser × (KvStore × World)) → Option (Parser × (Dictionary × World)) → Type 0
  Agree none none = Unit
  Agree (some (p, (s, w))) (some x) = IsValid s × ((p, (KvStore.get s, w)) ≡ x)
  Agree _ _ = ⊥

  -- One event: the response and the dictionary behind it.
  react-react_from :
      (fd : ℕ) (event : Event) (s : KvStore) (w : World)
      → IsValid s
      → (s' : KvStore) × (w' : World) × (react deliver close fd event (s, w) ≡ (s', w'))
        × IsValid s'
        × ((KvStore.get s', w') ≡ react_from deliver close fd event (KvStore.get s, w))
  unfolding respond respond_from
  react-react_from fd (request req) s w v =
      let step = handle_request-Refines s req v in
      let dict = fun_ext step.contents in
      (
        (handle_request s req).1,
        deliver fd (handle_request s req).0 w,
        refl,
        step.valid,
        λ i. (dict i, deliver fd (step.answer i) w),
      )
  react-react_from fd (failure message) s w v =
      (s, deliver fd (encode_error_response message) w, refl, v, refl)

  -- The inner loop, whatever the parser holds.
  answer_requests-Agree :
      (fd fuel : ℕ) (p : Parser) (s : KvStore) (w : World)
      → IsValid s
      → Agree
          (answer_requests (react deliver close fd) fuel p (s, w))
          (answer_requests (react_from deliver close fd) fuel p (KvStore.get s, w))
  unfolding answer_requests answer
  answer_requests-Agree fd zero p s w v = tt
  answer_requests-Agree fd (suc f) p s w v =
      round (try_parse_request p) (answer_requests-Agree fd f)
    where
      handled :
          (event : Event) (q : Parser)
          → ((q : Parser) (s : KvStore) (w : World)
              → IsValid s
              → Agree
                  (answer_requests (react deliver close fd) f q (s, w))
                  (answer_requests (react_from deliver close fd) f q (KvStore.get s, w)))
          → Agree
              (answer_requests (react deliver close fd) f q (react deliver close fd event (s, w)))
              (answer_requests
                (react_from deliver close fd)
                f
                q
                (react_from deliver close fd event (KvStore.get s, w)))
      handled event q ih =
          let (s', w', done, v', same) = react-react_from fd event s w v in
          subst
            (λ x. Agree (answer_requests (react deliver close fd) f q x) (
              answer_requests (react_from deliver close fd) f q
                (react_from deliver close fd event (KvStore.get s, w))))
            (sym done)
            (subst
              (λ y.
                Agree (answer_requests (react deliver close fd) f q (s', w'))
                  (answer_requests (react_from deliver close fd) f q y))
              same (ih q s' w' v'))

      round :
          (x : ParseStatus Request × Parser)
          → ((q : Parser) (s : KvStore) (w : World)
              → IsValid s
              → Agree
                  (answer_requests (react deliver close fd) f q (s, w))
                  (answer_requests (react_from deliver close fd) f q (KvStore.get s, w)))
          → Agree
              (answer
                (react deliver close fd)
                (answer_requests (react deliver close fd) f)
                x
                (s, w))
              (answer
                (react_from deliver close fd)
                (answer_requests (react_from deliver close fd) f)
                x
                (KvStore.get s, w))
      round (incomplete, q) ih = (v, refl)
      round (complete req, q) ih = handled (request req) q ih
      round (error, q) ih = handled (failure q.error_message) q ih

  answered-Simulates :
      (fd : ℕ) (r : (Reactor deliver close)) (x : Option (Parser × (KvStore × World)))
      (y : Option (Parser × (Dictionary × World)))
      → Agree x y
      → Simulates deliver close
          (answered deliver close fd r x)
          (answered_from deliver close fd (promise_of deliver close r) y)
  answered-Simulates fd r none none h = tt
  answered-Simulates fd r none (some y) h = absurd h
  answered-Simulates fd r (some x) none h = absurd h
  answered-Simulates fd r (some (p, (s, w))) (some y) (v, same) = (
    v,
    ap
        (λ (z : Parser × (Dictionary × World)). record {
          dictionary = z.1.0;
          parsers = put_parser fd z.0 r.parsers;
          world = z.1.1;
        })
        same,
  )

  take_in-Simulates :
      (fuel fd : ℕ) (bytes : Bytes) (r : (Reactor deliver close)) (o : Option Parser)
      → IsValid r.store
      → Simulates deliver close
          (take_in deliver close fuel fd bytes r o)
          (take_in_from deliver close fuel fd bytes (promise_of deliver close r) o)
  take_in-Simulates fuel fd bytes r none v = tt
  take_in-Simulates fuel fd bytes r (some p) v =
      answered-Simulates fd r _ _ (answer_requests-Agree fd fuel (feed p bytes) r.store r.world v)

  -- The two reads of an arrival take its bytes in, whether or not they fill the buffer.
  pub service_client-take_in :
      (fuel i fd : ℕ) (c : Bytes) (r : (Reactor deliver close))
      → service_client deliver close fuel i fd (received c ∷ no_data ∷ []) r
        ≡ take_in deliver close fuel fd c r (find_parser fd r.parsers)
  unfolding service_client service_reads
  service_client-take_in fuel i fd c r =
      after (take_in deliver close fuel fd c r (find_parser fd r.parsers))
    where
      either :
          (b : Bool) (r' : (Reactor deliver close))
          → close_if deliver close i fd (if b then returned (false, r') else returned (false, r'))
            ≡ returned r'
      either true r' = refl
      either false r' = refl

      after :
          (x : Outcome (Reactor deliver close))
          → close_if deliver close i fd
              (next_round deliver close (service_reads deliver close fuel fd (no_data ∷ [])) c x)
            ≡ x
      after (returned r') = either (ltb (length c) buffer_size) r'
      after threw = refl
      after running = refl

  -- For a reactor with a well-formed store, any clients, any bytes from them in any order, malformed
  -- requests included, and any fuel: the calls of `service_client`, where a read that returns the bytes
  -- is followed by one that finds no more, end as those of a server that keeps one dictionary do; and
  -- where they return, the same was sent, in the same order, the parsers are the same, and the store,
  -- well formed again, holds the dictionary.
  pub serve_arrivals-Simulates :
      (fuel : ℕ) (xs : List Arrival) (r : (Reactor deliver close))
      → IsValid r.store
      → Simulates deliver close
          (serve_arrivals deliver close fuel xs r)
          (serve_from deliver close fuel xs (promise_of deliver close r))
  unfolding serve_arrivals serve_from
  serve_arrivals-Simulates fuel [] r v = (v, refl)
  serve_arrivals-Simulates fuel (x ∷ xs) r v =
      subst
        (λ o.
          Simulates deliver close (and_then deliver close (serve_arrivals deliver close fuel xs) o)
            (and_then deliver close (serve_from deliver close fuel xs) (
              take_in_from deliver close fuel x.fd x.bytes (promise_of deliver close r)
                (find_parser x.fd r.parsers))))
        (sym (service_client-take_in fuel x.index x.fd x.bytes r))
        (next _ _ (take_in-Simulates fuel x.fd x.bytes r (find_parser x.fd r.parsers) v)
          (λ r' v'. serve_arrivals-Simulates fuel xs r' v'))
    where
      next :
          (o : Outcome (Reactor deliver close)) (q : Outcome (DictionaryServer deliver close))
          → Simulates deliver close o q
          → ((r' : (Reactor deliver close))
              → IsValid r'.store
              → Simulates deliver close
                  (serve_arrivals deliver close fuel xs r')
                  (serve_from deliver close fuel xs (promise_of deliver close r')))
          → Simulates deliver close
              (and_then deliver close (serve_arrivals deliver close fuel xs) o)
              (and_then deliver close (serve_from deliver close fuel xs) q)
      next (returned r') (returned a) (v', same) ih =
          subst
            (λ z.
              Simulates deliver close (serve_arrivals deliver close fuel xs r')
                (serve_from deliver close fuel xs z))
            same (ih r' v')
      next threw threw h ih = tt
      next running running h ih = tt
      next (returned r') threw h ih = absurd h
      next (returned r') running h ih = absurd h
      next threw (returned a) h ih = absurd h
      next threw running h ih = absurd h
      next running (returned a) h ih = absurd h
      next running threw h ih = absurd h
