-- ===== src/Router/Client/Session.antt =====
-- A client's session with the router, through any segmentation of its requests.
use distributed_kv_store.Prelude.{
  ℕ, zero, suc, ◌<◌, ◌≡◌, refl, sym, ap, ◌∙◌, Bool, true, false, List, [], ◌∷◌, Option, none, some,
  Bytes, length,
}
use distributed_kv_store.Protocol.Messages.{
  Command, Request, Response, ResponseType, Parser, ParseStatus, incomplete, complete, error, get,
  set, delete, ping,
}
use distributed_kv_store.Protocol.RequestParser.{feed, try_parse_request}
use distributed_kv_store.Protocol.RequestLoop.{Event, request, failure, answer, answer_requests}
use distributed_kv_store.Protocol.RequestLoop.Stream.{
  AllSendable, encode_all, handle_all, join, receive, receive_stream,
}
use distributed_kv_store.HashRing.{Outcome, returned, threw, running}
use distributed_kv_store.Router.FailureDetector.{Alive}
use distributed_kv_store.Router.Routing.{Network, Routing, route_read, route_write}
use distributed_kv_store.Router.Client.{
  Router, encoded, route, written, delivered, react, after_chunk, serve, handle_client,
}
use distributed_kv_store.Router.Reply.{encode_response}
use distributed_kv_store.Protocol.Encode.{encode_pong_response}
use distributed_kv_store.Protocol.RequestParser.RoundTrip.{carried}
use distributed_kv_store.Transport.Exchange.{arriving}

module _ (net : Network) (router : Router) (deliver : Bytes → net.World → Bool × net.World)
    (fuel : ℕ) where
  abbrev Session : Type 0
  Session = Routing net router.nodes

  abbrev handle : Event → Outcome (Session) → Outcome (Session)
  handle = react net router deliver fuel

  -- After an exception, or with the fuel used up, no event changes anything.
  data Over : Outcome (Session) → Type 0 where
    over_threw : Over threw
    over_running : Over running

  react-Over : (event : Event) {s : Outcome (Session)} → Over s → handle event s ≡ s
  unfolding react
  react-Over event over_threw = refl
  react-Over event over_running = refl

  answer-Over :
      (rest : Parser → Outcome Session → Option (Parser × Outcome Session)) {s : Outcome Session}
      {q : Parser} {t : Outcome Session}
      → Over s
      → ((p : Parser) → rest p s ≡ some (q, t) → t ≡ s)
      → (x : ParseStatus Request × Parser) → answer handle rest x s ≡ some (q, t)
      → t ≡ s
  unfolding answer
  answer-Over rest over k (incomplete, p) h = cc (h)
  answer-Over rest over k (complete req, p) h =
      k p (ap (rest p) (sym (react-Over (request req) over)) ∙ h)
  answer-Over rest over k (error, p) h =
      k p (ap (rest p) (sym (react-Over (failure p.error_message) over)) ∙ h)

  answer_requests-Over :
      (f : ℕ) (p : Parser) {s : Outcome (Session)} {q : Parser} {t : Outcome (Session)}
      → Over s
      → answer_requests handle f p s ≡ some (q, t)
      → t ≡ s
  unfolding answer_requests
  answer_requests-Over zero p over e = cc (e)
  answer_requests-Over (suc f) p over e =
      answer-Over (answer_requests handle f) over (λ p' h. answer_requests-Over f p' over h)
        (try_parse_request p) e

  receive-none : (cs : List Bytes) → receive handle fuel cs none ≡ none
  unfolding receive
  receive-none [] = refl
  receive-none (c ∷ cs) = refl

  receive_next-Over :
      (cs : List Bytes) {s : Outcome Session} {q : Parser} {t : Outcome Session}
      → Over s
      → ((p : Parser) → receive handle fuel cs (some (p, s)) ≡ some (q, t) → t ≡ s)
      → (x : Option (Parser × Outcome Session))
      → ((p' : Parser) (t' : Outcome Session) → x ≡ some (p', t') → t' ≡ s)
      → receive handle fuel cs x ≡ some (q, t)
      → t ≡ s
  receive_next-Over cs over k none same h = let no = receive-none cs in cc (no, h)
  receive_next-Over cs over k (some (p', t')) same h =
      k p' (ap (λ u. receive handle fuel cs (some (p', u))) (sym (same p' t' refl)) ∙ h)

  receive-Over :
      (cs : List Bytes) (p : Parser) {s : Outcome (Session)} {q : Parser} {t : Outcome (Session)}
      → Over s
      → receive handle fuel cs (some (p, s)) ≡ some (q, t)
      → t ≡ s
  unfolding receive
  receive-Over [] p over e = cc (e)
  receive-Over (c ∷ cs) p {s} {q} {t} over e =
      receive_next-Over cs over (λ p' h. receive-Over cs p' over h)
        (answer_requests handle fuel (feed p c) s)
        (λ p' t' h. answer_requests-Over fuel (feed p c) over h) e

  after_chunk-receive :
      (cs : List Bytes) {rest : Parser → Session → Outcome Session} {q : Parser}
      {t : Outcome Session}
      → ((p : Parser) (r : Session)
          → receive handle fuel cs (some (p, returned r)) ≡ some (q, t)
          → rest p r ≡ t)
      → (x : Option (Parser × Outcome Session)) → receive handle fuel cs x ≡ some (q, t)
      → after_chunk net router deliver fuel rest x ≡ t
  unfolding after_chunk
  after_chunk-receive cs k none h = let no = receive-none cs in cc (no, h)
  after_chunk-receive cs k (some (p', returned r')) h = k p' r' h
  after_chunk-receive cs k (some (p', threw)) h = sym (receive-Over cs p' over_threw h)
  after_chunk-receive cs k (some (p', running)) h = sym (receive-Over cs p' over_running h)

  -- The loop over the reads is the loop over the chunks, and ends with the state.
  serve-receive :
      (cs : List Bytes) (p : Parser) (r : Session) {q : Parser} {t : Outcome (Session)}
      → receive handle fuel cs (some (p, returned r)) ≡ some (q, t)
      → serve net router deliver fuel (arriving cs (none ∷ [])) p r ≡ t
  unfolding serve receive
  serve-receive [] p r e = cc (e)
  serve-receive (c ∷ cs) p r e =
      after_chunk-receive cs (λ p' r' h. serve-receive cs p' r' h)
        (answer_requests handle fuel (feed p c) (returned r)) e

  -- What a request is answered with: PING at once, the others by the router's calls of the nodes.
  unfoldable pub reply_to : Command → Request → Session → Outcome (Response × Session)
  reply_to ping req r = returned (record { kind = ResponseType.pong; value = []; message = [] }, r)
  reply_to get req r = route_read net router.nodes fuel router.ring router.replication_factor req r
  reply_to set req r = route_write net router.nodes fuel router.ring router.replication_factor req r
  reply_to delete req r =
      route_write net router.nodes fuel router.ring router.replication_factor req r

  -- The response is delivered once, and the rest follows unless the client has gone away.
  abbrev pub then_go_on : (Session → Outcome Session) → Session → Bool × net.World → Outcome Session
  then_go_on rest r (true, w) = rest (record r { world = w })
  then_go_on rest r (false, w) = threw

  abbrev pub then_deliver :
      (Session → Outcome Session) → Outcome (Response × Session) → Outcome Session
  then_deliver rest (returned (resp, r)) =
      then_go_on rest r (deliver (encode_response resp) r.world)
  then_deliver rest threw = threw
  then_deliver rest running = running

  -- The requests, as their encodings carry them, are answered one after the other.
  unfoldable pub answer_each : List Request → Session → Outcome Session
  answer_each [] r = returned r
  answer_each (req ∷ rs) r =
      then_deliver (answer_each rs) (reply_to req.command (carried req.command req) r)

  handle_all-Over : (rs : List Request) {s : Outcome Session} → Over s → handle_all handle rs s ≡ s
  unfolding handle_all
  handle_all-Over [] over = refl
  handle_all-Over (req ∷ rs) over =
      ap (handle_all handle rs) (react-Over (request (carried req.command req)) over)
      ∙ handle_all-Over rs over

  module _ (rs : List Request)
      (ih : (r : Session) → handle_all handle rs (returned r) ≡ answer_each rs r) where
    handle_all-written :
        (r : Session) (x : Bool × net.World)
        → handle_all handle rs (written net router deliver fuel r x)
          ≡ then_go_on (answer_each rs) r x
    handle_all-written r (true, w) = ih (record r { world = w })
    handle_all-written r (false, w) = handle_all-Over rs over_threw

    handle_all-delivered :
        (x : Outcome (Response × Session))
        → handle_all handle rs
            (delivered net router deliver fuel (encoded net router deliver fuel x))
          ≡ then_deliver (answer_each rs) x
    handle_all-delivered (returned (resp, r)) =
        handle_all-written r (deliver (encode_response resp) r.world)
    handle_all-delivered threw = handle_all-Over rs over_threw
    handle_all-delivered running = handle_all-Over rs over_running

    handle_all-reply_to :
        (command : Command) (req : Request) (r : Session)
        → handle_all handle rs
            (delivered net router deliver fuel (route net router deliver fuel command req r))
          ≡ then_deliver (answer_each rs) (reply_to command req r)
    unfolding route reply_to encode_response
    handle_all-reply_to ping req r = handle_all-written r (deliver encode_pong_response r.world)
    handle_all-reply_to get req r = handle_all-delivered _
    handle_all-reply_to set req r = handle_all-delivered _
    handle_all-reply_to delete req r = handle_all-delivered _

  handle_all-answer_each :
      (rs : List Request) (r : Session) → handle_all handle rs (returned r) ≡ answer_each rs r
  unfolding handle_all answer_each react
  handle_all-answer_each [] r = refl
  handle_all-answer_each (req ∷ rs) r =
      handle_all-reply_to rs (λ r'. handle_all-answer_each rs r') (carried req.command req).command
        (carried req.command req) r
      ∙ ap (λ c. then_deliver (answer_each rs) (reply_to c (carried req.command req) r))
          (carried-command req.command req)
    where
      carried-command : (c : Command) (req : Request) → (carried c req).command ≡ c
      carried-command get req = refl
      carried-command set req = refl
      carried-command delete req = refl
      carried-command ping req = refl

  -- With more fuel than there are requests: for a client that sends requests that the server
  -- accepts, cut into chunks anywhere, and then closes, the session is the one in which each request
  -- in turn is answered once, a PING at once, a GET by a read and a SET or DELETE by a write of the
  -- router, and its response delivered to the client; it returns with the state behind the last, or
  -- ends as the first routing or delivery that throws or does not end.
  pub handle_client_stream :
      (cs : List Bytes) (rs : List Request) (alive : Alive) (w : net.World)
      → length rs < fuel
      → AllSendable rs
      → join cs ≡ encode_all rs
      → handle_client net router deliver fuel (arriving cs (none ∷ [])) alive w
        ≡ answer_each rs (record { alive = alive; conns = []; world = w })
  unfolding handle_client
  handle_client_stream cs rs alive w enough ok split =
      serve-receive cs _ _ (
        receive_stream handle fuel cs rs []
          (returned (record { alive = alive; conns = []; world = w })) enough ok split)
      ∙ handle_all-answer_each rs (record { alive = alive; conns = []; world = w })
