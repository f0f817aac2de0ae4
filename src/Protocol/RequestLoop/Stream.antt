-- ===== src/Protocol/RequestLoop/Stream.antt =====
-- A client's requests, sent one behind the other, through any segmentation of the byte stream.
use distributed_kv_store.Prelude.{
  ℕ, zero, suc, ◌<◌, ◌≤◌, ◌≡◌, refl, sym, ap, ◌∙◌, List, [], ◌∷◌, ◌++◌, append_assoc, append-nil,
  Option, none, some, inl, inr, arith, Bytes, length, All, find?-Lacks,
}
use distributed_kv_store.Protocol.Messages.{Request, Parser, incomplete, complete}
use distributed_kv_store.Protocol.Text.{lf}
use distributed_kv_store.Protocol.Encode.{encode_request}
use distributed_kv_store.Protocol.RequestParser.{feed, try_parse_request}
use distributed_kv_store.Protocol.RequestParser.Progress.{try_parse_request-unterminated}
use distributed_kv_store.Protocol.RequestParser.RoundTrip.{
  Sendable, carried, try_parse_request-encode_request,
}
use distributed_kv_store.Protocol.RequestParser.Prefix.{try_parse_request_prefix}
use distributed_kv_store.Protocol.RequestLoop.Chunks.{answer_requests-incomplete}
use distributed_kv_store.Protocol.RequestLoop.{Event, request, answer, answer_requests}

abbrev pub AllSendable : List Request → Type 0
AllSendable = All (λ r. Sendable r.command r)

unfoldable pub encode_all : List Request → Bytes
encode_all [] = []
encode_all (r ∷ rs) = encode_request r ++ encode_all rs

abbrev pub join : List Bytes → Bytes
join [] = []
join (c ∷ cs) = c ++ join cs

append-eq-nil : (b more : Bytes) → b ++ more ≡ [] → b ≡ []
append-eq-nil [] more h = refl
append-eq-nil (c ∷ b) more h = cc

-- An empty buffer holds no request.
empty_incomplete :
    (b more e : Bytes)
    → b ++ more ≡ encode_all []
    → try_parse_request (record { buffer = b; error_message = e })
      ≡ (incomplete, record { buffer = b; error_message = e })
unfolding encode_all
empty_incomplete b more e h = rw (append-eq-nil b more h) (
    try_parse_request-unterminated (record { buffer = []; error_message = e })
      (find?-Lacks lf [] tt) (omega arith))

encode_all-nil : encode_all [] ≡ []
unfolding encode_all
encode_all-nil = refl

-- No bytes, no request.
no_requests : (rs : List Request) → AllSendable rs → encode_all rs ≡ [] → rs ≡ []
unfolding encode_all
no_requests [] ok h = refl
no_requests (r ∷ rs) ok h =
    let none_yet =
      ap (λ x. try_parse_request (record { buffer = x; error_message = [] })) h
      ∙ empty_incomplete [] [] [] refl in
    cc (none_yet, try_parse_request-encode_request r (encode_all rs) [] ok.0)

-- With the whole stream there, a parse is incomplete only if there is no request.
nothing_left :
    (rs : List Request) (b more e : Bytes)
    → AllSendable rs
    → b ++ more ≡ encode_all rs
    → try_parse_request (record { buffer = b; error_message = e })
      ≡ (incomplete, record { buffer = b; error_message = e })
    → more ≡ []
    → rs ≡ []
unfolding encode_all
nothing_left [] b more e ok split none_yet done = refl
nothing_left (r ∷ rs) b more e ok split none_yet done =
    let whole : b ≡ encode_request r ++ encode_all rs =
      sym (append-nil b) ∙ ap (λ m. b ++ m) (sym done) ∙ split in
    let parsed =
      ap (λ x. try_parse_request (record { buffer = x; error_message = e })) whole
      ∙ try_parse_request-encode_request r (encode_all rs) e ok.0 in
    cc (parsed, none_yet)

module _ {ℓ} {S : Type ℓ} (handle : Event → S → S) where
  -- Each request handled once, in order.
  unfoldable pub handle_all : List Request → S → S
  handle_all [] s = s
  handle_all (r ∷ rs) s = handle_all rs (handle (request (carried r.command r)) s)

  -- One chunk after the other is fed, and what the buffer holds is answered.
  unfoldable pub receive : ℕ → List Bytes → Option (Parser × S) → Option (Parser × S)
  receive fuel [] state = state
  receive fuel (c ∷ cs) none = none
  receive fuel (c ∷ cs) (some (p, s)) = receive fuel cs (answer_requests handle fuel (feed p c) s)

  -- The loop on a part of the stream: it has handled some requests, and what is left of the buffer
  -- and of the stream are the others. With the whole stream there, none is left.
  record Served (rs : List Request) (more e : Bytes) (s : S) (r : Option (Parser × S))
      : Type ℓ where
    left : List Request
    buffer : Bytes
    state : S
    ended : r ≡ some (record { buffer = buffer; error_message = e }, state)
    sendable : AllSendable left
    split : buffer ++ more ≡ encode_all left
    fewer : length left ≤ length rs
    same : handle_all rs s ≡ handle_all left state
    all : more ≡ [] → left ≡ []

  stays :
      (fuel : ℕ) (rs : List Request) (b more e : Bytes) (s : S)
      → AllSendable rs
      → b ++ more ≡ encode_all rs
      → try_parse_request (record { buffer = b; error_message = e })
        ≡ (incomplete, record { buffer = b; error_message = e })
      → Served rs more e s
          (answer_requests handle (suc fuel) (record { buffer = b; error_message = e }) s)
  stays fuel rs b more e s ok split none_yet = record {
    left = rs;
    buffer = b;
    state = s;
    ended = answer_requests-incomplete handle fuel _ s none_yet;
    sendable = ok;
    split = split;
    fewer = omega arith;
    same = refl;
    all = λ done. nothing_left rs b more e ok split none_yet done;
  }

  goes_on :
      (fuel : ℕ) (r : Request) (rs : List Request) (b b' more e : Bytes) (s : S)
      → try_parse_request (record { buffer = b; error_message = e })
        ≡ (complete (carried r.command r), record { buffer = b'; error_message = e })
      → Served rs more e (handle (request (carried r.command r)) s) (
          answer_requests handle fuel
            (record { buffer = b'; error_message = e })
            (handle (request (carried r.command r)) s))
      → Served
          (r ∷ rs)
          more
          e
          s
          (answer_requests handle (suc fuel) (record { buffer = b; error_message = e }) s)
  unfolding handle_all answer_requests answer
  goes_on fuel r rs b b' more e s parsed v = record {
    left = v.left;
    buffer = v.buffer;
    state = v.state;
    ended = rw parsed v.ended;
    sendable = v.sendable;
    split = v.split;
    fewer = omega (arith, v.fewer);
    same = v.same;
    all = v.all;
  }

  answer_requests-Served :
      (fuel : ℕ) (rs : List Request) (b more e : Bytes) (s : S)
      → length rs < fuel
      → AllSendable rs
      → b ++ more ≡ encode_all rs
      → Served rs more e s
          (answer_requests handle fuel (record { buffer = b; error_message = e }) s)
  unfolding encode_all
  answer_requests-Served zero rs b more e s enough ok split = absurd (omega arith)
  answer_requests-Served (suc fuel) [] b more e s enough ok split =
      stays fuel [] b more e s ok split (empty_incomplete b more e split)
  answer_requests-Served (suc fuel) (r ∷ rs) b more e s enough ok split =
      elim (try_parse_request_prefix r b more (encode_all rs) e ok.0 split) [
        | inl none_yet ↦ stays fuel (r ∷ rs) b more e s ok split none_yet
        | inr (b', parsed, split') ↦
            goes_on fuel r rs b b' more e s parsed
              (answer_requests-Served fuel rs b' more e _ (omega arith) ok.1 split')
      ]

  receive-Served :
      (fuel : ℕ) (cs : List Bytes) (rs : List Request) (b e : Bytes) (s : S)
      → length rs < fuel
      → AllSendable rs
      → b ++ join cs ≡ encode_all rs
      → (join cs ≡ [] → rs ≡ [])
      → receive fuel cs (some (record { buffer = b; error_message = e }, s))
        ≡ some (record { buffer = []; error_message = e }, handle_all rs s)
  unfolding receive
  receive-Served fuel [] rs b e s enough ok split done =
      rw (done refl, append-eq-nil b [] (split ∙ ap encode_all (done refl) ∙ encode_all-nil))
        (unfold handle_all in refl)
  receive-Served fuel (c ∷ cs) rs b e s enough ok split done =
      let v =
        answer_requests-Served fuel rs (b ++ c) (join cs) e s enough ok
          (append_assoc b c (join cs) ∙ split) in
      rw (v.ended, v.same)
        (receive-Served fuel cs v.left v.buffer e v.state (omega (arith, v.fewer)) v.sendable
          v.split v.all)

  -- With more fuel than there are requests: however the encodings of requests that the server
  -- accepts are cut into chunks, the requests are handled once each and in order, and the buffer is
  -- empty in the end.
  pub receive_stream :
      (fuel : ℕ) (cs : List Bytes) (rs : List Request) (e : Bytes) (s : S)
      → length rs < fuel
      → AllSendable rs
      → join cs ≡ encode_all rs
      → receive fuel cs (some (record { buffer = []; error_message = e }, s))
        ≡ some (record { buffer = []; error_message = e }, handle_all rs s)
  receive_stream fuel cs rs e s enough ok split =
      receive-Served fuel cs rs [] e s enough ok split
        λ none_there. no_requests rs ok (sym split ∙ none_there)
