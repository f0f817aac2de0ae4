-- ===== src/Protocol/RequestLoop/Chunks.antt =====
-- The loop over a byte stream that arrives in pieces.
use mathlib.Core.Path.{subst}
use mathlib.Core.Option.{some-injective}
use distributed_kv_store.Prelude.{
  ℕ, zero, suc, ◌+◌, ◌≤◌, ◌≡◌, ◌≢◌, refl, sym, ◌∙◌, Option, some, inl, inr, arith, Bytes, find?,
  length, Option-cases, ltb, Bool-cases, ltb→lt, ltb→le,
}
use distributed_kv_store.Protocol.Messages.{
  Request, Parser, ParseStatus, incomplete, complete, error,
}
use distributed_kv_store.Protocol.Text.{lf}
use distributed_kv_store.Protocol.RequestParser.{max_command_line_len, feed, try_parse_request}
use distributed_kv_store.Protocol.RequestParser.Progress.{
  try_parse_request-Progress, try_parse_request-unterminated,
}
use distributed_kv_store.Protocol.RequestParser.Segmentation.{fed, try_parse_request-feed}
use distributed_kv_store.Protocol.RequestLoop.{Event, answer, answer_requests}
use distributed_kv_store.Protocol.RequestLoop.Termination.{answer_requests-stuck}

module _ {ℓ} {S : Type ℓ} (handle : Event → S → S) where
  answer_mono :
      (rest more : Parser → S → Option (Parser × S))
      → ((p : Parser) (s : S) (x : Parser × S) → rest p s ≡ some x → more p s ≡ some x)
      → (r : ParseStatus Request × Parser) (s : S) (x : Parser × S)
      → answer handle rest r s ≡ some x
      → answer handle more r s ≡ some x
  unfolding answer
  answer_mono rest more h (incomplete, p) s x e = e
  answer_mono rest more h (complete req, p) s x e = h p _ x e
  answer_mono rest more h (error, p) s x e = h p _ x e

  -- More fuel does not change the result.
  pub answer_requests_mono :
      (f g : ℕ) (p : Parser) (s : S) (x : Parser × S)
      → f ≤ g
      → answer_requests handle f p s ≡ some x
      → answer_requests handle g p s ≡ some x
  unfolding answer_requests
  answer_requests_mono zero g p s x le e = cc
  answer_requests_mono (suc f) zero p s x le e = absurd (omega arith)
  answer_requests_mono (suc f) (suc g) p s x le e =
      answer_mono (answer_requests handle f) (answer_requests handle g)
        (λ p' s' x' e'. answer_requests_mono f g p' s' x' (omega arith) e') (try_parse_request p) s
        x e

  -- The rounds of a decided parse, before and after more bytes.
  answer-feed :
      (more : Bytes) (rest all : Parser → S → Option (Parser × S)) (x y : Parser × S)
      → ((p : Parser) (s : S) → rest p s ≡ some x → all (feed p more) s ≡ some y)
      → (r : ParseStatus Request × Parser) (s : S) → r.0 ≢ incomplete
      → answer handle rest r s ≡ some x
      → answer handle all (fed more r) s ≡ some y
  unfolding answer
  answer-feed more rest all x y h (incomplete, p) s d e = absurd (d refl)
  answer-feed more rest all x y h (complete req, p) s d e = h p _ e
  answer-feed more rest all x y h (error, p) s d e = h p _ e

  pub answer_requests-incomplete :
      (f : ℕ) (p : Parser) (s : S)
      → try_parse_request p ≡ (incomplete, p)
      → answer_requests handle (suc f) p s ≡ some (p, s)
  unfolding answer_requests answer
  answer_requests-incomplete f p s e = rw e refl

  -- Nothing was decided yet: the loop starts over once the bytes are there.
  resume :
      (more : Bytes) (f g k : ℕ) (p q : Parser) (s t : S) (y : Parser × S)
      → g ≤ k
      → try_parse_request p ≡ (incomplete, p)
      → answer_requests handle (suc f) p s ≡ some (q, t)
      → answer_requests handle g (feed q more) t ≡ some y
      → answer_requests handle k (feed p more) s ≡ some y
  resume more f g k p q s t y le none_yet e e' =
      let same = some-injective _ _ (sym (answer_requests-incomplete f p s none_yet) ∙ e) in
      answer_requests_mono g k (feed p more) s y le (
        subst (λ (x : Parser × S). answer_requests handle g (feed x.0 more) x.1 ≡ some y) (sym same)
          e')

  -- If the loop ends on what the buffer holds, and ends again once more bytes have arrived, then
  -- with the fuel of both it ends with the same parser and state where all the bytes were there
  -- from the start.
  pub answer_requests-feed :
      (more : Bytes) (f g k : ℕ) (p q : Parser) (s t : S) (y : Parser × S)
      → f + g ≤ k
      → answer_requests handle f p s ≡ some (q, t)
      → answer_requests handle g (feed q more) t ≡ some y
      → answer_requests handle k (feed p more) s ≡ some y
  unfolding answer_requests
  answer_requests-feed more zero g k p q s t y le e e' = cc
  answer_requests-feed more (suc f) g zero p q s t y le e e' = absurd (omega arith)
  answer_requests-feed more (suc f) g (suc k) p q s t y le e e' =
      elim (Option-cases (find? lf p.buffer)) [
        | inl none_there ↦ elim (Bool-cases (ltb max_command_line_len (length p.buffer))) [
          | inl long ↦ cc (answer_requests-stuck handle (suc f) p s none_there (ltb→lt _ _ long), e)
          | inr short ↦
              resume more f g (suc k) p q s t y (omega arith)
                (try_parse_request-unterminated p none_there (ltb→le _ _ short)) e e'
        ]
        | inr (n, there) ↦ elim (try_parse_request-Progress p there) [
          | inl none_yet ↦ resume more f g (suc k) p q s t y (omega arith) none_yet e e'
          | inr c ↦ rw (try_parse_request-feed p more there c.decided) (
              answer-feed more (answer_requests handle f) (answer_requests handle k) (q, t) y
                (λ p' s' r. answer_requests-feed more f g k p' q s' t y (omega arith) r e')
                (try_parse_request p) s c.decided e)
        ]
      ]
