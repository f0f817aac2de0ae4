-- ===== src/Protocol/RequestLoop/Termination.antt =====
-- When the loop ends: exactly while the unterminated end of the buffer is no overlong line.
use distributed_kv_store.Prelude.{
  ℕ, zero, suc, ◌<◌, ◌≤◌, ◌≡◌, refl, [], ◌∷◌, Option, none, some, ◌⊎◌, inl, inr, arith, Bytes,
  codes, find?, drop, length, length-drop, Option-cases,
}
use distributed_kv_store.Protocol.Messages.{
  Request, Parser, ParseStatus, incomplete, complete, error,
}
use distributed_kv_store.Protocol.Text.{lf}
use distributed_kv_store.Protocol.RequestParser.{max_command_line_len, try_parse_request}
use distributed_kv_store.Protocol.RequestParser.Progress.{
  Consumed, try_parse_request-Progress, try_parse_request-overlong, try_parse_request-unterminated,
}
use distributed_kv_store.Protocol.RequestLoop.{Event, request, failure, answer, answer_requests}

-- The number of bytes behind the last line feed.
unfoldable pub unterminated : Bytes → ℕ
unterminated [] = 0
unterminated (c ∷ s) = elim (find? lf (c ∷ s)) [ none ↦ suc (length s) | some n ↦ unterminated s ]

unterminated-none : (s : Bytes) → find? lf s ≡ none → unterminated s ≡ length s
unfolding unterminated
unterminated-none [] h = refl
unterminated-none (c ∷ s) h = rw (h, unterminated) refl

unterminated-le_tail : (c : ℕ) (s : Bytes) → unterminated s ≤ unterminated (c ∷ s)
unfolding unterminated find?
unterminated-le_tail c s = ground (arith, unterminated-none s)

unterminated-drop : (n : ℕ) (s : Bytes) → unterminated (drop n s) ≤ unterminated s
unterminated-drop zero s = omega arith
unterminated-drop (suc n) [] = omega arith
unterminated-drop (suc n) (c ∷ s) = omega (arith, unterminated-drop n s, unterminated-le_tail c s)

-- Without an overlong unterminated line a parse is incomplete or consumes bytes.
pub try_parse_request-steps :
    (p : Parser)
    → unterminated p.buffer ≤ max_command_line_len
    → (try_parse_request p ≡ (incomplete, p)) ⊎ Consumed p (try_parse_request p)
try_parse_request-steps p h = elim (Option-cases (find? lf p.buffer)) [
  | inl e ↦
      inl (try_parse_request-unterminated p e (omega (arith, h, unterminated-none p.buffer e)))
  | inr (n, e) ↦ try_parse_request-Progress p e
]

module _ {ℓ} {S : Type ℓ} (handle : Event → S → S) where
  answer-total :
      (rest : Parser → S → Option (Parser × S)) (r : ParseStatus Request × Parser) (s : S)
      → ((s' : S) → (x : Parser × S) × (rest r.1 s' ≡ some x))
      → (x : Parser × S) × (answer handle rest r s ≡ some x)
  unfolding answer
  answer-total rest (incomplete, p) s h = ((p, s), refl)
  answer-total rest (complete req, p) s h = h (handle (request req) s)
  answer-total rest (error, p) s h = h (handle (failure p.error_message) s)

  -- With more fuel than the buffer has bytes, and at most 265 bytes behind its last line feed, the
  -- loop ends.
  pub answer_requests-total :
      (f : ℕ) (p : Parser) (s : S)
      → length p.buffer < f
      → unterminated p.buffer ≤ max_command_line_len
      → (x : Parser × S) × (answer_requests handle f p s ≡ some x)
  unfolding answer_requests
  answer_requests-total zero p s h short = absurd (omega arith)
  answer_requests-total (suc f) p s h short = elim (try_parse_request-steps p short) [
    | inl e ↦ ((p, s), unfold answer in rw e refl)
    | inr c ↦ answer-total (answer_requests handle f) (try_parse_request p) s λ s'.
        answer_requests-total f (try_parse_request p).1 s'
          (rw c.rest (omega (arith, length-drop {0} (suc c.count) p.buffer, c.within)))
          (rw c.rest (omega (arith, unterminated-drop (suc c.count) p.buffer)))
  ]

  -- A buffer of more than 265 bytes with no line feed keeps the loop going, whatever the fuel.
  pub answer_requests-stuck :
      (f : ℕ) (p : Parser) (s : S)
      → find? lf p.buffer ≡ none
      → max_command_line_len < length p.buffer
      → answer_requests handle f p s ≡ none
  unfolding answer_requests answer
  answer_requests-stuck zero p s e h = refl
  answer_requests-stuck (suc f) p s e h =
      rw (try_parse_request-overlong p e h)
        (answer_requests-stuck f _ (handle (failure (codes "command line too long")) s) e h)
