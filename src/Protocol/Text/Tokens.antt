-- ===== src/Protocol/Text/Tokens.antt =====
-- `split_spaces` and `strip_trailing_cr`.
use distributed_kv_store.Prelude.{
  ℕ, zero, suc, ◌≤◌, ◌<◌, ◌≡◌, ◌≢◌, refl, sym, ap, ◌∙◌, true, List, [], ◌∷◌, ◌++◌, append_assoc,
  append-nil, arith, Bytes, find?, find?-lt, find?-split, find?-Lacks, find?-first, find?-none,
  take, drop, length, length-drop, length-append, take-length, drop-suc-length, Lacks, All,
  All-append, Option-cases, inl, inr,
}
use distributed_kv_store.Protocol.Text.{
  space, cr, all_above_space, is_valid_key, split_from, split_spaces, strip_trailing_cr,
}

-- Every token behind a space.
spaced : List Bytes → Bytes
spaced [] = []
spaced (t ∷ ts) = (space ∷ t) ++ spaced ts

-- The tokens with a space between neighbours.
unfoldable pub join_spaces : List Bytes → Bytes
unfolding spaced
join_spaces [] = []
join_spaces (t ∷ ts) = t ++ spaced ts

split_from-last :
    (f : ℕ) (s : Bytes) (tokens : List Bytes)
    → Lacks space s
    → split_from (suc f) s tokens ≡ tokens ++ s ∷ []
unfolding split_from
split_from-last f s tokens h = rw (find?-Lacks space s h, split_from) refl

split_from-step :
    (f : ℕ) (s t : Bytes) (tokens : List Bytes)
    → Lacks space s
    → split_from (suc f) (s ++ space ∷ t) tokens ≡ split_from f t (tokens ++ s ∷ [])
unfolding split_from
split_from-step f s t tokens h =
    rw (find?-first space s t h, split_from, drop-suc-length s space t, take-length s (space ∷ t))
      refl

split_from-two :
    (f : ℕ) (s t : Bytes) (tokens : List Bytes)
    → 1 < f
    → Lacks space s
    → Lacks space t
    → split_from f (s ++ space ∷ t) tokens ≡ tokens ++ s ∷ t ∷ []
split_from-two zero s t tokens h hs ht = absurd (omega arith)
split_from-two (suc zero) s t tokens h hs ht = absurd (omega arith)
split_from-two (suc (suc f)) s t tokens h hs ht =
    split_from-step (suc f) s t tokens hs
    ∙ split_from-last f t (tokens ++ s ∷ []) ht
    ∙ append_assoc tokens (s ∷ []) (t ∷ [])

split_from-three :
    (f : ℕ) (s t u : Bytes) (tokens : List Bytes)
    → 2 < f
    → Lacks space s
    → Lacks space t
    → Lacks space u
    → split_from f (s ++ space ∷ (t ++ space ∷ u)) tokens ≡ tokens ++ s ∷ t ∷ u ∷ []
split_from-three zero s t u tokens h hs ht hu = absurd (omega arith)
split_from-three (suc f) s t u tokens h hs ht hu =
    split_from-step f s (t ++ space ∷ u) tokens hs
    ∙ split_from-two f t u (tokens ++ s ∷ []) (omega arith) ht hu
    ∙ append_assoc tokens (s ∷ []) (t ∷ u ∷ [])

-- A line of one, two or three tokens.
pub split_spaces-one : (s : Bytes) → Lacks space s → split_spaces s ≡ s ∷ []
unfolding split_spaces
split_spaces-one s h = split_from-last (length s) s [] h

pub split_spaces-two :
    (s t : Bytes)
    → s ≢ []
    → Lacks space s
    → Lacks space t
    → split_spaces (s ++ space ∷ t) ≡ s ∷ t ∷ []
unfolding split_spaces
split_spaces-two [] t ne hs ht = absurd (ne refl)
split_spaces-two (c ∷ s) t ne hs ht =
    split_from-two _ (c ∷ s) t [] (omega (arith, length-append {0} (c ∷ s) (space ∷ t))) hs ht

pub split_spaces-three :
    (s t u : Bytes)
    → Lacks space s
    → Lacks space t
    → Lacks space u
    → split_spaces (s ++ space ∷ (t ++ space ∷ u)) ≡ s ∷ t ∷ u ∷ []
unfolding split_spaces
split_spaces-three s t u hs ht hu =
    split_from-three _ s t u []
      (omega
        (arith, length-append {0} s (space ∷ (t ++ space ∷ u)), length-append {0} t (space ∷ u)))
      hs ht hu

spaced-append : (ts us : List Bytes) → spaced (ts ++ us) ≡ spaced ts ++ spaced us
unfolding spaced
spaced-append [] us = refl
spaced-append (t ∷ ts) us = rw (spaced-append ts us, append_assoc) refl

-- The tokens so far and the unread line spell the whole line.
spaced-split_from :
    (f : ℕ) (rest : Bytes) (tokens : List Bytes)
    → length rest < f
    → spaced (split_from f rest tokens) ≡ spaced tokens ++ space ∷ rest
unfolding split_from
spaced-split_from zero rest tokens h = absurd (omega arith)
spaced-split_from (suc f) rest tokens h = elim (Option-cases (find? space rest)) [
  | inl e ↦ rw (e, split_from, spaced-append) (unfold spaced in rw append-nil refl)
  | inr (n, e) ↦
      let (parts, _) = find?-split space rest n e in
      rw
        (
          e,
          split_from,
          spaced-split_from f (drop (suc n) rest) (tokens ++ take n rest ∷ [])
              (omega (arith, length-drop {0} (suc n) rest, find?-lt space rest n e)),
          spaced-append,
        )
        (unfold spaced in
          simp (append-nil, append_assoc) (ap (λ t. spaced tokens ++ space ∷ t) (sym parts)))
]

split_from-Lacks :
    (f : ℕ) (rest : Bytes) (tokens : List Bytes)
    → length rest < f
    → All (Lacks space) tokens
    → All (Lacks space) (split_from f rest tokens)
unfolding split_from
split_from-Lacks zero rest tokens h ht = absurd (omega arith)
split_from-Lacks (suc f) rest tokens h ht = elim (Option-cases (find? space rest)) [
  | inl e ↦
      rw (e, split_from)
        (All-append (Lacks space) tokens (rest ∷ []) ht (find?-none space rest e, tt))
  | inr (n, e) ↦
      let (_, lacks) = find?-split space rest n e in
      rw (e, split_from)
        (split_from-Lacks f (drop (suc n) rest) (tokens ++ take n rest ∷ [])
          (omega (arith, length-drop {0} (suc n) rest, find?-lt space rest n e))
          (All-append (Lacks space) tokens (take n rest ∷ []) ht (lacks, tt)))
]

spaced-join : (ts : List Bytes) → ts ≢ [] → spaced ts ≡ space ∷ join_spaces ts
unfolding join_spaces
spaced-join [] h = absurd (h refl)
spaced-join (t ∷ ts) h = refl

spaced-ne-nil : (ts : List Bytes) (t : Bytes) → spaced ts ≡ space ∷ t → ts ≢ []
unfolding spaced
spaced-ne-nil ts t h e = cc (h, ap spaced e)

-- The tokens of a line, joined by spaces, are the line, and no token holds a space.
pub join_spaces-split_spaces :
    (line : Bytes)
    → (join_spaces (split_spaces line) ≡ line) × All (Lacks space) (split_spaces line)
unfolding split_spaces
join_spaces-split_spaces line =
    let whole = spaced-split_from (suc (length line)) line [] (omega arith) in
    let spelled : spaced (split_from (suc (length line)) line []) ≡ space ∷ line =
      unfold spaced in whole in
    let same = spaced-join _ (spaced-ne-nil _ line spelled) in
    (cc (spelled, same), split_from-Lacks (suc (length line)) line [] (omega arith) tt)

all_above_space-Lacks : (c : ℕ) (s : Bytes) → c ≤ space → all_above_space s ≡ true → Lacks c s
unfolding all_above_space
all_above_space-Lacks c [] small h = tt
all_above_space-Lacks c (d ∷ s) small h = ground (arith, all_above_space-Lacks c s)

-- A valid key holds neither a space nor a line end.
pub is_valid_key-Lacks : (c : ℕ) (key : Bytes) → c ≤ space → is_valid_key key ≡ true → Lacks c key
is_valid_key-Lacks c [] small h = tt
is_valid_key-Lacks c (d ∷ key) small h =
    all_above_space-Lacks c (d ∷ key) small (unfold is_valid_key in ground arith)

-- A line that does not end in a carriage return is left as it is.
pub strip_trailing_cr-id :
    (s : Bytes) (c : ℕ) → c ≢ cr → strip_trailing_cr (s ++ c ∷ []) ≡ s ++ c ∷ []
unfolding strip_trailing_cr
strip_trailing_cr-id [] c h = ground arith
strip_trailing_cr-id (a ∷ []) c h = ground arith
strip_trailing_cr-id (a ∷ b ∷ s) c h = ap (λ r. a ∷ r) (strip_trailing_cr-id (b ∷ s) c h)

pub strip_trailing_cr-Lacks : (s : Bytes) → Lacks cr s → strip_trailing_cr s ≡ s
unfolding strip_trailing_cr
strip_trailing_cr-Lacks [] h = refl
strip_trailing_cr-Lacks (a ∷ []) h = ground arith
strip_trailing_cr-Lacks (a ∷ b ∷ s) h = ap (λ r. a ∷ r) (strip_trailing_cr-Lacks (b ∷ s) h.1)
