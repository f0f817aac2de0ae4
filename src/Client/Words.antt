-- ===== src/Client/Words.antt =====
-- The words of a line: the tokens that `split_whitespace` (client/main.cpp) makes of it, and of a value
-- that was joined from tokens.
use mathlib.Core.Path.{subst}
use distributed_kv_store.Prelude.{
  ◌≡◌, ◌≢◌, refl, sym, ap, ◌∙◌, false, List, [], ◌∷◌, ◌++◌, append_assoc, append-nil, inl, inr,
  codes, Bytes, All, All-append, Bool-cases, if◌then◌else◌,
}
use distributed_kv_store.Protocol.Text.{space}
use distributed_kv_store.Client.{is_space, join_value, push_token, split_from, split_whitespace}

-- A token is not empty and holds no white space.
pub record Token (t : Bytes) : Type 0 where
  pub filled : t ≢ []
  pub solid : All (λ c. is_space c ≡ false) t

push_token-Token :
    (t : Bytes) (ts : List Bytes)
    → All (λ c. is_space c ≡ false) t
    → All Token ts
    → All Token (push_token t ts)
push_token-Token [] ts h hs = hs
push_token-Token (c ∷ t) ts h hs = (record { filled = λ e. cc (e); solid = h }, hs)

split_from-Token :
    (t line : Bytes) → All (λ c. is_space c ≡ false) t → All Token (split_from t line)
unfolding split_from
split_from-Token t [] h = push_token-Token t [] h tt
split_from-Token t (c ∷ line) h = elim (Bool-cases (is_space c)) [
  | inl ends ↦
      subst
        (λ b.
          All Token
            (if b then push_token t (split_from [] line) else split_from (t ++ c ∷ []) line))
        (sym ends) (push_token-Token t (split_from [] line) h (split_from-Token [] line tt))
  | inr goes_on ↦
      subst
        (λ b.
          All Token
            (if b then push_token t (split_from [] line) else split_from (t ++ c ∷ []) line))
        (sym goes_on)
        (split_from-Token (t ++ c ∷ []) line
          (All-append (λ c. is_space c ≡ false) t (c ∷ []) h (goes_on, tt)))
]

-- The bytes of a line that are no white space, in order.
pub solid_bytes : Bytes → Bytes
solid_bytes [] = []
solid_bytes (c ∷ line) = let rest = solid_bytes line in if is_space c then rest else c ∷ rest

pub concat : List Bytes → Bytes
concat [] = []
concat (t ∷ ts) = t ++ concat ts

concat-push_token : (t : Bytes) (ts : List Bytes) → concat (push_token t ts) ≡ t ++ concat ts
unfolding concat
concat-push_token [] ts = refl
concat-push_token (c ∷ t) ts = refl

concat-split_from : (t line : Bytes) → concat (split_from t line) ≡ t ++ solid_bytes line
unfolding split_from concat solid_bytes
concat-split_from t [] = concat-push_token t []
concat-split_from t (c ∷ line) = elim (Bool-cases (is_space c)) [
  | inl ends ↦
      rw ends
        (concat-push_token t (split_from [] line) ∙ ap (λ u. t ++ u) (concat-split_from [] line))
  | inr goes_on ↦
      rw goes_on (concat-split_from (t ++ c ∷ []) line ∙ append_assoc t (c ∷ []) (solid_bytes line))
]

-- The tokens of a line are not empty and hold no white space, and joined they are the line without
-- its white space.
pub split_whitespace-tokens :
    (line : Bytes)
    → All Token (split_whitespace line) × (concat (split_whitespace line) ≡ solid_bytes line)
unfolding split_whitespace
split_whitespace-tokens line = (split_from-Token [] line tt, concat-split_from [] line)

-- The tokens of a value behind its first, each with the space before it.
unfoldable spaced : List Bytes → Bytes
spaced [] = []
spaced (t ∷ ts) = space ∷ (t ++ spaced ts)

join_value-spaced : (value : Bytes) (ts : List Bytes) → join_value value ts ≡ value ++ spaced ts
unfolding join_value spaced
join_value-spaced value [] = sym (append-nil value)
join_value-spaced value (t ∷ ts) =
    join_value-spaced ((value ++ codes " ") ++ t) ts
    ∙ append_assoc (value ++ codes " ") t (spaced ts)
    ∙ append_assoc value (codes " ") (t ++ spaced ts)

-- A token is read as a whole.
split_from-solid :
    (read t line : Bytes)
    → All (λ c. is_space c ≡ false) t
    → split_from read (t ++ line) ≡ split_from (read ++ t) line
unfolding split_from
split_from-solid read [] line h = ap (λ u. split_from u line) (sym (append-nil read))
split_from-solid read (c ∷ t) line (solid, h) = rw solid (
    split_from-solid (read ++ c ∷ []) t line h
    ∙ ap (λ u. split_from u line) (append_assoc read (c ∷ []) t))

push_token-filled : (t : Bytes) (ts : List Bytes) → t ≢ [] → push_token t ts ≡ t ∷ ts
push_token-filled [] ts ne = absurd (ne refl)
push_token-filled (c ∷ t) ts ne = refl

split_from-spaced :
    (t : Bytes) (ts : List Bytes) → Token t → All Token ts → split_from t (spaced ts) ≡ t ∷ ts
unfolding split_from spaced
split_from-spaced t [] h hs = push_token-filled t [] h.filled
split_from-spaced t (u ∷ ts) h (hu, hs) =
    push_token-filled t _ h.filled
    ∙ ap (λ us. t ∷ us) (split_from-solid [] u (spaced ts) hu.solid ∙ split_from-spaced u ts hu hs)

-- The value that a client joins from tokens splits into them again.
pub split_whitespace-join_value :
    (t : Bytes) (ts : List Bytes)
    → Token t
    → All Token ts
    → split_whitespace (join_value t ts) ≡ t ∷ ts
unfolding split_whitespace
split_whitespace-join_value t ts h hs =
    ap (split_from []) (join_value-spaced t ts)
    ∙ split_from-solid [] t (spaced ts) h.solid
    ∙ split_from-spaced t ts h hs
