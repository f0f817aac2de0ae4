-- ===== src/HashRing/Walk.antt =====
-- The walk of `get_nodes` ends after at most two passes, with what the passes collect.
use distributed_kv_store.Prelude.{
  ℕ, zero, suc, ◌+◌, ◌<◌, ◌≤◌, ◌≡◌, refl, sym, ◌∙◌, List, [], ◌∷◌, inl, inr, arith, Bytes, ltb,
  ltb→le, length, Bool-cases,
}
use distributed_kv_store.HashRing.{Ring, push_new, Outcome, returned, visit, walk, wrap}
use distributed_kv_store.HashRing.Collect.{collect, collect_full, collect-nil, collect_more}

visit_mono :
    (rest more : Ring → List Bytes → Outcome (List Bytes)) (result y : List Bytes)
    → ((it : Ring) (r : List Bytes) → rest it r ≡ returned y → more it r ≡ returned y)
    → (it : Ring) → visit rest result it ≡ returned y
    → visit more result it ≡ returned y
unfolding visit
visit_mono rest more result y h [] e = cc
visit_mono rest more result y h ((q, o) ∷ it) e = h it _ e

wrap_self : (ring : Ring) → wrap ring ring ≡ ring
wrap_self [] = refl
wrap_self (e ∷ r) = refl

module _ (ring : Ring) (count : ℕ) where
  walk_mono :
      (f g : ℕ) (it : Ring) (result y : List Bytes)
      → f ≤ g
      → walk f ring count it result ≡ returned y
      → walk g ring count it result ≡ returned y
  unfolding walk
  walk_mono zero g it result y le h = cc
  walk_mono (suc f) zero it result y le h = absurd (omega arith)
  walk_mono (suc f) (suc g) it result y le h = elim (Bool-cases (ltb (length result) count)) [
    | inl more ↦ rw more (
        visit_mono (walk f ring count) (walk g ring count) result y
          (λ it' r e. walk_mono f g it' r y (omega arith) e) (wrap ring it) (rw more at h))
    | inr full ↦ rw full (rw full at h)
  ]

  walk_full :
      (f : ℕ) (it : Ring) (result : List Bytes)
      → count ≤ length result
      → walk (suc f) ring count it result ≡ returned result
  unfolding walk
  walk_full f it result h = ground arith

  walk_full_any :
      (f : ℕ) (it it' : Ring) (result y : List Bytes)
      → count ≤ length result
      → walk f ring count it result ≡ returned y
      → walk f ring count it' result ≡ returned y
  walk_full_any zero it it' result y le h = unfold walk in h
  walk_full_any (suc f) it it' result y le h =
      walk_full f it' result le ∙ sym (walk_full f it result le) ∙ h

  -- One pass over the rest of the entries.
  walk_pass :
      (it : Ring) (f g : ℕ) (result y : List Bytes)
      → g + length it ≤ f
      → walk g ring count [] (collect count result it) ≡ returned y
      → walk f ring count it result ≡ returned y
  unfolding walk visit
  walk_pass [] f g result y le h =
      walk_mono g f [] result y (omega arith) (rw (collect-nil count result) at h)
  walk_pass ((q, o) ∷ it) zero g result y le h = absurd (omega arith)
  walk_pass ((q, o) ∷ it) (suc f) g result y le h = elim (Bool-cases (ltb (length result) count)) [
    | inl more ↦ rw more (
        walk_pass it f g (push_new result o) y (omega arith)
          (rw (collect_more count result q o it more) at h))
    | inr full ↦
        let le' : count ≤ length result = ltb→le _ _ full in
        walk_mono g (suc f) ((q, o) ∷ it) result y (omega arith) (
          walk_full_any g [] ((q, o) ∷ it) result y le'
            (rw (collect_full count result ((q, o) ∷ it) le') at h))
  ]

  -- At the end of the entries the walk goes on from the first.
  walk_wraps :
      (f : ℕ) (result : List Bytes) → walk f ring count [] result ≡ walk f ring count ring result
  unfolding walk
  walk_wraps zero result = refl
  walk_wraps (suc f) result = rw (wrap_self ring) refl

  -- The walk returns what a pass over the rest of the entries and one over all of them collect, if
  -- that is enough, and its fuel covers both.
  pub walk-collect :
      (f : ℕ) (it : Ring)
      → length ring + length it < f
      → count ≤ length (collect count (collect count [] it) ring)
      → walk f ring count it [] ≡ returned (collect count (collect count [] it) ring)
  walk-collect f it fuel enough =
      let all = collect count (collect count [] it) ring in
      walk_pass it f (1 + length ring) [] all (omega arith) (
        walk_wraps (1 + length ring) (collect count [] it)
        ∙ walk_pass ring (1 + length ring) 1 (collect count [] it) all (omega arith)
            (walk_full 0 [] all enough))
