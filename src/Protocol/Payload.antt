-- ===== src/Protocol/Payload.antt =====
-- A payload behind a terminated line, as SET requests and VALUE responses frame it: the facts that
-- both parsers need about the bytes of the buffer.
use distributed_kv_store.Prelude.{
  ℕ, suc, ◌+◌, ◌≤◌, ◌≡◌, sym, ap, ◌∙◌, false, ◌∷◌, ◌++◌, append_assoc, some, arith, Bytes, take,
  drop, length, take-append, drop-append, length-drop, length-append, get_elem?, get_elem?-append,
  get_elem?-length, take-length, drop-suc-length, ltb, ltb→le, le→ltb,
}
use distributed_kv_store.Protocol.Text.{lf}

-- A payload of `v` bytes and its terminator that are in the buffer stay what they are.
module _ (b more : Bytes) (start v : ℕ) (fits : ltb (length b) (start + v + 1) ≡ false) where
  pub payload-le : start + v + 1 ≤ length b
  payload-le = ltb→le _ _ fits

  pub payload_fits-append : ltb (length (b ++ more)) (start + v + 1) ≡ false
  payload_fits-append = le→ltb _ _ (omega (arith, payload-le, length-append {0} b more))

  pub payload_end-append : get_elem? (b ++ more) (start + v) ≡ get_elem? b (start + v)
  payload_end-append = get_elem?-append b more (start + v) (omega (arith, payload-le))

  pub payload-append : take v (drop start (b ++ more)) ≡ take v (drop start b)
  payload-append =
      ap (take v) (drop-append start b more (omega (arith, payload-le)))
      ∙ take-append v (drop start b) more (omega (arith, payload-le, length-drop {0} start b))

-- The buffer `line LF value LF rest`.
module _ (line value rest : Bytes) where
  abbrev pub framed : Bytes
  framed = line ++ lf ∷ (value ++ lf ∷ rest)

  framed_split : framed ≡ (line ++ lf ∷ value) ++ lf ∷ rest
  framed_split = sym (append_assoc line (lf ∷ value) (lf ∷ rest))

  value_end : suc (length line) + length value ≡ length (line ++ lf ∷ value)
  value_end = omega (arith, length-append {0} line (lf ∷ value))

  pub framed_fits : ltb (length framed) (suc (length line) + length value + 1) ≡ false
  framed_fits = le→ltb _ _ (
      omega (
        arith,
        length-append {0} line (lf ∷ (value ++ lf ∷ rest)),
        length-append {0} value (lf ∷ rest),
      ))

  pub framed_end : get_elem? framed (suc (length line) + length value) ≡ some lf
  framed_end = rw (value_end, framed_split) (get_elem?-length (line ++ lf ∷ value) lf rest)

  pub framed_value : take (length value) (drop (suc (length line)) framed) ≡ value
  framed_value = rw (drop-suc-length line lf (value ++ lf ∷ rest)) (take-length value (lf ∷ rest))

  pub framed_rest : drop (suc (length line) + length value + 1) framed ≡ rest
  framed_rest =
      let e : suc (length line) + length value + 1 ≡ suc (length (line ++ lf ∷ value)) =
        omega (arith, value_end) in
      rw (e, framed_split) (drop-suc-length (line ++ lf ∷ value) lf rest)
