-- ===== src/KvStore/Keys.antt =====
-- A list of keys, each once: what SET and DELETE do to the keys of a store.
use distributed_kv_store.Prelude.{
  ℕ, ◌+◌, ◌≡◌, refl, sym, ap, ◌∙◌, Bool, true, false, List, [], ◌∷◌, inl, inr, arith, Bytes,
  eq_bytes, eq_bytes_iff, length, Bool-cases, if◌then◌else◌,
}
use distributed_kv_store.HashRing.{contains}
use distributed_kv_store.HashRing.Distinct.{Distinct}

-- One that is set joins them unless it is there.
abbrev pub with_key : Bytes → List Bytes → List Bytes
with_key key ks = if contains ks key then ks else key ∷ ks

-- One that is removed leaves them.
unfoldable pub without : Bytes → List Bytes → List Bytes
without key [] = []
without key (k ∷ ks) = if eq_bytes k key then ks else k ∷ without key ks

abbrev pub one_if : Bool → ℕ
one_if true = 1
one_if false = 0

pub contains-without :
    (key j : Bytes) (ks : List Bytes)
    → Distinct ks
    → contains (without key ks) j ≡ (if eq_bytes key j then false else contains ks j)
unfolding contains without
contains-without key j [] d = ground arith
contains-without key j (k ∷ ks) d = elim (Bool-cases (eq_bytes k key)) [
  | inl same ↦
      let e : k ≡ key = (eq_bytes_iff k key).0 same in
      rw same (elim (Bool-cases (eq_bytes key j)) [
        | inl e' ↦
            let e'' : k ≡ j = e ∙ (eq_bytes_iff key j).0 e' in
            rw e' (ap (contains ks) (sym e'') ∙ d.0)
        | inr ne ↦ let ne' : eq_bytes k j ≡ false = rw (sym e) at ne in rw (ne, ne') refl
      ])
  | inr other ↦ rw other (
      ground (
        arith,
        contains-without key j ks d.1,
        eq_bytes_iff k key,
        eq_bytes_iff k j,
        eq_bytes_iff key j,
      ))
]

pub without-Distinct : (key : Bytes) (ks : List Bytes) → Distinct ks → Distinct (without key ks)
unfolding without
without-Distinct key [] d = tt
without-Distinct key (k ∷ ks) d = elim (Bool-cases (eq_bytes k key)) [
  | inl same ↦ rw same d.1
  | inr other ↦
      rw other (ground (arith, contains-without key k ks d.1, d.0), without-Distinct key ks d.1)
]

pub length-without :
    (key : Bytes) (ks : List Bytes) → length (without key ks) + one_if (contains ks key) ≡ length ks
unfolding without contains
length-without key [] = omega arith
length-without key (k ∷ ks) = ground (arith, length-without key ks)

pub contains-with_key :
    (key j : Bytes) (ks : List Bytes)
    → contains (with_key key ks) j ≡ (if eq_bytes key j then true else contains ks j)
unfolding contains
contains-with_key key j ks = elim (Bool-cases (contains ks key)) [
  | inl old ↦ rw old (elim (Bool-cases (eq_bytes key j)) [
    | inl same ↦ rw same (ap (contains ks) (sym ((eq_bytes_iff key j).0 same)) ∙ old)
    | inr other ↦ rw other refl
  ])
  | inr new ↦ rw new (ground arith)
]
