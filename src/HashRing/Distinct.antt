-- ===== src/HashRing/Distinct.antt =====
-- Lists of nodes with no repetition, and how `get_nodes` extends one.
use distributed_kv_store.Prelude.{
  suc, ◌+◌, ◌≤◌, ◌≡◌, refl, ap, true, false, ◌||◌, List, [], ◌∷◌, ◌++◌, inl, inr, arith, Bytes,
  eq_bytes, eq_bytes_iff, length, length-append, if◌then◌else◌, Bool-cases,
}
use distributed_kv_store.HashRing.{contains, push_new}

-- No node stands twice in the list.
abbrev pub Distinct : List Bytes → Type 0
Distinct [] = Unit
Distinct (n ∷ ns) = (contains ns n ≡ false) × Distinct ns

pub contains-append :
    (xs ys : List Bytes) (id : Bytes) → contains (xs ++ ys) id ≡ (contains xs id || contains ys id)
unfolding contains
contains-append [] ys id = refl
contains-append (x ∷ xs) ys id = ground (arith, contains-append xs ys id)

pub Distinct-concat :
    (xs : List Bytes) (id : Bytes) → Distinct xs → contains xs id ≡ false → Distinct (xs ++ id ∷ [])
unfolding contains
Distinct-concat [] id d h = (refl, tt)
Distinct-concat (x ∷ xs) id d h = ground (
  arith,
  Distinct-concat xs id d.1,
  contains-append xs (id ∷ []) x,
  eq_bytes_iff id x,
  eq_bytes_iff x id,
)

pub push_new-Distinct : (xs : List Bytes) (id : Bytes) → Distinct xs → Distinct (push_new xs id)
push_new-Distinct xs id d = elim (Bool-cases (contains xs id)) [
  | inl there ↦ rw there d
  | inr fresh ↦ rw fresh (Distinct-concat xs id d fresh)
]

pub contains-push_new : (xs : List Bytes) (id : Bytes) → contains (push_new xs id) id ≡ true
unfolding contains
contains-push_new xs id = ground (arith, contains-append xs (id ∷ []) id, eq_bytes_iff id id)

pub push_new-keeps :
    (xs : List Bytes) (id j : Bytes) → contains xs j ≡ true → contains (push_new xs id) j ≡ true
push_new-keeps xs id j h = ground (arith, contains-append xs (id ∷ []) j)

pub length-push_new :
    (xs : List Bytes) (id : Bytes)
    → (length xs ≤ length (push_new xs id)) × (length (push_new xs id) ≤ length xs + 1)
length-push_new xs id = ground (arith, length-append {0} xs (id ∷ []))

-- Without one occurrence of a node.
without : Bytes → List Bytes → List Bytes
without id [] = []
without id (x ∷ xs) = if eq_bytes x id then xs else x ∷ without id xs

length-without :
    (id : Bytes) (xs : List Bytes)
    → contains xs id ≡ true
    → suc (length (without id xs)) ≡ length xs
unfolding without contains
length-without id [] h = cc
length-without id (x ∷ xs) h = ground (arith, length-without id xs)

contains-without :
    (id j : Bytes) (xs : List Bytes)
    → eq_bytes id j ≡ false
    → contains xs j ≡ true
    → contains (without id xs) j ≡ true
unfolding without contains
contains-without id j [] ne h = h
contains-without id j (x ∷ xs) ne h =
    ground (arith, contains-without id j xs, eq_bytes_iff x id, eq_bytes_iff x j, eq_bytes_iff id j)

distinct_ne :
    (n id : Bytes) (ns : List Bytes)
    → contains ns n ≡ false
    → contains ns id ≡ true
    → eq_bytes n id ≡ false
distinct_ne n id ns fresh held = elim (Bool-cases (eq_bytes n id)) [
  | inr e ↦ e
  | inl e ↦
      let same : contains ns n ≡ contains ns id = ap (contains ns) ((eq_bytes_iff n id).0 e) in cc
]

-- A list with no repetition is at most as long as one that holds all of it.
pub length-le_of_contains :
    (ns xs : List Bytes)
    → Distinct ns
    → ((id : Bytes) → contains ns id ≡ true → contains xs id ≡ true)
    → length ns ≤ length xs
length-le_of_contains [] xs d h = omega arith
length-le_of_contains (n ∷ ns) xs d h =
    let here : contains xs n ≡ true =
      h n (unfold contains in rw ((eq_bytes_iff n n).1 refl) refl) in
    omega (
      arith,
      length-without n xs here,
      length-le_of_contains ns (without n xs) d.1 λ id held.
          contains-without n id xs (distinct_ne n id ns d.0 held)
            (h id (unfold contains in ground (arith, held))),
    )
