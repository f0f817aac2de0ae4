-- ===== src/HashReport/Remap.antt =====
-- What the counts of the report say about the ring.
use distributed_kv_store.Prelude.{
  ℕ, suc, ◌+◌, ◌≡◌, ◌≢◌, refl, ap, ◌∙◌, List, [], ◌∷◌, Option, none, some, ◌⊎◌, inl, inr, arith,
  Bytes, eq_bytes, eq_bytes_iff, if◌then◌else◌, Bool-cases, Option-cases,
}
use distributed_kv_store.HashRing.{HashRing, add_node, get_node, owner, wrap, Ring}
use distributed_kv_store.HashRing.Placement.{get_node-add_node}
use distributed_kv_store.HashReport.{Counts, increment, count_owner, tally, count_moved, moved_keys}

-- 1 if the owner is the node.
abbrev pub is_owner : Option Bytes → Bytes → ℕ
is_owner none id = 0
is_owner (some o) id = if eq_bytes o id then 1 else 0

-- The number of keys that a node owns.
unfoldable pub owned : (Bytes → Option Bytes) → Bytes → List Bytes → ℕ
owned choose id [] = 0
owned choose id (k ∷ ks) = is_owner (choose k) id + owned choose id ks

unfoldable pub count_of : Bytes → Counts → ℕ
count_of id [] = 0
count_of id ((k, n) ∷ counts) = if eq_bytes k id then n else count_of id counts

count_of-increment :
    (id j : Bytes) (counts : Counts)
    → count_of j (increment id counts) ≡ count_of j counts + is_owner (some id) j
unfolding count_of increment
count_of-increment id j [] = ground arith
count_of-increment id j ((k, n) ∷ counts) =
    ground (
      arith,
      count_of-increment id j counts,
      eq_bytes_iff k id,
      eq_bytes_iff k j,
      eq_bytes_iff id j,
    )

-- If every key has an owner, the loop over the keys ends, and has added to the count of each node
-- the number of keys that it owns.
pub tally-owned :
    (choose : Bytes → Option Bytes) (keys : List Bytes) (counts : Counts)
    → ((k : Bytes) → choose k ≢ none)
    → (counts' : Counts) × (tally choose keys counts ≡ some counts')
      × ((id : Bytes) → count_of id counts' ≡ count_of id counts + owned choose id keys)
unfolding tally owned
tally-owned choose [] counts all = (counts, refl, λ id. omega arith)
tally-owned choose (k ∷ ks) counts all = elim (Option-cases (choose k)) [
  | inl missing ↦ absurd (all k missing)
  | inr (o, e) ↦
      let (counts', done, right) = tally-owned choose ks (increment o counts) all in
      (
        counts',
        ap (λ x. count_owner (tally choose ks) x counts) e ∙ done,
        λ id. omega (arith, right id, count_of-increment o id counts, ap (λ x. is_owner x id) e),
      )
]

pub get_node-some :
    (ring : HashRing) (key : Bytes) → ring.ring ≢ [] → (o : Bytes) × (get_node ring key ≡ some o)
unfolding get_node
get_node-some ring key ne = owner-some ring.ring _ ne
  where
    owner-some : (r it : Ring) → r ≢ [] → (o : Bytes) × (owner (wrap r it) ≡ some o)
    owner-some r ((q, o) ∷ it) ne = (o, refl)
    owner-some ((q, o) ∷ r) [] ne = (o, refl)
    owner-some [] [] ne = absurd (ne refl)

-- One key: it moves to the new node or stays.
record Step (before after : Option Bytes) (id : Bytes) (moved : ℕ) : Type 0 where
  now : ℕ
  counted : count_moved before after (some moved) ≡ some now
  exact : is_owner after id + moved ≡ is_owner before id + now

step :
    (o after' id : Bytes) {before after : Option Bytes} (moved : ℕ)
    → before ≡ some o
    → after ≡ some after'
    → (after' ≡ id) ⊎ (after' ≡ o)
    → Step before after id moved
step o after' id moved hb ha h = elim (Bool-cases (eq_bytes after' o)) [
  | inl same ↦ record {
    now = moved;
    counted = rw (hb, ha, same) refl;
    exact = rw (hb, ha, (eq_bytes_iff after' o).0 same) refl;
  }
  | inr other ↦ record {
    now = suc moved;
    counted = rw (hb, ha, other) refl;
    exact =
        rw (hb, ha)
          (elim h [
            | inl new ↦
                ground (arith, eq_bytes_iff after' id, eq_bytes_iff o id, eq_bytes_iff after' o)
            | inr old ↦ absurd (ground (arith, eq_bytes_iff after' o))
          ]);
  }
]

-- On a ring that has a node, the count of moved keys is defined, and the added node then owns as
-- many keys as it owned before and have moved, together.
pub moved_keys-owned :
    (ring : HashRing) (id : Bytes) (keys : List Bytes)
    → ring.ring ≢ []
    → (moved : ℕ) × (moved_keys ring (add_node ring id) keys ≡ some moved)
      × (owned (get_node (add_node ring id)) id keys ≡ owned (get_node ring) id keys + moved)
unfolding moved_keys owned
moved_keys-owned ring id [] ne = (0, refl, omega arith)
moved_keys-owned ring id (k ∷ ks) ne =
    let (moved, done, right) = moved_keys-owned ring id ks ne in
    let (o, e) = get_node-some ring k ne in
    let s : Step (get_node ring k) (get_node (add_node ring id) k) id moved =
      elim (get_node-add_node ring id k ne) [
        | inl new ↦ step o id id moved e new (inl refl)
        | inr old ↦ step o o id moved e (old ∙ e) (inr refl)
      ] in
    (
      s.now,
      ap (count_moved (get_node ring k) (get_node (add_node ring id) k)) done ∙ s.counted,
      omega (arith, right, s.exact),
    )
