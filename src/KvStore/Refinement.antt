-- ===== src/KvStore/Refinement.antt =====
-- The store against an abstract dictionary, a function from keys to optional values: what GET, SET
-- and DELETE show of it.
use distributed_kv_store.Prelude.{
  ◌≡◌, refl, sym, ap, Bool, true, false, [], Option, none, some, inl, inr, arith, Bytes, eq_bytes,
  eq_bytes_iff, get_or, get_or-set_self, get_or-set_ne, set as set_elem, length, Option-cases,
  Bool-cases, if◌then◌else◌, ==_iff, ◌==◌,
}
use distributed_kv_store.KvStore.Map.{Shard, find, find-assign, find-emplace, find-erase}
use distributed_kv_store.KvStore.Invariant.{IsValid, shard_index-lt, shard_for-Unique}
use distributed_kv_store.KvStore.{KvStore, shard_count, shard_index, shard_for, get, set, remove}

-- What the store holds at a key.
abbrev pub Dictionary : Type 0
Dictionary = Bytes → Option Bytes

abbrev pub update : Dictionary → Bytes → Option Bytes → Dictionary
update d key v j = if eq_bytes key j then v else d j

-- The map of `j` once the map of `key` has been changed.
shard_for-set :
    (s : KvStore) (key j : Bytes) (m : Shard)
    → length s.shards ≡ shard_count
    → get_or (set_elem s.shards (shard_index key) m) (shard_index j) []
      ≡ (if shard_index key == shard_index j then m else shard_for s j)
shard_for-set s key j m sixteen = elim (Bool-cases (shard_index key == shard_index j)) [
  | inl same ↦
      let e : shard_index j ≡ shard_index key = sym ((==_iff _ _).0 same) in
      rw same (
        rw e (
          get_or-set_self s.shards (shard_index key) m []
            (omega (arith, sixteen, shard_index-lt key))))
  | inr other ↦
      rw other (get_or-set_ne s.shards (shard_index key) (shard_index j) m [] (ground arith))
]

-- What a changed map of `key` shows at any key.
find-with_shard :
    (s : KvStore) (key j : Bytes) (m : Shard) (x : Option Bytes)
    → length s.shards ≡ shard_count
    → find j m ≡ (if eq_bytes key j then x else find j (shard_for s key))
    → find j (get_or (set_elem s.shards (shard_index key) m) (shard_index j) [])
      ≡ (if eq_bytes key j then x else find j (shard_for s j))
find-with_shard s key j m x sixteen h =
    rw (shard_for-set s key j m sixteen) (elim (Bool-cases (shard_index key == shard_index j)) [
      | inl same ↦
          let e : shard_index j ≡ shard_index key = sym ((==_iff _ _).0 same) in rw same (rw e h)
      | inr other ↦ rw other (elim (Bool-cases (eq_bytes key j)) [
        | inl e ↦
            let e' : shard_index key ≡ shard_index j = ap shard_index ((eq_bytes_iff key j).0 e) in
            absurd (ground arith)
        | inr ne ↦ rw ne refl
      ])
    ])

-- On a well-formed store, SET is an update of the dictionary at its key, for every key that is
-- looked up afterwards.
pub get-set :
    {s : KvStore} (key value j : Bytes)
    → IsValid s
    → get (set s key value) j ≡ update (get s) key (some value) j
unfolding get set
get-set {s} key value j v = elim (Option-cases (find key (shard_for s key))) [
  | inl absent ↦
      rw (absent, set)
        (find-with_shard s key j _ (some value) v.sixteen
          (find-emplace key value j (shard_for s key)))
  | inr (old, present) ↦
      rw (present, set)
        (find-with_shard s key j _ (some value) v.sixteen
          (find-assign key value j (shard_for s key) old present))
]

abbrev pub holds : Option Bytes → Bool
holds none = false
holds (some v) = true

-- On a well-formed store, DELETE says whether the key was there, and removes it from the
-- dictionary.
pub get-remove :
    {s : KvStore} (key : Bytes)
    → IsValid s
    → ((remove s key).0 ≡ holds (get s key))
      × ((j : Bytes) → get (remove s key).1 j ≡ update (get s) key none j)
unfolding get remove
get-remove {s} key v = elim (Option-cases (find key (shard_for s key))) [
  | inl absent ↦ (
    rw (absent, remove) refl,
    λ j.
        rw (absent, remove)
          (elim (Bool-cases (eq_bytes key j)) [
            | inl same ↦
                let e : j ≡ key = sym ((eq_bytes_iff key j).0 same) in rw same (rw e absent)
            | inr other ↦ rw other refl
          ]),
  )
  | inr (old, present) ↦ (
    rw (present, remove) refl,
    λ j.
        rw (present, remove)
          (find-with_shard s key j _ none v.sixteen
            (find-erase key j (shard_for s key) (shard_for-Unique v key))),
  )
]
