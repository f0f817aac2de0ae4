-- ===== src/KvStore/Invariant.antt =====
-- The well-formedness of a store, and that every method keeps it.
use distributed_kv_store.Prelude.{
  ℕ, zero, suc, ◌+◌, ◌%◌, ◌^◌, ◌<◌, ◌≡◌, refl, ◌∙◌, List, [], ◌∷◌, inl, inr, arith, Bytes, get_or,
  set as set_elem, length, length-set, All, Option-cases,
}
use distributed_kv_store.KvStore.Map.{
  Shard, find, assign, emplace, erase, Unique, length-assign, assign-Unique, assign-keys,
  length-erase, erase-Unique, erase-keys,
}
use distributed_kv_store.KvStore.{KvStore, shard_count, shard_index, shard_for, set, remove, init}

-- The number of entries of all shards.
unfoldable pub total : List Shard → ℕ
total [] = 0
total (m ∷ ms) = length m + total ms

-- The keys of shard `i` hash to `i`.
abbrev pub Homed : ℕ → List Shard → Type 0
Homed i [] = Unit
Homed i (m ∷ ms) = All (λ e. shard_index e.0 ≡ i) m × Homed (suc i) ms

pub record IsValid (s : KvStore) : Type 0 where
  pub sixteen : length s.shards ≡ shard_count
  pub unique : All Unique s.shards
  pub homed : Homed 0 s.shards
  pub counted : s.size_counter ≡ total s.shards % 2 ^ 64

pub shard_index-lt : (key : Bytes) → shard_index key < shard_count
unfolding shard_index
shard_index-lt key = omega arith

module _ (m : Shard) where
  pub total-set :
      (ms : List Shard) (i : ℕ)
      → i < length ms
      → total (set_elem ms i m) + length (get_or ms i []) ≡ total ms + length m
  unfolding total
  total-set [] i h = absurd (omega arith)
  total-set (x ∷ ms) zero h = omega arith
  total-set (x ∷ ms) (suc i) h = omega (arith, total-set ms i (omega arith))

  Unique-set : (ms : List Shard) (i : ℕ) → Unique m → All Unique ms → All Unique (set_elem ms i m)
  Unique-set [] i u us = tt
  Unique-set (x ∷ ms) zero u us = (u, us.1)
  Unique-set (x ∷ ms) (suc i) u us = (us.0, Unique-set ms i u us.1)

  Homed-set :
      (ms : List Shard) (i j : ℕ)
      → All (λ e. shard_index e.0 ≡ j + i) m
      → Homed j ms
      → Homed j (set_elem ms i m)
  Homed-set [] i j h hs = tt
  Homed-set (x ∷ ms) zero j h hs = let e : j + 0 ≡ j = omega arith in (rw e at h, hs.1)
  Homed-set (x ∷ ms) (suc i) j h hs =
      let e : j + suc i ≡ suc j + i = omega arith in (hs.0, Homed-set ms i (suc j) (rw e at h) hs.1)

Unique-get_or : (ms : List Shard) (i : ℕ) → All Unique ms → Unique (get_or ms i [])
Unique-get_or [] i u = tt
Unique-get_or (x ∷ ms) zero u = u.0
Unique-get_or (x ∷ ms) (suc i) u = Unique-get_or ms i u.1

Homed-get_or :
    (ms : List Shard) (i j : ℕ) → Homed j ms → All (λ e. shard_index e.0 ≡ j + i) (get_or ms i [])
Homed-get_or [] i j h = tt
Homed-get_or (x ∷ ms) zero j h = let e : j ≡ j + 0 = omega arith in rw e at h.0
Homed-get_or (x ∷ ms) (suc i) j h =
    let e : suc j + i ≡ j + suc i = omega arith in rw e at (Homed-get_or ms i (suc j) h.1)

module _ {s : KvStore} (v : IsValid s) (key : Bytes) where
  pub shard_for-Unique : Unique (shard_for s key)
  shard_for-Unique = Unique-get_or s.shards (shard_index key) v.unique

  pub shard_for-homed : All (λ e. shard_index e.0 ≡ shard_index key) (shard_for s key)
  shard_for-homed =
      let e : 0 + shard_index key ≡ shard_index key = omega arith in
      rw e at (Homed-get_or s.shards (shard_index key) 0 v.homed)

  -- A changed shard keeps the invariant if it is well formed and the counter follows its length.
  with_shard-IsValid :
      (m : Shard) (counter : ℕ)
      → Unique m
      → All (λ e. shard_index e.0 ≡ shard_index key) m
      → ((t : ℕ) → t + length (shard_for s key) ≡ total s.shards + length m → counter ≡ t % 2 ^ 64)
      → IsValid (record { shards = set_elem s.shards (shard_index key) m; size_counter = counter })
  with_shard-IsValid m counter u h c =
      let e : shard_index key ≡ 0 + shard_index key = omega arith in
      record {
        sixteen = length-set s.shards (shard_index key) m ∙ v.sixteen;
        unique = Unique-set m s.shards (shard_index key) u v.unique;
        homed = Homed-set m s.shards (shard_index key) 0 (rw e at h) v.homed;
        counted =
            c _ (
              total-set m s.shards (shard_index key)
                (omega (arith, v.sixteen, shard_index-lt key)));
      }

-- SET on a well-formed store leaves it well formed, whether it replaces a value or adds a key.
pub set-IsValid : {s : KvStore} (key value : Bytes) → IsValid s → IsValid (set s key value)
unfolding set emplace
set-IsValid {s} key value v = elim (Option-cases (find key (shard_for s key))) [
  | inl absent ↦
      rw (absent, set)
        (with_shard-IsValid v key (emplace key value (shard_for s key)) _
          (absent, shard_for-Unique v key) (refl, shard_for-homed v key)
          (λ t e. omega (arith, v.counted)))
  | inr (old, present) ↦
      rw (present, set)
        (with_shard-IsValid v key (assign key value (shard_for s key)) _
          (assign-Unique key value (shard_for s key) old present (shard_for-Unique v key))
          (assign-keys key value (λ k. shard_index k ≡ shard_index key) (shard_for s key)
            (shard_for-homed v key))
          (λ t e. omega (arith, v.counted, length-assign key value (shard_for s key))))
]

-- DELETE on a well-formed store leaves it well formed, whether the key was there or not.
pub remove-IsValid : {s : KvStore} (key : Bytes) → IsValid s → IsValid (remove s key).1
unfolding remove
remove-IsValid {s} key v = elim (Option-cases (find key (shard_for s key))) [
  | inl absent ↦ rw (absent, remove) v
  | inr (old, present) ↦
      rw (present, remove)
        (with_shard-IsValid v key (erase key (shard_for s key)) _
          (erase-Unique key (shard_for s key) (shard_for-Unique v key))
          (erase-keys key (λ k. shard_index k ≡ shard_index key) (shard_for s key)
            (shard_for-homed v key))
          (λ t e. omega (arith, v.counted, length-erase key (shard_for s key) old present)))
]

pub IsValid-init : IsValid init
unfolding total
IsValid-init = record { sixteen = refl; unique = omega arith; homed = omega arith; counted = refl }
