-- ===== src/KvStore/Map.antt =====
-- The `std::unordered_map` of one shard: its entries, in an order that no method depends on.
use distributed_kv_store.Prelude.{
  suc, ◌≡◌, refl, List, [], ◌∷◌, Option, none, some, arith, Bytes, eq_bytes, eq_bytes_iff, length,
  if◌then◌else◌, All, Bool-cases, inl, inr,
}

abbrev pub Entry : Type 0
Entry = Bytes × Bytes

abbrev pub Shard : Type 0
Shard = List Entry

-- map.find(key)
unfoldable pub find : Bytes → Shard → Option Bytes
find k [] = none
find k ((j, v) ∷ m) = if eq_bytes j k then some v else find k m

-- it->second = value
unfoldable pub assign : Bytes → Bytes → Shard → Shard
assign k v [] = []
assign k v ((j, w) ∷ m) = if eq_bytes j k then (j, v) ∷ m else (j, w) ∷ assign k v m

-- map.emplace(key, value), of a key that is not there
unfoldable pub emplace : Bytes → Bytes → Shard → Shard
emplace k v m = (k, v) ∷ m

-- map.erase(key), of a key that is there
unfoldable pub erase : Bytes → Shard → Shard
erase k [] = []
erase k ((j, w) ∷ m) = if eq_bytes j k then m else (j, w) ∷ erase k m

-- No key is held twice.
abbrev pub Unique : Shard → Type 0
Unique [] = Unit
Unique ((k, v) ∷ m) = (find k m ≡ none) × Unique m

module _ (k : Bytes) (v : Bytes) where
  pub find-assign :
      (j : Bytes) (m : Shard) (old : Bytes)
      → find k m ≡ some old
      → find j (assign k v m) ≡ (if eq_bytes k j then some v else find j m)
  unfolding find assign
  find-assign j [] old h = cc
  find-assign j ((i, w) ∷ m) old h =
      ground (arith, find-assign j m old, eq_bytes_iff i k, eq_bytes_iff i j, eq_bytes_iff k j)

  pub find-emplace :
      (j : Bytes) (m : Shard) → find j (emplace k v m) ≡ (if eq_bytes k j then some v else find j m)
  unfolding find emplace
  find-emplace j m = refl

  pub length-assign : (m : Shard) → length (assign k v m) ≡ length m
  unfolding assign
  length-assign [] = refl
  length-assign ((i, w) ∷ m) = ground (arith, length-assign m)

  pub assign-Unique :
      (m : Shard) (old : Bytes) → find k m ≡ some old → Unique m → Unique (assign k v m)
  unfolding find assign
  assign-Unique [] old h u = tt
  assign-Unique ((i, w) ∷ m) old h u =
      ground (arith, assign-Unique m old, find-assign i m old, eq_bytes_iff k i, eq_bytes_iff i k)

  pub assign-keys :
      (P : Bytes → Type 0) (m : Shard) → All (λ e. P e.0) m → All (λ e. P e.0) (assign k v m)
  unfolding assign
  assign-keys P [] h = tt
  assign-keys P ((i, w) ∷ m) h = elim (Bool-cases (eq_bytes i k)) [
    | inl e ↦ rw e h
    | inr e ↦ rw e (h.0, assign-keys P m h.1)
  ]

module _ (k : Bytes) where
  pub find-erase :
      (j : Bytes) (m : Shard)
      → Unique m
      → find j (erase k m) ≡ (if eq_bytes k j then none else find j m)
  unfolding find erase
  find-erase j [] u = ground arith
  find-erase j ((i, w) ∷ m) u =
      ground (arith, find-erase j m, eq_bytes_iff i k, eq_bytes_iff i j, eq_bytes_iff k j)

  pub length-erase :
      (m : Shard) (old : Bytes) → find k m ≡ some old → suc (length (erase k m)) ≡ length m
  unfolding find erase
  length-erase [] old h = cc
  length-erase ((i, w) ∷ m) old h = ground (arith, length-erase m old)

  pub erase-Unique : (m : Shard) → Unique m → Unique (erase k m)
  unfolding find erase
  erase-Unique [] u = tt
  erase-Unique ((i, w) ∷ m) u =
      ground (arith, erase-Unique m, find-erase i m, eq_bytes_iff k i, eq_bytes_iff i k)

  pub erase-keys :
      (P : Bytes → Type 0) (m : Shard) → All (λ e. P e.0) m → All (λ e. P e.0) (erase k m)
  unfolding erase
  erase-keys P [] h = tt
  erase-keys P ((i, w) ∷ m) h = elim (Bool-cases (eq_bytes i k)) [
    | inl e ↦ rw e h.1
    | inr e ↦ rw e (h.0, erase-keys P m h.1)
  ]
