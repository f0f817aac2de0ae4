-- ===== src/KvStore/Counting.antt =====
-- What `size` counts, for a store that began empty: the keys that are there after any sequence of
-- SETs and DELETEs.
use distributed_kv_store.Prelude.{
  ℕ, zero, suc, ◌+◌, ◌%◌, ◌^◌, ◌<◌, ◌≡◌, refl, sym, ap, ◌∙◌, Bool, true, false, List, [], ◌∷◌,
  Option, none, some, inl, inr, arith, Bytes, eq_bytes, get_or, replicate, length, Option-cases,
  Bool-cases, if◌then◌else◌,
}
use distributed_kv_store.HashRing.{contains}
use distributed_kv_store.HashRing.Distinct.{Distinct}
use distributed_kv_store.KvStore.Keys.{
  with_key, without, one_if, contains-without, without-Distinct, length-without, contains-with_key,
}
use distributed_kv_store.KvStore.Map.{find, assign, emplace, erase, length-assign, length-erase}
use distributed_kv_store.KvStore.Invariant.{
  IsValid, IsValid-init, total, total-set, set-IsValid, remove-IsValid, shard_index-lt,
}
use distributed_kv_store.KvStore.Refinement.{holds, get-set, get-remove}
use distributed_kv_store.KvStore.{
  KvStore, Entry, shard_count, init, shard_index, shard_for, get, set, remove, size,
}

pub data Operation : Type 0 where
  set_key : Bytes → Bytes → Operation
  remove_key : Bytes → Operation

abbrev pub perform : Operation → KvStore → KvStore
perform (set_key key value) s = set s key value
perform (remove_key key) s = (remove s key).1

unfoldable pub perform_all : List Operation → KvStore → KvStore
perform_all [] s = s
perform_all (op ∷ ops) s = perform_all ops (perform op s)

-- The keys that are there afterwards, without a store.
abbrev pub keys_of : Operation → List Bytes → List Bytes
keys_of (set_key key value) ks = with_key key ks
keys_of (remove_key key) ks = without key ks

unfoldable pub keys_after : List Operation → List Bytes → List Bytes
keys_after [] ks = ks
keys_after (op ∷ ops) ks = keys_after ops (keys_of op ks)

-- SET adds one entry if the key is not there; DELETE takes one away if it is.
total-set_key :
    {s : KvStore} (key value : Bytes)
    → IsValid s
    → total (set s key value).shards + one_if (holds (get s key)) ≡ suc (total s.shards)
unfolding set get emplace
total-set_key {s} key value v =
    let within : shard_index key < length s.shards = omega (arith, v.sixteen, shard_index-lt key) in
    elim (Option-cases (find key (shard_for s key))) [
      | inl absent ↦
          rw (absent, set)
            (omega (
              arith,
              total-set (emplace key value (shard_for s key)) s.shards (shard_index key) within,
            ))
      | inr (old, present) ↦
          rw (present, set)
            (omega (
              arith,
              total-set (assign key value (shard_for s key)) s.shards (shard_index key) within,
              length-assign key value (shard_for s key),
            ))
    ]

total-remove_key :
    {s : KvStore} (key : Bytes)
    → IsValid s
    → total (remove s key).1.shards + one_if (holds (get s key)) ≡ total s.shards
unfolding remove get
total-remove_key {s} key v =
    let within : shard_index key < length s.shards = omega (arith, v.sixteen, shard_index-lt key) in
    elim (Option-cases (find key (shard_for s key))) [
      | inl absent ↦ rw (absent, remove) (omega arith)
      | inr (old, present) ↦
          rw (present, remove)
            (omega (
              arith,
              total-set (erase key (shard_for s key)) s.shards (shard_index key) within,
              length-erase key (shard_for s key) old present,
            ))
    ]

-- The keys are those of the store, each once.
pub record Lists (ks : List Bytes) (s : KvStore) : Type 0 where
  pub valid : IsValid s
  pub distinct : Distinct ks
  pub as_many : total s.shards ≡ length ks
  pub same_keys : (j : Bytes) → contains ks j ≡ holds (get s j)

holds-update :
    (b : Bool) (x y : Option Bytes) → holds (if b then x else y) ≡ (if b then holds x else holds y)
holds-update true x y = refl
holds-update false x y = refl

set_key-Lists :
    (key value : Bytes) (ks : List Bytes) (s : KvStore)
    → Lists ks s
    → Lists (keys_of (set_key key value) ks) (set s key value)
set_key-Lists key value ks s l =
    let now : (j : Bytes)
        → contains (keys_of (set_key key value) ks) j ≡ holds (get (set s key value) j) =
      λ j.
        contains-with_key key j ks
        ∙ ap (λ b. if eq_bytes key j then true else b) (l.same_keys j)
        ∙ sym (holds-update (eq_bytes key j) (some value) (get s j))
        ∙ sym (ap holds (get-set key value j l.valid)) in
    let entries = total-set_key key value l.valid in
    let there = l.same_keys key in
    elim (Bool-cases (contains ks key)) [
      | inl old ↦
          let held : holds (get s key) ≡ true = sym there ∙ old in
          rw old (record {
            valid = set-IsValid key value l.valid;
            distinct = l.distinct;
            as_many = omega (arith, l.as_many, entries, ap one_if held);
            same_keys = λ j. rw old at (now j);
          })
      | inr new ↦
          let missing : holds (get s key) ≡ false = sym there ∙ new in
          rw new (record {
            valid = set-IsValid key value l.valid;
            distinct = (new, l.distinct);
            as_many = omega (arith, l.as_many, entries, ap one_if missing);
            same_keys = λ j. rw new at (now j);
          })
    ]

remove_key-Lists :
    (key : Bytes) (ks : List Bytes) (s : KvStore)
    → Lists ks s
    → Lists (without key ks) (remove s key).1
remove_key-Lists key ks s l =
    let entries = total-remove_key key l.valid in
    record {
      valid = remove-IsValid key l.valid;
      distinct = without-Distinct key ks l.distinct;
      as_many =
          omega (arith, l.as_many, entries, length-without key ks, ap one_if (l.same_keys key));
      same_keys = λ j.
          contains-without key j ks l.distinct
          ∙ ap (λ b. if eq_bytes key j then false else b) (l.same_keys j)
          ∙ sym (holds-update (eq_bytes key j) none (get s j))
          ∙ sym (ap holds ((get-remove key l.valid).1 j));
    }

perform_all-Lists :
    (ops : List Operation) (ks : List Bytes) (s : KvStore)
    → Lists ks s
    → Lists (keys_after ops ks) (perform_all ops s)
unfolding perform_all keys_after
perform_all-Lists [] ks s l = l
perform_all-Lists (set_key key value ∷ ops) ks s l =
    perform_all-Lists ops _ _ (set_key-Lists key value ks s l)
perform_all-Lists (remove_key key ∷ ops) ks s l =
    perform_all-Lists ops _ _ (remove_key-Lists key ks s l)

get_or-replicate : (n i : ℕ) → get_or {A = List Entry} (replicate n []) i [] ≡ []
get_or-replicate zero i = refl
get_or-replicate (suc n) zero = refl
get_or-replicate (suc n) (suc i) = get_or-replicate n i

init-Lists : Lists [] init
unfolding total contains get find
init-Lists = record {
  valid = IsValid-init;
  distinct = tt;
  as_many = refl;
  same_keys = λ j. sym (ap (λ m. holds (find j m)) (get_or-replicate shard_count (shard_index j)));
}

-- After any sequence of SETs and DELETEs on an empty store, `size` is the number, modulo 2 ^ 64, of
-- the keys that were set and not removed since, each counted once, and these are the keys that GET
-- finds.
pub size-counts :
    (ops : List Operation)
    → (size (perform_all ops init) ≡ length (keys_after ops []) % 2 ^ 64)
      × Distinct (keys_after ops [])
      × ((key : Bytes) → contains (keys_after ops []) key ≡ holds (get (perform_all ops init) key))
unfolding size
size-counts ops =
    let l = perform_all-Lists ops [] init init-Lists in
    (l.valid.counted ∙ ap (λ n. n % 2 ^ 64) l.as_many, l.distinct, l.same_keys)
