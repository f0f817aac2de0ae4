-- ===== src/KvStore.antt =====
-- `KVStore` of server/kv_store.hpp and server/kv_store.cpp. Each method holds the lock of its shard
-- from its first access of the map to its last write of the counter, so it is one step here.
mod Map
pub mod Invariant
pub mod Refinement
pub mod Keys
pub mod Counting
unfoldable pub use Map.{find, assign, emplace, erase}
pub use Map.{Shard, Entry}
use distributed_kv_store.Prelude.{
  ℕ, ◌+◌, ◌-◌, ◌%◌, ◌^◌, Bool, true, false, List, [], Option, none, some, Bytes, get_or,
  set as set_elem, replicate,
}
use distributed_kv_store.Hash.{fnv1a_hash}

abbrev pub shard_count : ℕ
shard_count = 16

-- The array has `shard_count` entries from the start, and no method changes its length.
pub record KvStore : Type 0 where
  pub shards : List Shard
  pub size_counter : ℕ

abbrev pub init : KvStore
init = record { shards = replicate shard_count []; size_counter = 0 }

unfoldable pub shard_index : Bytes → ℕ
unfolding fnv1a_hash
shard_index key = fnv1a_hash key % shard_count

-- The map of `shard_for(key)`, and the store with that map changed.
abbrev pub shard_for : KvStore → Bytes → Shard
shard_for s key = get_or s.shards (shard_index key) []

abbrev pub with_shard : KvStore → Bytes → Shard → KvStore
with_shard s key m = record s { shards = set_elem s.shards (shard_index key) m }

-- `fetch_add(1)` and `fetch_sub(1)` on a 64-bit counter.
abbrev pub fetch_add : KvStore → KvStore
fetch_add s = record s { size_counter = (s.size_counter + 1) % 2 ^ 64 }

abbrev pub fetch_sub : KvStore → KvStore
fetch_sub s = record s { size_counter = (s.size_counter + 2 ^ 64 - 1) % 2 ^ 64 }

-- `get` returns whether the key is there, and copies its value out.
unfoldable pub get : KvStore → Bytes → Option Bytes
get s key = find key (shard_for s key)

unfoldable pub set : KvStore → Bytes → Bytes → KvStore
set s key value = elim (find key (shard_for s key)) [
  | some old ↦ with_shard s key (assign key value (shard_for s key))
  | none ↦ fetch_add (with_shard s key (emplace key value (shard_for s key)))
]

unfoldable pub remove : KvStore → Bytes → Bool × KvStore
remove s key = elim (find key (shard_for s key)) [
  | none ↦ (false, s)
  | some old ↦ (true, fetch_sub (with_shard s key (erase key (shard_for s key))))
]

unfoldable pub size : KvStore → ℕ
size s = s.size_counter
