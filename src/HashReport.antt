-- ===== src/HashReport.antt =====
-- `kvhashreport` (tools/hash_report.cpp): the counts behind its two measures. The percentages made of
-- them are floating point and not modelled. `none` is the exception of a ring with no nodes. The
-- order of a `std::map` of counts matters for printing only: it is an association list.
pub mod Remap
pub mod Report
use distributed_kv_store.Prelude.{
  ℕ, zero, suc, ◌+◌, Bool, true, false, List, [], ◌∷◌, ◌++◌, Option, none, some, Bytes, codes,
  eq_bytes, if◌then◌else◌, ◌==◌,
}
use distributed_kv_store.Hash.{modulo_hash_node}
use distributed_kv_store.Protocol.Text.{to_string}
use distributed_kv_store.HashRing.{HashRing, empty, add_node, get_node}

unfoldable pub keys_from : ℕ → ℕ → List Bytes
keys_from i zero = []
keys_from i (suc n) = (codes "key:" ++ to_string i) ∷ keys_from (i + 1) n

unfoldable pub make_keys : ℕ → List Bytes
unfolding keys_from
make_keys n = keys_from 0 n

-- `stats.counts`
abbrev pub Counts : Type 0
Counts = List (Bytes × ℕ)

-- counts[id] = 0
unfoldable pub reset_count : Bytes → Counts → Counts
reset_count id [] = (id, 0) ∷ []
reset_count id ((k, n) ∷ counts) =
    if eq_bytes k id then (k, 0) ∷ counts else (k, n) ∷ reset_count id counts

-- counts[id]++
unfoldable pub increment : Bytes → Counts → Counts
increment id [] = (id, 1) ∷ []
increment id ((k, n) ∷ counts) =
    if eq_bytes k id then (k, n + 1) ∷ counts else (k, n) ∷ increment id counts

abbrev pub count_owner : (Counts → Option Counts) → Option Bytes → Counts → Option Counts
count_owner rest none counts = none
count_owner rest (some id) counts = rest (increment id counts)

-- The loop over the keys, for either way to choose a node.
unfoldable pub tally : (Bytes → Option Bytes) → List Bytes → Counts → Option Counts
tally owner [] counts = some counts
tally owner (k ∷ ks) counts = count_owner (tally owner ks) (owner k) counts

unfoldable pub reset_counts : List Bytes → Counts → Counts
unfolding reset_count
reset_counts [] counts = counts
reset_counts (id ∷ ids) counts = reset_counts ids (reset_count id counts)

unfoldable pub numbered_nodes : ℕ → ℕ → List Bytes
numbered_nodes i zero = []
numbered_nodes i (suc n) = (codes "node" ++ to_string i) ∷ numbered_nodes (i + 1) n

abbrev pub numbered_owner : ℕ → Bytes → Option Bytes
numbered_owner num_nodes k = some (codes "node" ++ to_string (modulo_hash_node k num_nodes))

unfoldable pub compute_modulo_balance : List Bytes → ℕ → Option Counts
unfolding reset_counts numbered_nodes
compute_modulo_balance keys num_nodes =
    tally (numbered_owner num_nodes) keys (reset_counts (numbered_nodes 0 num_nodes) [])

unfoldable pub build_ring : List Bytes → HashRing → HashRing
build_ring [] ring = ring
build_ring (id ∷ ids) ring = build_ring ids (add_node ring id)

unfoldable pub compute_ring_balance : List Bytes → List Bytes → ℕ → Option Counts
unfolding build_ring
compute_ring_balance keys node_ids vnodes =
    tally (get_node (build_ring node_ids (empty vnodes))) keys (reset_counts node_ids [])

-- `moved` of `modulo_remap_fraction`.
unfoldable pub modulo_moved : List Bytes → ℕ → ℕ → ℕ
modulo_moved [] before_n after_n = 0
modulo_moved (k ∷ ks) before_n after_n =
    let moved = modulo_moved ks before_n after_n in
    if modulo_hash_node k before_n == modulo_hash_node k after_n then moved else suc moved

abbrev pub count_moved : Option Bytes → Option Bytes → Option ℕ → Option ℕ
count_moved (some before) (some after) (some moved) =
    if eq_bytes after before then some moved else some (suc moved)
count_moved _ _ _ = none

unfoldable pub moved_keys : HashRing → HashRing → List Bytes → Option ℕ
moved_keys before after [] = some 0
moved_keys before after (k ∷ ks) =
    count_moved (get_node before k) (get_node after k) (moved_keys before after ks)

-- `moved` of `ring_remap_fraction`.
unfoldable pub ring_moved : List Bytes → List Bytes → Bytes → ℕ → Option ℕ
unfolding moved_keys build_ring
ring_moved keys node_ids added vnodes =
    let ring = build_ring node_ids (empty vnodes) in moved_keys ring (add_node ring added) keys
