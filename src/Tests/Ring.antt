-- ===== src/Tests/Ring.antt =====
-- The ring of common/hash_ring.cpp at concrete inputs.
use distributed_kv_store.Prelude.{
  ◌≡◌, ◌≢◌, refl, sym, true, List, [], ◌∷◌, some, ◌⊎◌, arith, Bytes, codes, length, eq_bytes, ap,
  get_or, ◌∙◌,
}
use distributed_kv_store.HashRing.{
  HashRing, returned, running, add_node, remove_node, empty, get_node, get_nodes, contains,
  lower_bound, vnode_position,
}
use distributed_kv_store.Hash.{fnv1a_hash, fnv_from, fmix64}
use distributed_kv_store.Protocol.Text.{to_string}
use mathlib.Core.Option.{some-injective}
use distributed_kv_store.HashRing.Distinct.{Distinct}
use distributed_kv_store.HashRing.Collect.{owns}
use distributed_kv_store.HashRing.Preference.{IsCovered, get_nodes_total}
use distributed_kv_store.HashRing.Placement.{Alone, get_node-add_node, get_node-remove_node}
use distributed_kv_store.HashRing.Divergence.{get_nodes-running}

-- Two nodes with a position each.
abbrev two_nodes : HashRing
two_nodes = record {
  virtual_nodes_per_node = 1;
  ring = (10, codes "a:1") ∷ (20, codes "b:2") ∷ [];
  nodes = codes "a:1" ∷ codes "b:2" ∷ [];
}

one_of_two :
    (id : Bytes)
    → contains (codes "a:1" ∷ codes "b:2" ∷ []) id ≡ true
    → owns two_nodes.ring id ≡ true
unfolding contains owns
one_of_two id h = h

apart : Distinct two_nodes.nodes
unfolding contains eq_bytes
apart = (refl, (refl, tt))

covered : IsCovered two_nodes
covered = record { distinct = apart; placed = one_of_two }

get_nodes_total_example :
    (l : List Bytes) × (get_nodes 5 two_nodes (codes "k") 3 ≡ returned l)
    × Distinct l
    × (length l ≡ 2)
    × ((id : Bytes) → contains l id ≡ true → owns two_nodes.ring id ≡ true)
get_nodes_total_example =
    get_nodes_total two_nodes (codes "k") 3 5 covered (λ e. cc (e)) (omega arith)

get_node-add_node_example :
    (get_node (add_node two_nodes (codes "c:3")) (codes "k") ≡ some (codes "c:3"))
    ⊎ (get_node (add_node two_nodes (codes "c:3")) (codes "k") ≡ get_node two_nodes (codes "k"))
get_node-add_node_example = get_node-add_node two_nodes (codes "c:3") (codes "k") (λ e. cc (e))

get_nodes-running_example :
    get_nodes 1000 (add_node (add_node (empty 150) (codes "a:1")) (codes "a:1")) (codes "k") 2
    ≡ running
get_nodes-running_example =
    get_nodes-running 150 (codes "a:1") (codes "k") 2 1000 (omega arith) (omega arith)

owner_of_k : get_node two_nodes (codes "k") ≡ some (codes "a:1")
unfolding get_node lower_bound fnv1a_hash fnv_from fmix64
owner_of_k = refl

b_position : vnode_position (codes "b:2") 0 ≢ 10
unfolding vnode_position fnv1a_hash fnv_from fmix64 to_string
b_position = λ h. omega (arith, h)

b_Alone : Alone 1 (codes "b:2") two_nodes.ring
b_Alone = (
  λ i small e. let first : i ≡ 0 = omega arith in absurd (b_position (sym (rw first at e))),
  ((λ i small e. refl), tt),
)

names_apart : codes "a:1" ≢ codes "b:2"
names_apart h = let first : b'a' ≡ b'b' = ap (λ s. get_or s 0 0) h in omega (arith, first)

owner_of_k_apart : get_node two_nodes (codes "k") ≢ some (codes "b:2")
owner_of_k_apart h = names_apart (some-injective _ _ (sym owner_of_k ∙ h))

get_node-remove_node_example :
    get_node (remove_node two_nodes (codes "b:2")) (codes "k") ≡ get_node two_nodes (codes "k")
get_node-remove_node_example =
    get_node-remove_node two_nodes (codes "b:2") (codes "k") b_Alone owner_of_k_apart
