-- ===== src/HashRing.antt =====
-- `ConsistentHashRing` of common/hash_ring.hpp and common/hash_ring.cpp. The `std::map` is the list
-- of its entries by increasing position, and an iterator is the rest of that list.
pub mod Placement
pub mod Distinct
pub mod Collect
pub mod Owners
pub mod Walk
pub mod Preference
pub mod Divergence
use distributed_kv_store.Prelude.{
  ℕ, zero, suc, ◌+◌, ◌*◌, Bool, true, false, ◌||◌, List, [], ◌∷◌, ◌++◌, Option, none, some, Bytes,
  codes, eq_bytes, length, ltb, ◌==◌, if◌then◌else◌, min,
}
use distributed_kv_store.Hash.{fnv1a_hash}
use distributed_kv_store.Protocol.Text.{to_string}

abbrev pub Entry : Type 0
Entry = ℕ × Bytes

abbrev pub Ring : Type 0
Ring = List Entry

pub record HashRing : Type 0 where
  pub virtual_nodes_per_node : ℕ
  pub ring : Ring
  pub nodes : List Bytes

abbrev pub empty : ℕ → HashRing
empty n = record { virtual_nodes_per_node = n; ring = []; nodes = [] }

-- ring_[pos] = node_id
unfoldable pub assign : ℕ → Bytes → Ring → Ring
assign pos id [] = (pos, id) ∷ []
assign pos id ((q, o) ∷ r) =
    if ltb pos q
    then (pos, id) ∷ (q, o) ∷ r
    else if pos == q
    then (pos, id) ∷ r
    else (q, o) ∷ assign pos id r

-- ring_.erase(pos)
unfoldable pub erase : ℕ → Ring → Ring
erase pos [] = []
erase pos ((q, o) ∷ r) = if q == pos then r else (q, o) ∷ erase pos r

-- ring_.lower_bound(pos)
unfoldable pub lower_bound : ℕ → Ring → Ring
lower_bound pos [] = []
lower_bound pos ((q, o) ∷ r) = if ltb q pos then lower_bound pos r else (q, o) ∷ r

-- The hash of "<node_id>#<i>".
unfoldable pub vnode_position : Bytes → ℕ → ℕ
unfolding fnv1a_hash to_string
vnode_position id i = fnv1a_hash ((id ++ codes "#") ++ to_string i)

-- The loops of `add_node` and `remove_node`, from index `i` on, with `n` rounds left.
unfoldable pub assign_vnodes : ℕ → ℕ → Bytes → Ring → Ring
assign_vnodes zero i id ring = ring
assign_vnodes (suc n) i id ring = assign_vnodes n (i + 1) id (assign (vnode_position id i) id ring)

unfoldable pub erase_vnodes : ℕ → ℕ → Bytes → Ring → Ring
erase_vnodes zero i id ring = ring
erase_vnodes (suc n) i id ring = erase_vnodes n (i + 1) id (erase (vnode_position id i) ring)

-- std::remove
unfoldable pub remove_all : Bytes → List Bytes → List Bytes
remove_all id [] = []
remove_all id (n ∷ ns) = let rest = remove_all id ns in if eq_bytes n id then rest else n ∷ rest

unfoldable pub add_node : HashRing → Bytes → HashRing
add_node h id = record h {
  ring = assign_vnodes h.virtual_nodes_per_node 0 id h.ring;
  nodes = h.nodes ++ id ∷ [];
}

unfoldable pub remove_node : HashRing → Bytes → HashRing
remove_node h id = record h {
  ring = erase_vnodes h.virtual_nodes_per_node 0 id h.ring;
  nodes = remove_all id h.nodes;
}

-- The iterator that an access goes through: past the end it is the first entry.
abbrev pub wrap : Ring → Ring → Ring
wrap ring [] = ring
wrap ring (e ∷ it) = e ∷ it

abbrev pub owner : Ring → Option Bytes
owner [] = none
owner ((q, o) ∷ it) = some o

-- `none` is the exception for a ring with no nodes.
unfoldable pub get_node : HashRing → Bytes → Option Bytes
unfolding lower_bound
get_node h key = owner (wrap h.ring (lower_bound (fnv1a_hash key) h.ring))

unfoldable pub contains : List Bytes → Bytes → Bool
contains [] id = false
contains (n ∷ ns) id = eq_bytes n id || contains ns id

abbrev pub push_new : List Bytes → Bytes → List Bytes
push_new result id = if contains result id then result else result ++ id ∷ []

-- How a call ends: it returns, it throws, or it still runs when the fuel is used up.
pub data Outcome {ℓ} (A : Type ℓ) : Type ℓ where
  returned : A → Outcome A
  threw : Outcome A
  running : Outcome A

-- The body of the loop of `get_nodes` at a wrapped iterator; `rest` is the loop.
unfoldable pub visit :
    (Ring → List Bytes → Outcome (List Bytes)) → List Bytes → Ring → Outcome (List Bytes)
visit rest result [] = threw
visit rest result ((q, o) ∷ it) = rest it (push_new result o)

unfoldable pub walk : ℕ → Ring → ℕ → Ring → List Bytes → Outcome (List Bytes)
walk zero ring count it result = running
walk (suc f) ring count it result =
    if ltb (length result) count
    then visit (walk f ring count) result (wrap ring it)
    else returned result

abbrev pub is_empty : Ring → Bool
is_empty [] = true
is_empty (e ∷ r) = false

-- The fuel bounds the steps of the iterator.
unfoldable pub get_nodes : ℕ → HashRing → Bytes → ℕ → Outcome (List Bytes)
get_nodes fuel h key count =
    if is_empty h.ring
    then threw
    else walk fuel h.ring (min count (length h.nodes)) (lower_bound (fnv1a_hash key) h.ring) []

unfoldable pub node_count : HashRing → ℕ
node_count h = length h.nodes
