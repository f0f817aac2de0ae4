-- ===== src/Router/Client/Construction.antt =====
-- The router that the constructor makes has a ring on which its requests return: what the nodes'
-- addresses and the number of virtual nodes need to be for that.
use mathlib.Core.Path.{subst}
use distributed_kv_store.Prelude.{
  ℕ, zero, suc, ◌+◌, ◌*◌, ◌<◌, ◌≤◌, ◌≡◌, ◌≢◌, refl, sym, ap, ◌∙◌, true, List, [], ◌∷◌, ◌++◌, map,
  append_assoc, append-nil, some, inl, inr, arith, Bytes, eq_bytes, eq_bytes_iff, eq_bytes_refl,
  ==_iff, length, All, Bool-cases,
}
use distributed_kv_store.Protocol.Messages.{max_value_len, Request}
use distributed_kv_store.Protocol.Text.{is_valid_key}
use distributed_kv_store.HashRing.{
  Ring, HashRing, empty, assign, assign_vnodes, add_node, vnode_position, contains, get_nodes,
  threw,
}
use distributed_kv_store.HashRing.Distinct.{Distinct}
use distributed_kv_store.HashRing.Collect.{owns}
use distributed_kv_store.HashRing.Owners.{
  held_by, held_by-assign, held_by-assign_vnodes, held_by-owns, length-assign_vnodes,
}
use distributed_kv_store.HashRing.Preference.{IsCovered}
use distributed_kv_store.Router.FailureDetector.{NodeAddress, id}
use distributed_kv_store.Router.Routing.{Network, Routing, route_read, route_write}
use distributed_kv_store.Router.Replication.{Nodes}
use distributed_kv_store.Router.ReadAfterWrite.{ReadsBack, read_after_write}
use distributed_kv_store.Router.Client.{add_nodes, make_router}

-- No virtual node of `b` takes a position.
abbrev pub Avoids : ℕ → ℕ → Bytes → Type 0
Avoids n p b = (i : ℕ) → i < n → vnode_position b i ≢ p

-- No node takes the first position of one that was added before it.
abbrev pub KeepsFirst : ℕ → List Bytes → Type 0
KeepsFirst n [] = Unit
KeepsFirst n (a ∷ bs) = All (Avoids n (vnode_position a 0)) bs × KeepsFirst n bs

held_by-add_nodes :
    (ns : List NodeAddress) (h : HashRing) (p : ℕ) (j : Bytes)
    → held_by p h.ring ≡ some j
    → All (Avoids h.virtual_nodes_per_node p) (map id ns)
    → held_by p (add_nodes ns h).ring ≡ some j
unfolding add_nodes
held_by-add_nodes [] h p j held avoid = held
held_by-add_nodes (n ∷ ns) h p j held (avoid, avoids) =
    held_by-add_nodes ns (add_node h (id n)) p j
      (unfold add_node in
        held_by-assign_vnodes h.virtual_nodes_per_node 0 (id n) h.ring p j held
          (λ k lo hi. inl (avoid k (omega (arith, hi)))))
      (unfold add_node in avoids)

held_by-add_node :
    (h : HashRing) (a : Bytes)
    → 0 < h.virtual_nodes_per_node
    → held_by (vnode_position a 0) (add_node h a).ring ≡ some a
unfolding add_node assign_vnodes
held_by-add_node h a some_vnodes = placed h.virtual_nodes_per_node some_vnodes
  where
    first : held_by (vnode_position a 0) (assign (vnode_position a 0) a h.ring) ≡ some a
    first =
        rw (held_by-assign (vnode_position a 0) (vnode_position a 0) a h.ring)
          (rw ((==_iff (vnode_position a 0) (vnode_position a 0)).1 refl) refl)

    placed : (n : ℕ) → 0 < n → held_by (vnode_position a 0) (assign_vnodes n 0 a h.ring) ≡ some a
    placed zero pos = absurd (omega arith)
    placed (suc n) pos =
        held_by-assign_vnodes n 1 a (assign (vnode_position a 0) a h.ring) (vnode_position a 0) a
          first (λ k lo hi. inr refl)

-- Every node that was added owns its first position.
add_nodes-placed :
    (ns : List NodeAddress) (h : HashRing)
    → 0 < h.virtual_nodes_per_node
    → KeepsFirst h.virtual_nodes_per_node (map id ns)
    → (j : Bytes) → contains (map id ns) j ≡ true
    → owns (add_nodes ns h).ring j ≡ true
unfolding contains add_nodes
add_nodes-placed [] h pos keeps j there = cc there
add_nodes-placed (n ∷ ns) h pos (avoids, keeps) j there = elim (Bool-cases (eq_bytes (id n) j)) [
  | inl this ↦
      let e : id n ≡ j = (eq_bytes_iff (id n) j).0 this in
      held_by-owns (vnode_position (id n) 0) j _ (
        held_by-add_nodes ns (add_node h (id n)) (vnode_position (id n) 0) (id n)
          (held_by-add_node h (id n) pos) (unfold add_node in avoids)
        ∙ ap some e)
  | inr other ↦
      add_nodes-placed ns (add_node h (id n)) (unfold add_node in pos) (unfold add_node in keeps) j
        (ground (arith, there, other))
]

nodes-add_nodes :
    (ns : List NodeAddress) (h : HashRing) → (add_nodes ns h).nodes ≡ h.nodes ++ map id ns
unfolding add_nodes
nodes-add_nodes [] h = sym (append-nil h.nodes)
nodes-add_nodes (n ∷ ns) h =
    nodes-add_nodes ns (add_node h (id n))
    ∙ (unfold add_node in append_assoc h.nodes (id n ∷ []) (map id ns))

length-add_nodes :
    (ns : List NodeAddress) (h : HashRing)
    → length (add_nodes ns h).ring ≤ length h.ring + length ns * h.virtual_nodes_per_node
unfolding add_nodes add_node
length-add_nodes [] h = omega arith
length-add_nodes (n ∷ ns) h = omega (
  arith,
  length-add_nodes ns (add_node h (id n)),
  length-assign_vnodes h.virtual_nodes_per_node 0 (id n) h.ring,
)

-- What the constructor needs: some nodes with different ids, virtual nodes, and no node on the first
-- position of one before it.
pub record Constructible (ns : List NodeAddress) (virtual_nodes : ℕ) : Type 0 where
  pub some_nodes : ns ≢ []
  pub distinct : Distinct (map id ns)
  pub some_vnodes : 0 < virtual_nodes
  pub keeps_first : KeepsFirst virtual_nodes (map id ns)

make_router-IsCovered :
    (ns : List NodeAddress) (virtual_nodes factor : ℕ)
    → Constructible ns virtual_nodes
    → IsCovered (make_router ns virtual_nodes factor).ring
unfolding make_router
make_router-IsCovered ns virtual_nodes factor c =
    let listed = nodes-add_nodes ns (empty virtual_nodes) in
    record {
      distinct = subst Distinct (sym listed) c.distinct;
      placed = λ j there.
          add_nodes-placed ns (empty virtual_nodes) c.some_vnodes c.keeps_first j
            (ap (λ x. contains x j) (sym listed) ∙ there);
    }

owns-ne-nil : (r : Ring) (j : Bytes) → owns r j ≡ true → r ≢ []
unfolding owns
owns-ne-nil [] j h = cc h
owns-ne-nil (e ∷ r) j h = λ missing. cc missing

make_router-ne-nil :
    (ns : List NodeAddress) (virtual_nodes factor : ℕ)
    → Constructible ns virtual_nodes
    → (make_router ns virtual_nodes factor).ring.ring ≢ []
unfolding make_router
make_router-ne-nil [] virtual_nodes factor c = absurd (c.some_nodes refl)
make_router-ne-nil (n ∷ ns) virtual_nodes factor c = owns-ne-nil _ (id n) (
    add_nodes-placed (n ∷ ns) (empty virtual_nodes) c.some_vnodes c.keeps_first (id n)
      (unfold contains in rw (eq_bytes_refl (id n)) refl))

-- For a router that was made for some nodes with different ids and at least one virtual node each, no
-- node standing on the first position of one before it, whatever the replication factor; for nodes
-- that answer as the server does and may fail at any time; and with fuel for twice the virtual nodes:
-- a SET of a valid key and a value of at most 1 MiB, and a GET of the key right after, from any state
-- of the detector, both return; and the GET returns the value of the SET, or the error that no
-- replica answered.
pub make_router-ReadsBack :
    (net : Network) (ns : List NodeAddress) (nodes : Nodes net) (virtual_nodes factor fuel : ℕ)
    (key value : Bytes) (r : Routing net ns)
    → Constructible ns virtual_nodes
    → 2 * (length ns * virtual_nodes) < fuel
    → is_valid_key key ≡ true
    → length value ≤ max_value_len
    → ReadsBack net ns nodes fuel
        (make_router ns virtual_nodes factor).ring
        (make_router ns virtual_nodes factor).replication_factor
        key
        value
        r
make_router-ReadsBack net ns nodes virtual_nodes factor fuel key value r c enough valid fits =
    let router = make_router ns virtual_nodes factor in
    let short : length router.ring.ring ≤ length ns * virtual_nodes =
      unfold make_router in omega (arith, length-add_nodes ns (empty virtual_nodes)) in
    read_after_write net ns nodes fuel router.ring router.replication_factor key value r
      (make_router-IsCovered ns virtual_nodes factor c)
      (make_router-ne-nil ns virtual_nodes factor c) (omega (arith, short, enough)) valid fits

-- A ring with no virtual nodes stays empty.
add_nodes-nil :
    (ns : List NodeAddress) (h : HashRing)
    → h.virtual_nodes_per_node ≡ 0
    → h.ring ≡ []
    → (add_nodes ns h).ring ≡ []
unfolding add_nodes
add_nodes-nil [] h none_placed nil = nil
add_nodes-nil (n ∷ ns) h none_placed nil =
    add_nodes-nil ns (add_node h (id n)) (unfold add_node in none_placed)
      (unfold add_node assign_vnodes in ap (λ v. assign_vnodes v 0 (id n) h.ring) none_placed ∙ nil)

-- A router that was made with no virtual nodes throws at every request that it routes, whatever the
-- nodes, the factor and the state of the detector.
pub make_router_throws :
    (net : Network) (ns : List NodeAddress) (factor fuel : ℕ) (req : Request) (r : Routing net ns)
    → let router = make_router ns 0 factor in
      (route_read net ns fuel router.ring router.replication_factor req r ≡ threw)
      × (route_write net ns fuel router.ring router.replication_factor req r ≡ threw)
unfolding route_read route_write get_nodes make_router
make_router_throws net ns factor fuel req r =
    let nil = add_nodes-nil ns (empty 0) refl refl in (rw nil refl, rw nil refl)
