-- ===== src/HashReport/Report.antt =====
-- `main` of tools/hash_report.cpp: its options, and the report that it prints, as far as counts. The
-- distance of a count from the ideal, in percent, is a parameter: it is floating point.
use distributed_kv_store.Prelude.{
  ℕ, zero, suc, ◌+◌, ◌<◌, ◌≡◌, ◌≢◌, refl, sym, ap, ◌∙◌, Bool, List, [], ◌∷◌, length, Option, none,
  some, arith, Bytes, codes, eq_bytes, if◌then◌else◌, Option-cases, inl, inr,
}
use distributed_kv_store.CommandLine.{Parsed}
use distributed_kv_store.CommandLine.Numbers.{stoul}
use distributed_kv_store.CommandLine.Options.{Flag, with_value, no_flag, assign_number, option_loop}
use distributed_kv_store.HashRing.{
  HashRing, empty, assign_vnodes, vnode_position, add_node, get_node,
}
use distributed_kv_store.HashReport.{
  Counts, keys_from, make_keys, increment, count_owner, tally, compute_modulo_balance,
  compute_ring_balance, numbered_owner, build_ring, reset_counts, modulo_moved, ring_moved,
  numbered_nodes, reset_count,
}
use distributed_kv_store.HashReport.Remap.{owned, moved_keys-owned, get_node-some}
use distributed_kv_store.HashRing.Divergence.{assign-ne-nil, assign_vnodes-ne-nil}

pub data ReportFlag : Type 0 where
  key_space_flag vnodes_flag output_flag : ReportFlag

unfoldable pub report_flag : Bytes → Flag ReportFlag
report_flag arg =
    if eq_bytes arg (codes "--key-space")
    then with_value key_space_flag
    else if eq_bytes arg (codes "--vnodes")
    then with_value vnodes_flag
    else if eq_bytes arg (codes "--output")
    then with_value output_flag
    else no_flag

pub record ReportOptions : Type 0 where
  pub key_space : ℕ
  pub vnodes : ℕ
  pub output_path : Bytes

unfoldable pub report_assign : ReportFlag → Bytes → ReportOptions → Option ReportOptions
report_assign key_space_flag v o = assign_number (stoul v) (λ n. record o { key_space = n })
report_assign vnodes_flag v o = assign_number (stoul v) (λ n. record o { vnodes = n })
report_assign output_flag v o = some (record o { output_path = v })

abbrev pub report_defaults : ReportOptions
report_defaults = record { key_space = 1000; vnodes = 150; output_path = [] }

-- `none` is an exception that ends the program.
unfoldable pub report_options : List Bytes → Option (Parsed ReportOptions)
unfolding option_loop report_assign report_flag
report_options argv = option_loop report_flag report_assign argv report_defaults

-- `stats.max_deviation_pct`
unfoldable pub max_deviation : {D : Type 0} → (D → D → Bool) → (ℕ → D) → Counts → D → D
max_deviation below deviation [] most = most
max_deviation below deviation ((node, n) ∷ counts) most =
    max_deviation below deviation counts (if below most (deviation n) then deviation n else most)

abbrev pub nodes3 : List Bytes
nodes3 = codes "nodeA" ∷ codes "nodeB" ∷ codes "nodeC" ∷ []

pub record Report : Type 0 where
  pub modulo_stats : Counts
  pub ring_stats : Counts
  pub modulo_remap : ℕ
  pub ring_remap : ℕ

abbrev report_of : Option Counts → Option Counts → ℕ → Option ℕ → Option Report
report_of (some modulo) (some ring) modulo_remap (some ring_remap) = some (record {
  modulo_stats = modulo;
  ring_stats = ring;
  modulo_remap = modulo_remap;
  ring_remap = ring_remap;
})
report_of _ _ _ _ = none

unfoldable pub make_report : ℕ → ℕ → Option Report
unfolding make_keys compute_modulo_balance compute_ring_balance modulo_moved ring_moved
make_report key_space vnodes =
    let keys = make_keys key_space in
    report_of (compute_modulo_balance keys 3) (compute_ring_balance keys nodes3 vnodes)
      (modulo_moved keys 3 4) (ring_moved keys nodes3 (codes "nodeD") vnodes)

unfoldable pub total : Counts → ℕ
total [] = 0
total ((node, n) ∷ counts) = n + total counts

total-increment : (id : Bytes) (counts : Counts) → total (increment id counts) ≡ total counts + 1
unfolding total increment
total-increment id [] = omega arith
total-increment id ((node, n) ∷ counts) = ground (arith, total-increment id counts)

total-reset_count :
    (id : Bytes) (counts : Counts) → total counts ≡ 0 → total (reset_count id counts) ≡ 0
unfolding total reset_count
total-reset_count id [] h = refl
total-reset_count id ((node, n) ∷ counts) h = ground (arith, h, total-reset_count id counts)

total-reset_counts :
    (ids : List Bytes) (counts : Counts) → total counts ≡ 0 → total (reset_counts ids counts) ≡ 0
unfolding reset_counts
total-reset_counts [] counts h = h
total-reset_counts (id ∷ ids) counts h =
    total-reset_counts ids (reset_count id counts) (total-reset_count id counts h)

-- Keys that all have a node are all counted.
total-tally :
    (choose : Bytes → Option Bytes) (keys : List Bytes) (counts : Counts)
    → ((k : Bytes) → choose k ≢ none)
    → (counts' : Counts) × (tally choose keys counts ≡ some counts')
      × (total counts' ≡ total counts + length keys)
unfolding tally
total-tally choose [] counts all = (counts, refl, omega arith)
total-tally choose (k ∷ ks) counts all = elim (Option-cases (choose k)) [
  | inl missing ↦ absurd (all k missing)
  | inr (o, e) ↦
      let (counts', done, right) = total-tally choose ks (increment o counts) all in
      (
        counts',
        ap (λ x. count_owner (tally choose ks) x counts) e ∙ done,
        omega (arith, right, total-increment o counts),
      )
]

length-keys_from : (i n : ℕ) → length (keys_from i n) ≡ n
unfolding keys_from
length-keys_from i zero = refl
length-keys_from i (suc n) = ap suc (length-keys_from (i + 1) n)

add_node-ne-nil :
    (h : HashRing) (id : Bytes) → 0 < h.virtual_nodes_per_node → (add_node h id).ring ≢ []
unfolding add_node assign_vnodes
add_node-ne-nil h id some_vnodes = filled h.virtual_nodes_per_node some_vnodes
  where
    filled : (n : ℕ) → 0 < n → assign_vnodes n 0 id h.ring ≢ []
    filled zero pos = absurd (omega arith)
    filled (suc n) pos =
        assign_vnodes-ne-nil n 1 id _ (assign-ne-nil (vnode_position id 0) id h.ring)

-- The ring of the report is not empty.
ring3-ne-nil : (vnodes : ℕ) → 0 < vnodes → (build_ring nodes3 (empty vnodes)).ring ≢ []
unfolding build_ring
ring3-ne-nil vnodes h =
    add_node-ne-nil (add_node (add_node (empty vnodes) (codes "nodeA")) (codes "nodeB"))
      (codes "nodeC") (unfold add_node in h)

get_node-ne-none : (ring : HashRing) (k : Bytes) → ring.ring ≢ [] → get_node ring k ≢ none
get_node-ne-none ring k ne =
    let (o, e) = get_node-some ring k ne in λ missing. some-ne-none (sym e ∙ missing)
  where
    some-ne-none : {o : Bytes} → some o ≢ none
    some-ne-none = λ h. cc

-- With at least one virtual node for each node, the report is made, whatever the number of keys: no
-- lookup throws, and each of its two balances counts every key once. The number of keys that the ring
-- is said to move is what the fourth node owns more of them, after it joined.
pub make_report-total :
    (key_space vnodes : ℕ)
    → 0 < vnodes
    → (r : Report) × (make_report key_space vnodes ≡ some r)
      × (total r.modulo_stats ≡ key_space)
      × (total r.ring_stats ≡ key_space)
      × (owned
            (get_node (add_node (build_ring nodes3 (empty vnodes)) (codes "nodeD")))
            (codes "nodeD")
            (make_keys key_space)
          ≡ owned
              (get_node (build_ring nodes3 (empty vnodes)))
              (codes "nodeD")
              (make_keys key_space)
            + r.ring_remap)
unfolding make_report compute_modulo_balance compute_ring_balance make_keys ring_moved
make_report-total key_space vnodes h =
    let keys = make_keys key_space in
    let len = length-keys_from 0 key_space in
    let fresh = λ (ids : List Bytes). total-reset_counts ids [] (unfold total in refl) in
    let ring = build_ring nodes3 (empty vnodes) in
    let ne = ring3-ne-nil vnodes h in
    let (modulo, modulo_made, modulo_total) =
      total-tally (numbered_owner 3) keys (reset_counts (numbered_nodes 0 3) []) (λ k e. cc) in
    let (balance, balance_made, balance_total) =
      total-tally (get_node ring) keys (reset_counts nodes3 []) (λ k. get_node-ne-none ring k ne) in
    let (moved, moved_made, share) = moved_keys-owned ring (codes "nodeD") keys ne in
    (
      record {
        modulo_stats = modulo;
        ring_stats = balance;
        modulo_remap = modulo_moved keys 3 4;
        ring_remap = moved;
      },
      rw (modulo_made, balance_made, moved_made) refl,
      omega (arith, modulo_total, len, fresh (numbered_nodes 0 3)),
      omega (arith, balance_total, len, fresh nodes3),
      share,
    )
