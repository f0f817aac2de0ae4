-- ===== src/CommandLine/Nodes/RoundTrip.antt =====
-- A list of addresses, written as an argument and parsed again.
use distributed_kv_store.Prelude.{
  ℕ, ◌^◌, ◌<◌, ◌≡◌, ◌≢◌, refl, sym, ap, ◌∙◌, false, List, [], ◌∷◌, ◌++◌, append_assoc, append-nil,
  map, none, some, inl, inr, Bytes, codes, All, Lacks, All-append, length, take-length,
  drop-suc-length, ◌==◌, arith, Bool-cases, ==_iff,
}
use distributed_kv_store.Protocol.Text.{to_string}
use distributed_kv_store.Protocol.Text.Decimal.{to_string-Lacks}
use distributed_kv_store.Router.FailureDetector.{NodeAddress, id}
use distributed_kv_store.CommandLine.Numbers.{to_unsigned-small}
use distributed_kv_store.CommandLine.Nodes.{
  comma, colon, last_item, items_from, rfind?, parse_node, parse_items, parse_nodes,
}

-- The ids of the nodes behind the first, each after a comma.
unfoldable pub more_ids : List NodeAddress → Bytes
more_ids [] = []
more_ids (n ∷ ns) = comma ∷ (id n ++ more_ids ns)

-- The argument that lists the nodes.
unfoldable pub print_nodes : List NodeAddress → Bytes
unfolding more_ids
print_nodes [] = []
print_nodes (n ∷ ns) = id n ++ more_ids ns

-- A host with no comma in its name, and a 16-bit port.
pub record Listable (n : NodeAddress) : Type 0 where
  pub plain : Lacks comma n.host
  pub port_fits : n.port < 2 ^ 16

items_from-plain :
    (item s t : Bytes) → Lacks comma s → items_from item (s ++ t) ≡ items_from (item ++ s) t
unfolding items_from
items_from-plain item [] t h = ap (λ x. items_from x t) (sym (append-nil item))
items_from-plain item (c ∷ s) t (hc, hs) =
    let other : (c == comma) ≡ false = ground (arith, ==_iff c comma) in
    rw (other, items_from)
      (items_from-plain (item ++ c ∷ []) s t hs
        ∙ ap (λ x. items_from x t) (append_assoc item (c ∷ []) s))

rfind?-Lacks : (c : ℕ) (s : Bytes) → Lacks c s → rfind? c s ≡ none
unfolding rfind?
rfind?-Lacks c [] h = refl
rfind?-Lacks c (d ∷ s) h = ground (arith, rfind?-Lacks c s)

rfind?-last : (c : ℕ) (s t : Bytes) → Lacks c t → rfind? c (s ++ c ∷ t) ≡ some (length s)
unfolding rfind?
rfind?-last c [] t h = ground (arith, rfind?-Lacks c t)
rfind?-last c (d ∷ s) t h = rw (rfind?-last c s t h) refl

-- An id is read back as its address: the last colon is the one before the port.
pub parse_node-id : (n : NodeAddress) → n.port < 2 ^ 16 → parse_node (id n) ≡ some n
unfolding parse_node id
parse_node-id n fits =
    let split = append_assoc n.host (codes ":") (to_string n.port) in
    let there = rfind?-last colon n.host (to_string n.port) (to_string-Lacks colon n.port refl) in
    rw
      (
        split,
        there,
        take-length n.host (colon ∷ to_string n.port),
        drop-suc-length n.host colon (to_string n.port),
        to_unsigned-small 16 n.port (omega (arith, fits)) fits,
      )
      refl

id-Lacks : (n : NodeAddress) → Listable n → Lacks comma (id n)
unfolding id
id-Lacks n h =
    All-append (λ c. c ≢ comma) (n.host ++ codes ":") (to_string n.port)
      (All-append (λ c. c ≢ comma) n.host (codes ":") h.plain (omega arith))
      (to_string-Lacks comma n.port refl)

pub id-filled : (n : NodeAddress) → id n ≢ []
unfolding id
id-filled n = filled n.host (to_string n.port)
  where
    filled : (s t : Bytes) → (s ++ codes ":") ++ t ≢ []
    filled [] t h = cc (h)
    filled (c ∷ s) t h = cc (h)

last_item-filled : (s : Bytes) → s ≢ [] → last_item s ≡ s ∷ []
last_item-filled [] h = absurd (h refl)
last_item-filled (c ∷ s) h = refl

-- The items of the list are the ids.
items_from-ids :
    (n : NodeAddress) (ns : List NodeAddress)
    → All Listable (n ∷ ns)
    → items_from [] (id n ++ more_ids ns) ≡ id n ∷ map id ns
unfolding items_from more_ids
items_from-ids n [] (h, hs) =
    items_from-plain [] (id n) [] (id-Lacks n h) ∙ last_item-filled (id n) (id-filled n)
items_from-ids n (m ∷ ns) (h, hs) =
    items_from-plain [] (id n) (comma ∷ (id m ++ more_ids ns)) (id-Lacks n h)
    ∙ ap (λ t. id n ∷ t) (items_from-ids m ns hs)

parse_items-ids : (ns : List NodeAddress) → All Listable ns → parse_items (map id ns) ≡ some ns
unfolding parse_items
parse_items-ids [] h = refl
parse_items-ids (n ∷ ns) (h, hs) = rw (parse_node-id n h.port_fits, parse_items-ids ns hs) refl

-- Any list of addresses whose hosts hold no comma and whose ports are 16-bit numbers is read back
-- from the argument that lists their ids; a host may hold colons.
pub parse_nodes-print_nodes :
    (ns : List NodeAddress) → All Listable ns → parse_nodes (print_nodes ns) ≡ some ns
unfolding parse_nodes print_nodes
parse_nodes-print_nodes [] h = refl
parse_nodes-print_nodes (n ∷ ns) h =
    ap parse_items (items_from-ids n ns h) ∙ parse_items-ids (n ∷ ns) h

-- An argument that is not empty has an item.
pub items_from-filled : (item s : Bytes) → item ++ s ≢ [] → items_from item s ≢ []
unfolding items_from
items_from-filled [] [] h e = h refl
items_from-filled (c ∷ item) [] h e = cc (e)
items_from-filled item (c ∷ s) h e = elim (Bool-cases (c == comma)) [
  | inl cut ↦ let e' = rw (cut, items_from) at e in cc (e')
  | inr kept ↦
      items_from-filled (item ++ c ∷ []) s (λ empty. filled item s empty)
        (rw (kept, items_from) at e)
]
  where
    filled : (a b : Bytes) → (a ++ c ∷ []) ++ b ≢ []
    filled [] b h' = cc (h')
    filled (d ∷ a) b h' = cc (h')
