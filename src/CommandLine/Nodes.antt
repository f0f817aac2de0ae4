-- ===== src/CommandLine/Nodes.antt =====
-- `parse_nodes` of router/main.cpp: the list of the backend addresses.
pub mod RoundTrip
use distributed_kv_store.Prelude.{
  ℕ, suc, ◌+◌, ◌^◌, ◌<◌, ◌≡◌, ◌≢◌, refl, sym, ap, ◌∙◌, Bool, true, false, List, [], ◌∷◌, ◌++◌,
  append_assoc, append-nil, map, Option, none, some, ◌⊎◌, inl, inr, Bytes, codes, All, Lacks,
  length, take, drop, take-length, drop-suc-length, ◌==◌, if◌then◌else◌, arith, Bool-cases, ==_iff,
}
use distributed_kv_store.Protocol.Text.{to_string}
use distributed_kv_store.Protocol.Text.Decimal.{to_string-Lacks}
use distributed_kv_store.Router.FailureDetector.{NodeAddress, id}
use distributed_kv_store.CommandLine.Numbers.{atoi, to_unsigned, to_unsigned-small}

abbrev pub comma : ℕ
comma = b','

abbrev pub colon : ℕ
colon = b':'

-- A last piece that is empty is no item.
abbrev pub last_item : Bytes → List Bytes
last_item [] = []
last_item (c ∷ s) = (c ∷ s) ∷ []

-- The items that `std::getline` returns, with the part of one that was read.
unfoldable pub items_from : Bytes → Bytes → List Bytes
items_from item [] = last_item item
items_from item (c ∷ list) = elim (c == comma) [
  | true ↦ item ∷ items_from [] list
  | false ↦ items_from (item ++ c ∷ []) list
]

abbrev pub position_behind : ℕ → ℕ → Option ℕ → Option ℕ
position_behind c d (some n) = some (suc n)
position_behind c d none = if d == c then some 0 else none

-- item.rfind(c): the last position of the byte.
unfoldable pub rfind? : ℕ → Bytes → Option ℕ
rfind? c [] = none
rfind? c (d ∷ s) = position_behind c d (rfind? c s)

abbrev pub split_at : Bytes → Option ℕ → Option NodeAddress
split_at item none = none
split_at item (some n) =
    some (record { host = take n item; port = to_unsigned 16 (atoi (drop (suc n) item)) })

-- `none` is the exception for an item with no colon.
unfoldable pub parse_node : Bytes → Option NodeAddress
unfolding rfind?
parse_node item = split_at item (rfind? colon item)

abbrev pub push_node : Option NodeAddress → Option (List NodeAddress) → Option (List NodeAddress)
push_node (some n) (some ns) = some (n ∷ ns)
push_node _ _ = none

unfoldable pub parse_items : List Bytes → Option (List NodeAddress)
unfolding parse_node
parse_items [] = some []
parse_items (item ∷ items) = push_node (parse_node item) (parse_items items)

unfoldable pub parse_nodes : Bytes → Option (List NodeAddress)
unfolding items_from parse_items
parse_nodes list = parse_items (items_from [] list)
