-- ===== src/CommandLine/Router.antt =====
-- `main` of router/main.cpp: the options, the tests on them, and what it starts.
use distributed_kv_store.Prelude.{
  ℕ, ◌^◌, ◌<◌, ◌≡◌, ◌≢◌, refl, Bool, true, false, List, [], ◌∷◌, ◌++◌, Option, none, some, Bytes,
  codes, eq_bytes, ◌==◌, if◌then◌else◌, arith, All,
}
use distributed_kv_store.Protocol.Text.{to_string}
use distributed_kv_store.Router.FailureDetector.{NodeAddress, id}
use distributed_kv_store.CommandLine.{Parsed, exited, parsed, help_or_unknown}
use distributed_kv_store.CommandLine.Numbers.{atoi, to_unsigned, to_unsigned-small}
use distributed_kv_store.CommandLine.Nodes.{parse_nodes}
use distributed_kv_store.CommandLine.Nodes.RoundTrip.{
  print_nodes, more_ids, Listable, parse_nodes-print_nodes, id-filled,
}

pub record RouterOptions : Type 0 where
  pub port : ℕ
  pub vnodes : ℕ
  pub replicas : ℕ
  pub nodes_arg : Bytes

abbrev pub router_defaults : RouterOptions
router_defaults = record { port = 6380; vnodes = 150; replicas = 2; nodes_arg = [] }

pub data RouterFlag : Type 0 where
  port_flag nodes_flag vnodes_flag replicas_flag other_flag : RouterFlag

unfoldable pub router_flag : Bytes → RouterFlag
router_flag arg =
    if eq_bytes arg (codes "--port")
    then port_flag
    else if eq_bytes arg (codes "--nodes")
    then nodes_flag
    else if eq_bytes arg (codes "--vnodes")
    then vnodes_flag
    else if eq_bytes arg (codes "--replicas")
    then replicas_flag
    else other_flag

-- An option at the end of the line has no value and is not known.
unfoldable pub router_loop : List Bytes → RouterOptions → Parsed RouterOptions
router_loop [] o = parsed o
router_loop (arg ∷ []) o = help_or_unknown arg
router_loop (arg ∷ value ∷ rest) o = elim (router_flag arg) [
  | port_flag ↦ router_loop rest (record o { port = to_unsigned 16 (atoi value) })
  | nodes_flag ↦ router_loop rest (record o { nodes_arg = value })
  | vnodes_flag ↦ router_loop rest (record o { vnodes = to_unsigned 64 (atoi value) })
  | replicas_flag ↦ router_loop rest (record o { replicas = to_unsigned 64 (atoi value) })
  | other_flag ↦ help_or_unknown arg
]

-- What the constructor of `Router` is called with.
pub record RouterArgs : Type 0 where
  pub port : ℕ
  pub nodes : List NodeAddress
  pub vnodes : ℕ
  pub replicas : ℕ

-- The exception of `parse_nodes` ends the program with 1, as an empty list does.
abbrev pub with_nodes_of : RouterOptions → Option (List NodeAddress) → Parsed RouterArgs
with_nodes_of o none = exited 1
with_nodes_of o (some []) = exited 1
with_nodes_of o (some (n ∷ ns)) =
    parsed (record { port = o.port; nodes = n ∷ ns; vnodes = o.vnodes; replicas = o.replicas })

abbrev pub is_empty : Bytes → Bool
is_empty [] = true
is_empty (c ∷ s) = false

abbrev pub check_options : Parsed RouterOptions → Parsed RouterArgs
check_options (exited code) = exited code
check_options (parsed o) =
    if is_empty o.nodes_arg
    then exited 1
    else if o.replicas == 0
    then exited 1
    else with_nodes_of o (parse_nodes o.nodes_arg)

unfoldable pub router_main : List Bytes → Parsed RouterArgs
unfolding router_loop
router_main argv = check_options (router_loop argv router_defaults)

abbrev pub router_command_line : RouterArgs → List Bytes
router_command_line a =
    codes "--nodes"
    ∷ print_nodes a.nodes
    ∷ codes "--port"
    ∷ to_string a.port
    ∷ codes "--vnodes"
    ∷ to_string a.vnodes
    ∷ codes "--replicas"
    ∷ to_string a.replicas
    ∷ []

-- What the router can be told: some nodes, and numbers that an `int` and their types can hold.
pub record Tellable (a : RouterArgs) : Type 0 where
  pub some_nodes : a.nodes ≢ []
  pub listable : All Listable a.nodes
  pub port_fits : a.port < 2 ^ 16
  pub vnodes_fit : a.vnodes < 2 ^ 31
  pub some_replicas : 0 < a.replicas
  pub replicas_fit : a.replicas < 2 ^ 31

print_nodes-filled : (ns : List NodeAddress) → ns ≢ [] → is_empty (print_nodes ns) ≡ false
unfolding print_nodes
print_nodes-filled [] h = absurd (h refl)
print_nodes-filled (n ∷ ns) h = filled (id n) (more_ids ns) (id-filled n)
  where
    filled : (s t : Bytes) → s ≢ [] → is_empty (s ++ t) ≡ false
    filled [] t h' = absurd (h' refl)
    filled (c ∷ s) t h' = refl

-- For some nodes whose hosts hold no comma, 16-bit ports, at least one replica, and numbers of
-- virtual nodes and of replicas below 2 ^ 31: nodes, port, virtual nodes and replicas, written as
-- options, are what the router is started with.
pub router_main-command_line :
    (a : RouterArgs) → Tellable a → router_main (router_command_line a) ≡ parsed a
unfolding router_main router_flag eq_bytes
router_main-command_line a h =
    let more : (a.replicas == 0) ≡ false = ground (arith, h.some_replicas) in
    rw
      (
        to_unsigned-small 16 a.port (omega (arith, h.port_fits)) h.port_fits,
        to_unsigned-small 64 a.vnodes h.vnodes_fit (omega (arith, h.vnodes_fit)),
        to_unsigned-small 64 a.replicas h.replicas_fit (omega (arith, h.replicas_fit)),
        print_nodes-filled a.nodes h.some_nodes,
        more,
        parse_nodes-print_nodes a.nodes h.listable,
      )
      (started a.nodes h.some_nodes)
  where
    started :
        (ns : List NodeAddress)
        → ns ≢ []
        → with_nodes_of
            (record {
              port = a.port;
              vnodes = a.vnodes;
              replicas = a.replicas;
              nodes_arg = print_nodes a.nodes;
            })
            (some ns)
          ≡ parsed (record { port = a.port; nodes = ns; vnodes = a.vnodes; replicas = a.replicas })
    started [] ne = absurd (ne refl)
    started (n ∷ ns) ne = refl
