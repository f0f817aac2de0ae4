-- ===== src/Router/History.antt =====
-- Any number of requests through the router, one after the other, against one dictionary, as long as
-- the heartbeat marks no node up that was down: docs/REPLICATION.md names what is lost where it does.
pub mod InSync
pub mod Responses
use mathlib.Core.Path.{subst}
use distributed_kv_store.Prelude.{
  ℕ, ◌*◌, ◌<◌, ◌≡◌, ◌≢◌, refl, sym, ap, ◌∙◌, Bool, true, false, List, [], ◌∷◌, Option, none, some,
  ◌⊎◌, inl, inr, arith, Bytes, eq_bytes, eq_bytes_iff, length, min, Bool-cases, Option-cases,
  if◌then◌else◌,
}
use distributed_kv_store.Protocol.Messages.{
  Command, Request, Response, ResponseType, get, set, delete, ping,
}
use distributed_kv_store.Protocol.RequestParser.RoundTrip.{Sendable}
use distributed_kv_store.KvStore.Refinement.{Dictionary, update}
use distributed_kv_store.Server.Requests.{answer_to}
use distributed_kv_store.HashRing.{HashRing, Outcome, returned, threw, running, contains, get_nodes}
use distributed_kv_store.HashRing.Distinct.{Distinct}
use distributed_kv_store.Router.FailureDetector.{NodeAddress, is_alive, mark_down, is_alive-mark}
use distributed_kv_store.Router.Routing.{
  Network, Routing, read_from, write_from, route_read, route_write, or_error, with_nodes,
  no_live_replica_error,
}
use distributed_kv_store.Router.Failover.{
  tried, tried-down, tried_failed, read_from-down, write_from-down, read_from_skip, read_from_try,
  next_read_failed, next_read_answered,
}
use distributed_kv_store.Router.Replication.{
  Nodes, view_at, try_node-other, try_node-answered, write_from-other,
}
use distributed_kv_store.Router.Consistency.{write_from-Applied, read_from-Answers}

-- What happens to the router's state: a request of its client, or the report of another thread's
-- request that a node failed.
pub data Act : Type 0 where
  requested : Request → Act
  reported : Bytes → Act

-- The dictionary after the requests.
unfoldable pub held_after : List Act → Dictionary → Dictionary
held_after [] d = d
held_after (requested req ∷ acts) d = held_after acts (answer_to req.command req d).1
held_after (reported node ∷ acts) d = held_after acts d

abbrev pub Allowed : List Act → Type 0
Allowed [] = Unit
Allowed (requested req ∷ acts) = Sendable req.command req × Allowed acts
Allowed (reported node ∷ acts) = Allowed acts

-- A GET returns what the dictionary holds, or the error that no replica answered.
abbrev pub RightFor : Command → Request → Dictionary → Response → Type 0
RightFor get req d resp =
    (resp ≡ (answer_to get req d).0) ⊎ ((tried : ℕ) × (resp ≡ no_live_replica_error tried))
RightFor _ req d resp = Unit

abbrev pub AllRight : List Act → Dictionary → List Response → Type 0
AllRight [] d [] = Unit
AllRight [] d (resp ∷ resps) = ⊥
AllRight (requested req ∷ acts) d [] = ⊥
AllRight (requested req ∷ acts) d (resp ∷ resps) =
    RightFor req.command req d resp × AllRight acts (answer_to req.command req d).1 resps
AllRight (reported node ∷ acts) d resps = AllRight acts d resps

module _ (net : Network) (addresses : List NodeAddress) (fuel : ℕ) (ring : HashRing)
    (factor : ℕ) where
  -- `route_read` or `route_write`, by the command; the router answers a PING itself.
  unfoldable pub route_by :
      Command → Request → Routing net addresses → Outcome (Response × Routing net addresses)
  route_by ping req r = returned (record { kind = ResponseType.pong; value = []; message = [] }, r)
  route_by get req r = route_read net addresses fuel ring factor req r
  route_by set req r = route_write net addresses fuel ring factor req r
  route_by delete req r = route_write net addresses fuel ring factor req r

  abbrev pub Trace : Type 0
  Trace = Outcome (List Response × Routing net addresses)

  abbrev pub put_first : Response → Trace → Trace
  put_first resp (returned (resps, r)) = returned (resp ∷ resps, r)
  put_first resp threw = threw
  put_first resp running = running

  abbrev pub after_request :
      (Routing net addresses → Trace) → Outcome (Response × Routing net addresses) → Trace
  after_request rest (returned (resp, r)) = put_first resp (rest r)
  after_request rest threw = threw
  after_request rest running = running

  -- The responses, and the state behind them.
  unfoldable pub act_all : List Act → Routing net addresses → Trace
  unfolding route_by
  act_all [] r = returned ([], r)
  act_all (requested req ∷ acts) r = after_request (act_all acts) (route_by req.command req r)
  act_all (reported node ∷ acts) r = act_all acts (record r { alive = mark_down node r.alive })
