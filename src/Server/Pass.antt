-- ===== src/Server/Pass.antt =====
-- One turn of `WorkerReactor::run` (server/worker_reactor.cpp) after `::poll`: the pending clients if
-- the wakeup pipe is readable, then the pass over the ready descriptors, in which a closed client's
-- entry is replaced by the last one, so that the index is looked at again. What `::poll` reported and
-- what the reads of each descriptor will return are arguments; a descriptor that was taken over in
-- this turn is not ready.
pub mod Invariance
use distributed_kv_store.Prelude.{
  ℕ, zero, suc, ◌+◌, Bool, true, false, List, [], ◌∷◌, Option, none, some, Bytes, get_elem?, length,
  ltb, if◌then◌else◌,
}
use distributed_kv_store.HashRing.{Outcome, returned, threw, running}
use distributed_kv_store.Socket.{OptionCalls}
use distributed_kv_store.Server.Connection.{
  ReadResult, WorkerReactor, accept_pending_clients, service_client,
}

module _ {World : Type 0} (deliver : ℕ → Bytes → World → World) (close : ℕ → World → World)
    (fuel : ℕ) (ready : ℕ → Bool) (reads : ℕ → List ReadResult) where
  -- After a client was served; `rest` is the loop at an index.
  abbrev pub go_on :
      (ℕ → WorkerReactor deliver close → Outcome (WorkerReactor deliver close))
      → ℕ
      → ℕ
      → Outcome (WorkerReactor deliver close)
      → Outcome (WorkerReactor deliver close)
  go_on rest i before (returned r) =
      if ltb (length r.poll_fds) before then rest i r else rest (suc i) r
  go_on rest i before threw = threw
  go_on rest i before running = running

  abbrev pub visit_entry :
      (ℕ → WorkerReactor deliver close → Outcome (WorkerReactor deliver close))
      → ℕ
      → WorkerReactor deliver close
      → Option ℕ
      → Outcome (WorkerReactor deliver close)
  visit_entry rest i r none = returned r
  visit_entry rest i r (some fd) =
      if ready fd
      then go_on rest i (length r.poll_fds) (service_client deliver close fuel i fd (reads fd) r)
      else rest (suc i) r

  -- The pass from index `i` on; the first argument bounds the rounds.
  unfoldable pub service_ready :
      ℕ → ℕ → WorkerReactor deliver close → Outcome (WorkerReactor deliver close)
  service_ready zero i r = running
  service_ready (suc n) i r = visit_entry (service_ready n) i r (get_elem? r.poll_fds i)

  -- The pass over the table that is there once the pending clients were taken over: one round for
  -- each entry and one more.
  abbrev pub pass_over :
      Outcome (WorkerReactor deliver close) → Outcome (WorkerReactor deliver close)
  pass_over (returned r) = service_ready (suc (length r.poll_fds)) 1 r
  pass_over threw = threw
  pass_over running = running

  unfoldable pub turn :
      (ℕ → OptionCalls) → Bool → WorkerReactor deliver close → Outcome (WorkerReactor deliver close)
  unfolding service_ready
  turn calls woken r =
      pass_over (if woken then accept_pending_clients deliver close calls r else returned r)
