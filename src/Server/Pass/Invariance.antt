-- ===== src/Server/Pass/Invariance.antt =====
-- What a pass over the ready descriptors keeps.
use mathlib.Core.Option.{some-injective}
use distributed_kv_store.Prelude.{
  ℕ, zero, suc, ◌≤◌, ◌≡◌, ◌≢◌, refl, sym, ap, ◌∙◌, Bool, true, false, not, ◌||◌, List, [], ◌∷◌,
  ◌++◌, Option, none, some, arith, Bytes, get_elem?, length, ltb, if◌then◌else◌, ==_iff,
}
use distributed_kv_store.HashRing.{Outcome, returned, threw, running}
use distributed_kv_store.Socket.{OptionCalls}
use distributed_kv_store.Server.Connection.{
  ReadResult, WorkerReactor, accept_clients, accept_pending_clients, close_client, service_client,
  service_reads, close_if, swap_remove, pop_back,
}
use distributed_kv_store.Server.Connection.Table.{one_if, count, count-get_elem}
use distributed_kv_store.Server.Connection.Ending.{Ends, EndsIf, EndsIf-set, all_set}
use distributed_kv_store.Server.Connection.Lifetime.{
  Consistent, Reading, service_reads-Reading, close_client-Consistent,
  accept_pending_clients-Consistent,
}
use distributed_kv_store.Server.Pass.{go_on, visit_entry, service_ready, pass_over, turn}

-- The wakeup pipe stands first.
abbrev pub First : ℕ → List ℕ → Type 0
First wakeup fds = get_elem? fds 0 ≡ some wakeup

-- A later entry is another descriptor.
later_ne :
    (wakeup fd : ℕ) (xs : List ℕ) (i : ℕ)
    → First wakeup xs
    → count fd xs ≤ 1
    → get_elem? xs (suc i) ≡ some fd
    → fd ≢ wakeup
unfolding count
later_ne wakeup fd [] i first once there e = cc (first)
later_ne wakeup fd (x ∷ xs) i first once there e =
    let same : x ≡ fd = some-injective _ _ first ∙ sym e in
    omega (arith, once, count-get_elem xs i there, ap (λ y. one_if y fd) same, itself)
  where
    itself : one_if fd fd ≡ 1
    itself = ground (arith, ==_iff fd fd)

First-swap_remove :
    (wakeup : ℕ) (xs : List ℕ) (i : ℕ) {fd : ℕ}
    → First wakeup xs
    → get_elem? xs (suc i) ≡ some fd
    → First wakeup (swap_remove xs (suc i))
unfolding swap_remove pop_back
First-swap_remove wakeup [] i first there = cc (first)
First-swap_remove wakeup (x ∷ []) i first there = cc (there)
First-swap_remove wakeup (x ∷ y ∷ xs) zero first there = first
First-swap_remove wakeup (x ∷ y ∷ xs) (suc i) first there = first

module _ {World : Type 0} (deliver : ℕ → Bytes → World → World) (close : ℕ → World → World)
    (wakeup fuel : ℕ) (ready : ℕ → Bool) (reads : ℕ → List ReadResult) where
  abbrev Reactor : Type 0
  Reactor = WorkerReactor deliver close

  -- The table and the parsers are consistent, and the wakeup pipe stands first.
  pub record Ready (r : Reactor) : Type 0 where
    pub valid : Consistent deliver close wakeup r
    pub first : First wakeup r.poll_fds

  close_if-Ready :
      (i fd : ℕ) (r : Reactor) (x : Outcome (Bool × Reactor))
      → Ready r
      → get_elem? r.poll_fds (suc i) ≡ some fd
      → Ends (λ y. Reading deliver close wakeup r y.1) x
      → Ends Ready (close_if deliver close (suc i) fd x)
  close_if-Ready i fd r (returned (true, r')) v there h =
      let there' = ap (λ t. get_elem? t (suc i)) h.same_table ∙ there in
      let first' = ap (λ t. get_elem? t 0) h.same_table ∙ v.first in
      record {
        valid =
            close_client-Consistent deliver close wakeup (suc i) fd r' h.valid there'
              (later_ne wakeup fd r.poll_fds i v.first (omega (arith, v.valid.once fd)) there);
        first = unfold close_client in First-swap_remove wakeup r'.poll_fds i first' there';
      }
  close_if-Ready i fd r (returned (false, r')) v there h = record {
    valid = h.valid;
    first = ap (λ t. get_elem? t 0) h.same_table ∙ v.first;
  }
  close_if-Ready i fd r threw v there h = h
  close_if-Ready i fd r running v there h = tt

  service_client-Ready :
      (i fd : ℕ) (r : Reactor)
      → Ready r
      → get_elem? r.poll_fds (suc i) ≡ some fd
      → Ends Ready (service_client deliver close fuel (suc i) fd (reads fd) r)
  unfolding service_client
  service_client-Ready i fd r v there =
      close_if-Ready i fd r (service_reads deliver close fuel fd (reads fd) r) v there (
        service_reads-Reading deliver close wakeup fuel fd (reads fd) r v.valid
          (count-get_elem r.poll_fds (suc i) there)
          (later_ne wakeup fd r.poll_fds i v.first (omega (arith, v.valid.once fd)) there))

  go_on-Ready :
      (rest : ℕ → Reactor → Outcome Reactor) (i before : ℕ) (x : Outcome Reactor)
      → ((j : ℕ) (r : Reactor) → Ready r → Ends Ready (rest (suc j) r))
      → Ends Ready x
      → Ends Ready (go_on deliver close fuel ready reads rest (suc i) before x)
  go_on-Ready rest i before (returned r) k h = next (ltb (length r.poll_fds) before)
    where
      next : (b : Bool) → Ends Ready (if b then rest (suc i) r else rest (suc (suc i)) r)
      next true = k i r h
      next false = k (suc i) r h
  go_on-Ready rest i before threw k h = h
  go_on-Ready rest i before running k h = tt

  visit_entry-Ready :
      (rest : ℕ → Reactor → Outcome Reactor) (i : ℕ) (r : Reactor) (o : Option ℕ)
      → ((j : ℕ) (r : Reactor) → Ready r → Ends Ready (rest (suc j) r))
      → Ready r
      → get_elem? r.poll_fds (suc i) ≡ o
      → Ends Ready (visit_entry deliver close fuel ready reads rest (suc i) r o)
  visit_entry-Ready rest i r none k v there = v
  visit_entry-Ready rest i r (some fd) k v there = served (ready fd)
    where
      served :
          (b : Bool)
          → Ends Ready (
              if b
              then go_on deliver close fuel ready reads rest
                  (suc i)
                  (length r.poll_fds)
                  (service_client deliver close fuel (suc i) fd (reads fd) r)
              else rest (suc (suc i)) r)
      served true = go_on-Ready rest i _ _ k (service_client-Ready i fd r v there)
      served false = k (suc i) r v

  service_ready-Ready :
      (n i : ℕ) (r : Reactor)
      → Ready r
      → Ends Ready (service_ready deliver close fuel ready reads n (suc i) r)
  unfolding service_ready
  service_ready-Ready zero i r v = tt
  service_ready-Ready (suc n) i r v =
      visit_entry-Ready (service_ready deliver close fuel ready reads n) i r _
        (λ j r' v'. service_ready-Ready n j r' v') v refl

  accept_clients-First :
      (calls : ℕ → OptionCalls) (fds : List ℕ) (r : Reactor)
      → First wakeup r.poll_fds
      → EndsIf
          (all_set calls fds)
          (λ r'. First wakeup r'.poll_fds)
          (accept_clients deliver close calls fds r)
  unfolding accept_clients all_set
  accept_clients-First calls [] r h = h
  accept_clients-First calls (f ∷ fds) r h =
      EndsIf-set (λ (r' : Reactor). First wakeup r'.poll_fds) (calls f) (all_set calls fds) _
        (accept_clients-First calls fds _ (First-append r.poll_fds h))
    where
      First-append : (xs : List ℕ) → First wakeup xs → First wakeup (xs ++ f ∷ [])
      First-append [] h' = cc (h')
      First-append (x ∷ xs) h' = h'

  pass_over-Ready :
      (b : Bool) (x : Outcome Reactor)
      → EndsIf b (Consistent deliver close wakeup) x
      → EndsIf b (λ r'. First wakeup r'.poll_fds) x
      → EndsIf b Ready (pass_over deliver close fuel ready reads x)
  pass_over-Ready true (returned r) v first =
      service_ready-Ready _ 0 r (record { valid = v; first = first })
  pass_over-Ready true threw v first = v
  pass_over-Ready true running v first = tt
  pass_over-Ready false x v first = ap (pass_over deliver close fuel ready reads) v

  -- From a consistent table whose first entry is the wakeup pipe: once `::poll` has returned, a turn
  -- of the reactor's loop throws if and only if it takes over a pending client of which an option
  -- cannot be set; otherwise, whatever is ready and whatever the reads return, it leaves such a table
  -- where it returns, with any number of clients taken over and closed in between.
  pub turn-Ready :
      (calls : ℕ → OptionCalls) (woken : Bool) (r : Reactor)
      → Ready r
      → EndsIf
          (not woken || all_set calls r.pending_clients)
          Ready
          (turn deliver close fuel ready reads calls woken r)
  unfolding turn accept_pending_clients
  turn-Ready calls true r v =
      pass_over-Ready (all_set calls r.pending_clients) _
        (accept_pending_clients-Consistent deliver close wakeup calls r v.valid)
        (accept_clients-First calls r.pending_clients _ v.first)
  turn-Ready calls false r v = pass_over-Ready true (returned r) v.valid v.first
