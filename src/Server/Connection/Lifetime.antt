-- ===== src/Server/Connection/Lifetime.antt =====
-- A reactor's clients: each descriptor stands once in the poll table, with one parser, or waits to
-- be taken over, whatever the reads return.
use distributed_kv_store.Prelude.{
  ℕ, ◌+◌, ◌≤◌, ◌≡◌, ◌≢◌, refl, ap, ◌∙◌, Bool, true, false, List, [], ◌∷◌, Option, none, some, arith,
  Bytes, get_elem?, length, ltb, ==_iff, if◌then◌else◌,
}
use distributed_kv_store.Protocol.Messages.{Parser}
use distributed_kv_store.Protocol.RequestParser.{feed}
use distributed_kv_store.Protocol.RequestLoop.{answer_requests}
use distributed_kv_store.KvStore.{KvStore}
use distributed_kv_store.HashRing.{Outcome, returned, threw, running}
use distributed_kv_store.Socket.{OptionCalls}
use distributed_kv_store.Server.Connection.Ending.{Ends, EndsIf, EndsIf-set, all_set}
use distributed_kv_store.Server.Connection.{
  find_parser, ReadResult, received, end_of_file, no_data, interrupted, failed, WorkerReactor,
  react, answered, take_in, next_round, buffer_size, enqueue_client, accept_clients,
  accept_pending_clients, close_client, service_reads, close_if, service_client,
}
use distributed_kv_store.Server.Connection.Table.{
  one_if, count, count_keys, count-append, count-swap_remove, count_keys-put, count_keys-emplace,
  count_keys-erase, find_parser-there, count-get_elem,
}

module _ {World : Type 0} (deliver : ℕ → Bytes → World → World) (close : ℕ → World → World)
    (wakeup : ℕ) where
  abbrev Reactor : Type 0
  Reactor = WorkerReactor deliver close

  -- The descriptors of the table are the wakeup pipe and the keys of the parsers, and no descriptor
  -- stands twice in the table and among the pending clients.
  pub record Consistent (r : Reactor) : Type 0 where
    pub matched : (fd : ℕ) → count fd r.poll_fds ≡ count_keys fd r.parsers + one_if wakeup fd
    pub once : (fd : ℕ) → count fd r.poll_fds + count fd r.pending_clients ≤ 1

  -- A client that waits for the reactor, where the operating system has handed out a new descriptor.
  pub enqueue_client-Consistent :
      (fd : ℕ) (r : Reactor)
      → Consistent r
      → count fd r.poll_fds + count fd r.pending_clients ≡ 0
      → Consistent (enqueue_client deliver close fd r)
  unfolding enqueue_client
  enqueue_client-Consistent fd r v fresh = record {
    matched = v.matched;
    once = λ n.
        unfold count in
        ground (arith, v.once n, ==_iff fd n, count-append n r.pending_clients (fd ∷ []));
  }

  -- What holds while the clients that were swapped out are taken over.
  record Taking (fds : List ℕ) (r : Reactor) : Type 0 where
    matched : (fd : ℕ) → count fd r.poll_fds ≡ count_keys fd r.parsers + one_if wakeup fd
    once : (fd : ℕ) → count fd r.poll_fds + count fd fds ≤ 1
    none_pending : r.pending_clients ≡ []

  accept_clients-Consistent :
      (calls : ℕ → OptionCalls) (fds : List ℕ) (r : Reactor)
      → Taking fds r
      → EndsIf (all_set calls fds) Consistent (accept_clients deliver close calls fds r)
  unfolding accept_clients count all_set
  accept_clients-Consistent calls [] r v = record {
    matched = v.matched;
    once = λ fd. omega (arith, v.once fd, ap (count fd) v.none_pending);
  }
  accept_clients-Consistent calls (f ∷ fds) r v =
      let f_once = v.once f in
      let itself : one_if f f ≡ 1 = ground (arith, ==_iff f f) in
      let new_key : count_keys f r.parsers ≡ 0 = omega (arith, v.matched f, f_once, itself) in
      EndsIf-set Consistent (calls f) (all_set calls fds) _ (
        accept_clients-Consistent calls fds _ (record {
          matched = λ fd. omega (
            arith,
            v.matched fd,
            count-append fd r.poll_fds (f ∷ []),
            count_keys-emplace fd f r.parsers new_key,
          );
          once = λ fd. omega (arith, v.once fd, count-append fd r.poll_fds (f ∷ []));
          none_pending = v.none_pending;
        }))

  -- From a consistent state, taking over the pending clients leaves the table and the parsers
  -- consistent if every call that sets an option succeeds, and else it throws.
  pub accept_pending_clients-Consistent :
      (calls : ℕ → OptionCalls) (r : Reactor)
      → Consistent r
      → EndsIf
          (all_set calls r.pending_clients)
          Consistent
          (accept_pending_clients deliver close calls r)
  unfolding accept_pending_clients
  accept_pending_clients-Consistent calls r v =
      accept_clients-Consistent calls r.pending_clients _
        (record { matched = v.matched; once = v.once; none_pending = refl })

  pub close_client-Consistent :
      (i fd : ℕ) (r : Reactor)
      → Consistent r
      → get_elem? r.poll_fds i ≡ some fd
      → fd ≢ wakeup
      → Consistent (close_client deliver close i fd r)
  unfolding close_client
  close_client-Consistent i fd r v there client =
      let listed = count-get_elem r.poll_fds i there in
      let apart : one_if wakeup fd ≡ 0 = ground (arith, ==_iff wakeup fd) in
      let one_key : count_keys fd r.parsers ≡ 1 =
        omega (arith, listed, v.once fd, v.matched fd, apart) in
      record {
        matched = λ n. omega (
          arith,
          v.matched n,
          count-swap_remove n r.poll_fds i there,
          count_keys-erase n fd r.parsers one_key,
        );
        once = λ n. omega (arith, v.once n, count-swap_remove n r.poll_fds i there);
      }

  -- The reads of one client leave the table and the pending clients as they are.
  pub record Reading (r r' : Reactor) : Type 0 where
    pub valid : Consistent r'
    pub same_table : r'.poll_fds ≡ r.poll_fds
    pub same_pending : r'.pending_clients ≡ r.pending_clients

  read-itself : (r : Reactor) → Consistent r → Reading r r
  read-itself r v = record { valid = v; same_table = refl; same_pending = refl }

  Reading-trans : (r r' r'' : Reactor) → Reading r r' → Reading r' r'' → Reading r r''
  Reading-trans r r' r'' a b = record {
    valid = b.valid;
    same_table = b.same_table ∙ a.same_table;
    same_pending = b.same_pending ∙ a.same_pending;
  }

  answered-Reading :
      (fd : ℕ) (r : Reactor) (x : Option (Parser × (KvStore × World)))
      → Consistent r
      → Ends (Reading r) (answered deliver close fd r x)
  answered-Reading fd r none v = tt
  answered-Reading fd r (some (p, (s, w))) v = record {
    valid = record {
      matched = λ n. omega (arith, v.matched n, count_keys-put n fd p r.parsers);
      once = v.once;
    };
    same_table = refl;
    same_pending = refl;
  }

  -- The parser of a client is there, so that no lookup throws.
  listed-parser :
      (fd : ℕ) (r : Reactor)
      → Consistent r
      → 1 ≤ count fd r.poll_fds
      → fd ≢ wakeup
      → (p : Parser) × (find_parser fd r.parsers ≡ some p)
  listed-parser fd r v listed client =
      let apart : one_if wakeup fd ≡ 0 = ground (arith, ==_iff wakeup fd) in
      find_parser-there fd r.parsers (omega (arith, listed, v.once fd, v.matched fd, apart))

  take_in-Reading :
      (fuel fd : ℕ) (bytes : Bytes) (r : Reactor)
      → Consistent r
      → 1 ≤ count fd r.poll_fds
      → fd ≢ wakeup
      → Ends (Reading r) (take_in deliver close fuel fd bytes r (find_parser fd r.parsers))
  take_in-Reading fuel fd bytes r v listed client =
      let (p, there) = listed-parser fd r v listed client in
      rw there (
        answered-Reading fd r
          (answer_requests (react deliver close fd) fuel (feed p bytes) (r.store, r.world)) v)

  next_round-Reading :
      (rest : Reactor → Outcome (Bool × Reactor)) (bytes : Bytes) (r : Reactor)
      (x : Outcome Reactor)
      → Ends (Reading r) x
      → ((r' : Reactor) → Reading r r' → Ends (λ y. Reading r y.1) (rest r'))
      → Ends (λ y. Reading r y.1) (next_round deliver close rest bytes x)
  next_round-Reading rest bytes r (returned r') h k = drained (ltb (length bytes) buffer_size)
    where
      drained : (b : Bool) → Ends (λ y. Reading r y.1) (if b then returned (false, r') else rest r')
      drained true = h
      drained false = k r' h
  next_round-Reading rest bytes r threw h k = h
  next_round-Reading rest bytes r running h k = tt

  Ends-map :
      {A : Type 0} (P Q : A → Type 0) (x : Outcome A) → ((a : A) → P a → Q a) → Ends P x → Ends Q x
  Ends-map P Q (returned a) f h = f a h
  Ends-map P Q threw f h = h
  Ends-map P Q running f h = h

  pub service_reads-Reading :
      (fuel fd : ℕ) (reads : List ReadResult) (r : Reactor)
      → Consistent r
      → 1 ≤ count fd r.poll_fds
      → fd ≢ wakeup
      → Ends (λ y. Reading r y.1) (service_reads deliver close fuel fd reads r)
  unfolding service_reads
  service_reads-Reading fuel fd [] r v listed client = tt
  service_reads-Reading fuel fd (received bytes ∷ reads) r v listed client =
      next_round-Reading (service_reads deliver close fuel fd reads) bytes r _
        (take_in-Reading fuel fd bytes r v listed client)
        λ r' h.
          Ends-map _ _ (service_reads deliver close fuel fd reads r')
            (λ y h'. Reading-trans r r' y.1 h h')
            (service_reads-Reading fuel fd reads r' h.valid
              (omega (arith, listed, ap (count fd) h.same_table)) client)
  service_reads-Reading fuel fd (end_of_file ∷ reads) r v listed client = read-itself r v
  service_reads-Reading fuel fd (no_data ∷ reads) r v listed client = read-itself r v
  service_reads-Reading fuel fd (interrupted ∷ reads) r v listed client =
      service_reads-Reading fuel fd reads r v listed client
  service_reads-Reading fuel fd (failed ∷ reads) r v listed client = read-itself r v

  close_if-Consistent :
      (i fd : ℕ) (r : Reactor) (x : Outcome (Bool × Reactor))
      → get_elem? r.poll_fds i ≡ some fd
      → fd ≢ wakeup
      → Ends (λ y. Reading r y.1) x
      → Ends Consistent (close_if deliver close i fd x)
  close_if-Consistent i fd r (returned (true, r')) there client h =
      close_client-Consistent i fd r' h.valid (ap (λ t. get_elem? t i) h.same_table ∙ there) client
  close_if-Consistent i fd r (returned (false, r')) there client h = h.valid
  close_if-Consistent i fd r threw there client h = h
  close_if-Consistent i fd r running there client h = tt

  -- Whatever the reads return, serving a client of the table does not throw, and where it returns,
  -- with the connection closed or kept, the table and the parsers are consistent again.
  pub service_client-Consistent :
      (fuel i fd : ℕ) (reads : List ReadResult) (r : Reactor)
      → Consistent r
      → get_elem? r.poll_fds i ≡ some fd
      → fd ≢ wakeup
      → Ends Consistent (service_client deliver close fuel i fd reads r)
  unfolding service_client
  service_client-Consistent fuel i fd reads r v there client =
      close_if-Consistent i fd r (service_reads deliver close fuel fd reads r) there client
        (service_reads-Reading fuel fd reads r v (count-get_elem r.poll_fds i there) client)
