-- ===== src/Server/Connection/Progress.antt =====
-- Serving a client ends: what the reads must be for that.
use mathlib.Core.Path.{subst}
use distributed_kv_store.Prelude.{
  ℕ, ◌≤◌, ◌<◌, ◌≡◌, ◌≢◌, refl, ap, ◌∙◌, List, ◌∷◌, ◌++◌, some, arith, Bytes, get_elem?, length,
  lt→ltb, ==_iff,
}
use distributed_kv_store.Protocol.Messages.{Parser}
use distributed_kv_store.Protocol.RequestParser.{feed, max_command_line_len}
use distributed_kv_store.Protocol.RequestLoop.Termination.{unterminated, answer_requests-total}
use distributed_kv_store.HashRing.{returned}
use distributed_kv_store.Server.Connection.{
  find_parser, ReadResult, received, end_of_file, WorkerReactor, react, answered, take_in,
  next_round, buffer_size, close_client, service_reads, close_if, service_client,
}
use distributed_kv_store.Server.Connection.Table.{one_if, count, count-swap_remove, count-get_elem}
use distributed_kv_store.Server.Connection.Ending.{Ends}
use distributed_kv_store.Server.Connection.Lifetime.{Consistent, service_client-Consistent}

module _ {World : Type 0} (deliver : ℕ → Bytes → World → World) (close : ℕ → World → World)
    (wakeup : ℕ) (i fd fuel : ℕ) (r : WorkerReactor deliver close)
    (v : Consistent deliver close wakeup r) (there : get_elem? r.poll_fds i ≡ some fd)
    (client : fd ≢ wakeup) where
  -- In a consistent table, a read that the buffer does not fill, of a client that has a parser and
  -- whose last line then has at most 265 bytes, is served with more fuel than it has bytes: the
  -- call returns, with the connection open, and the table and the parsers are consistent.
  pub service_client_returns :
      (p : Parser) (bytes : Bytes) (reads : List ReadResult)
      → find_parser fd r.parsers ≡ some p
      → length bytes < buffer_size
      → length (p.buffer ++ bytes) < fuel
      → unterminated (p.buffer ++ bytes) ≤ max_command_line_len
      → (r' : WorkerReactor deliver close) × (service_client deliver close fuel i fd
            (received bytes ∷ reads)
            r
          ≡ returned r')
        × (r'.poll_fds ≡ r.poll_fds)
        × Consistent deliver close wakeup r'
  unfolding service_client service_reads
  service_client_returns p bytes reads found small enough short =
      let ((p', (s, w)), done) =
        answer_requests-total (react deliver close fd) fuel (feed p bytes) (r.store, r.world) enough
          short in
      let r' = answered deliver close fd r (some (p', (s, w))) in
      let drained = lt→ltb (length bytes) buffer_size small in
      let taken : take_in deliver close fuel fd bytes r (find_parser fd r.parsers) ≡ r' =
        ap (take_in deliver close fuel fd bytes r) found ∙ ap (answered deliver close fd r) done in
      let e : service_client deliver close fuel i fd (received bytes ∷ reads) r ≡ r' =
        ap
          (λ x.
            close_if deliver close i fd
              (next_round deliver close (service_reads deliver close fuel fd reads) bytes x))
          taken
        ∙ rw drained refl in
      (
        _,
        e,
        refl,
        subst (Ends (Consistent deliver close wakeup)) e (
            service_client-Consistent deliver close wakeup fuel i fd (received bytes ∷ reads) r v
              there client),
      )

  -- In a consistent table, a client that has closed its end is closed, and its descriptor is in the
  -- table no more.
  pub service_client_closes :
      (reads : List ReadResult)
      → (service_client deliver close fuel i fd (end_of_file ∷ reads) r
          ≡ returned (close_client deliver close i fd r))
        × (count fd (close_client deliver close i fd r).poll_fds ≡ 0)
  unfolding service_client service_reads close_client
  service_client_closes reads =
      let listed = count-get_elem r.poll_fds i there in
      let itself : one_if fd fd ≡ 1 = ground (arith, ==_iff fd fd) in
      (refl, omega (arith, listed, itself, v.once fd, count-swap_remove fd r.poll_fds i there))
