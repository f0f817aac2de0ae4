-- ===== src/Server/Wakeup.antt =====
-- The queue of new clients of `WorkerReactor` and the pipe that wakes its thread
-- (server/worker_reactor.cpp): `enqueue_client` of the accepting threads against the head of the loop
-- of `run`, step by step. A step is what the lock or one system call makes atomic.
pub mod Interleavings
use distributed_kv_store.Prelude.{
  ℕ, zero, suc, ◌+◌, ◌-◌, ◌<◌, ◌≤◌, ◌≡◌, ◌≢◌, refl, sym, ap, ◌∙◌, List, [], ◌∷◌, ◌++◌, append_assoc,
  append-nil, ◌⊎◌, inl, inr, arith,
}

-- Where the reactor's thread is: in `::poll` or serving its clients, in `drain_wakeup_pipe`, or
-- between it and the lock in `accept_pending_clients`.
pub data Phase : Type 0 where
  polling draining draining_done : Phase

-- `waking` counts the calls of `enqueue_client` that have left the lock and not written yet; `pipe`
-- is the number of bytes in the pipe. `enqueued` is a record of all calls, and `taken` of the clients
-- that `accept_pending_clients` has got.
pub record Queue : Type 0 where
  pub pending_clients : List ℕ
  pub waking : ℕ
  pub pipe : ℕ
  pub phase : Phase
  pub taken : List ℕ
  pub enqueued : List ℕ

abbrev pub no_clients : Queue
no_clients = record {
  pending_clients = [];
  waking = 0;
  pipe = 0;
  phase = polling;
  taken = [];
  enqueued = [];
}

-- `enqueue_client` up to the end of its lock.
unfoldable pub push : ℕ → Queue → Queue
push fd q = record q {
  pending_clients = q.pending_clients ++ fd ∷ [];
  waking = suc q.waking;
  enqueued = q.enqueued ++ fd ∷ [];
}

-- Its `::write`, of one byte or of none.
unfoldable pub wake : ℕ → Queue → Queue
wake written q = record q { waking = q.waking - 1; pipe = q.pipe + written }

unfoldable pub enter : Phase → Queue → Queue
enter phase q = record q { phase = phase }

-- A `::read` of up to 256 bytes.
unfoldable pub drain_some : Queue → Queue
drain_some q = record q { pipe = q.pipe - 256 }

-- `fds.swap(pending_clients_)`, and the loop over the clients.
unfoldable pub take_pending : Queue → Queue
take_pending q = record q {
  pending_clients = [];
  phase = polling;
  taken = q.taken ++ q.pending_clients;
}

-- The write fails only where the pipe is full, which then is not empty. `::poll` reports the pipe
-- where it is not empty, and a `::read` fails where it is.
pub data Step : Queue → Queue → Type 0 where
  pushed : (fd : ℕ) (q : Queue) → Step q (push fd q)
  woken : (q : Queue) → 0 < q.waking → Step q (wake 1 q)
  pipe_full : (q : Queue) → 0 < q.waking → 0 < q.pipe → Step q (wake 0 q)
  reported : (q : Queue) → q.phase ≡ polling → 0 < q.pipe → Step q (enter draining q)
  read_some : (q : Queue) → q.phase ≡ draining → 0 < q.pipe → Step q (drain_some q)
  read_none : (q : Queue) → q.phase ≡ draining → q.pipe ≡ 0 → Step q (enter draining_done q)
  accepted : (q : Queue) → q.phase ≡ draining_done → Step q (take_pending q)

pub data Reach (p : Queue) : Queue → Type 0 where
  here : Reach p p
  next : {q r : Queue} → Reach p q → Step q r → Reach p r
