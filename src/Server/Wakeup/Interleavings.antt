-- ===== src/Server/Wakeup/Interleavings.antt =====
-- No wake-up is lost: an invariant of every interleaving, and that the reactor can always go on.
use distributed_kv_store.Prelude.{
  ℕ, zero, suc, ◌<◌, ◌≤◌, ◌≡◌, ◌≢◌, refl, sym, ap, ◌∙◌, List, [], ◌∷◌, ◌++◌, append_assoc,
  append-nil, ◌⊎◌, inl, inr, arith,
}
use distributed_kv_store.Server.Wakeup.{
  Queue, Phase, polling, draining, draining_done, no_clients, push, wake, enter, drain_some,
  take_pending, Step, pushed, woken, pipe_full, reported, read_some, read_none, accepted, Reach,
  here, next,
}

-- What holds of every state: no client is lost, and one that waits will be seen.
abbrev Seen : Queue → Type 0
Seen q = (q.pending_clients ≡ []) ⊎ ((0 < q.pipe) ⊎ ((0 < q.waking) ⊎ (q.phase ≢ polling)))

record IsSound (q : Queue) : Type 0 where
  kept : q.taken ++ q.pending_clients ≡ q.enqueued
  seen : Seen q

draining-ne-polling : draining ≢ polling
draining-ne-polling h = cc h

Step-IsSound : {q r : Queue} → Step q r → IsSound q → IsSound r
unfolding push wake enter drain_some take_pending
Step-IsSound (pushed fd q) s = record {
  kept = sym (append_assoc q.taken q.pending_clients (fd ∷ [])) ∙ ap (λ x. x ++ fd ∷ []) s.kept;
  seen = inr (inr (inl (omega arith)));
}
Step-IsSound (woken q h) s = record { kept = s.kept; seen = inr (inl (omega arith)) }
Step-IsSound (pipe_full q h full) s = record { kept = s.kept; seen = inr (inl (omega arith)) }
Step-IsSound (reported q h there) s = record { kept = s.kept; seen = inr (inr (inr (λ e. cc e))) }
Step-IsSound (read_some q h there) s = record {
  kept = s.kept;
  seen = inr (inr (inr (λ e. cc (e, h))));
}
Step-IsSound (read_none q h empty) s = record { kept = s.kept; seen = inr (inr (inr (λ e. cc e))) }
Step-IsSound (accepted q h) s = record {
  kept = append-nil (q.taken ++ q.pending_clients) ∙ s.kept;
  seen = inl refl;
}

Reach-IsSound : {q r : Queue} → Reach q r → IsSound q → IsSound r
Reach-IsSound here s = s
Reach-IsSound (next path step) s = Step-IsSound step (Reach-IsSound path s)

no_clients-IsSound : IsSound no_clients
no_clients-IsSound = record { kept = refl; seen = inl refl }

-- In every interleaving of `enqueue_client` with the reactor's loop: where the reactor is in `::poll`
-- and no call has its write before it, the clients that were enqueued are those that were taken, in
-- order, followed by those that wait; and if any waits, the pipe is readable, so that the poll returns.
pub Reach-awake :
    (q : Queue)
    → Reach no_clients q
    → q.phase ≡ polling
    → q.waking ≡ 0
    → (q.taken ++ q.pending_clients ≡ q.enqueued) × ((q.pending_clients ≡ []) ⊎ (0 < q.pipe))
Reach-awake q path idle written =
    let s = Reach-IsSound path no_clients-IsSound in
    (
      s.kept,
      elim s.seen [
        | inl nobody ↦ inl nobody
        | inr (inl readable) ↦ inr readable
        | inr (inr (inl waking)) ↦ absurd (omega (arith, waking, written))
        | inr (inr (inr busy)) ↦ absurd (busy idle)
      ],
    )

-- A state that the reactor gets to with these clients taken, and none that waits.
record Takes (p : Queue) (clients : List ℕ) : Type 0 where
  after : Queue
  path : Reach p after
  all_taken : after.taken ≡ clients
  none_wait : after.pending_clients ≡ []

take-Takes :
    (p q : Queue) → Reach p q → q.phase ≡ draining_done → Takes p (q.taken ++ q.pending_clients)
take-Takes p q path h = record {
  after = take_pending q;
  path = next path (accepted q h);
  all_taken = unfold take_pending in refl;
  none_wait = unfold take_pending in refl;
}

none_or_some : (n : ℕ) → (n ≡ 0) ⊎ (0 < n)
none_or_some zero = inl refl
none_or_some (suc n) = inr (omega arith)

Phase-cases : (p : Phase) → (p ≡ polling) ⊎ ((p ≡ draining) ⊎ (p ≡ draining_done))
Phase-cases polling = inl refl
Phase-cases draining = inr (inl refl)
Phase-cases draining_done = inr (inr refl)

-- A pipe of at most `n` bytes is drained in as many reads.
drain-Takes :
    (n : ℕ) (p q : Queue)
    → Reach p q
    → q.phase ≡ draining
    → q.pipe ≤ n
    → Takes p (q.taken ++ q.pending_clients)
unfolding drain_some enter
drain-Takes zero p q path h bound =
    take-Takes p (enter draining_done q) (next path (read_none q h (omega (arith, bound)))) refl
drain-Takes (suc m) p q path h bound = elim (none_or_some q.pipe) [
  | inl empty ↦ take-Takes p (enter draining_done q) (next path (read_none q h empty)) refl
  | inr there ↦
      drain-Takes m p (drain_some q) (next path (read_some q h there)) h
        (omega (arith, bound, there))
]

-- A reactor in `::poll` with a byte in the pipe.
poll-Takes :
    (p q : Queue)
    → Reach p q
    → q.phase ≡ polling
    → 0 < q.pipe
    → Takes p (q.taken ++ q.pending_clients)
unfolding enter
poll-Takes p q path idle there =
    drain-Takes q.pipe p (enter draining q) (next path (reported q idle there)) refl (omega arith)

-- One whose byte has yet to be written.
waking-Takes :
    (p q : Queue)
    → Reach p q
    → q.phase ≡ polling
    → 0 < q.waking
    → Takes p (q.taken ++ q.pending_clients)
unfolding wake
waking-Takes p q path idle waking =
    poll-Takes p (wake 1 q) (next path (woken q waking)) idle (omega arith)

-- From every state that an interleaving gets to, the reactor can go on to one where it has taken all
-- clients that were enqueued, in order: no state is stuck with a client in the queue.
pub Reach-taken :
    (q : Queue)
    → Reach no_clients q
    → (t : Queue) × Reach q t × (t.taken ≡ q.enqueued) × (t.pending_clients ≡ [])
Reach-taken q path =
    let s = Reach-IsSound path no_clients-IsSound in
    let finish : Takes q (q.taken ++ q.pending_clients)
        → (t : Queue) × Reach q t × (t.taken ≡ q.enqueued) × (t.pending_clients ≡ []) =
      λ t. (t.after, t.path, t.all_taken ∙ s.kept, t.none_wait) in
    elim (Phase-cases q.phase) [
      | inr (inr done) ↦ finish (take-Takes q q here done)
      | inr (inl reading) ↦ finish (drain-Takes q.pipe q q here reading (omega arith))
      | inl idle ↦ elim s.seen [
        | inl nobody ↦ (
          q,
          here,
          sym (append-nil q.taken) ∙ ap (λ x. q.taken ++ x) (sym nobody) ∙ s.kept,
          nobody,
        )
        | inr (inl readable) ↦ finish (poll-Takes q q here idle readable)
        | inr (inr (inl waking)) ↦ finish (waking-Takes q q here idle waking)
        | inr (inr (inr busy)) ↦ absurd (busy idle)
      ]
    ]
