-- ===== src/Router/Consistency.antt =====
-- What the loops of the router promise about the nodes of one preference list.
use mathlib.Core.Path.{subst}
use distributed_kv_store.Prelude.{
  ◌≡◌, sym, ap, ◌∙◌, true, false, List, [], ◌∷◌, Option, some, inl, inr, arith, Bytes, eq_bytes,
  eq_bytes_iff, Bool-cases, Option-cases,
}
use distributed_kv_store.Protocol.Messages.{Request, Response}
use distributed_kv_store.Protocol.RequestParser.RoundTrip.{Sendable}
use distributed_kv_store.Server.Requests.{answer_to}
use distributed_kv_store.HashRing.{contains}
use distributed_kv_store.HashRing.Distinct.{Distinct}
use distributed_kv_store.Router.FailureDetector.{NodeAddress, is_alive}
use distributed_kv_store.Router.Routing.{Network, Routing, read_from, write_from, first_of_two}
use distributed_kv_store.Router.Failover.{
  tried, tried-down, tried_failed, write_from-down, read_from_skip, read_from_try, write_from_skip,
  write_from_try, next_read_failed, next_read_answered,
}
use distributed_kv_store.Router.Replication.{
  Nodes, view_at, try_node-other, try_node-answered, write_from-other,
}

nothing_held : (j : Bytes) → contains [] j ≡ true → ⊥
unfolding contains
nothing_held j h = cc

-- A member of a list other than its head is a member of the rest, and is not the head.
contains_rest :
    (n : Bytes) (ns : List Bytes) (j : Bytes)
    → eq_bytes n j ≡ false
    → contains (n ∷ ns) j ≡ true
    → contains ns j ≡ true
unfolding contains
contains_rest n ns j ne h = ground arith

contains_later :
    (n : Bytes) (ns : List Bytes) (j : Bytes) → contains ns j ≡ true → contains (n ∷ ns) j ≡ true
unfolding contains
contains_later n ns j h = ground arith

contains_first : (n : Bytes) (ns : List Bytes) → contains (n ∷ ns) n ≡ true
unfolding contains
contains_first n ns = ground (arith, eq_bytes_iff n n)

later_ne :
    (n : Bytes) (ns : List Bytes) (j : Bytes)
    → contains ns n ≡ false
    → contains ns j ≡ true
    → eq_bytes n j ≡ false
later_ne n ns j fresh held = elim (Bool-cases (eq_bytes n j)) [
  | inr e ↦ e
  | inl e ↦ let same = ap (contains ns) ((eq_bytes_iff n j).0 e) in cc (same, fresh, held)
]

module _ (net : Network) (addresses : List NodeAddress) (nodes : Nodes net) (req : Request)
    (ok : Sendable req.command req) where
  abbrev Result : Type 0
  Result = Option Response × Routing net addresses

  -- What a node holds once the request has been applied to it.
  abbrev Applied : Routing net addresses → Bytes → Result → Type 0
  Applied r j x =
      is_alive x.1.alive j ≡ true
      → view_at net addresses nodes req x.1 j
        ≡ (answer_to req.command req (view_at net addresses nodes req r j)).1

  -- The first node of the list, once it was tried.
  Applied-first :
      (n : Bytes) (ns : List Bytes) (first : Option Response) (r : Routing net addresses)
      → contains ns n ≡ false
      → Applied r n (write_from net addresses ns req first (tried net addresses req n r).1)
  Applied-first n ns first r fresh up = elim (Option-cases (tried net addresses req n r).0) [
    | inl failed ↦ cc (
      up,
      write_from-down net addresses req ns n first (tried net addresses req n r).1
          (tried_failed net addresses req n r failed),
    )
    | inr (resp, answered) ↦
        write_from-other net addresses nodes req ns n first (tried net addresses req n r).1 fresh
        ∙ (try_node-answered net addresses nodes req n r resp ok answered).1
  ]

  -- For nodes that answer as the server does, a request that the server accepts and a list with no
  -- repetition: every node of the list that is alive after the write has applied the request to
  -- what it held.
  pub write_from-Applied :
      (ns : List Bytes) (first : Option Response) (r : Routing net addresses) (j : Bytes)
      → Distinct ns
      → contains ns j ≡ true
      → Applied r j (write_from net addresses ns req first r)
  write_from-Applied [] first r j d held = absurd (nothing_held j held)
  write_from-Applied (n ∷ ns) first r j d held = elim (Bool-cases (is_alive r.alive n)) [
    | inr down ↦
        subst (Applied r j) (sym (write_from_skip net addresses req n ns r first down))
          (elim (Bool-cases (eq_bytes n j)) [
            | inl same ↦ λ up. cc (
              up,
              ap (is_alive _) ((eq_bytes_iff n j).0 same),
              write_from-down net addresses req ns n first r down,
            )
            | inr other ↦ write_from-Applied ns first r j d.1 (contains_rest n ns j other held)
          ])
    | inl up ↦
        let first' = first_of_two first (tried net addresses req n r).0 in
        let rest = write_from net addresses ns req first' (tried net addresses req n r).1 in
        subst (Applied r j) (sym (write_from_try net addresses req n ns r first up))
          (elim (Bool-cases (eq_bytes n j)) [
            | inl same ↦
                subst (λ (k : Bytes). Applied r k rest) ((eq_bytes_iff n j).0 same)
                  (Applied-first n ns first' r d.0)
            | inr other ↦ λ alive.
                write_from-Applied ns first' (tried net addresses req n r).1 j d.1
                  (contains_rest n ns j other held) alive
                ∙ ap (λ v. (answer_to req.command req v).1)
                    (try_node-other net addresses nodes req n j r other)
          ])
  ]

  -- The answer that a node would give.
  abbrev Answers : Response → Routing net addresses → Bytes → Type 0
  Answers a r j =
      is_alive r.alive j ≡ true
      → (answer_to req.command req (view_at net addresses nodes req r j)).0 ≡ a

  Answers-later :
      (a : Response) (n : Bytes) (ns : List Bytes) (r : Routing net addresses) (j : Bytes)
      → contains ns n ≡ false
      → contains ns j ≡ true
      → Answers a r j
      → Answers a (tried net addresses req n r).1 j
  Answers-later a n ns r j fresh held h up = elim (Bool-cases (is_alive r.alive j)) [
    | inr down ↦ cc (up, tried-down net addresses req n j r down)
    | inl was_up ↦
        ap (λ v. (answer_to req.command req v).0)
          (try_node-other net addresses nodes req n j r (later_ne n ns j fresh held))
        ∙ h was_up
  ]

  -- For nodes that answer as the server does, a request that the server accepts and a list with no
  -- repetition: if all the alive nodes of the list would give one answer, a response that a read
  -- returns is this answer.
  pub read_from-Answers :
      (ns : List Bytes) (a resp : Response) (r : Routing net addresses)
      → Distinct ns
      → ((j : Bytes) → contains ns j ≡ true → Answers a r j)
      → (read_from net addresses ns req r).0 ≡ some resp
      → resp ≡ a
  read_from-Answers [] a resp r d h e = absurd (unfold read_from in cc (e))
  read_from-Answers (n ∷ ns) a resp r d h e = elim (Bool-cases (is_alive r.alive n)) [
    | inr down ↦
        read_from-Answers ns a resp r d.1 (λ j held. h j (contains_later n ns j held))
          (rw (read_from_skip net addresses req n ns r down) at e)
    | inl up ↦ elim (Option-cases (tried net addresses req n r).0) [
      | inl failed ↦
          let step =
            read_from_try net addresses req n ns r up
            ∙ next_read_failed net addresses req _ (tried net addresses req n r) failed in
          read_from-Answers ns a resp (tried net addresses req n r).1 d.1
            (λ j held. Answers-later a n ns r j d.0 held (h j (contains_later n ns j held)))
            (rw step at e)
      | inr (resp', answered) ↦
          let step =
            read_from_try net addresses req n ns r up
            ∙ next_read_answered net addresses req _ (tried net addresses req n r) resp' answered in
          let own = (try_node-answered net addresses nodes req n r resp' ok answered).0 in
          cc (ap (λ (x : Result). x.0) step, e, answered, own, h n (contains_first n ns) up)
    ]
  ]
