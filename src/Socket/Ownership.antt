-- ===== src/Socket/Ownership.antt =====
-- Every descriptor has one owner, and is closed once.
use distributed_kv_store.Prelude.{
  ℕ, zero, suc, ◌+◌, ◌<◌, ◌≡◌, ◌≢◌, refl, ap, ◌∙◌, List, [], ◌∷◌, ◌++◌, none, some, inl, inr, arith,
  length, length-set, get_or, get_or-set_ne, set as set_elem, ◌==◌, Bool-cases,
}
use distributed_kv_store.Server.Connection.Table.{one_if, count, count-append}
use distributed_kv_store.Socket.{
  Socket, Sockets, no_sockets, push_fd, socket_at, construct, close_if_valid, destroy,
  move_construct, take_over, move_assign, release,
}

-- What a program does with its sockets; `construct_from` takes a descriptor of the operating system.
pub data Operation : Type 0 where
  construct_from destroy_at move_from release_at : ℕ → Operation
  assign_at : ℕ → ℕ → Operation

unfoldable pub perform : Operation → Sockets → Sockets
perform (construct_from fd) s = construct fd s
perform (destroy_at i) s = destroy i s
perform (move_from i) s = move_construct i s
perform (release_at i) s = release i s
perform (assign_at i j) s = move_assign i j s

unfoldable pub perform_all : List Operation → Sockets → Sockets
perform_all [] s = s
perform_all (o ∷ os) s = perform_all os (perform o s)

-- The descriptors that the operating system has handed out.
unfoldable pub handed_out : List Operation → List ℕ
handed_out [] = []
handed_out (construct_from fd ∷ os) = fd ∷ handed_out os
handed_out (destroy_at i ∷ os) = handed_out os
handed_out (move_from i ∷ os) = handed_out os
handed_out (release_at i ∷ os) = handed_out os
handed_out (assign_at i j ∷ os) = handed_out os

-- 1 if the object owns the descriptor.
abbrev pub owns : Socket → ℕ → ℕ
owns none fd = 0
owns (some f) fd = one_if f fd

unfoldable pub owners : ℕ → List Socket → ℕ
owners fd [] = 0
owners fd (x ∷ xs) = owns x fd + owners fd xs

-- How often a descriptor is owned, was closed or was given away.
abbrev pub accounted : ℕ → Sockets → ℕ
accounted fd s = owners fd s.objects + count fd s.closed + count fd s.released

-- An operation on an object that is there; an object is assigned to another one or itself.
abbrev pub InRange : Sockets → Operation → Type 0
InRange s (construct_from fd) = Unit
InRange s (destroy_at i) = i < length s.objects
InRange s (move_from i) = i < length s.objects
InRange s (release_at i) = i < length s.objects
InRange s (assign_at i j) = (i < length s.objects) × (j < length s.objects)

abbrev pub AllInRange : Sockets → List Operation → Type 0
AllInRange s [] = Unit
AllInRange s (o ∷ os) = InRange s o × AllInRange (perform o s) os

module _ (fd : ℕ) where
  owners-append : (xs ys : List Socket) → owners fd (xs ++ ys) ≡ owners fd xs + owners fd ys
  unfolding owners
  owners-append [] ys = omega arith
  owners-append (x ∷ xs) ys = omega (arith, owners-append xs ys)

  owners-set :
      (xs : List Socket) (i : ℕ) (v : Socket)
      → i < length xs
      → owners fd (set_elem xs i v) + owns (get_or xs i none) fd ≡ owners fd xs + owns v fd
  unfolding owners
  owners-set [] i v h = absurd (omega arith)
  owners-set (x ∷ xs) zero v h = omega arith
  owners-set (x ∷ xs) (suc i) v h = omega (arith, owners-set xs i v (omega arith))

  count-push_fd : (fds : List ℕ) (x : Socket) → count fd (push_fd fds x) ≡ count fd fds + owns x fd
  unfolding count
  count-push_fd fds none = omega arith
  count-push_fd fds (some f) = omega (arith, count-append fd fds (f ∷ []))

  close_if_valid-accounted :
      (i : ℕ) (s : Sockets)
      → i < length s.objects
      → accounted fd (close_if_valid i s) ≡ accounted fd s
  unfolding close_if_valid
  close_if_valid-accounted i s h =
      omega (arith, owners-set s.objects i none h, count-push_fd s.closed (socket_at s i))

  release-accounted :
      (i : ℕ) (s : Sockets) → i < length s.objects → accounted fd (release i s) ≡ accounted fd s
  unfolding release
  release-accounted i s h =
      omega (arith, owners-set s.objects i none h, count-push_fd s.released (socket_at s i))

  move_construct-accounted :
      (i : ℕ) (s : Sockets)
      → i < length s.objects
      → accounted fd (move_construct i s) ≡ accounted fd s
  unfolding move_construct owners
  move_construct-accounted i s h = omega (
    arith,
    owners-set s.objects i none h,
    owners-append (set_elem s.objects i none) (socket_at s i ∷ []),
  )

  -- Taking over from another object, where this one has no descriptor.
  take_over-accounted :
      (i j : ℕ) (s : Sockets)
      → i < length s.objects
      → j < length s.objects
      → i ≢ j
      → socket_at s i ≡ none
      → accounted fd (take_over i j s) ≡ accounted fd s
  take_over-accounted i j s hi hj ne empty =
      let x = socket_at s j in
      omega (
        arith,
        owners-set s.objects i x hi,
        owners-set (set_elem s.objects i x) j none (omega (arith, hj, length-set s.objects i x)),
        ap (λ y. owns y fd) (get_or-set_ne s.objects i j x none ne),
        ap (λ y. owns y fd) empty,
      )

  get_or-set_none : (xs : List Socket) (i : ℕ) → get_or (set_elem xs i none) i none ≡ none
  get_or-set_none [] i = refl
  get_or-set_none (x ∷ xs) zero = refl
  get_or-set_none (x ∷ xs) (suc i) = get_or-set_none xs i

  move_assign-accounted :
      (i j : ℕ) (s : Sockets)
      → i < length s.objects
      → j < length s.objects
      → accounted fd (move_assign i j s) ≡ accounted fd s
  unfolding move_assign
  move_assign-accounted i j s hi hj = elim (Bool-cases (i == j)) [
    | inl same ↦ rw same refl
    | inr other ↦
        let ne : i ≢ j = λ e. ground (arith, other, e) in
        let t = close_if_valid i s in
        let kept : length t.objects ≡ length s.objects =
          unfold close_if_valid in length-set s.objects i none in
        rw other (
          take_over-accounted i j t (omega (arith, hi, kept)) (omega (arith, hj, kept)) ne
            (unfold close_if_valid in get_or-set_none s.objects i)
          ∙ close_if_valid-accounted i s hi)
  ]

  perform-accounted :
      (o : Operation) (os : List Operation) (s : Sockets)
      → InRange s o
      → accounted fd (perform o s) + count fd (handed_out os)
        ≡ accounted fd s + count fd (handed_out (o ∷ os))
  unfolding perform handed_out count
  perform-accounted (construct_from f) os s h =
      unfold construct owners in omega (arith, owners-append s.objects (some f ∷ []))
  perform-accounted (destroy_at i) os s h =
      unfold destroy in omega (arith, close_if_valid-accounted i s h)
  perform-accounted (move_from i) os s h = omega (arith, move_construct-accounted i s h)
  perform-accounted (release_at i) os s h = omega (arith, release-accounted i s h)
  perform-accounted (assign_at i j) os s (hi, hj) = omega (arith, move_assign-accounted i j s hi hj)

  perform_all-accounted :
      (os : List Operation) (s : Sockets)
      → AllInRange s os
      → accounted fd (perform_all os s) ≡ accounted fd s + count fd (handed_out os)
  unfolding perform_all
  perform_all-accounted [] s h = unfold handed_out count in omega arith
  perform_all-accounted (o ∷ os) s (h, hs) =
      omega (arith, perform_all-accounted os (perform o s) hs, perform-accounted o os s h)

-- Whatever a program does with its sockets, by construction, moves, self-moves, releases and
-- destruction of objects that are there: each descriptor that the operating system handed out has
-- been closed, given away or is owned by one object, once for each time that it was handed out. So
-- none leaks, none is closed twice, and none is closed while an object owns it.
pub perform_all-owned_once :
    (os : List Operation) (fd : ℕ)
    → AllInRange no_sockets os
    → owners fd (perform_all os no_sockets).objects
        + count fd (perform_all os no_sockets).closed
        + count fd (perform_all os no_sockets).released
      ≡ count fd (handed_out os)
unfolding owners count
perform_all-owned_once os fd h = omega (arith, perform_all-accounted fd os no_sockets h)
