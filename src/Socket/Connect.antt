-- ===== src/Socket/Connect.antt =====
-- The functions that make sockets leak no descriptor.
use distributed_kv_store.Prelude.{
  ℕ, ◌+◌, ◌*◌, ◌<◌, ◌≡◌, refl, sym, ◌∙◌, Bool, true, false, List, [], ◌∷◌, ◌++◌, append_assoc,
  append-nil, none, some, arith,
}
use distributed_kv_store.Socket.{
  Socket, Attempt, no_socket, refused, connected, connect_loop, connect_to, create_listening_socket,
  recv_timeval, push_fd,
}

-- The descriptors that the attempts opened, up to the one that is connected.
unfoldable pub opened : List Attempt → List ℕ
opened [] = []
opened (no_socket ∷ rest) = opened rest
opened (refused fd ∷ rest) = fd ∷ opened rest
opened (connected fd ∷ rest) = fd ∷ []

-- The first connected descriptor.
unfoldable pub first_connected : List Attempt → Socket
first_connected [] = none
first_connected (no_socket ∷ rest) = first_connected rest
first_connected (refused fd ∷ rest) = first_connected rest
first_connected (connected fd ∷ rest) = some fd

connect_loop-opened :
    (rest : List Attempt) (closed : List ℕ)
    → ((connect_loop rest closed).0 ≡ first_connected rest)
      × (push_fd (connect_loop rest closed).1 (connect_loop rest closed).0 ≡ closed ++ opened rest)
unfolding connect_loop opened first_connected
connect_loop-opened [] closed = (refl, sym (append-nil closed))
connect_loop-opened (no_socket ∷ rest) closed = connect_loop-opened rest closed
connect_loop-opened (refused fd ∷ rest) closed =
    let (found, all) = connect_loop-opened rest (closed ++ fd ∷ []) in
    (found, all ∙ append_assoc closed (fd ∷ []) (opened rest))
connect_loop-opened (connected fd ∷ rest) closed = (refl, refl)

-- `connect_to` returns the first address that accepts, and throws where none does; every descriptor
-- that it opened on the way has been closed, but the one that it returns.
pub connect_to-opened :
    (attempts : List Attempt)
    → ((connect_to (some attempts)).0 ≡ first_connected attempts)
      × (push_fd (connect_to (some attempts)).1 (connect_to (some attempts)).0 ≡ opened attempts)
unfolding connect_to
connect_to-opened attempts = connect_loop-opened attempts []

-- A listening socket that cannot be set up is closed, and no other.
pub create_listening_socket-opened :
    (fd : ℕ) (option_set bound listening : Bool)
    → push_fd
        (create_listening_socket (some fd) option_set bound listening).1
        (create_listening_socket (some fd) option_set bound listening).0
      ≡ fd ∷ []
unfolding create_listening_socket
create_listening_socket-opened fd true true true = refl
create_listening_socket-opened fd true true false = refl
create_listening_socket-opened fd true false listening = refl
create_listening_socket-opened fd false bound listening = refl

-- The timeout is exact, with less than a second of microseconds.
pub recv_timeval-exact :
    (timeout_ms : ℕ)
    → ((recv_timeval timeout_ms).0 * 1000000 + (recv_timeval timeout_ms).1 ≡ timeout_ms * 1000)
      × ((recv_timeval timeout_ms).1 < 1000000)
unfolding recv_timeval
recv_timeval-exact timeout_ms = (omega arith, omega arith)
