-- ===== src/Socket.antt =====
-- common/socket_utils.hpp and common/socket_utils.cpp: the class `Socket`, whose objects own a
-- descriptor or none, and the functions that make sockets. What the calls of the operating system
-- return is an argument, and what was closed is a list.
pub mod Ownership
pub mod Connect
use distributed_kv_store.Prelude.{
  ℕ, ◌+◌, ◌*◌, ◌/◌, ◌%◌, Bool, true, false, List, [], ◌∷◌, ◌++◌, Option, none, some, get_or,
  set as set_elem, ◌==◌, if◌then◌else◌,
}

-- `fd_`; `none` stands for a descriptor that is not valid.
abbrev pub Socket : Type 0
Socket = Option ℕ

-- The objects that were made, the descriptors that were closed, and those that `release` gave away.
pub record Sockets : Type 0 where
  pub objects : List Socket
  pub closed : List ℕ
  pub released : List ℕ

abbrev pub no_sockets : Sockets
no_sockets = record { objects = []; closed = []; released = [] }

-- A descriptor put behind others, if there is one.
abbrev pub push_fd : List ℕ → Socket → List ℕ
push_fd fds none = fds
push_fd fds (some fd) = fds ++ fd ∷ []

abbrev pub socket_at : Sockets → ℕ → Socket
socket_at s i = get_or s.objects i none

-- `explicit Socket(int fd)`
unfoldable pub construct : ℕ → Sockets → Sockets
construct fd s = record s { objects = s.objects ++ some fd ∷ [] }

unfoldable pub close_if_valid : ℕ → Sockets → Sockets
close_if_valid i s = record s {
  objects = set_elem s.objects i none;
  closed = push_fd s.closed (socket_at s i);
}

-- `~Socket`, after which the object has no descriptor.
unfoldable pub destroy : ℕ → Sockets → Sockets
unfolding close_if_valid
destroy i s = close_if_valid i s

-- `Socket(Socket&& other)`: the new object takes the descriptor.
unfoldable pub move_construct : ℕ → Sockets → Sockets
move_construct i s = record s { objects = set_elem s.objects i none ++ socket_at s i ∷ [] }

-- The descriptor of `other` goes to `this`, whose own was closed.
abbrev pub take_over : ℕ → ℕ → Sockets → Sockets
take_over i j s = record s { objects = set_elem (set_elem s.objects i (socket_at s j)) j none }

-- `operator=(Socket&& other)` of object `i`, with `other` the object `j`.
unfoldable pub move_assign : ℕ → ℕ → Sockets → Sockets
unfolding close_if_valid
move_assign i j s = if i == j then s else take_over i j (close_if_valid i s)

unfoldable pub release : ℕ → Sockets → Sockets
release i s = record s {
  objects = set_elem s.objects i none;
  released = push_fd s.released (socket_at s i);
}

-- Whether the calls on a descriptor succeed: `fcntl` with `F_GETFL` and with `F_SETFL`, and
-- `setsockopt` with `TCP_NODELAY`.
pub record OptionCalls : Type 0 where
  pub get_flags : Bool
  pub set_flags : Bool
  pub set_no_delay : Bool

-- `false` is an exception, here and in the next function.
unfoldable pub set_nonblocking : OptionCalls → Bool
set_nonblocking calls = if calls.get_flags then calls.set_flags else false

unfoldable pub set_tcp_nodelay : OptionCalls → Bool
set_tcp_nodelay calls = calls.set_no_delay

-- One `addrinfo`: `socket` failed, `connect` failed, or it is connected.
pub data Attempt : Type 0 where
  no_socket : Attempt
  refused connected : ℕ → Attempt

-- The loop of `connect_to`: the descriptor, if one is connected, and what was closed.
unfoldable pub connect_loop : List Attempt → List ℕ → Socket × List ℕ
connect_loop [] closed = (none, closed)
connect_loop (no_socket ∷ rest) closed = connect_loop rest closed
connect_loop (refused fd ∷ rest) closed = connect_loop rest (closed ++ fd ∷ [])
connect_loop (connected fd ∷ rest) closed = (some fd, closed)

-- `none` for the attempts is a failure of `getaddrinfo`; `none` for the socket is an exception.
unfoldable pub connect_to : Option (List Attempt) → Socket × List ℕ
unfolding connect_loop
connect_to none = (none, [])
connect_to (some attempts) = connect_loop attempts []

-- A call that must succeed for a socket that is open: an exception destroys it.
abbrev pub require : Bool → Socket × List ℕ → Socket × List ℕ
require true x = x
require false (none, closed) = (none, closed)
require false (some fd, closed) = (none, closed ++ fd ∷ [])

-- The result of `socket`, and whether `setsockopt`, `bind` and `listen` succeed.
unfoldable pub create_listening_socket : Socket → Bool → Bool → Bool → Socket × List ℕ
create_listening_socket none option_set bound listening = (none, [])
create_listening_socket (some fd) option_set bound listening = elim option_set [
  | false ↦ require false (some fd, [])
  | true ↦ elim bound [
    | false ↦ require false (some fd, [])
    | true ↦ require listening (some fd, [])
  ]
]

-- `tv_sec` and `tv_usec` of a timeout in milliseconds.
unfoldable pub recv_timeval : ℕ → ℕ × ℕ
recv_timeval timeout_ms = (timeout_ms / 1000, timeout_ms % 1000 * 1000)
