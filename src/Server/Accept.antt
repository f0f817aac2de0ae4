-- ===== src/Server/Accept.antt =====
-- `KvServer` (server/server.hpp, server/server.cpp): the constructor and the accept loop, which
-- hands each connection to the next reactor. A reactor is its queue of pending clients here; `none`
-- stands for a failed call of `::accept`, `EINTR` included, after which the loop goes on.
use native.Mathlib.Nat.{mod-lt}
use distributed_kv_store.Prelude.{
  ℕ, ◌+◌, ◌%◌, ◌<◌, ◌≡◌, refl, ◌∙◌, List, [], ◌∷◌, ◌++◌, Option, none, some, arith, get_or,
  set as set_elem, length, replicate, length-set, ◌==◌, if◌then◌else◌,
}

pub record KvServer : Type 0 where
  pub reactors : List (List ℕ)
  pub next_reactor : ℕ

unfoldable pub make_server : ℕ → KvServer
make_server num_threads = record {
  reactors = replicate (if num_threads == 0 then 1 else num_threads) [];
  next_reactor = 0;
}

-- reactors_[next_reactor_]->enqueue_client(client_fd), and the next index.
unfoldable pub accept_one : Option ℕ → KvServer → KvServer
accept_one none s = s
accept_one (some fd) s = record {
  reactors = set_elem s.reactors s.next_reactor (get_or s.reactors s.next_reactor [] ++ fd ∷ []);
  next_reactor = (s.next_reactor + 1) % length s.reactors;
}

unfoldable pub accept_all : List (Option ℕ) → KvServer → KvServer
accept_all [] s = s
accept_all (fd ∷ fds) s = accept_all fds (accept_one fd s)

-- The index of the next reactor stays in range, and the number of reactors what it was.
pub accept_all_in_range :
    (fds : List (Option ℕ)) (s : KvServer)
    → s.next_reactor < length s.reactors
    → ((accept_all fds s).next_reactor < length (accept_all fds s).reactors)
      × (length (accept_all fds s).reactors ≡ length s.reactors)
unfolding accept_all accept_one
accept_all_in_range [] s h = (h, refl)
accept_all_in_range (none ∷ fds) s h = accept_all_in_range fds s h
accept_all_in_range (some fd ∷ fds) s h =
    let same =
      length-set s.reactors s.next_reactor (get_or s.reactors s.next_reactor [] ++ fd ∷ []) in
    let (inside, kept) = accept_all_in_range fds (accept_one (some fd) s) (
      omega
        (arith, same, mod-lt (s.next_reactor + 1) {m = length s.reactors} (omega (arith, h)))) in
    (inside, kept ∙ same)
