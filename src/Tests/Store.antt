-- ===== src/Tests/Store.antt =====
-- The store of server/kv_store.cpp and the requests on it, at concrete inputs.
use distributed_kv_store.Prelude.{◌%◌, ◌^◌, ◌≡◌, none, some, List, [], ◌∷◌, length, Bytes, codes}
use distributed_kv_store.Protocol.Messages.{Request, set}
use distributed_kv_store.KvStore
use distributed_kv_store.KvStore.{KvStore, init}
use distributed_kv_store.KvStore.Invariant.{IsValid, IsValid-init, set-IsValid}
use distributed_kv_store.KvStore.Refinement.{update, holds, get-set, get-remove}
use distributed_kv_store.KvStore.Counting.{
  Operation, set_key, remove_key, perform_all, keys_after, size-counts,
}
use distributed_kv_store.HashRing.{contains}
use distributed_kv_store.HashRing.Distinct.{Distinct}
use distributed_kv_store.Server.Requests.{handle_request, Refines, handle_request-Refines}

abbrev one_key : KvStore
one_key = KvStore.set init (codes "a") (codes "1")

IsValid-one_key : IsValid one_key
IsValid-one_key = set-IsValid (codes "a") (codes "1") IsValid-init

get-set_example :
    KvStore.get (KvStore.set one_key (codes "a") (codes "2")) (codes "a")
    ≡ update (KvStore.get one_key) (codes "a") (some (codes "2")) (codes "a")
get-set_example = get-set (codes "a") (codes "2") (codes "a") IsValid-one_key

get-remove_example :
    ((KvStore.remove one_key (codes "a")).0 ≡ holds (KvStore.get one_key (codes "a")))
    × ((j : Bytes)
        → KvStore.get (KvStore.remove one_key (codes "a")).1 j
          ≡ update (KvStore.get one_key) (codes "a") none j)
get-remove_example = get-remove (codes "a") IsValid-one_key

-- A key that is set twice, one that is removed, and one that was never there.
abbrev operations : List Operation
operations =
    set_key (codes "a") (codes "1")
    ∷ set_key (codes "b") (codes "2")
    ∷ set_key (codes "a") (codes "3")
    ∷ remove_key (codes "b")
    ∷ remove_key (codes "c")
    ∷ []

size-counts_example :
    (KvStore.size (perform_all operations init) ≡ length (keys_after operations []) % 2 ^ 64)
    × Distinct (keys_after operations [])
    × ((key : Bytes)
        → contains (keys_after operations []) key
          ≡ holds (KvStore.get (perform_all operations init) key))
size-counts_example = size-counts operations

abbrev set_b : Request
set_b = record { command = set; key = codes "b"; value = codes "2" }

handle_request-Refines_example : Refines one_key set_b (handle_request one_key set_b)
handle_request-Refines_example = handle_request-Refines one_key set_b IsValid-one_key
