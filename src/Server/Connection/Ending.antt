-- ===== src/Server/Connection/Ending.antt =====
-- How calls of a reactor end, and when setting the options of its new clients succeeds.
use distributed_kv_store.Prelude.{
  ℕ, ◌≡◌, refl, Bool, true, false, ◌&&◌, List, [], ◌∷◌, if◌then◌else◌,
}
use distributed_kv_store.HashRing.{Outcome, returned, threw, running}
use distributed_kv_store.Socket.{OptionCalls, set_nonblocking, set_tcp_nodelay}

-- How a call ends: it does not throw, and what it returns is as stated.
abbrev pub Ends : {A : Type 0} → (A → Type 0) → Outcome A → Type 0
Ends P (returned a) = P a
Ends P threw = ⊥
Ends P running = Unit

-- It ends so if the condition holds, and else it throws.
abbrev pub EndsIf : {A : Type 0} → Bool → (A → Type 0) → Outcome A → Type 0
EndsIf true P x = Ends P x
EndsIf false P x = x ≡ threw

-- Every call that sets an option of the descriptors succeeds.
unfoldable pub all_set : (ℕ → OptionCalls) → List ℕ → Bool
all_set calls [] = true
all_set calls (fd ∷ fds) =
    (calls fd).get_flags && (calls fd).set_flags && (calls fd).set_no_delay && all_set calls fds

-- The same as soon as the first descriptor is done.
pub EndsIf-set :
    {A : Type 0} (P : A → Type 0) (c : OptionCalls) (b : Bool) (x : Outcome A)
    → EndsIf b P x
    → EndsIf
        (c.get_flags && c.set_flags && c.set_no_delay && b)
        P
        (if set_nonblocking c then (if set_tcp_nodelay c then x else threw) else threw)
unfolding set_nonblocking set_tcp_nodelay
EndsIf-set P c b x h = by_calls c.get_flags c.set_flags c.set_no_delay
  where
    by_calls :
        (g f d : Bool)
        → EndsIf
            (g && f && d && b)
            P
            (if (if g then f else false) then (if d then x else threw) else threw)
    by_calls true true true = h
    by_calls true true false = refl
    by_calls true false d = refl
    by_calls false f d = refl
