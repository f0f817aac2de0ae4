-- ===== src/Router/FailureDetector/Heartbeat.antt =====
-- What the failure detector says of a node, after rounds of `heartbeat_loop` and reports of requests
-- that failed, in whatever order the threads took the lock.
use mathlib.Core.Option.{some-injective}
use distributed_kv_store.Prelude.{
  ◌≡◌, refl, sym, ap, ◌∙◌, ◌↔◌, none, some, All-mono, Bool, true, false, ◌||◌, List, [], ◌∷◌, map,
  Option, arith, Bytes, eq_bytes, eq_bytes_refl, if◌then◌else◌, All, Bool-cases, inl, inr,
}
use distributed_kv_store.Protocol.Messages.{Response, ResponseType}
use distributed_kv_store.HashRing.{contains}
use distributed_kv_store.HashRing.Distinct.{Distinct}
use distributed_kv_store.Router.FailureDetector.{
  NodeAddress, id, Alive, is_alive, mark, mark_down, mark_up, all_up, ping_once, pinged, is_pong,
  heartbeat_round, is_alive-mark,
}

-- What changes the map after its construction: a ping of the heartbeat, or a request that failed.
pub data Event : Type 0 where
  heartbeat : NodeAddress → Option Response → Event
  failed_request : Bytes → Event

unfoldable pub happen : Event → Alive → Alive
unfolding mark_up mark_down
happen (heartbeat n reply) alive =
    if ping_once reply then mark_up (id n) alive else mark_down (id n) alive
happen (failed_request node) alive = mark_down node alive

unfoldable pub happen_all : List Event → Alive → Alive
unfolding happen
happen_all [] alive = alive
happen_all (e ∷ es) alive = happen_all es (happen e alive)

-- What the last event about a node says, or else what was said of it before.
unfoldable pub last_word : Bytes → List Event → Bool → Bool
last_word node [] said = said
last_word node (heartbeat n reply ∷ es) said =
    last_word node es (if eq_bytes (id n) node then ping_once reply else said)
last_word node (failed_request n ∷ es) said =
    last_word node es (if eq_bytes n node then false else said)

-- What one ping does to any node.
is_alive-heartbeat :
    (n : NodeAddress) (reply : Option Response) (node : Bytes) (alive : Alive)
    → is_alive (happen (heartbeat n reply) alive) node
      ≡ (if eq_bytes (id n) node then ping_once reply else is_alive alive node)
unfolding happen mark_up mark_down
is_alive-heartbeat n reply node alive = elim (Bool-cases (ping_once reply)) [
  | inl up ↦ rw up (is_alive-mark true (id n) node alive)
  | inr down ↦ rw down (is_alive-mark false (id n) node alive)
]

is_alive-happen_all :
    (es : List Event) (node : Bytes) (alive : Alive)
    → is_alive (happen_all es alive) node ≡ last_word node es (is_alive alive node)
unfolding happen_all last_word
is_alive-happen_all [] node alive = refl
is_alive-happen_all (heartbeat n reply ∷ es) node alive =
    is_alive-happen_all es node (happen (heartbeat n reply) alive)
    ∙ ap (last_word node es) (is_alive-heartbeat n reply node alive)
is_alive-happen_all (failed_request n ∷ es) node alive =
    is_alive-happen_all es node (happen (failed_request n) alive)
    ∙ ap (last_word node es) (unfold happen mark_down in is_alive-mark false n node alive)

is_alive-all_up :
    (ns : List NodeAddress) (node : Bytes) (alive : Alive)
    → is_alive (all_up ns alive) node ≡ (contains (map id ns) node || is_alive alive node)
unfolding all_up contains mark_up
is_alive-all_up [] node alive = refl
is_alive-all_up (n ∷ ns) node alive =
    ground (
      arith,
      is_alive-all_up ns node (mark true (id n) alive),
      is_alive-mark true (id n) node alive,
    )

-- In any interleaving of pings and reports of failed requests, from the construction on: a node is
-- alive according to the last of them that was about it; if there was none, then if and only if it is
-- one of the nodes of the detector.
pub is_alive-last_word :
    (ns : List NodeAddress) (es : List Event) (node : Bytes)
    → is_alive (happen_all es (all_up ns [])) node ≡ last_word node es (contains (map id ns) node)
is_alive-last_word ns es node =
    is_alive-happen_all es node (all_up ns [])
    ∙ ap (last_word node es) (is_alive-all_up ns node [] ∙ no_entry (contains (map id ns) node))
  where
    no_entry : (b : Bool) → (b || is_alive [] node) ≡ b
    no_entry true = refl
    no_entry false = unfold is_alive in refl

abbrev pub Probe : Type 0
Probe = NodeAddress × Option Response

-- A round in which `running_` stays true, with the outcomes of its pings.
abbrev pub full_round : List Probe → Alive → Alive
full_round ps = heartbeat_round (map (λ (p : Probe). p.0) ps) (map (λ (p : Probe). pinged p.1) ps)

abbrev pub probed_ids : List Probe → List Bytes
probed_ids ps = map (λ (p : Probe). id p.0) ps

full_round-next :
    (p : Probe) (ps : List Probe) (alive : Alive)
    → full_round (p ∷ ps) alive ≡ full_round ps (happen (heartbeat p.0 p.1) alive)
unfolding heartbeat_round happen
full_round-next p ps alive = refl

-- A round leaves other nodes as they are.
full_round_other :
    (ps : List Probe) (node : Bytes) (alive : Alive)
    → contains (probed_ids ps) node ≡ false
    → is_alive (full_round ps alive) node ≡ is_alive alive node
full_round_other [] node alive h = unfold heartbeat_round in refl
full_round_other (p ∷ ps) node alive h =
    let other : eq_bytes (id p.0) node ≡ false = unfold contains in ground (arith, h) in
    let rest : contains (probed_ids ps) node ≡ false = unfold contains in ground (arith, h) in
    rw (full_round-next p ps alive) (
      full_round_other ps node (happen (heartbeat p.0 p.1) alive) rest
      ∙ rw (is_alive-heartbeat p.0 p.1 node alive, other) refl)

-- The first node of a round.
full_round_first :
    (p : Probe) (ps : List Probe) (alive : Alive)
    → contains (probed_ids ps) (id p.0) ≡ false
    → is_alive (full_round (p ∷ ps) alive) (id p.0) ≡ ping_once p.1
full_round_first p ps alive fresh = rw (full_round-next p ps alive) (
    full_round_other ps (id p.0) (happen (heartbeat p.0 p.1) alive) fresh
    ∙ rw (is_alive-heartbeat p.0 p.1 (id p.0) alive, eq_bytes_refl (id p.0)) refl)

full_round-pinged :
    (ps : List Probe) (alive : Alive)
    → Distinct (probed_ids ps)
    → All (λ (p : Probe). is_alive (full_round ps alive) (id p.0) ≡ ping_once p.1) ps
unfolding heartbeat_round happen
full_round-pinged [] alive d = tt
full_round-pinged (p ∷ ps) alive (fresh, d) =
    (full_round_first p ps alive fresh, full_round-pinged ps (happen (heartbeat p.0 p.1) alive) d)

-- The ping returned a response, and it is a pong.
abbrev pub AnsweredPong : Option Response → Type 0
AnsweredPong reply = (resp : Response) × (reply ≡ some resp) × (resp.kind ≡ ResponseType.pong)

ping_once-AnsweredPong : (reply : Option Response) → (ping_once reply ≡ true) ↔ AnsweredPong reply
unfolding ping_once
ping_once-AnsweredPong none = (λ h. cc (h), λ (resp, e, k). cc (e))
ping_once-AnsweredPong (some resp) = (
  λ h. (resp, refl, pong_kind resp.kind h),
  λ (r, e, k). ap is_pong (ap (λ (x : Response). x.kind) (some-injective _ _ e) ∙ k),
)
  where
    pong_kind : (kind : ResponseType) → is_pong kind ≡ true → kind ≡ ResponseType.pong
    pong_kind ResponseType.pong h = refl
    pong_kind ResponseType.ok h = cc (h)
    pong_kind ResponseType.error h = cc (h)
    pong_kind ResponseType.value h = cc (h)
    pong_kind ResponseType.deleted h = cc (h)
    pong_kind ResponseType.not_found h = cc (h)

alive-AnsweredPong :
    (up : Bool) (reply : Option Response) → up ≡ ping_once reply → (up ≡ true) ↔ AnsweredPong reply
alive-AnsweredPong up reply e =
    let both = ping_once-AnsweredPong reply in (λ h. both.0 (sym e ∙ h), λ h. e ∙ both.1 h)

-- After a round of the heartbeat over nodes with different ids that was not stopped, each node is
-- alive if and only if its ping returned a response and that is a pong, whatever was said before;
-- and nothing changes for any other node.
pub heartbeat_round-ping_once :
    (ps : List Probe) (alive : Alive)
    → Distinct (probed_ids ps)
    → All (λ (p : Probe). (is_alive (full_round ps alive) (id p.0) ≡ true) ↔ AnsweredPong p.1) ps
      × ((node : Bytes)
          → contains (probed_ids ps) node ≡ false
          → is_alive (full_round ps alive) node ≡ is_alive alive node)
heartbeat_round-ping_once ps alive d = (
  All-mono _ _ (λ (p : Probe) e. alive-AnsweredPong _ p.1 e) ps (full_round-pinged ps alive d),
  λ node h. full_round_other ps node alive h,
)
