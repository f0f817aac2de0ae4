-- ===== src/Client/Commands.antt =====
-- What the client makes of a line.
use mathlib.Core.Path.{subst}
use distributed_kv_store.Prelude.{
  ◌≡◌, refl, sym, ap, ◌∙◌, Bool, true, false, List, [], ◌∷◌, ◌++◌, ◌⊎◌, inl, inr, ◌||◌, codes,
  eq_bytes, eq_bytes_iff, Bytes, All, Bool-cases, if◌then◌else◌,
}
use distributed_kv_store.Protocol.Messages.{Command, Request, complete, get, set, delete, ping}
use distributed_kv_store.Protocol.Encode.{encode_request}
use distributed_kv_store.Protocol.RequestParser.{try_parse_request}
use distributed_kv_store.Protocol.RequestParser.RoundTrip.{
  Sendable, carried, try_parse_request-encode_request,
}
use distributed_kv_store.Client.Words.{Token, split_whitespace-tokens, split_whitespace-join_value}
use distributed_kv_store.Client.{
  split_whitespace, Built, built, refused, build_request, build_key_command, build_set, build_ping,
}

-- A command's name, in capital or small letters.
abbrev pub Names : Bytes → Command → Type 0
Names word get = (word ≡ codes "GET") ⊎ (word ≡ codes "get")
Names word set = (word ≡ codes "SET") ⊎ (word ≡ codes "set")
Names word delete = (word ≡ codes "DELETE") ⊎ (word ≡ codes "delete")
Names word ping = (word ≡ codes "PING") ⊎ (word ≡ codes "ping")

-- What is typed behind the name.
abbrev pub words_of : Command → Request → List Bytes
words_of get req = req.key ∷ []
words_of set req = req.key ∷ split_whitespace req.value
words_of delete req = req.key ∷ []
words_of ping req = []

-- The tokens are the command of a request and its words.
abbrev pub Spells : List Bytes → Request → Type 0
Spells [] req = ⊥
Spells (word ∷ args) req = Names word req.command × (args ≡ words_of req.command req)

Spelled : List Bytes → Built → Type 0
Spelled tokens (built req) = Spells tokens req
Spelled tokens (refused message) = Unit

Spelled-if :
    (tokens : List Bytes) (b : Bool) (x y : Built)
    → (b ≡ true → Spelled tokens x)
    → Spelled tokens y
    → Spelled tokens (if b then x else y)
Spelled-if tokens true x y hx hy = hx refl
Spelled-if tokens false x y hx hy = hy

eq_bytes-either :
    (word a b : Bytes) → (eq_bytes word a || eq_bytes word b) ≡ true → (word ≡ a) ⊎ (word ≡ b)
eq_bytes-either word a b h = elim (Bool-cases (eq_bytes word a)) [
  | inl first ↦ inl ((eq_bytes_iff word a).0 first)
  | inr other ↦ inr ((eq_bytes_iff word b).0 (rw other at h))
]

module _ (word : Bytes) where
  build_get-Spelled :
      (usage : Bytes) (args : List Bytes)
      → Names word get
      → Spelled (word ∷ args) (build_key_command get usage args)
  unfolding build_key_command Spelled
  build_get-Spelled usage [] n = tt
  build_get-Spelled usage (key ∷ []) n = (n, refl)
  build_get-Spelled usage (key ∷ t ∷ ts) n = tt

  build_delete-Spelled :
      (usage : Bytes) (args : List Bytes)
      → Names word delete
      → Spelled (word ∷ args) (build_key_command delete usage args)
  unfolding build_key_command Spelled
  build_delete-Spelled usage [] n = tt
  build_delete-Spelled usage (key ∷ []) n = (n, refl)
  build_delete-Spelled usage (key ∷ t ∷ ts) n = tt

  build_set-Spelled :
      (args : List Bytes) → All Token args → Names word set → Spelled (word ∷ args) (build_set args)
  unfolding build_set Spelled
  build_set-Spelled [] hs n = tt
  build_set-Spelled (key ∷ []) hs n = tt
  build_set-Spelled (key ∷ value ∷ more) (hk, (hv, hs)) n =
      (n, ap (λ vs. key ∷ vs) (sym (split_whitespace-join_value value more hv hs)))

  build_ping-Spelled :
      (args : List Bytes) → Names word ping → Spelled (word ∷ args) (build_ping args)
  unfolding build_ping Spelled
  build_ping-Spelled [] n = (n, refl)
  build_ping-Spelled (t ∷ ts) n = tt

refused-Spelled : (tokens : List Bytes) (message : Bytes) → Spelled tokens (refused message)
unfolding Spelled
refused-Spelled tokens message = tt

build_request-Spelled :
    (tokens : List Bytes) → All Token tokens → Spelled tokens (build_request tokens)
unfolding build_request
build_request-Spelled [] h = refused-Spelled [] _
build_request-Spelled (word ∷ args) (h, hs) =
    Spelled-if _ _ _ _ (λ e. build_get-Spelled word _ args (eq_bytes-either word _ _ e))
      (Spelled-if _ _ _ _ (λ e. build_delete-Spelled word _ args (eq_bytes-either word _ _ e))
        (Spelled-if _ _ _ _ (λ e. build_set-Spelled word args hs (eq_bytes-either word _ _ e))
          (Spelled-if _ _ _ _ (λ e. build_ping-Spelled word args (eq_bytes-either word _ _ e))
            (refused-Spelled _ _))))

-- A request that the client builds holds only what its command carries.
Carried : Built → Type 0
Carried (built req) = carried req.command req ≡ req
Carried (refused message) = Unit

Carried-if : (b : Bool) (x y : Built) → Carried x → Carried y → Carried (if b then x else y)
Carried-if true x y hx hy = hx
Carried-if false x y hx hy = hy

build_get-Carried : (usage : Bytes) (args : List Bytes) → Carried (build_key_command get usage args)
unfolding build_key_command Carried
build_get-Carried usage [] = tt
build_get-Carried usage (key ∷ []) = refl
build_get-Carried usage (key ∷ t ∷ ts) = tt

build_delete-Carried :
    (usage : Bytes) (args : List Bytes) → Carried (build_key_command delete usage args)
unfolding build_key_command Carried
build_delete-Carried usage [] = tt
build_delete-Carried usage (key ∷ []) = refl
build_delete-Carried usage (key ∷ t ∷ ts) = tt

build_set-Carried : (args : List Bytes) → Carried (build_set args)
unfolding build_set Carried
build_set-Carried [] = tt
build_set-Carried (key ∷ []) = tt
build_set-Carried (key ∷ value ∷ more) = refl

build_ping-Carried : (args : List Bytes) → Carried (build_ping args)
unfolding build_ping Carried
build_ping-Carried [] = refl
build_ping-Carried (t ∷ ts) = tt

refused-Carried : (message : Bytes) → Carried (refused message)
unfolding Carried
refused-Carried message = tt

build_request-Carried : (tokens : List Bytes) → Carried (build_request tokens)
unfolding build_request
build_request-Carried [] = refused-Carried _
build_request-Carried (cmd ∷ args) = Carried-if _ _ _ (build_get-Carried _ args) (
    Carried-if _ _ _ (build_delete-Carried _ args) (
      Carried-if _ _ _ (build_set-Carried args)
        (Carried-if _ _ _ (build_ping-Carried args) (refused-Carried _))))

-- If the client builds a request from a line, and the server accepts its key and value, then the
-- server parses that very request from its encoding; and the tokens of the line are the name of the
-- request's command, in capital or small letters, and behind it, none missing and in order, the key
-- and the words of the value, as far as the command has them.
pub build_request-parses :
    (line : Bytes) (req : Request) (rest e : Bytes)
    → build_request (split_whitespace line) ≡ built req
    → Sendable req.command req
    → (try_parse_request (record { buffer = encode_request req ++ rest; error_message = e })
        ≡ (complete req, record { buffer = rest; error_message = e }))
      × Spells (split_whitespace line) req
unfolding Carried Spelled
build_request-parses line req rest e h ok = (
  try_parse_request-encode_request req rest e ok
      ∙ ap (λ r. (complete r, record { buffer = rest; error_message = e }))
          (subst Carried h (build_request-Carried (split_whitespace line))),
  subst (Spelled (split_whitespace line)) h
      (build_request-Spelled (split_whitespace line) (split_whitespace-tokens line).0),
)
