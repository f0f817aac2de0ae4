-- ===== src/Workload.antt =====
-- `WorkloadGenerator` of benchmark/workload.cpp. The random engine and its two distributions are
-- parameters: a state, and a draw from it of a key's number up to a limit and of an operation.
use distributed_kv_store.Prelude.{
  ℕ, zero, suc, ◌-◌, ◌^◌, ◌≤◌, ◌<◌, ◌≡◌, refl, ap, Bool, true, false, List, [], ◌∷◌, ◌++◌, arith,
  Bytes, codes, length, replicate, All,
}
use distributed_kv_store.Protocol.Messages.{max_value_len, Request, get, set}
use distributed_kv_store.Protocol.Text.{to_string, digits, is_valid_key, all_above_space}
use distributed_kv_store.Protocol.Text.Decimal.{IsDigit, digits-IsDigit, length-digits}
use distributed_kv_store.Protocol.RequestParser.RoundTrip.{Sendable}
use distributed_kv_store.Protocol.RequestLoop.Stream.{AllSendable}

module _ {Rng : Type 0} (draw_key : ℕ → Rng → ℕ × Rng) (draw_get : Rng → Bool × Rng) where
  pub record WorkloadGenerator : Type 0 where
    pub rng : Rng
    pub last_key : ℕ
    pub value_template : Bytes

  abbrev pub make_generator : Rng → ℕ → ℕ → WorkloadGenerator
  make_generator rng key_space value_size = record {
    rng = rng;
    last_key = key_space - 1;
    value_template = replicate value_size b'x';
  }

  abbrev pub drawn_request : Bytes → Bytes → Bool → Request
  drawn_request key value true = record { command = get; key = key; value = [] }
  drawn_request key value false = record { command = set; key = key; value = value }

  unfoldable pub next : WorkloadGenerator → Request × WorkloadGenerator
  next g =
      let (number, rng) = draw_key g.last_key g.rng in
      let (is_get, rng') = draw_get rng in
      (
        drawn_request (codes "key:" ++ to_string number) g.value_template is_get,
        record g { rng = rng' },
      )

  -- The requests of one run.
  unfoldable pub generate : ℕ → WorkloadGenerator → List Request
  unfolding next
  generate zero g = []
  generate (suc n) g = let (req, g') = next g in req ∷ generate n g'

above_space-append :
    (s t : Bytes)
    → all_above_space s ≡ true
    → all_above_space t ≡ true
    → all_above_space (s ++ t) ≡ true
unfolding all_above_space
above_space-append [] t hs ht = ht
above_space-append (c ∷ s) t hs ht = ground (arith, above_space-append s t)

above_space-IsDigit : (s : Bytes) → All IsDigit s → all_above_space s ≡ true
unfolding all_above_space
above_space-IsDigit [] h = refl
above_space-IsDigit (c ∷ s) h = ground (arith, above_space-IsDigit s)

-- The keys of the workload are valid.
is_valid_key-numbered : (n : ℕ) → n < 2 ^ 64 → is_valid_key (codes "key:" ++ to_string n) ≡ true
unfolding is_valid_key to_string
is_valid_key-numbered n h =
    let short : length (digits (suc n) n) ≤ 20 = length-digits 19 (suc n) n (omega arith) in
    let above = above_space-IsDigit (digits (suc n) n) (digits-IsDigit (suc n) n) in
    unfold all_above_space in ground (arith, above, short)

length-replicate : (n c : ℕ) → length (replicate n c) ≡ n
length-replicate zero c = refl
length-replicate (suc n) c = ap suc (length-replicate n c)

module _ {Rng : Type 0} (draw_key : ℕ → Rng → ℕ × Rng) (draw_get : Rng → Bool × Rng) where
  drawn_request-Sendable :
      (key value : Bytes) (b : Bool)
      → is_valid_key key ≡ true
      → length value ≤ max_value_len
      → Sendable
          (drawn_request draw_key draw_get key value b).command
          (drawn_request draw_key draw_get key value b)
  drawn_request-Sendable key value true valid fits = valid
  drawn_request-Sendable key value false valid fits = (valid, fits)

  -- If no draw of a key exceeds its limit, the limit is a 64-bit number and the value has at most
  -- 1 MiB, then every request of a run is one that the server accepts.
  pub generate-AllSendable :
      (n : ℕ) (g : WorkloadGenerator draw_key draw_get)
      → ((limit : ℕ) (rng : Rng) → (draw_key limit rng).0 ≤ limit)
      → g.last_key < 2 ^ 64
      → length g.value_template ≤ max_value_len
      → AllSendable (generate draw_key draw_get n g)
  unfolding generate
  generate-AllSendable zero g within limit fits = tt
  generate-AllSendable (suc n) g within limit fits = (
    drawn_request-Sendable _ g.value_template _
        (is_valid_key-numbered _ (omega (arith, within g.last_key g.rng, limit))) fits,
    generate-AllSendable n _ within limit fits,
  )
