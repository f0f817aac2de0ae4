-- ===== src/Transport/Delivery.antt =====
-- What the write loops put on the wire.
use distributed_kv_store.Prelude.{
  ℕ, zero, suc, ◌+◌, ◌≤◌, ◌≡◌, refl, sym, append-nil, ap, ◌∙◌, Bool, true, false, List, [], ◌∷◌,
  ◌++◌, append_assoc, arith, Bytes, length, take, drop, length-drop, if◌then◌else◌, Bool-cases, inl,
  inr,
}
use distributed_kv_store.Transport.{
  WriteResult, wrote, would_block, interrupted, failed, Ending, finished, broken, write_loop,
  write_all, reactor_retries,
}

-- The bytes that a list of results can carry, as long as each lets the loop go on.
abbrev pub capacity : (WriteResult → Bool) → List WriteResult → ℕ
capacity retries [] = 0
capacity retries (wrote zero ∷ rs) = 0
capacity retries (wrote (suc n) ∷ rs) = suc n + capacity retries rs
capacity retries (would_block ∷ rs) =
    let rest = capacity retries rs in if retries would_block then rest else 0
capacity retries (interrupted ∷ rs) =
    let rest = capacity retries rs in if retries interrupted then rest else 0
capacity retries (failed ∷ rs) = 0

take-drop : {A : Type 0} (n : ℕ) (xs : List A) → take n xs ++ drop n xs ≡ xs
take-drop zero xs = refl
take-drop (suc n) [] = refl
take-drop (suc n) (x ∷ xs) = ap (λ t. x ∷ t) (take-drop n xs)

-- The bytes that the calls of the reactor carry: one that is interrupted or would block carries none
-- and is made again; one that writes nothing or fails otherwise is the last.
unfoldable pub bytes_written : List WriteResult → ℕ
bytes_written [] = 0
bytes_written (wrote zero ∷ rs) = 0
bytes_written (wrote (suc n) ∷ rs) = suc n + bytes_written rs
bytes_written (would_block ∷ rs) = bytes_written rs
bytes_written (interrupted ∷ rs) = bytes_written rs
bytes_written (failed ∷ rs) = 0

capacity-bytes_written : (rs : List WriteResult) → capacity reactor_retries rs ≡ bytes_written rs
unfolding bytes_written
capacity-bytes_written [] = refl
capacity-bytes_written (wrote zero ∷ rs) = refl
capacity-bytes_written (wrote (suc n) ∷ rs) = ap (λ m. suc n + m) (capacity-bytes_written rs)
capacity-bytes_written (would_block ∷ rs) = capacity-bytes_written rs
capacity-bytes_written (interrupted ∷ rs) = capacity-bytes_written rs
capacity-bytes_written (failed ∷ rs) = refl

take-nil : {A : Type 0} (n : ℕ) → take {A = A} n [] ≡ []
take-nil zero = refl
take-nil (suc n) = refl

take-add : {A : Type 0} (n m : ℕ) (xs : List A) → take n xs ++ take m (drop n xs) ≡ take (n + m) xs
take-add zero m xs = let e : 0 + m ≡ m = omega arith in rw e refl
take-add (suc n) m [] = let e : suc n + m ≡ suc (n + m) = omega arith in rw e (take-nil m)
take-add (suc n) m (x ∷ xs) =
    let e : suc n + m ≡ suc (n + m) = omega arith in rw e (ap (λ t. x ∷ t) (take-add n m xs))

-- What went out is the data up to some point, and all of it if the loop finished.
pub record Delivered (bytes : Bytes) (result : Bytes × Ending) : Type 0 where
  pub unsent : Bytes
  pub split : result.0 ++ unsent ≡ bytes
  pub whole : result.1 ≡ finished → unsent ≡ []

Delivered-again :
    {bytes : Bytes} {r : Bytes × Ending} (b : Bool)
    → Delivered bytes r
    → Delivered bytes (if b then r else ([], broken))
Delivered-again true d = d
Delivered-again {bytes} false d = record { unsent = bytes; split = refl; whole = λ h. cc (h) }

module _ (retries : WriteResult → Bool) where
  pub write_loop-Delivered :
      (rs : List WriteResult) (bytes : Bytes) → Delivered bytes (write_loop retries rs bytes)
  unfolding write_loop
  write_loop-Delivered rs [] = record { unsent = []; split = refl; whole = λ h. refl }
  write_loop-Delivered [] (c ∷ bytes) = record {
    unsent = c ∷ bytes;
    split = refl;
    whole = λ h. cc (h);
  }
  write_loop-Delivered (wrote zero ∷ rs) (c ∷ bytes) = record {
    unsent = c ∷ bytes;
    split = refl;
    whole = λ h. cc (h);
  }
  write_loop-Delivered (wrote (suc n) ∷ rs) (c ∷ bytes) =
      let d = write_loop-Delivered rs (drop (suc n) (c ∷ bytes)) in
      record {
        unsent = d.unsent;
        split =
            append_assoc (take (suc n) (c ∷ bytes)) _ d.unsent
            ∙ ap (λ t. take (suc n) (c ∷ bytes) ++ t) d.split
            ∙ take-drop (suc n) (c ∷ bytes);
        whole = d.whole;
      }
  write_loop-Delivered (would_block ∷ rs) (c ∷ bytes) =
      Delivered-again (retries would_block) (write_loop-Delivered rs (c ∷ bytes))
  write_loop-Delivered (interrupted ∷ rs) (c ∷ bytes) =
      Delivered-again (retries interrupted) (write_loop-Delivered rs (c ∷ bytes))
  write_loop-Delivered (failed ∷ rs) (c ∷ bytes) = record {
    unsent = c ∷ bytes;
    split = refl;
    whole = λ h. cc (h);
  }

  -- What goes out is as much of the data as the results carry.
  write_loop-take :
      (rs : List WriteResult) (bytes : Bytes)
      → (write_loop retries rs bytes).0 ≡ take (capacity retries rs) bytes
  unfolding write_loop
  write_loop-take rs [] = sym (take-nil (capacity retries rs))
  write_loop-take [] (c ∷ bytes) = refl
  write_loop-take (wrote zero ∷ rs) (c ∷ bytes) = refl
  write_loop-take (wrote (suc n) ∷ rs) (c ∷ bytes) =
      ap (λ t. take (suc n) (c ∷ bytes) ++ t) (write_loop-take rs (drop (suc n) (c ∷ bytes)))
      ∙ take-add (suc n) (capacity retries rs) (c ∷ bytes)
  write_loop-take (would_block ∷ rs) (c ∷ bytes) = elim (Bool-cases (retries would_block)) [
    | inl again ↦ rw again (write_loop-take rs (c ∷ bytes))
    | inr ends ↦ rw ends refl
  ]
  write_loop-take (interrupted ∷ rs) (c ∷ bytes) = elim (Bool-cases (retries interrupted)) [
    | inl again ↦ rw again (write_loop-take rs (c ∷ bytes))
    | inr ends ↦ rw ends refl
  ]
  write_loop-take (failed ∷ rs) (c ∷ bytes) = refl

  -- The loop finishes once the results carry as many bytes as the data has.
  pub write_loop-finished :
      (rs : List WriteResult) (bytes : Bytes)
      → length bytes ≤ capacity retries rs
      → (write_loop retries rs bytes).1 ≡ finished
  unfolding write_loop
  write_loop-finished rs [] h = refl
  write_loop-finished [] (c ∷ bytes) h = absurd (omega arith)
  write_loop-finished (wrote zero ∷ rs) (c ∷ bytes) h = absurd (omega arith)
  write_loop-finished (wrote (suc n) ∷ rs) (c ∷ bytes) h =
      write_loop-finished rs (drop (suc n) (c ∷ bytes))
        (omega (arith, h, length-drop {0} (suc n) (c ∷ bytes)))
  write_loop-finished (would_block ∷ rs) (c ∷ bytes) h =
      ground (arith, write_loop-finished rs (c ∷ bytes))
  write_loop-finished (interrupted ∷ rs) (c ∷ bytes) h =
      ground (arith, write_loop-finished rs (c ∷ bytes))
  write_loop-finished (failed ∷ rs) (c ∷ bytes) h = absurd (omega arith)

-- However the writes of the reactor are cut short, interrupted or blocked: what the connection has
-- received is as much of the response, from its start, as the calls carried up to one that wrote
-- nothing or failed; the rest is what was not sent, nothing if the loop finished; and if they carried
-- its length, the whole response went out and the loop has finished.
pub write_all-Delivered :
    (rs : List WriteResult) (bytes : Bytes)
    → ((write_all rs bytes).0 ≡ take (bytes_written rs) bytes)
      × Delivered bytes (write_all rs bytes)
      × (length bytes ≤ bytes_written rs → write_all rs bytes ≡ (bytes, finished))
unfolding write_all
write_all-Delivered rs bytes = (
  write_loop-take reactor_retries rs bytes ∙ ap (λ n. take n bytes) (capacity-bytes_written rs),
  write_loop-Delivered reactor_retries rs bytes,
  λ enough. all_sent _ (write_loop-Delivered reactor_retries rs bytes) (
      write_loop-finished reactor_retries rs bytes
        (omega (arith, enough, capacity-bytes_written rs))),
)
  where
    all_sent :
        {bytes : Bytes} (r : Bytes × Ending)
        → Delivered bytes r
        → r.1 ≡ finished
        → r ≡ (bytes, finished)
    all_sent (out, e) d h = rw h (
        ap (λ o. (o, finished))
          (sym (append-nil out) ∙ ap (λ u. out ++ u) (sym (d.whole h)) ∙ d.split))
