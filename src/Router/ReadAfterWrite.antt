-- ===== src/Router/ReadAfterWrite.antt =====
-- A SET and a GET of one key through the router, one after the other.
use distributed_kv_store.Prelude.{
  ℕ, ◌*◌, ◌<◌, ◌≤◌, ◌≡◌, ◌≢◌, refl, ap, ◌∙◌, true, List, [], Option, none, some, ◌⊎◌, inl, inr,
  Bytes, eq_bytes_refl, length, min,
}
use distributed_kv_store.Protocol.Messages.{
  max_value_len, Request, Response, ResponseType, get, set,
}
use distributed_kv_store.Protocol.Text.{is_valid_key}
use distributed_kv_store.Server.Requests.{answer_to}
use distributed_kv_store.HashRing.{HashRing, returned, contains}
use distributed_kv_store.HashRing.Preference.{IsCovered, get_nodes_total}
use distributed_kv_store.Router.FailureDetector.{NodeAddress, is_alive}
use distributed_kv_store.Router.Routing.{
  Network, Routing, read_from, write_from, route_read, route_write, or_error, no_live_replica_error,
  with_nodes,
}
use distributed_kv_store.Router.Replication.{Nodes}
use distributed_kv_store.Router.Consistency.{write_from-Applied, read_from-Answers}

abbrev pub set_request : Bytes → Bytes → Request
set_request key value = record { command = set; key = key; value = value }

abbrev pub get_request : Bytes → Request
get_request key = record { command = get; key = key; value = [] }

abbrev pub value_response : Bytes → Response
value_response value = record { kind = ResponseType.value; value = value; message = [] }

module _ (net : Network) (addresses : List NodeAddress) (nodes : Nodes net) where
  -- The response of a read that had one answer to give.
  answer_or_error :
      (tried : ℕ) (a : Response) (x : Option Response × Routing net addresses)
      → ((resp : Response) → x.0 ≡ some resp → resp ≡ a)
      → ((or_error net addresses tried x).0 ≡ a)
        ⊎ ((or_error net addresses tried x).0 ≡ no_live_replica_error tried)
  answer_or_error tried a (none, r) h = inr refl
  answer_or_error tried a (some resp, r) h = inl (h resp refl)

  or_error_path :
      (tried : ℕ) (x : Option Response × Routing net addresses)
      → or_error net addresses tried x ≡ ((or_error net addresses tried x).0, x.1)
  or_error_path tried (none, r) = refl
  or_error_path tried (some resp, r) = refl

  -- What a node holds after the SET, a GET of its key answers.
  get_after_set :
      (key value : Bytes) (d : Bytes → Option Bytes)
      → (answer_to get (get_request key) (answer_to set (set_request key value) d).1).0
        ≡ value_response value
  unfolding answer_to
  get_after_set key value d = rw (eq_bytes_refl key) refl

  pub record ReadsBack (fuel : ℕ) (ring : HashRing) (factor : ℕ) (key value : Bytes)
      (r : Routing net addresses) : Type 0 where
    pub written : Response
    pub between : Routing net addresses
    pub reply : Response
    pub after : Routing net addresses
    pub writes :
        route_write net addresses fuel ring factor (set_request key value) r
        ≡ returned (written, between)
    pub reads :
        route_read net addresses fuel ring factor (get_request key) between
        ≡ returned (reply, after)
    pub right :
        (reply ≡ value_response value)
        ⊎ (reply ≡ no_live_replica_error (min factor (length ring.nodes)))

  -- For nodes that answer as the server does and may fail at any time, with the ring covered by its
  -- nodes and fuel for `get_nodes`: a SET of a valid key and a value of at most 1 MiB, and a GET of
  -- the key right after, from any state of the detector, both return; and the GET returns the value
  -- of the SET, or the error that no replica answered.
  pub read_after_write :
      (fuel : ℕ) (ring : HashRing) (factor : ℕ) (key value : Bytes) (r : Routing net addresses)
      → IsCovered ring
      → ring.ring ≢ []
      → 2 * length ring.ring < fuel
      → is_valid_key key ≡ true
      → length value ≤ max_value_len
      → ReadsBack fuel ring factor key value r
  unfolding route_write route_read
  read_after_write fuel ring factor key value r covered ne enough valid fits =
      let (list, found, distinct, len, _) =
        get_nodes_total ring key factor fuel covered ne enough in
      let w = write_from net addresses list (set_request key value) none r in
      let held = λ (j : Bytes) (m : contains list j ≡ true) (up : is_alive w.1.alive j ≡ true).
        ap (λ d. (answer_to get (get_request key) d).0)
          (write_from-Applied net addresses nodes (set_request key value) (valid, fits) list none r
            j distinct m up)
        ∙ get_after_set key value (nodes.view r.world j) in
      let value_read =
        read_from-Answers net addresses nodes (get_request key) valid list (value_response value) in
      record {
        written = (or_error net addresses (length list) w).0;
        between = w.1;
        reply = (or_error net addresses (length list) (got list w.1)).0;
        after = (got list w.1).1;
        writes =
            ap
              (λ x. with_nodes net addresses x λ l.
                or_error net addresses (length l)
                  (write_from net addresses l (set_request key value) none r))
              found
            ∙ ap returned (or_error_path (length list) w);
        reads =
            ap (λ x. with_nodes net addresses x λ l. or_error net addresses (length l) (got l w.1))
              found
            ∙ ap returned (or_error_path (length list) (got list w.1));
        right =
            elim (answer_or_error (length list) (value_response value) (got list w.1)
              (λ resp. value_read resp w.1 distinct held)) [
                | inl a ↦ inl a
                | inr b ↦ inr (b ∙ ap no_live_replica_error len)
              ];
      }
    where
      got : List Bytes → Routing net addresses → Option Response × Routing net addresses
      got list r' = read_from net addresses list (get_request key) r'
