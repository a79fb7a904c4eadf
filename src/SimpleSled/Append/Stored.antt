-- ===== src/SimpleSled/Append/Stored.antt =====
-- The loop of `append_payload` of store_simple_sled/src/lib.rs over its source, and what its
-- transaction leaves in the trees.
use willow_rs.Prelude.{
  ℕ, ◌+◌, ◌≡◌, refl, true, some, List, [], ◌∷◌, ◌++◌, arith, ltb, ◌==◌, if◌then◌else◌, length,
  length-append, append_assoc, append-nil, Bool-cases, inl, inr,
}
use willow_rs.Prelude.Order.{equal}
use willow_rs.Entry.{Entry}
use willow_rs.SimpleSled.State.{Setting, Store, EntryValues, encode_entry_values, path_key, tsp_key}
use willow_rs.SimpleSled.Sled.{Bytes}
use willow_rs.Store.Events.{appended, enqueue_op}
use willow_rs.Prelude.Order.{list_ord, nat_ord}
use willow_rs.SimpleSled.Append.{too_many, received, receive, write_payload, or_empty}

module _ {N S PD AT : Type 0} (cfg : Setting N S PD AT) where
  -- A hasher that was fed the bytes one by one.
  abbrev pub write_each : cfg.Hasher → List ℕ → cfg.Hasher
  write_each hasher [] = hasher
  write_each hasher (byte ∷ bytes) = write_each (cfg.write hasher (byte ∷ [])) bytes

  -- The loop over the source ends with all its bytes behind the payload and in the hasher, or, where
  -- these are more than the limit, by the guard.
  pub receive_lem :
      (limit : ℕ) (payload : Bytes) (hasher : cfg.Hasher) (bytes : List ℕ)
      → receive cfg limit payload hasher bytes ≡ (
          if ltb limit (length payload + length bytes)
          then too_many
          else received (payload ++ bytes) (write_each hasher bytes))
  unfolding receive
  receive_lem limit payload hasher [] = rw append-nil (ground arith)
  receive_lem limit payload hasher (b ∷ bytes) =
      let ih = receive_lem limit (payload ++ (b ∷ [])) (cfg.write hasher (b ∷ [])) bytes in
      rw (ih, append_assoc payload (b ∷ []) bytes) (ground (arith, length-append payload (b ∷ [])))

module _ {N S PD AT E : Type 0} (cfg : Setting N S PD AT) (s : Store cfg E) where
  abbrev pub payload_key : Entry N S PD → Bytes
  payload_key e = path_key cfg e.subspace_id e.path true

  -- The payload that is there before the call.
  abbrev pub stored : Entry N S PD → Bytes
  stored e = or_empty (cfg.sled.get (payload_key e) s.payloads)

module _ {N S PD AT E : Type 0} (cfg : Setting N S PD AT) (s : Store cfg E) where
  -- The stores differ by the whole payload: in the third tree it is at the key of the payload, the
  -- first two hold at the keys of the entry that all of it is there, and nothing else is changed; the
  -- subscribers are told if there are new bytes.
  abbrev pub Stored :
      Bytes → Entry N S PD → EntryValues PD AT → Bytes → Bytes → Store cfg E → Type 0
  Stored key e v payload k s' =
      let value = encode_entry_values cfg v.length v.digest v.token v.length in
      (cfg.sled.get k s'.payloads
        ≡ (if equal (payload_key cfg s e) k then some payload else cfg.sled.get k s.payloads))
      × (cfg.sled.get k s'.spt ≡ (if equal key k then some value else cfg.sled.get k s.spt))
      × (cfg.sled.get k s'.tsp ≡ (
          if equal (tsp_key cfg e.subspace_id e.path e.timestamp) k
          then some value
          else cfg.sled.get k s.tsp))
      × (s'.events ≡ (
          if length (stored cfg s e) == v.length
          then s.events
          else enqueue_op
              (appended (record { entry = e; token = v.token }) (length (stored cfg s e)) v.length)
              s.events))

  pub write_payload-Stored :
      (key : Bytes) (e : Entry N S PD) (v : EntryValues PD AT) (payload k : Bytes)
      → length payload ≡ v.length
      → Stored key e v payload k
          (write_payload cfg s key (payload_key cfg s e) payload e v (length (stored cfg s e)))
  unfolding write_payload
  write_payload-Stored key e v payload k l =
      rw l (elim (Bool-cases (length (stored cfg s e) == v.length)) [
        | inl q ↦ rw q (
          cfg.sled.get-insert (payload_key cfg s e) k payload s.payloads,
          cfg.sled.get-insert key k (encode_entry_values cfg v.length v.digest v.token v.length)
              s.spt,
          cfg.sled.get-insert (tsp_key cfg e.subspace_id e.path e.timestamp) k
              (encode_entry_values cfg v.length v.digest v.token v.length) s.tsp,
          refl,
        )
        | inr q ↦ rw q (
          cfg.sled.get-insert (payload_key cfg s e) k payload s.payloads,
          cfg.sled.get-insert key k (encode_entry_values cfg v.length v.digest v.token v.length)
              s.spt,
          cfg.sled.get-insert (tsp_key cfg e.subspace_id e.path e.timestamp) k
              (encode_entry_values cfg v.length v.digest v.token v.length) s.tsp,
          refl,
        )
      ])
