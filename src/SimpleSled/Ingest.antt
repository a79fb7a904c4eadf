-- ===== src/SimpleSled/Ingest.antt =====
-- `ingest_entry` of store_simple_sled/src/lib.rs.
pub mod Pruning
pub mod Ends
pub mod Invariant
pub mod Consistent
pub mod Notify
use willow_rs.Prelude.{
  ℕ, Bool, true, false, ◌&&◌, not, Option, none, some, List, [], ◌∷◌, ◌++◌, if◌then◌else◌,
}
use willow_rs.Prelude.Order.{Ord, equal}
use willow_rs.Prelude.Outcome.{Outcome, ok, err, panic, ◌>>=◌, unwrap, Done, done}
use willow_rs.Path.{is_prefixed_by}
use willow_rs.Entry.{Entry, is_newer_than}
use willow_rs.Store.{
  AuthorisedEntry, authorised_entry_new, EntryOrigin, EntryIngestionSuccess, success, obsolete,
  EntryIngestionError, pruning_prevented, operations_error,
}
use willow_rs.Store.Events.{QueuedOp, insertion}
use willow_rs.SimpleSled.Keys.{spt_to_tps_key}
use willow_rs.SimpleSled.Sled.{Bytes, Binding, remove_all}
use willow_rs.SimpleSled.State.{
  Setting, Faults, flatten, checked, Store, settle, notify_event, EntryValues, encode_entry_values,
  path_key, spt_key, tsp_key, decode_binding,
}

module _ {N S PD AT : Type 0} (cfg : Setting N S PD AT) where
  -- `for key in keys_to_prune { let tsp_key = spt_to_tps_key(&key).await; … }`.
  unfoldable pub tsp_keys : List Bytes → Option (List Bytes)
  tsp_keys [] = some []
  tsp_keys (key ∷ keys) =
      let rest = tsp_keys keys in
      elim (spt_to_tps_key cfg.subspaces cfg.u64_be cfg.limits key) [
        | none ↦ none
        | some t ↦ elim rest [ none ↦ none | some ts ↦ some (t ∷ ts) ]
      ]

module _ {N S PD AT : Type 0} (cfg : Setting N S PD AT) ⦃pd : Ord PD⦄ where
  -- The loop of `is_prefixed_by_newer`.
  unfoldable pub newer_loop :
      N → Entry N S PD → List Binding → Option (Option (AuthorisedEntry N S PD AT))
  newer_loop namespace e [] = some none
  newer_loop namespace e (b ∷ bs) =
      let rest = newer_loop namespace e bs in
      elim (decode_binding cfg namespace b) [
        | none ↦ none
        | some (other, v) ↦
            if is_prefixed_by e.path other.path && is_newer_than other e
            then some (some (record { entry = other; token = v.token }))
            else rest
      ]

module _ {N S PD AT E : Type 0} (cfg : Setting N S PD AT) where
  -- The two operations that end the transaction and the call: the trees are written, and the event
  -- system is told of the entry, whose authorisation is checked again.
  unfoldable pub ingested :
      Store cfg E
      → Entry N S PD
      → AT
      → EntryOrigin
      → List Bytes
      → List Bytes
      → Outcome (EntryIngestionError E) (EntryIngestionSuccess N S PD AT) × Store cfg E
  ingested s e token origin spt_keys tsp_keys_to_prune =
      let value = encode_entry_values cfg e.payload_length e.payload_digest token 0 in
      let s' : Store cfg E = record s {
        spt =
            cfg.sled.insert (spt_key cfg e.subspace_id e.path e.timestamp) value
              (remove_all cfg.sled spt_keys s.spt);
        tsp =
            cfg.sled.insert (tsp_key cfg e.subspace_id e.path e.timestamp) value
              (remove_all cfg.sled tsp_keys_to_prune s.tsp);
        payloads = remove_all cfg.sled spt_keys s.payloads;
      } in
      elim (authorised_entry_new cfg.is_authorised_write e token) [
        | none ↦ (panic, s')
        | some authorised ↦ (ok success, notify_event cfg (insertion authorised origin) s')
      ]

module _ {N S PD AT E : Type 0} (cfg : Setting N S PD AT) ⦃pd : Ord PD⦄ where
  unfoldable pub is_prefixed_by_newer :
      Faults E → Store cfg E → Entry N S PD → Outcome E (Option (AuthorisedEntry N S PD AT))
  unfolding newer_loop
  is_prefixed_by_newer faults s e = do
    _ ← checked faults.open_spt (λ x. x)
    unwrap (
        newer_loop cfg s.namespace_id e
          (flatten faults (cfg.sled.scan_prefix (cfg.subspaces.encode e.subspace_id) s.spt)))

  -- The loop of `ingest_entry` that collects `keys_to_prune`.
  unfoldable pub prune_loop :
      N → Bool → Entry N S PD → List Binding → Outcome (EntryIngestionError E) (List Bytes)
  prune_loop namespace prevent_pruning e [] = ok []
  prune_loop namespace prevent_pruning e ((key, value) ∷ bs) =
      let rest = prune_loop namespace prevent_pruning e bs in
      elim (decode_binding cfg namespace (key, value)) [
        | none ↦ panic
        | some (other, v) ↦
            if is_newer_than other e
            then rest
            else (if prevent_pruning
                then err pruning_prevented
                else (rest >>= λ keys. ok (key ∷ keys)))
      ]

  -- What comes after the check for a newer entry.
  unfoldable pub ingest_fresh :
      Faults E
      → Store cfg E
      → Entry N S PD
      → AT
      → Bool
      → EntryOrigin
      → Outcome
          (EntryIngestionError E)
          (Outcome (EntryIngestionError E) (EntryIngestionSuccess N S PD AT) × Store cfg E)
  unfolding prune_loop tsp_keys ingested
  ingest_fresh faults s e token prevent_pruning origin = do
    _ ← checked faults.open_spt operations_error
    keys_to_prune ←
        prune_loop s.namespace_id prevent_pruning e
          (flatten faults (cfg.sled.scan_prefix (path_key cfg e.subspace_id e.path false) s.spt))
    _ ← checked faults.open_tsp operations_error
    _ ← checked faults.open_payload operations_error
    tsp_keys_to_prune ← unwrap (tsp_keys cfg keys_to_prune)
    _ ← checked faults.commit operations_error
    ok (ingested cfg s e token origin keys_to_prune tsp_keys_to_prune)

  module _ ⦃n : Ord N⦄ where
    unfoldable pub ingest_entry :
        Faults E
        → Store cfg E
        → AuthorisedEntry N S PD AT
        → Bool
        → EntryOrigin
        → Outcome (EntryIngestionError E) (EntryIngestionSuccess N S PD AT) × Store cfg E
    unfolding is_prefixed_by_newer ingest_fresh
    ingest_entry faults s authorised prevent_pruning origin =
        let e = authorised.entry in
        if not (equal e.namespace_id s.namespace_id)
        then (panic, s)
        else elim (is_prefixed_by_newer faults s e) [
          | ok (some newer) ↦ (ok (obsolete authorised newer), s)
          | ok none ↦ settle cfg s (ingest_fresh faults s e authorised.token prevent_pruning origin)
          | err x ↦ (err (operations_error x), s)
          | panic ↦ (panic, s)
        ]
