-- ===== src/SimpleSled/Forget.antt =====
-- `forget_entry`, `forget_area`, `forget_payload` and `forget_area_payloads` of
-- store_simple_sled/src/lib.rs.
pub mod Payloads
pub mod Areas
use willow_rs.Prelude.{
  ℕ, zero, suc, ◌+◌, Bool, true, false, ◌&&◌, not, Option, none, some, List, [], ◌∷◌, map, length,
  if◌then◌else◌,
}
use willow_rs.Prelude.Order.{Ord, equal, nat_ord}
use willow_rs.Prelude.Outcome.{Outcome, ok, err, panic, ◌>>=◌, unwrap, Done, done}
use willow_rs.Path.{WillowPath, is_prefixed_by, is_prefix_of}
use willow_rs.Entry.{Entry}
use willow_rs.Grouping.Range
use willow_rs.Grouping.Area.{Area, AreaSubspace, any, id, subspace_includes}
use willow_rs.Store.{AuthorisedEntry, LengthyAuthorisedEntry, ForgetEntryError, ForgetPayloadError}
use willow_rs.Store.Events.{QueuedOp, entry_forgotten, area_forgotten, payload_forgotten}
use willow_rs.SimpleSled.Sled.{Bytes, Binding, remove_all, insert_all, first}
use willow_rs.SimpleSled.State.{
  Setting, Faults, flatten, checked, Store, settle, notify_event, EntryValues, encode_entry_values,
  path_key, spt_key, tsp_key, decode_binding, decode_entry_values,
}

-- `if let Some(expected) = expected_digest { if expected != digest { … } }`.
unfoldable pub unexpected : {PD : Type 0} ⦃pd : Ord PD⦄ → Option PD → PD → Bool
unexpected none digest = false
unexpected (some expected) digest = not (equal expected digest)

module _ {N S PD AT : Type 0} (cfg : Setting N S PD AT) where
  -- The entry of a store with the length of its payload that is there.
  abbrev pub lengthy : Entry N S PD → EntryValues PD AT → LengthyAuthorisedEntry N S PD AT
  lengthy e v = record { entry = record { entry = e; token = v.token }; available = v.local_length }

  -- `prefix_gt`, on a tree that is open.
  abbrev pub prefix_gt : {E : Type 0} → Faults E → Bytes → cfg.sled.Tree → Option Binding
  prefix_gt faults prefix tree = first (flatten faults (cfg.sled.scan_prefix prefix tree))

module _ {N S PD AT E : Type 0} (cfg : Setting N S PD AT) where
  -- The transaction and the event of `forget_entry`.
  unfoldable pub forgot_entry : Store cfg E → Bytes → Entry N S PD → EntryValues PD AT → Store cfg E
  forgot_entry s key e v = notify_event cfg (entry_forgotten (lengthy cfg e v)) (record s {
    spt = cfg.sled.remove key s.spt;
    tsp = cfg.sled.remove (tsp_key cfg e.subspace_id e.path e.timestamp) s.tsp;
    payloads = cfg.sled.remove key s.payloads;
  })

module _ {N S PD AT E : Type 0} (cfg : Setting N S PD AT) ⦃pd : Ord PD⦄ where
  -- Each `…_body` is the call up to its end; `settle` gives the store where it ends before.
  pub forget_entry_body :
      Faults E
      → Store cfg E
      → S
      → WillowPath
      → Option PD
      → Outcome (ForgetEntryError E) (Outcome (ForgetEntryError E) Done × Store cfg E)
  unfolding unexpected forgot_entry
  forget_entry_body faults s subspace path expected_digest = do
    _ ← checked faults.open_spt ForgetEntryError.operation_error
    _ ← checked faults.open_payload ForgetEntryError.operation_error
    elim (prefix_gt cfg faults (path_key cfg subspace path true) s.spt) [
      | none ↦ ok (ok done, s)
      | some (key, value) ↦ do
        (e, v) ← unwrap (decode_binding cfg s.namespace_id (key, value))
        _ ←
            if unexpected expected_digest v.digest
            then err ForgetEntryError.wrong_entry
            else ok done
        _ ← checked faults.open_tsp ForgetEntryError.operation_error
        _ ← checked faults.commit ForgetEntryError.operation_error
        ok (ok done, forgot_entry cfg s key e v)
    ]

  pub forget_entry :
      Faults E
      → Store cfg E
      → S
      → WillowPath
      → Option PD
      → Outcome (ForgetEntryError E) Done × Store cfg E
  unfolding forget_entry_body
  forget_entry faults s subspace path expected_digest =
      settle cfg s (forget_entry_body faults s subspace path expected_digest)

  pub forget_payload_body :
      Faults E
      → Store cfg E
      → S
      → WillowPath
      → Option PD
      → Outcome (ForgetPayloadError E) (Outcome (ForgetPayloadError E) Done × Store cfg E)
  unfolding unexpected
  forget_payload_body faults s subspace path expected_digest = do
    _ ← checked faults.open_payload ForgetPayloadError.operation_error
    let maybe_payload = prefix_gt cfg faults (path_key cfg subspace path false) s.payloads
    _ ← checked faults.open_spt ForgetPayloadError.operation_error
    elim (prefix_gt cfg faults (path_key cfg subspace path true) s.spt) [
      | some (key, value) ↦ elim maybe_payload [
        | some (payload_key, _) ↦ do
          (e, v) ← unwrap (decode_binding cfg s.namespace_id (key, value))
          _ ←
              if unexpected expected_digest v.digest
              then err ForgetPayloadError.wrong_entry
              else ok done
          let new_value = encode_entry_values cfg v.length v.digest v.token 0
          _ ← checked faults.open_tsp ForgetPayloadError.operation_error
          _ ← checked faults.commit ForgetPayloadError.operation_error
          ok (
            ok done,
            notify_event cfg (payload_forgotten (lengthy cfg e v)) (record s {
              spt = cfg.sled.insert key new_value s.spt;
              tsp = cfg.sled.insert (tsp_key cfg e.subspace_id e.path e.timestamp) new_value s.tsp;
              payloads = cfg.sled.remove payload_key s.payloads;
            }),
          )
        | none ↦ elim expected_digest [
          | none ↦ ok (ok done, s)
          | some expected ↦ do
            v ← unwrap (decode_entry_values cfg value)
            if not (equal expected v.digest)
                then err ForgetPayloadError.wrong_entry
                else ok (ok done, s)
        ]
      ]
      | none ↦ elim maybe_payload [ none ↦ err ForgetPayloadError.no_such_entry | some b ↦ panic ]
    ]

  pub forget_payload :
      Faults E
      → Store cfg E
      → S
      → WillowPath
      → Option PD
      → Outcome (ForgetPayloadError E) Done × Store cfg E
  unfolding forget_payload_body
  forget_payload faults s subspace path expected_digest =
      settle cfg s (forget_payload_body faults s subspace path expected_digest)

module _ {S : Type 0} ⦃o : Ord S⦄ where
  -- `is_protected`, of the loops over an area.
  unfoldable pub is_protected : Option (Area S) → S → WillowPath → ℕ → Bool
  unfolding subspace_includes
  is_protected none subspace path timestamp = false
  is_protected (some protected) subspace path timestamp =
      subspace_includes protected.subspace subspace
      && is_prefix_of protected.path path
      && Range.includes protected.times timestamp

  -- `prefix_matches`: where the scan was for a subspace, the path is not compared again.
  unfoldable pub prefix_matches : Area S → WillowPath → Bool
  prefix_matches area path = elim area.subspace [
    | any ↦ is_prefixed_by path area.path
    | id subspace ↦ true
  ]

  unfoldable pub is_forgotten : Area S → Option (Area S) → S → WillowPath → ℕ → Bool
  unfolding is_protected prefix_matches
  is_forgotten area protected subspace path timestamp =
      not (is_protected protected subspace path timestamp)
      && prefix_matches area path
      && Range.includes area.times timestamp

module _ {N S PD AT : Type 0} (cfg : Setting N S PD AT) ⦃o : Ord S⦄ where
  -- `entry_iterator`.
  unfoldable pub area_scan : Area S → cfg.sled.Tree → List Binding
  area_scan area tree = elim area.subspace [
    | any ↦ cfg.sled.iter tree
    | id subspace ↦ cfg.sled.scan_prefix (path_key cfg subspace area.path false) tree
  ]

  -- What the loop of `forget_area` adds to its batches: the keys to remove from each tree; `none` is
  -- a panic.
  unfoldable pub forget_area_loop :
      N → Area S → Option (Area S) → List Binding → Option (List Bytes × List Bytes)
  unfolding is_forgotten
  forget_area_loop namespace area protected [] = some ([], [])
  forget_area_loop namespace area protected ((key, value) ∷ bs) =
      let rest = forget_area_loop namespace area protected bs in
      elim (decode_binding cfg namespace (key, value)) [
        | none ↦ none
        | some (e, v) ↦ elim rest [
          | none ↦ none
          | some (spt_keys, tsp_keys) ↦
              if is_forgotten area protected e.subspace_id e.path e.timestamp
              then some (key ∷ spt_keys, tsp_key cfg e.subspace_id e.path e.timestamp ∷ tsp_keys)
              else some (spt_keys, tsp_keys)
        ]
      ]

  -- The loop of `forget_area_payloads`: the bindings to insert into each entry tree. The key for the
  -- second tree is made by `encode_spt_entry_key`, as in the source.
  pub forget_payloads_loop :
      N → Area S → Option (Area S) → List Binding → Option (List Binding × List Binding)
  unfolding is_forgotten
  forget_payloads_loop namespace area protected [] = some ([], [])
  forget_payloads_loop namespace area protected ((key, value) ∷ bs) =
      let rest = forget_payloads_loop namespace area protected bs in
      elim (decode_binding cfg namespace (key, value)) [
        | none ↦ none
        | some (e, v) ↦ elim rest [
          | none ↦ none
          | some (spt_bindings, tsp_bindings) ↦
              let new_value = encode_entry_values cfg v.length v.digest v.token 0 in
              if is_forgotten area protected e.subspace_id e.path e.timestamp
              then some (
                (key, new_value) ∷ spt_bindings,
                (spt_key cfg e.subspace_id e.path e.timestamp, new_value) ∷ tsp_bindings,
              )
              else some (spt_bindings, tsp_bindings)
        ]
      ]

  module _ {E : Type 0} where
    -- The transaction and the event of `forget_area`.
    unfoldable pub forgot_area :
        Store cfg E → Area S → Option (Area S) → List Bytes → List Bytes → Store cfg E
    forgot_area s area protected spt_keys tsp_keys =
        notify_event cfg (area_forgotten area protected) (record s {
          spt = remove_all cfg.sled spt_keys s.spt;
          tsp = remove_all cfg.sled tsp_keys s.tsp;
          payloads = remove_all cfg.sled spt_keys s.payloads;
        })

    unfoldable pub forget_area_body :
        Faults E → Store cfg E → Area S → Option (Area S) → Outcome E (Outcome E ℕ × Store cfg E)
    unfolding area_scan forget_area_loop forgot_area
    forget_area_body faults s area protected = do
      _ ← checked faults.open_spt (λ x. x)
      _ ← checked faults.open_tsp (λ x. x)
      _ ← checked faults.open_payload (λ x. x)
      (spt_keys, tsp_keys) ←
          unwrap
            (forget_area_loop s.namespace_id area protected (flatten faults (area_scan area s.spt)))
      _ ← checked faults.commit (λ x. x)
      ok (ok (length spt_keys), forgot_area s area protected spt_keys tsp_keys)

    -- The event is that of `forget_area`, as in the source.
    pub forget_area_payloads_body :
        Faults E → Store cfg E → Area S → Option (Area S) → Outcome E (Outcome E ℕ × Store cfg E)
    unfolding area_scan forget_payloads_loop
    forget_area_payloads_body faults s area protected = do
      _ ← checked faults.open_spt (λ x. x)
      _ ← checked faults.open_tsp (λ x. x)
      _ ← checked faults.open_payload (λ x. x)
      (spt_bindings, tsp_bindings) ← unwrap (
          forget_payloads_loop s.namespace_id area protected
            (flatten faults (area_scan area s.spt)))
      _ ← checked faults.commit (λ x. x)
      ok (
        ok (length spt_bindings),
        notify_event cfg (area_forgotten area protected) (record s {
          spt = insert_all cfg.sled spt_bindings s.spt;
          tsp = insert_all cfg.sled tsp_bindings s.tsp;
          payloads = remove_all cfg.sled (map (λ (b : Binding). b.0) spt_bindings) s.payloads;
        }),
      )

    unfoldable pub forget_area :
        Faults E → Store cfg E → Area S → Option (Area S) → Outcome E ℕ × Store cfg E
    unfolding forget_area_body
    forget_area faults s area protected = settle cfg s (forget_area_body faults s area protected)

    pub forget_area_payloads :
        Faults E → Store cfg E → Area S → Option (Area S) → Outcome E ℕ × Store cfg E
    unfolding forget_area_payloads_body
    forget_area_payloads faults s area protected =
        settle cfg s (forget_area_payloads_body faults s area protected)
