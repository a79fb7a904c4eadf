-- ===== src/SimpleSled/Ingest/Ends.antt =====
-- How a call of `ingest_entry` of store_simple_sled/src/lib.rs ends, and the trees where it succeeds.
use Prim.{⊥}
use willow_rs.Prelude.{
  ◌≡◌, refl, sym, ap, ◌∙◌, Bool, true, false, ◌&&◌, none, some, List, arith, if◌then◌else◌,
  Option-cases, Bool-cases, ◌⊎◌, inl, inr, ◌≢◌,
}
use willow_rs.Prelude.Order.{Ord, equal, list_ord, nat_ord}
use willow_rs.Prelude.Least.{prefixed}
use willow_rs.Prelude.Outcome.{Outcome, ok, err, panic, unwrap, bind_ok, unwrap_ok, Outcome-cases}
use willow_rs.Entry.{Entry}
use willow_rs.Store.{
  AuthorisedEntry, authorised_entry_new, EntryOrigin, EntryIngestionSuccess, success, obsolete,
  EntryIngestionError, operations_error,
}
use willow_rs.SimpleSled.Sled.{Bytes, remove_all}
use willow_rs.SimpleSled.Sled.Laws.{holds_value, get-remove_all}
use willow_rs.SimpleSled.State.Seen.{is_seen, finds-flatten-scan_prefix}
use willow_rs.SimpleSled.State.{
  Setting, Faults, flatten, checked, Store, settle, settle_ok, encode_entry_values, path_key,
  spt_key,
}
use willow_rs.SimpleSled.Ingest.{
  newer_loop, is_prefixed_by_newer, prune_loop, tsp_keys, ingested, ingest_fresh, ingest_entry,
}
use willow_rs.SimpleSled.Ingest.Pruning.{obsoletes, falls_to, newer_loop-none, prune_loop-ok}

module _ {N S PD AT : Type 0} (cfg : Setting N S PD AT) ⦃pd : Ord PD⦄ where
  module _ {E : Type 0} (faults : Faults E) (s : Store cfg E) where
    -- The parts of a successful call after the check for a newer entry.
    ingest_fresh-ok :
        (e : Entry N S PD) (token : AT) (prevent : Bool) (origin : EntryOrigin)
        {result : Outcome (EntryIngestionError E) (EntryIngestionSuccess N S PD AT) × Store cfg E}
        → ingest_fresh cfg faults s e token prevent origin ≡ ok result
        → (keys : List Bytes) × (ts : List Bytes) × (prune_loop {E = E} cfg s.namespace_id prevent e
              (flatten faults
                (cfg.sled.scan_prefix (path_key cfg e.subspace_id e.path false) s.spt))
            ≡ ok keys)
          × (tsp_keys cfg keys ≡ some ts)
          × (result ≡ ingested cfg s e token origin keys ts)
    unfolding ingest_fresh
    ingest_fresh-ok e token prevent origin h =
        let (_, _, h1) = bind_ok (checked faults.open_spt operations_error) _ h in
        let (keys, p, h2) =
          bind_ok
            (prune_loop {E = E} cfg s.namespace_id prevent e (
              flatten faults
                (cfg.sled.scan_prefix (path_key cfg e.subspace_id e.path false) s.spt)))
            _ h1 in
        let (_, _, h3) = bind_ok (checked faults.open_tsp operations_error) _ h2 in
        let (_, _, h4) = bind_ok (checked faults.open_payload operations_error) _ h3 in
        let (ts, q, h5) = bind_ok (unwrap (tsp_keys cfg keys)) _ h4 in
        let (_, _, h6) = bind_ok (checked faults.commit operations_error) _ h5 in
        (keys, ts, p, unwrap_ok (tsp_keys cfg keys) q, cc h6)

    spt-ingested :
        (e : Entry N S PD) (token : AT) (origin : EntryOrigin) (keys ts : List Bytes)
        → (ingested cfg s e token origin keys ts).1.spt
          ≡ cfg.sled.insert
              (spt_key cfg e.subspace_id e.path e.timestamp)
              (encode_entry_values cfg e.payload_length e.payload_digest token 0)
              (remove_all cfg.sled keys s.spt)
    unfolding ingested
    spt-ingested e token origin keys ts =
        elim (Option-cases (authorised_entry_new cfg.is_authorised_write e token)) [
          | inl a ↦ rw (a, ingested)
          | inr (w, a) ↦ rw (a, ingested)
        ]

    payloads-ingested :
        (e : Entry N S PD) (token : AT) (origin : EntryOrigin) (keys ts : List Bytes)
        → (ingested cfg s e token origin keys ts).1.payloads ≡ remove_all cfg.sled keys s.payloads
    unfolding ingested
    payloads-ingested e token origin keys ts =
        elim (Option-cases (authorised_entry_new cfg.is_authorised_write e token)) [
          | inl a ↦ rw (a, ingested)
          | inr (w, a) ↦ rw (a, ingested)
        ]

    module _ ⦃n : Ord N⦄ where
      -- The ends of a call, by what the check for a newer entry says.
      ingest_entry-none :
          (a : AuthorisedEntry N S PD AT) (prevent : Bool) (origin : EntryOrigin)
          → equal a.entry.namespace_id s.namespace_id ≡ true
          → is_prefixed_by_newer cfg faults s a.entry ≡ ok none
          → ingest_entry cfg faults s a prevent origin
            ≡ settle cfg s (ingest_fresh cfg faults s a.entry a.token prevent origin)
      unfolding ingest_entry
      ingest_entry-none a prevent origin q h = rw (q, h) refl

      pub ingest_entry-some :
          (a newer : AuthorisedEntry N S PD AT) (prevent : Bool) (origin : EntryOrigin)
          → equal a.entry.namespace_id s.namespace_id ≡ true
          → is_prefixed_by_newer cfg faults s a.entry ≡ ok (some newer)
          → ingest_entry cfg faults s a prevent origin ≡ (ok (obsolete a newer), s)
      unfolding ingest_entry
      ingest_entry-some a newer prevent origin q h = rw (q, h) refl

      ingest_entry_refused :
          (a : AuthorisedEntry N S PD AT) (prevent : Bool) (origin : EntryOrigin)
          → (equal a.entry.namespace_id s.namespace_id ≡ false)
            ⊎ ((x : E) × (is_prefixed_by_newer cfg faults s a.entry ≡ err x))
            ⊎ (is_prefixed_by_newer cfg faults s a.entry ≡ panic)
          → ((ingest_entry cfg faults s a prevent origin).0 ≢ ok success)
            × ((ingest_entry cfg faults s a prevent origin).1 ≡ s)
      unfolding ingest_entry
      ingest_entry_refused a prevent origin (inl q) = rw q ((λ h. cc), refl)
      ingest_entry_refused a prevent origin (inr (inl (x, h))) =
          elim (Bool-cases (equal a.entry.namespace_id s.namespace_id)) [
            | inl q ↦ rw (q, h) ((λ h. cc), refl)
            | inr q ↦ rw q ((λ h. cc), refl)
          ]
      ingest_entry_refused a prevent origin (inr (inr h)) =
          elim (Bool-cases (equal a.entry.namespace_id s.namespace_id)) [
            | inl q ↦ rw (q, h) ((λ h. cc), refl)
            | inr q ↦ rw q ((λ h. cc), refl)
          ]

      -- What a successful call has done.
      abbrev pub Success : AuthorisedEntry N S PD AT → Bool → EntryOrigin → Type 0
      Success a prevent origin =
          (keys : List Bytes) × (ts : List Bytes) × (is_prefixed_by_newer cfg faults s a.entry
            ≡ ok none)
          × (prune_loop {E = E} cfg s.namespace_id prevent a.entry (
                flatten faults (
                  cfg.sled.scan_prefix (path_key cfg a.entry.subspace_id a.entry.path false) s.spt))
              ≡ ok keys)
          × (ingest_entry cfg faults s a prevent origin
              ≡ ingested cfg s a.entry a.token origin keys ts)

      ingest_entry-success_of :
          (a : AuthorisedEntry N S PD AT) (prevent : Bool) (origin : EntryOrigin)
          → equal a.entry.namespace_id s.namespace_id ≡ true
          → is_prefixed_by_newer cfg faults s a.entry ≡ ok none
          → (ingest_entry cfg faults s a prevent origin).0 ≡ ok success
          → Success a prevent origin
      ingest_entry-success_of a prevent origin q none_newer h =
          let e = ingest_entry-none a prevent origin q none_newer in
          let (s', m, _) =
            settle_ok cfg s (ingest_fresh cfg faults s a.entry a.token prevent origin)
              (rw e at h) in
          let (keys, ts, p, t, r) = ingest_fresh-ok a.entry a.token prevent origin m in
          (keys, ts, none_newer, p, e ∙ ap (settle cfg s) (m ∙ ap ok r))

      pub ingest_entry-success :
          (a : AuthorisedEntry N S PD AT) (prevent : Bool) (origin : EntryOrigin)
          → (ingest_entry cfg faults s a prevent origin).0 ≡ ok success
          → Success a prevent origin
      ingest_entry-success a prevent origin h =
          elim (Bool-cases (equal a.entry.namespace_id s.namespace_id)) [
            | inr q ↦ absurd ((ingest_entry_refused a prevent origin (inl q)).0 h)
            | inl q ↦ elim (Outcome-cases (is_prefixed_by_newer cfg faults s a.entry)) [
              | inr (inl (x, b)) ↦
                  absurd ((ingest_entry_refused a prevent origin (inr (inl (x, b)))).0 h)
              | inr (inr b) ↦ absurd ((ingest_entry_refused a prevent origin (inr (inr b))).0 h)
              | inl (none, b) ↦ ingest_entry-success_of a prevent origin q b h
              | inl (some newer, b) ↦ cc (ingest_entry-some a newer prevent origin q b)
            ]
          ]

      -- The first tree after a successful call, key by key: the new entry, and of the others those
      -- that the new entry's scan does not find, does not yield, or that are newer.
      pub get-ingest_entry :
          (a : AuthorisedEntry N S PD AT) (prevent : Bool) (origin : EntryOrigin) (key : Bytes)
          → (ingest_entry cfg faults s a prevent origin).0 ≡ ok success
          → cfg.sled.get key (ingest_entry cfg faults s a prevent origin).1.spt ≡ (
              if equal (spt_key cfg a.entry.subspace_id a.entry.path a.entry.timestamp) key
              then some
                  (encode_entry_values cfg a.entry.payload_length a.entry.payload_digest a.token 0)
              else (if prefixed (path_key cfg a.entry.subspace_id a.entry.path false) key
                    && (holds_value
                          (falls_to cfg s.namespace_id a.entry key)
                          (cfg.sled.get key s.spt)
                        && is_seen faults key (cfg.sled.get key s.spt))
                  then none
                  else cfg.sled.get key s.spt))
      get-ingest_entry a prevent origin key h =
          let (keys, ts, _, p, e) = ingest_entry-success a prevent origin h in
          let c =
            prune_loop-ok cfg {E = E} s.namespace_id prevent a.entry
              (flatten faults
                (cfg.sled.scan_prefix (path_key cfg a.entry.subspace_id a.entry.path false) s.spt))
              keys key p in
          rw (
            e,
            spt-ingested a.entry a.token origin keys ts,
            cfg.sled.get-insert (spt_key cfg a.entry.subspace_id a.entry.path a.entry.timestamp) key
                (encode_entry_values cfg a.entry.payload_length a.entry.payload_digest a.token 0)
                (remove_all cfg.sled keys s.spt),
            get-remove_all cfg.sled keys key s.spt,
            c,
            finds-flatten-scan_prefix faults cfg.sled key (falls_to cfg s.namespace_id a.entry key)
                (path_key cfg a.entry.subspace_id a.entry.path false) s.spt,
          )

      -- No entry of the subspace that the scan yields makes an entry obsolete that was ingested.
      pub not_obsolete :
          (a : AuthorisedEntry N S PD AT) (prevent : Bool) (origin : EntryOrigin) (key : Bytes)
          → (ingest_entry cfg faults s a prevent origin).0 ≡ ok success
          → (prefixed (cfg.subspaces.encode a.entry.subspace_id) key
              && (holds_value (obsoletes cfg s.namespace_id a.entry key) (cfg.sled.get key s.spt)
                  && is_seen faults key (cfg.sled.get key s.spt)))
            ≡ false
      unfolding is_prefixed_by_newer
      not_obsolete a prevent origin key h =
          let (_, _, b, _, _) = ingest_entry-success a prevent origin h in
          let (_, _, c) = bind_ok (checked faults.open_spt (λ (x : E). x)) _ b in
          sym (
            finds-flatten-scan_prefix faults cfg.sled key (obsoletes cfg s.namespace_id a.entry key)
              (cfg.subspaces.encode a.entry.subspace_id) s.spt)
          ∙ newer_loop-none cfg s.namespace_id a.entry
              (flatten faults
                (cfg.sled.scan_prefix (cfg.subspaces.encode a.entry.subspace_id) s.spt))
              key
              (unwrap_ok
                (newer_loop cfg s.namespace_id a.entry (
                  flatten faults
                    (cfg.sled.scan_prefix (cfg.subspaces.encode a.entry.subspace_id) s.spt)))
                c)

      -- The payload tree after a successful call: only keys of pruned entries are removed.
      pub payload-ingest_entry :
          (a : AuthorisedEntry N S PD AT) (prevent : Bool) (origin : EntryOrigin) (key : Bytes)
          → (ingest_entry cfg faults s a prevent origin).0 ≡ ok success
          → cfg.sled.get key (ingest_entry cfg faults s a prevent origin).1.payloads ≡ (
              if prefixed (path_key cfg a.entry.subspace_id a.entry.path false) key
                && (holds_value (falls_to cfg s.namespace_id a.entry key) (cfg.sled.get key s.spt)
                    && is_seen faults key (cfg.sled.get key s.spt))
              then none
              else cfg.sled.get key s.payloads)
      payload-ingest_entry a prevent origin key h =
          let (keys, ts, _, p, e) = ingest_entry-success a prevent origin h in
          let c =
            prune_loop-ok cfg {E = E} s.namespace_id prevent a.entry
              (flatten faults
                (cfg.sled.scan_prefix (path_key cfg a.entry.subspace_id a.entry.path false) s.spt))
              keys key p in
          rw (
            e,
            payloads-ingested a.entry a.token origin keys ts,
            get-remove_all cfg.sled keys key s.payloads,
            c,
            finds-flatten-scan_prefix faults cfg.sled key (falls_to cfg s.namespace_id a.entry key)
                (path_key cfg a.entry.subspace_id a.entry.path false) s.spt,
          )

      not_failed :
          (a : AuthorisedEntry N S PD AT) (keys ts : List Bytes) (origin : EntryOrigin)
          → ((x : EntryIngestionError E) × ((ingested cfg s a.entry a.token origin keys ts).0
                ≡ err x))
            ⊎ ((newer : AuthorisedEntry N S PD AT) × ((ingested cfg s a.entry a.token origin keys
                    ts).0
                  ≡ ok (obsolete a newer)))
          → ⊥
      unfolding ingested
      not_failed a keys ts origin (inl (x, h)) = ground arith
      not_failed a keys ts origin (inr (newer, h)) = ground arith

      -- A call that ends in an error, or because the entry is obsolete, leaves the store as it was.
      pub ingest_entry_failed :
          (a : AuthorisedEntry N S PD AT) (prevent : Bool) (origin : EntryOrigin)
          → ((x : EntryIngestionError E) × ((ingest_entry cfg faults s a prevent origin).0 ≡ err x))
            ⊎ ((newer : AuthorisedEntry N S PD AT) × ((ingest_entry cfg faults s a prevent origin).0
                  ≡ ok (obsolete a newer)))
          → (ingest_entry cfg faults s a prevent origin).1 ≡ s
      ingest_entry_failed a prevent origin h =
          elim (Bool-cases (equal a.entry.namespace_id s.namespace_id)) [
            | inr q ↦ (ingest_entry_refused a prevent origin (inl q)).1
            | inl q ↦ elim (Outcome-cases (is_prefixed_by_newer cfg faults s a.entry)) [
              | inr (inl (x, b)) ↦ (ingest_entry_refused a prevent origin (inr (inl (x, b)))).1
              | inr (inr b) ↦ (ingest_entry_refused a prevent origin (inr (inr b))).1
              | inl (some newer, b) ↦ ap (λ r. r.1) (ingest_entry-some a newer prevent origin q b)
              | inl (none, b) ↦
                  let e = ingest_entry-none a prevent origin q b in
                  ap (λ r. r.1) e
                  ∙ elim (Outcome-cases
                      (ingest_fresh cfg faults s a.entry a.token prevent origin)) [
                        | inr (inl (x, m)) ↦ ap (λ m. (settle cfg s m).1) m
                        | inr (inr m) ↦ ap (λ m. (settle cfg s m).1) m
                        | inl (result, m) ↦
                            let (keys, ts, _, _, r) =
                              ingest_fresh-ok a.entry a.token prevent origin m in
                            absurd (
                              not_failed a keys ts origin
                                (rw (e ∙ ap (settle cfg s) (m ∙ ap ok r)) at h))
                      ]
            ]
          ]
