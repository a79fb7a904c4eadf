-- ===== src/SimpleSled/Append/Completed.antt =====
-- What `append_payload` of store_simple_sled/src/lib.rs stores.
use willow_rs.Prelude.{
  ℕ, ◌+◌, ◌≡◌, ◌≢◌, refl, sym, ap, ◌∙◌, true, Option, none, some, List, ◌++◌, arith, ltb, ◌==◌,
  if◌then◌else◌, length, Bool-cases, inl, inr,
}
use willow_rs.Prelude.Order.{Ord, equal}
use willow_rs.Prelude.Outcome.{Outcome, ok, err, panic, unwrap, bind_ok, unwrap_ok, ok_inj}
use willow_rs.Prelude.Outcome.{Done, done}
use willow_rs.Path.{WillowPath}
use willow_rs.Entry.{Entry}
use willow_rs.Store.{PayloadAppendError, PayloadAppendSuccess, ForgetPayloadError}
use willow_rs.SimpleSled.State.{
  Setting, Faults, checked, Store, settle_ok, settled-inj, EntryValues, path_key, decode_binding,
}
use willow_rs.SimpleSled.Forget.{unexpected, prefix_gt, forget_payload}
use willow_rs.SimpleSled.Sled.{Bytes, Binding}
use mathlib.Core.Path.{subst}
use willow_rs.Prelude.Order.{list_ord, nat_ord}
use willow_rs.SimpleSled.Append.{
  receive, write_payload, forget_mismatch, store_payload, store_received, append_found, append_at,
  append_body, append_payload, other_length, Source,
}
use willow_rs.SimpleSled.Append.Stored.{
  write_each, receive_lem, payload_key, stored, Stored, write_payload-Stored,
}

module _ {N S PD AT E P : Type 0} (cfg : Setting N S PD AT) ⦃pd : Ord PD⦄ (faults : Faults E)
    (s : Store cfg E) where
  not_completed :
      (r : Outcome (ForgetPayloadError E) Done × Store cfg E) {s' : Store cfg E}
      → forget_mismatch {P = P} cfg r ≢ (ok PayloadAppendSuccess.completed, s')
  unfolding forget_mismatch
  not_completed (ok _, t) h = cc
  not_completed (err e, t) h = cc
  not_completed (panic, t) h = cc

  -- What follows the loop, where it completes the payload.
  store_payload-completed :
      (key payload_key : Bytes) (e : Entry N S PD) (v : EntryValues PD AT) (old : ℕ)
      (payload : Bytes) (hasher : cfg.Hasher) (failure : Option P) {s' : Store cfg E}
      → store_payload cfg faults s key payload_key e v old payload hasher failure
        ≡ ok (ok PayloadAppendSuccess.completed, s')
      → (failure ≡ none)
        × (length payload ≡ v.length)
        × (cfg.finish hasher ≡ v.digest)
        × (write_payload cfg s key payload_key payload e v old ≡ s')
  unfolding store_payload
  store_payload-completed key payload_key e v old payload hasher (some f) h =
      let (_, _, h1) = bind_ok (checked faults.open_tsp PayloadAppendError.operation_error) _ h in
      let (_, _, h2) = bind_ok (checked faults.commit PayloadAppendError.operation_error) _ h1 in
      absurd (cc h2)
  store_payload-completed key payload_key e v old payload hasher none h =
      let (_, _, h1) = bind_ok (checked faults.open_tsp PayloadAppendError.operation_error) _ h in
      elim (Bool-cases (length payload == v.length)) [
        | inr q ↦
            let (_, _, h2) =
              bind_ok (checked faults.commit PayloadAppendError.operation_error) _ (rw q at h1) in
            absurd (cc h2)
        | inl q ↦ elim (Bool-cases (equal (cfg.finish hasher) v.digest)) [
          | inr d ↦ absurd (
              not_completed (forget_payload cfg faults s e.subspace_id e.path (some v.digest))
                (ok_inj (rw (q, d) at h1)))
          | inl d ↦
              let (_, _, h2) =
                bind_ok (checked faults.commit PayloadAppendError.operation_error) _
                  (rw (q, d) at h1) in
              let (_, w) = settled-inj cfg h2 in
              (refl, ground arith, pd.eq_of_cmp (cfg.finish hasher) v.digest (ground arith), w)
        ]
      ]

  store_received-completed :
      (key payload_key : Bytes) (e : Entry N S PD) (v : EntryValues PD AT) (old limit : ℕ)
      (there : Bytes) (hasher : cfg.Hasher) (bytes : List ℕ) (failure : Option P) {s' : Store cfg E}
      → store_received cfg faults s key payload_key e v old failure
          (receive cfg limit there hasher bytes)
        ≡ ok (ok PayloadAppendSuccess.completed, s')
      → store_payload cfg faults s key payload_key e v old
          (there ++ bytes)
          (write_each cfg hasher bytes)
          failure
        ≡ ok (ok PayloadAppendSuccess.completed, s')
  unfolding store_received
  store_received-completed key payload_key e v old limit there hasher bytes failure h =
      elim (Bool-cases (ltb limit (length there + length bytes))) [
        | inl q ↦ absurd (cc (rw (receive_lem cfg limit there hasher bytes, q) at h))
        | inr q ↦ rw (receive_lem cfg limit there hasher bytes, q) at h
      ]

  -- The same, with the code's own last step.
  abbrev pub WrittenAt : Bytes → Bytes → Source P → Store cfg E → Type 0
  WrittenAt key value source s' =
      (e : Entry N S PD) × (v : EntryValues PD AT) × (decode_binding cfg s.namespace_id (key, value)
        ≡ some (e, v))
      × (source.failure ≡ none)
      × (length (stored cfg s e ++ source.bytes) ≡ v.length)
      × (cfg.finish (write_each cfg (cfg.write cfg.hasher (stored cfg s e)) source.bytes)
          ≡ v.digest)
      × (write_payload cfg s key (payload_key cfg s e) (stored cfg s e ++ source.bytes) e v
            (length (stored cfg s e))
          ≡ s')

  append_found-completed :
      (key value : Bytes) (digest : Option PD) (available : Option ℕ) (source : Source P)
      {s' : Store cfg E}
      → append_found cfg faults s key value digest available source
        ≡ ok (ok PayloadAppendSuccess.completed, s')
      → WrittenAt key value source s'
  unfolding append_found
  append_found-completed key value digest available source h =
      let ((e, v), d, h1) = bind_ok (unwrap (decode_binding cfg s.namespace_id (key, value))) _ h in
      let (_, _, h2) =
        bind_ok (if unexpected digest v.digest then err PayloadAppendError.wrong_entry else ok done)
          _ h1 in
      let (_, _, h3) =
        bind_ok
          (if other_length available v.local_length
            then err PayloadAppendError.incorrect_available_length
            else ok done)
          _ h2 in
      let (_, _, h4) = bind_ok (checked faults.read PayloadAppendError.operation_error) _ h3 in
      let (f, l, g, w) =
        store_payload-completed key (payload_key cfg s e) e v (length (stored cfg s e))
          (stored cfg s e ++ source.bytes)
          (write_each cfg (cfg.write cfg.hasher (stored cfg s e)) source.bytes) source.failure
          (store_received-completed key (payload_key cfg s e) e v (length (stored cfg s e)) v.length
            (stored cfg s e) (cfg.write cfg.hasher (stored cfg s e)) source.bytes source.failure
            h4) in
      (e, v, unwrap_ok (decode_binding cfg s.namespace_id (key, value)) d, f, l, g, w)

  append_at-completed :
      (found : Option Binding) (digest : Option PD) (available : Option ℕ) (source : Source P)
      {s' : Store cfg E}
      → append_at cfg faults s found digest available source
        ≡ ok (ok PayloadAppendSuccess.completed, s')
      → (key : Bytes) × (value : Bytes) × (found ≡ some (key, value))
        × WrittenAt key value source s'
  unfolding append_at
  append_at-completed none digest available source h = absurd (cc h)
  append_at-completed (some (key, value)) digest available source h =
      (key, value, refl, append_found-completed key value digest available source h)

  -- What a call has done that completes a payload, for the entry that it found: the payload is what
  -- was there and the bytes of the source.
  abbrev pub CompletedAt : Bytes → Bytes → Source P → Bytes → Store cfg E → Type 0
  CompletedAt key value source k s' =
      (e : Entry N S PD) × (v : EntryValues PD AT) × (decode_binding cfg s.namespace_id (key, value)
        ≡ some (e, v))
      × (source.failure ≡ none)
      × (length (stored cfg s e ++ source.bytes) ≡ v.length)
      × (cfg.finish (write_each cfg (cfg.write cfg.hasher (stored cfg s e)) source.bytes)
          ≡ v.digest)
      × Stored cfg s key e v (stored cfg s e ++ source.bytes) k s'

  completed-Stored :
      (key value : Bytes) (source : Source P) (k : Bytes) (s' : Store cfg E)
      → WrittenAt key value source s'
      → CompletedAt key value source k s'
  completed-Stored key value source k s' (e, v, d, f, l, g, w) = (
    e,
    v,
    d,
    f,
    l,
    g,
    subst (λ t. Stored cfg s key e v (stored cfg s e ++ source.bytes) k t) w
        (write_payload-Stored cfg s key e v (stored cfg s e ++ source.bytes) k l),
  )

  -- Where `append_payload` reports a payload as complete, the store holds the payload that was there
  -- with the bytes of the source behind it, in place of the one that was there; that payload has the
  -- length and the digest of the entry that was found, and the source ended without an error. Both
  -- entry trees say that all of it is there, no other key is changed in any tree, and the subscribers
  -- are told of it if there are new bytes.
  pub append_payload-completed :
      (subspace : S) (path : WillowPath) (digest : Option PD) (available : Option ℕ)
      (source : Source P) (k : Bytes)
      → (append_payload cfg faults s subspace path digest available source).0
        ≡ ok PayloadAppendSuccess.completed
      → (key : Bytes) × (value : Bytes) × (prefix_gt cfg faults
            (path_key cfg subspace path true)
            s.spt
          ≡ some (key, value))
        × CompletedAt key value source k
            (append_payload cfg faults s subspace path digest available source).1
  unfolding append_payload append_body
  append_payload-completed subspace path digest available source k h =
      let body = append_body cfg faults s subspace path digest available source in
      let (s', m, t) = settle_ok cfg s body h in
      let (_, _, h1) = bind_ok (checked faults.open_spt PayloadAppendError.operation_error) _ m in
      let (_, _, h2) =
        bind_ok (checked faults.open_payload PayloadAppendError.operation_error) _ h1 in
      let (key, value, found, written) =
        append_at-completed (prefix_gt cfg faults (path_key cfg subspace path true) s.spt) digest
          available source (h2 ∙ ap (λ x. ok (ok PayloadAppendSuccess.completed, x)) (sym t)) in
      (
        key,
        value,
        found,
        completed-Stored key value source k
            (append_payload cfg faults s subspace path digest available source).1 written,
      )
