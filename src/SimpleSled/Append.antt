-- ===== src/SimpleSled/Append.antt =====
-- `append_payload` of store_simple_sled/src/lib.rs.
pub mod Stored
pub mod Completed
use willow_rs.Prelude.{
  ℕ, zero, suc, ◌+◌, Bool, true, false, ◌&&◌, not, Option, none, some, List, [], ◌∷◌, ◌++◌, ltb,
  ◌==◌, if◌then◌else◌, length,
}
use willow_rs.Prelude.Order.{Ord, equal}
use willow_rs.Prelude.Outcome.{Outcome, ok, err, panic, ◌>>=◌, unwrap, Done, done}
use willow_rs.Path.{WillowPath}
use willow_rs.Entry.{Entry}
use willow_rs.Store.{AuthorisedEntry, PayloadAppendError, PayloadAppendSuccess, ForgetPayloadError}
use willow_rs.Store.Events.{QueuedOp}
use willow_rs.SimpleSled.Sled.{Bytes, Binding}
use willow_rs.SimpleSled.State.{
  Setting, Faults, checked, Store, settle, notify_event, EntryValues, encode_entry_values, path_key,
  tsp_key, decode_binding,
}
use willow_rs.SimpleSled.Forget.{unexpected, prefix_gt, forget_payload}

-- `if let Some(expected) = expected_available_bytes { if expected != local_length { … } }`.
unfoldable pub other_length : Option ℕ → ℕ → Bool
other_length none local_length = false
other_length (some expected) local_length = not (expected == local_length)

-- The payload that is there, or no bytes.
abbrev pub or_empty : Option Bytes → Bytes
or_empty none = []
or_empty (some payload) = payload

-- A payload source: the bytes it produces, and the error it ends with, if it ends with one.
pub record Source (P : Type 0) : Type 0 where
  pub bytes : List ℕ
  pub failure : Option P

-- How the loop over the source ends: by the guard, or with the payload and the hasher.
pub data Received (H : Type 0) : Type 0 where
  too_many : Received H
  received : Bytes → H → Received H

module _ {N S PD AT : Type 0} (cfg : Setting N S PD AT) where
  -- The loop; the received length is that of the payload.
  unfoldable pub receive : ℕ → Bytes → cfg.Hasher → List ℕ → Received cfg.Hasher
  receive limit payload hasher [] =
      if ltb limit (length payload) then too_many else received payload hasher
  receive limit payload hasher (byte ∷ bytes) =
      let rest = receive limit (payload ++ (byte ∷ [])) (cfg.write hasher (byte ∷ [])) bytes in
      if ltb limit (length payload) then too_many else rest

  module _ {E : Type 0} where
    -- A transaction of `append_payload`, with the event where bytes were received.
    unfoldable pub write_payload :
        Store cfg E → Bytes → Bytes → Bytes → Entry N S PD → EntryValues PD AT → ℕ → Store cfg E
    write_payload s key payload_key payload e v old_payload_len =
        let new_value = encode_entry_values cfg v.length v.digest v.token (length payload) in
        let s' : Store cfg E = record s {
          spt = cfg.sled.insert key new_value s.spt;
          tsp = cfg.sled.insert (tsp_key cfg e.subspace_id e.path e.timestamp) new_value s.tsp;
          payloads = cfg.sled.insert payload_key payload s.payloads;
        } in
        if old_payload_len == length payload
        then s'
        else notify_event cfg
            (QueuedOp.appended (record { entry = e; token = v.token }) old_payload_len
              (length payload))
            s'

-- The errors of the nested `forget_payload`.
pub of_forget_payload : {P E : Type 0} → ForgetPayloadError E → PayloadAppendError P E
of_forget_payload ForgetPayloadError.no_such_entry = PayloadAppendError.no_such_entry
of_forget_payload ForgetPayloadError.wrong_entry = PayloadAppendError.wrong_entry
of_forget_payload (ForgetPayloadError.operation_error e) = PayloadAppendError.operation_error e

module _ {N S PD AT E P : Type 0} (cfg : Setting N S PD AT) ⦃pd : Ord PD⦄ where
  -- The case of a complete payload whose digest is wrong.
  unfoldable pub forget_mismatch :
      Outcome (ForgetPayloadError E) Done × Store cfg E
      → Outcome (PayloadAppendError P E) PayloadAppendSuccess × Store cfg E
  unfolding of_forget_payload
  forget_mismatch (ok _, s) = (err PayloadAppendError.digest_mismatch, s)
  forget_mismatch (err e, s) = (err (of_forget_payload e), s)
  forget_mismatch (panic, s) = (panic, s)

  -- What follows the loop.
  unfoldable pub store_payload :
      Faults E
      → Store cfg E
      → Bytes
      → Bytes
      → Entry N S PD
      → EntryValues PD AT
      → ℕ
      → Bytes
      → cfg.Hasher
      → Option P
      → Outcome
          (PayloadAppendError P E)
          (Outcome (PayloadAppendError P E) PayloadAppendSuccess × Store cfg E)
  unfolding write_payload forget_mismatch
  store_payload faults s key payload_key e v old_len payload hasher (some failure) = do
    _ ← checked faults.open_tsp PayloadAppendError.operation_error
    _ ← checked faults.commit PayloadAppendError.operation_error
    ok (
      err (PayloadAppendError.source_error failure (length payload)),
      write_payload cfg s key payload_key payload e v old_len,
    )
  store_payload faults s key payload_key e v old_len payload hasher none = do
    _ ← checked faults.open_tsp PayloadAppendError.operation_error
    if length payload == v.length
        then (if not (equal (cfg.finish hasher) v.digest)
            then ok
                (forget_mismatch (forget_payload cfg faults s e.subspace_id e.path (some v.digest)))
            else (checked faults.commit PayloadAppendError.operation_error >>= λ _. ok (
              ok PayloadAppendSuccess.completed,
              write_payload cfg s key payload_key payload e v old_len,
            )))
        else (checked faults.commit PayloadAppendError.operation_error >>= λ _. ok (
          ok PayloadAppendSuccess.appended,
          write_payload cfg s key payload_key payload e v old_len,
        ))

  -- The `match` on what the loop ended with.
  unfoldable pub store_received :
      Faults E
      → Store cfg E
      → Bytes
      → Bytes
      → Entry N S PD
      → EntryValues PD AT
      → ℕ
      → Option P
      → Received cfg.Hasher
      → Outcome
          (PayloadAppendError P E)
          (Outcome (PayloadAppendError P E) PayloadAppendSuccess × Store cfg E)
  unfolding store_payload
  store_received faults s key payload_key e v old_len failure too_many =
      err PayloadAppendError.too_many_bytes
  store_received faults s key payload_key e v old_len failure (received payload hasher) =
      store_payload faults s key payload_key e v old_len payload hasher failure

  -- The call from the point where the entry is found.
  unfoldable pub append_found :
      Faults E
      → Store cfg E
      → Bytes
      → Bytes
      → Option PD
      → Option ℕ
      → Source P
      → Outcome
          (PayloadAppendError P E)
          (Outcome (PayloadAppendError P E) PayloadAppendSuccess × Store cfg E)
  unfolding receive store_received unexpected other_length
  append_found faults s key value expected_digest expected_available_bytes source = do
    (e, v) ← unwrap (decode_binding cfg s.namespace_id (key, value))
    _ ← if unexpected expected_digest v.digest then err PayloadAppendError.wrong_entry else ok done
    _ ←
        if other_length expected_available_bytes v.local_length
        then err PayloadAppendError.incorrect_available_length
        else ok done
    let payload_key = path_key cfg e.subspace_id e.path true
    _ ← checked faults.read PayloadAppendError.operation_error
    let prefix = or_empty (cfg.sled.get payload_key s.payloads)
    store_received faults s key payload_key e v (length prefix) source.failure
        (receive cfg v.length prefix (cfg.write cfg.hasher prefix) source.bytes)

  -- The `match` on the entry that is found.
  unfoldable pub append_at :
      Faults E
      → Store cfg E
      → Option Binding
      → Option PD
      → Option ℕ
      → Source P
      → Outcome
          (PayloadAppendError P E)
          (Outcome (PayloadAppendError P E) PayloadAppendSuccess × Store cfg E)
  unfolding append_found
  append_at faults s none digest available source = err PayloadAppendError.no_such_entry
  append_at faults s (some (key, value)) digest available source =
      append_found faults s key value digest available source

  unfoldable pub append_body :
      Faults E
      → Store cfg E
      → S
      → WillowPath
      → Option PD
      → Option ℕ
      → Source P
      → Outcome
          (PayloadAppendError P E)
          (Outcome (PayloadAppendError P E) PayloadAppendSuccess × Store cfg E)
  unfolding append_at
  append_body faults s subspace path expected_digest expected_available_bytes source = do
    _ ← checked faults.open_spt PayloadAppendError.operation_error
    _ ← checked faults.open_payload PayloadAppendError.operation_error
    append_at faults s (prefix_gt cfg faults (path_key cfg subspace path true) s.spt)
        expected_digest expected_available_bytes source

  unfoldable pub append_payload :
      Faults E
      → Store cfg E
      → S
      → WillowPath
      → Option PD
      → Option ℕ
      → Source P
      → Outcome (PayloadAppendError P E) PayloadAppendSuccess × Store cfg E
  unfolding append_body
  append_payload faults s subspace path expected_digest expected_available_bytes source =
      settle cfg s
        (append_body faults s subspace path expected_digest expected_available_bytes source)
