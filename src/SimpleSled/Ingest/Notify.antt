-- ===== src/SimpleSled/Ingest/Notify.antt =====
-- What `ingest_entry` of store_simple_sled/src/lib.rs tells the subscribers of the store.
use willow_rs.Prelude.{
  ℕ, ◌+◌, ◌<◌, ◌^◌, ◌≡◌, sym, ap, ◌∙◌, Bool, true, List, [], ◌∷◌, ◌++◌, length, arith,
}
use mathlib.Core.Path.{subst}
use willow_rs.Prelude.Order.{Ord}
use willow_rs.Prelude.Outcome.{ok}
use willow_rs.Store.{AuthorisedEntry, authorised_entry_new, EntryOrigin, success}
use willow_rs.Store.Events.{QueuedOp, insertion, enqueue_op}
use willow_rs.Store.Events.Unread.{Unread, enqueue_op-Unread}
use willow_rs.SimpleSled.Sled.{Bytes}
use willow_rs.SimpleSled.State.{Setting, Faults, Store}
use willow_rs.SimpleSled.Ingest.{ingested, ingest_entry}
use willow_rs.SimpleSled.Ingest.Ends.{ingest_entry-success}

module _ {N S PD AT E : Type 0} (cfg : Setting N S PD AT) where
  events-ingested :
      (s : Store cfg E) (a : AuthorisedEntry N S PD AT) (origin : EntryOrigin)
      (keys ts : List Bytes)
      → (ingested cfg s a.entry a.token origin keys ts).0 ≡ ok success
      → (cfg.is_authorised_write a.token a.entry ≡ true)
        × ((ingested cfg s a.entry a.token origin keys ts).1.events
            ≡ enqueue_op (insertion a origin) s.events)
  unfolding ingested authorised_entry_new
  events-ingested s a origin keys ts h = ground arith

  -- After a successful `ingest_entry` the token authorises the entry, and what a subscriber of the
  -- store has not read yet ends with the insertion of the entry, if the queue was below its capacity
  -- and the ids of operations did not wrap around.
  pub ingest_entry-Unread :
      ⦃pd : Ord PD⦄ ⦃n : Ord N⦄ (faults : Faults E) (s : Store cfg E)
      (a : AuthorisedEntry N S PD AT) (prevent : Bool) (origin : EntryOrigin) (key : ℕ)
      (ops : List (QueuedOp N S PD AT))
      → length s.events.op_queue < s.events.max_queue_capacity
      → s.events.popped_count + length s.events.op_queue < 2 ^ 64
      → Unread s.events key ops
      → (ingest_entry cfg faults s a prevent origin).0 ≡ ok success
      → (cfg.is_authorised_write a.token a.entry ≡ true)
        × Unread
            (ingest_entry cfg faults s a prevent origin).1.events
            key
            (ops ++ (insertion a origin ∷ []))
  ingest_entry-Unread faults s a prevent origin key ops room fits unread h =
      let (keys, ts, _, _, e) = ingest_entry-success cfg faults s a prevent origin h in
      let (authorised, told) = events-ingested s a origin keys ts (sym (ap (λ r. r.0) e) ∙ h) in
      (
        authorised,
        subst (λ t. Unread t key (ops ++ (insertion a origin ∷ [])))
            (sym (ap (λ r. r.1.events) e ∙ told))
            (enqueue_op-Unread (insertion a origin) s.events key ops room fits unread),
      )
