-- ===== src/Store/Events/Produce.antt =====
-- data-model/src/store.rs: `Subscriber::produce`, which turns the queued operations into events.
pub mod Delivery
use willow_rs.Prelude.{
  ℕ, zero, suc, ◌+◌, ◌⊎◌, inl, inr, Bool, true, false, ◌&&◌, ◌||◌, not, Option, none, some, List,
  [], ◌∷◌, ◌==◌, if◌then◌else◌, length,
}
use willow_rs.Prelude.Order.{Ord}
use willow_rs.Path.{Limits}
use willow_rs.Parameters.{SubspaceId}
use willow_rs.Entry.{Entry}
use willow_rs.Grouping.Area.{Area}
use willow_rs.Grouping.Range3d
use willow_rs.Grouping.Range3d.{Range3d}
use willow_rs.Store.{
  AuthorisedEntry, LengthyAuthorisedEntry, EntryOrigin, local, StoreEvent, QueryIgnoreParams,
  ignores_fresh_entry, ignores_lengthy_authorised_entry,
}
use willow_rs.Store.Events.{
  QueuedOp, EventSystem, NextOp, next_op_id, set_next_op_id, resolve_op_id,
}

-- `Subscriber`, without its two references into the event system.
pub record Subscriber {ℓ} (N S PD AT : Type ℓ) : Type ℓ where
  pub slab_key : ℕ
  pub range : Range3d S
  pub ignore : QueryIgnoreParams
  pub buffered_event : Option (StoreEvent N S PD AT)

-- The external half that `add_subscription` returns.
unfoldable pub subscriber_new {ℓ} :
    {N S PD AT : Type ℓ} → ℕ → Range3d S → QueryIgnoreParams → Subscriber N S PD AT
subscriber_new key range ignore = record {
  slab_key = key;
  range = range;
  ignore = ignore;
  buffered_event = none;
}

-- What `produce` comes to; `pending` where it waits for the next operation.
pub data Produced {ℓ} (N S PD AT E : Type ℓ) : Type ℓ where
  item : StoreEvent N S PD AT → Produced N S PD AT E
  final : Produced N S PD AT E
  error : E → Produced N S PD AT E
  pending : Produced N S PD AT E

abbrev pub Step {ℓ} : (N S PD AT E : Type ℓ) → Type ℓ
Step N S PD AT E = Produced N S PD AT E × EventSystem N S PD AT E × Subscriber N S PD AT

module _ {ℓ} {N S PD AT : Type ℓ} (i : SubspaceId S) (k : Limits) where
  -- The events for a forgotten area: none if it misses the range or a protected area covers it.
  on_area :
      Range3d S → Area S → Option (Area S) → StoreEvent N S PD AT → Option (StoreEvent N S PD AT)
  on_area range area protected event =
      elim (Range3d.intersection ⦃o = i.ord⦄ (Range3d.from_area i k area) range) [
        | none ↦ none
        | some both ↦ elim protected [
          | none ↦ some event
          | some prot ↦
              if Range3d.includes_range ⦃o = i.ord⦄ (Range3d.from_area i k prot) range
              then none
              else some event
        ]
      ]

  -- The `match` on an operation: nothing (`continue`), or the event that is returned with the one
  -- that is buffered behind it.
  pub react :
      Range3d S
      → QueryIgnoreParams
      → QueuedOp N S PD AT
      → Option (StoreEvent N S PD AT × Option (StoreEvent N S PD AT))
  unfolding on_area ignores_fresh_entry ignores_lengthy_authorised_entry
  react range ignore (QueuedOp.appended e previous now) =
      if not (Range3d.includes_entry ⦃o = i.ord⦄ range e.entry)
        || ignores_lengthy_authorised_entry ignore e now
      then none
      else (if ignore.ignore_incomplete_payloads
          then some (StoreEvent.ingested e local, some (StoreEvent.appended e previous now))
          else some (StoreEvent.appended e previous now, none))
  react range ignore (QueuedOp.area_forgotten area protected) =
      elim (on_area range area protected (StoreEvent.area_forgotten area protected)) [
        | none ↦ none
        | some event ↦ some (event, none)
      ]
  react range ignore (QueuedOp.area_payloads_forgotten area protected) =
      elim (on_area range area protected (StoreEvent.area_payloads_forgotten area protected)) [
        | none ↦ none
        | some event ↦ some (event, none)
      ]
  react range ignore (QueuedOp.entry_forgotten e) =
      if Range3d.includes_entry ⦃o = i.ord⦄ range e.entry.entry
        && not (ignores_lengthy_authorised_entry ignore e.entry e.available)
      then some (StoreEvent.entry_forgotten e.entry, none)
      else none
  react range ignore (QueuedOp.insertion e origin) =
      if Range3d.includes_entry ⦃o = i.ord⦄ range e.entry
      then (if ignores_fresh_entry ignore e.entry
          then some (StoreEvent.prune_alert e, none)
          else some (StoreEvent.prune_alert e, some (StoreEvent.ingested e origin)))
      else (if Range3d.could_be_pruned_by_triplet ⦃o = i.ord⦄ range e.entry.subspace_id e.entry.path
            e.entry.timestamp
          then some (StoreEvent.prune_alert e, none)
          else none)
  react range ignore (QueuedOp.payload_forgotten e) =
      if Range3d.includes_entry ⦃o = i.ord⦄ range e.entry.entry
        && not (ignores_lengthy_authorised_entry ignore e.entry e.available)
      then some (StoreEvent.payload_forgotten e.entry, none)
      else none

  module _ {E : Type ℓ} where
    -- The advance of the op id: the cell stays empty where the op was the newest.
    pub advance : ℕ → ℕ → EventSystem N S PD AT E → EventSystem N S PD AT E
    advance key op_id sys = record sys {
      subscribers =
          set_next_op_id key
            (if op_id + 1 == sys.popped_count + length sys.op_queue
              then none
              else some (inr (op_id + 1)))
            sys.subscribers;
    }

    taken : ℕ → EventSystem N S PD AT E → EventSystem N S PD AT E
    taken key sys = record sys { subscribers = set_next_op_id key none sys.subscribers }

    -- The loop of `produce`. Each round moves past an operation of the queue, so its length and one
    -- more rounds are enough; `pending` is the wait on the empty cell.
    pub produce_loop : ℕ → EventSystem N S PD AT E → Subscriber N S PD AT → Step N S PD AT E
    unfolding react advance taken
    produce_loop zero sys sub = (pending, sys, sub)
    produce_loop (suc fuel) sys sub = elim (next_op_id sub.slab_key sys.subscribers) [
      | none ↦ (pending, sys, sub)
      | some (inl e) ↦ (error e, taken sub.slab_key sys, sub)
      | some (inr op_id) ↦ elim (resolve_op_id op_id sys) [
        | none ↦ (final, taken sub.slab_key sys, sub)
        | some op ↦ elim (react sub.range sub.ignore op) [
          | none ↦ produce_loop fuel (advance sub.slab_key op_id sys) sub
          | some (event, buffered) ↦
              (item event, advance sub.slab_key op_id sys, record sub { buffered_event = buffered })
        ]
      ]
    ]

    pub produce : EventSystem N S PD AT E → Subscriber N S PD AT → Step N S PD AT E
    unfolding produce_loop
    produce sys sub = elim sub.buffered_event [
      | some event ↦ (item event, sys, record sub { buffered_event = none })
      | none ↦ produce_loop (suc (length sys.op_queue)) sys sub
    ]
