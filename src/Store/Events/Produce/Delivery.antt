-- ===== src/Store/Events/Produce/Delivery.antt =====
-- Delivery of the operations of data-model/src/store.rs: a subscriber reads each operation that is
-- queued after it subscribed, in order, as long as the queue stays within its capacity.
use willow_rs.Prelude.{
  ℕ, zero, suc, ◌+◌, ◌-◌, ◌<◌, ◌≡◌, refl, sym, ap, ◌∙◌, inl, inr, true, false, Option, none, some,
  List, [], ◌∷◌, ◌++◌, ◌==◌, length, length-append, arith, append_assoc, Option-cases,
}
use willow_rs.Path.{Limits}
use willow_rs.Parameters.{SubspaceId}
use willow_rs.Grouping.Range3d.{Range3d}
use willow_rs.Store.{StoreEvent, QueryIgnoreParams}
use willow_rs.Store.Events.{QueuedOp, EventSystem, next_op_id, resolve_op_id}
use willow_rs.Store.Events.Produce.{
  Subscriber, item, pending, Step, react, advance, produce_loop, produce,
}
use willow_rs.Store.Events.Unread.{
  holds, set_next_op_id_lem, holds_of_some, Unread, caught_up, behind, Unread-length,
  get_elem?-append,
}
use mathlib.Core.Path.{subst}

abbrev pub NextEvent {ℓ} : (N S PD AT : Type ℓ) → Type ℓ
NextEvent N S PD AT =
    Option (StoreEvent N S PD AT × Option (StoreEvent N S PD AT) × List (QueuedOp N S PD AT))

-- The result of `produce` for that: the event, with the later operations unread; or a wait.
abbrev pub Delivers {ℓ} :
    {N S PD AT E : Type ℓ}
    → Step N S PD AT E
    → EventSystem N S PD AT E
    → Subscriber N S PD AT
    → NextEvent N S PD AT
    → Type ℓ
Delivers {E} result sys sub none =
    (sys' : EventSystem _ _ _ _ E) × (result ≡ (pending, sys', sub))
    × (sys'.op_queue ≡ sys.op_queue)
    × Unread sys' sub.slab_key []
Delivers {E} result sys sub (some (event, buffered, ops)) =
    (sys' : EventSystem _ _ _ _ E) × (result
      ≡ (item event, sys', record sub { buffered_event = buffered }))
    × (sys'.op_queue ≡ sys.op_queue)
    × Unread sys' sub.slab_key ops

Delivers-same_queue {ℓ} :
    {N S PD AT E : Type ℓ} (result : Step N S PD AT E) (sys sys' : EventSystem N S PD AT E)
    (sub : Subscriber N S PD AT) (next : NextEvent N S PD AT)
    → sys.op_queue ≡ sys'.op_queue
    → Delivers result sys sub next
    → Delivers result sys' sub next
Delivers-same_queue result sys sys' sub none e (s, r, q, u) = (s, r, q ∙ e, u)
Delivers-same_queue result sys sys' sub (some (event, buffered, ops)) e (s, r, q, u) =
    (s, r, q ∙ e, u)

-- The first operation that has an event, with that event, the one buffered behind it, and the
-- operations after it.
module _ {ℓ} {N S PD AT : Type ℓ} (i : SubspaceId S) (k : Limits) where
  pub next_event : Range3d S → QueryIgnoreParams → List (QueuedOp N S PD AT) → NextEvent N S PD AT
  next_event range ignore [] = none
  next_event range ignore (op ∷ ops) =
      let rest = next_event range ignore ops in
      elim (react i k range ignore op) [
        | none ↦ rest
        | some (event, buffered) ↦ some (event, buffered, ops)
      ]

  module _ (range : Range3d S) (ignore : QueryIgnoreParams) where
    next_event-nil : next_event range ignore [] ≡ none
    unfolding next_event
    next_event-nil = refl

    next_event-none :
        (op : QueuedOp N S PD AT) (ops : List (QueuedOp N S PD AT))
        → react i k range ignore op ≡ none
        → next_event range ignore (op ∷ ops) ≡ next_event range ignore ops
    unfolding next_event
    next_event-none op ops r = ground arith

    next_event-some :
        (op : QueuedOp N S PD AT) (ops : List (QueuedOp N S PD AT)) (event : StoreEvent N S PD AT)
        (buffered : Option (StoreEvent N S PD AT))
        → react i k range ignore op ≡ some (event, buffered)
        → next_event range ignore (op ∷ ops) ≡ some (event, buffered, ops)
    unfolding next_event
    next_event-some op ops event buffered r = ground arith

  module _ {E : Type ℓ} where
    resolve-behind :
        (sys : EventSystem N S PD AT E) (front ops : List (QueuedOp N S PD AT))
        (op : QueuedOp N S PD AT)
        → sys.op_queue ≡ front ++ op ∷ ops
        → resolve_op_id (sys.popped_count + length front) sys ≡ some op
    unfolding resolve_op_id
    resolve-behind sys front ops op q =
        rw q (ground (arith, get_elem?-append front ops op, index sys.popped_count (length front)))
      where
        index : (p n : ℕ) → p + n - p ≡ n
        index p n = omega arith

    at_end :
        (sys : EventSystem N S PD AT E) (front : List (QueuedOp N S PD AT))
        (op : QueuedOp N S PD AT)
        → sys.op_queue ≡ front ++ (op ∷ [])
        → (sys.popped_count + length front + 1 == sys.popped_count + length sys.op_queue) ≡ true
    at_end sys front op q = ground (arith, ap length q, length-append front (op ∷ []))

    not_at_end :
        (sys : EventSystem N S PD AT E) (front : List (QueuedOp N S PD AT))
        (op next : QueuedOp N S PD AT) (ops : List (QueuedOp N S PD AT))
        → sys.op_queue ≡ front ++ op ∷ next ∷ ops
        → (sys.popped_count + length front + 1 == sys.popped_count + length sys.op_queue) ≡ false
    not_at_end sys front op next ops q =
        ground (arith, ap length q, length-append front (op ∷ next ∷ ops))

    advance-Unread :
        (sys : EventSystem N S PD AT E) (key : ℕ) (front ops : List (QueuedOp N S PD AT))
        (op : QueuedOp N S PD AT)
        → sys.op_queue ≡ front ++ op ∷ ops
        → holds key sys.subscribers ≡ true
        → Unread (advance i k key (sys.popped_count + length front) sys) key ops
    unfolding advance
    advance-Unread sys key front [] op q h =
        let done = set_next_op_id_lem key none sys.subscribers h in
        rw (at_end sys front op q) (caught_up done.1 done.0)
    advance-Unread sys key front (next ∷ ops) op q h =
        let done =
          set_next_op_id_lem key (some (inr (sys.popped_count + length front + 1))) sys.subscribers
            h in
        rw (not_at_end sys front op next ops q) (
          behind (front ++ (op ∷ [])) ops next (q ∙ sym (append_assoc front (op ∷ []) (next ∷ ops)))
            (done.0 ∙ ap (λ t. some (inr t)) (omega (arith, length-append front (op ∷ [])))))

    queue-advance :
        (sys : EventSystem N S PD AT E) (key id : ℕ)
        → (advance i k key id sys).op_queue ≡ sys.op_queue
    unfolding advance
    queue-advance sys key id = refl

    round_waits :
        (fuel : ℕ) (sys : EventSystem N S PD AT E) (sub : Subscriber N S PD AT)
        → next_op_id sub.slab_key sys.subscribers ≡ none
        → produce_loop i k (suc fuel) sys sub ≡ (pending, sys, sub)
    unfolding produce_loop
    round_waits fuel sys sub e = ground (arith, e)

    module _ (fuel : ℕ) (sys : EventSystem N S PD AT E) (sub : Subscriber N S PD AT)
        (front ops : List (QueuedOp N S PD AT)) (op : QueuedOp N S PD AT) where
      round_ignored :
          sys.op_queue ≡ front ++ op ∷ ops
          → next_op_id sub.slab_key sys.subscribers ≡ some (inr (sys.popped_count + length front))
          → react i k sub.range sub.ignore op ≡ none
          → produce_loop i k (suc fuel) sys sub
            ≡ produce_loop i k fuel
                (advance i k sub.slab_key (sys.popped_count + length front) sys)
                sub
      unfolding produce_loop
      round_ignored q e r = ground (arith, resolve-behind sys front ops op q)

      round_event :
          (event : StoreEvent N S PD AT) (buffered : Option (StoreEvent N S PD AT))
          → sys.op_queue ≡ front ++ op ∷ ops
          → next_op_id sub.slab_key sys.subscribers ≡ some (inr (sys.popped_count + length front))
          → react i k sub.range sub.ignore op ≡ some (event, buffered)
          → produce_loop i k (suc fuel) sys sub ≡ (
            item event,
            advance i k sub.slab_key (sys.popped_count + length front) sys,
            record sub { buffered_event = buffered },
          )
      unfolding produce_loop
      round_event event buffered q e r = ground (arith, resolve-behind sys front ops op q)

    -- A round for each unread operation that has no event, and one more.
    produce_loop-Delivers :
        (ops : List (QueuedOp N S PD AT)) (fuel : ℕ) (sys : EventSystem N S PD AT E)
        (sub : Subscriber N S PD AT)
        → length ops < fuel
        → Unread sys sub.slab_key ops
        → Delivers (produce_loop i k fuel sys sub) sys sub (next_event sub.range sub.ignore ops)
    produce_loop-Delivers [] (suc fuel) sys sub f (caught_up h e) =
        rw next_event-nil (sys, round_waits fuel sys sub e, refl, caught_up h e)
    produce_loop-Delivers (op ∷ ops) (suc fuel) sys sub f (behind front _ _ q e) =
        let later = advance i k sub.slab_key (sys.popped_count + length front) sys in
        let unread =
          advance-Unread sys sub.slab_key front ops op q (
            holds_of_some sub.slab_key (inr (sys.popped_count + length front)) sys.subscribers e) in
        elim (Option-cases (react i k sub.range sub.ignore op)) [
          | inl r ↦
              rw
                (
                  next_event-none sub.range sub.ignore op ops r,
                  round_ignored fuel sys sub front ops op q e r,
                )
                (Delivers-same_queue (produce_loop i k fuel later sub) later sys sub
                  (next_event sub.range sub.ignore ops)
                  (queue-advance sys sub.slab_key (sys.popped_count + length front))
                  (produce_loop-Delivers ops fuel later sub (omega arith) unread))
          | inr ((event, buffered), r) ↦
              rw (next_event-some sub.range sub.ignore op ops event buffered r) (
                later,
                round_event fuel sys sub front ops op event buffered q e r,
                queue-advance sys sub.slab_key (sys.popped_count + length front),
                unread,
              )
        ]
    produce_loop-Delivers ops zero sys sub f u = elim f [ ]

    produce_unbuffered :
        (sys : EventSystem N S PD AT E) (sub : Subscriber N S PD AT)
        → sub.buffered_event ≡ none
        → produce i k sys sub ≡ produce_loop i k (suc (length sys.op_queue)) sys sub
    unfolding produce
    produce_unbuffered sys sub b = ground (arith, b)

    -- With nothing buffered, `produce` yields the event of the first unread operation that has one,
    -- and leaves the later operations unread; it waits where none has.
    pub produce-Delivers :
        (sys : EventSystem N S PD AT E) (sub : Subscriber N S PD AT)
        (ops : List (QueuedOp N S PD AT))
        → sub.buffered_event ≡ none
        → Unread sys sub.slab_key ops
        → Delivers (produce i k sys sub) sys sub (next_event sub.range sub.ignore ops)
    produce-Delivers sys sub ops b u =
        subst (λ t. Delivers t sys sub (next_event sub.range sub.ignore ops))
          (sym (produce_unbuffered sys sub b))
          (produce_loop-Delivers ops (suc (length sys.op_queue)) sys sub (Unread-length ops u) u)
