-- ===== src/Store/Events/Unread.antt =====
-- What a subscriber of data-model/src/store.rs has not read yet, and what an enqueued operation does
-- to it.
use willow_rs.Prelude.{
  ℕ, suc, ◌+◌, ◌<◌, ◌^◌, ◌≡◌, refl, sym, ap, ◌∙◌, ◌⊎◌, inr, Bool, true, false, none, some, List, [],
  ◌∷◌, ◌++◌, ◌==◌, length, length-append, get_elem?, arith, append_assoc, ◌||◌,
}
use willow_rs.Store.Events.{
  QueuedOp, EventSystem, NextOp, next_op_id, set_next_op_id, notify, enqueue_op, pop_front, newest,
}

pub get_elem?-append {ℓ} :
    {A : Type ℓ} (xs ys : List A) (x : A) → get_elem? (xs ++ x ∷ ys) (length xs) ≡ some x
get_elem?-append [] ys x = refl
get_elem?-append (y ∷ xs) ys x = get_elem?-append xs ys x

-- After a `pop_front` the same index is that of the next element.
shifted {ℓ} :
    {A : Type ℓ} (front xs : List A) (next after x : A)
    → (front' : List A) × (pop_front ((front ++ next ∷ after ∷ xs) ++ (x ∷ []))
        ≡ front' ++ after ∷ (xs ++ (x ∷ [])))
      × (length front' ≡ length front)
shifted [] xs next after x = ([], refl, refl)
shifted (f ∷ front) xs next after x = (
  front ++ (next ∷ []),
  append_assoc front (next ∷ after ∷ xs) (x ∷ [])
      ∙ sym (append_assoc front (next ∷ []) (after ∷ (xs ++ (x ∷ [])))),
  omega (arith, length-append front (next ∷ [])),
)

module _ {ℓ} {E : Type ℓ} where
  -- The slab holds the key.
  abbrev pub holds : ℕ → List (ℕ × NextOp E) → Bool
  holds key [] = false
  holds key ((k, c) ∷ subs) = (k == key) || holds key subs

  pub set_next_op_id_lem :
      (key : ℕ) (c : NextOp E) (subs : List (ℕ × NextOp E))
      → holds key subs ≡ true
      → (next_op_id key (set_next_op_id key c subs) ≡ c)
        × (holds key (set_next_op_id key c subs) ≡ true)
  unfolding next_op_id set_next_op_id
  set_next_op_id_lem key c [] h = cc
  set_next_op_id_lem key c ((k, d) ∷ subs) h = ground (arith, set_next_op_id_lem key c subs)

  pub holds_of_some :
      (key : ℕ) (x : E ⊎ ℕ) (subs : List (ℕ × NextOp E))
      → next_op_id key subs ≡ some x
      → holds key subs ≡ true
  unfolding next_op_id
  holds_of_some key x [] h = cc
  holds_of_some key x ((k, d) ∷ subs) h = ground (arith, holds_of_some key x subs)

  notify-none :
      (key id : ℕ) (subs : List (ℕ × NextOp E))
      → holds key subs ≡ true
      → next_op_id key subs ≡ none
      → next_op_id key (notify id subs) ≡ some (inr id)
  unfolding next_op_id notify
  notify-none key id [] h e = cc
  notify-none key id ((k, none) ∷ subs) h e = ground (arith, notify-none key id subs)
  notify-none key id ((k, some d) ∷ subs) h e = ground (arith, notify-none key id subs)

  notify-some :
      (key id : ℕ) (x : E ⊎ ℕ) (subs : List (ℕ × NextOp E))
      → next_op_id key subs ≡ some x
      → next_op_id key (notify id subs) ≡ some x
  unfolding next_op_id notify
  notify-some key id x [] e = cc
  notify-some key id x ((k, none) ∷ subs) e = ground (arith, notify-some key id x subs)
  notify-some key id x ((k, some d) ∷ subs) e = ground (arith, notify-some key id x subs)

module _ {ℓ} {N S PD AT E : Type ℓ} where
  -- What the subscriber has not read yet: nothing, or the end of the queue from its op id on.
  pub data Unread (sys : EventSystem N S PD AT E) (key : ℕ)
      : List (QueuedOp N S PD AT) → Type ℓ where
    caught_up :
        holds key sys.subscribers ≡ true → next_op_id key sys.subscribers ≡ none → Unread sys key []
    behind :
        (front ops : List (QueuedOp N S PD AT)) (op : QueuedOp N S PD AT)
        → sys.op_queue ≡ front ++ op ∷ ops
        → next_op_id key sys.subscribers ≡ some (inr (sys.popped_count + length front))
        → Unread sys key (op ∷ ops)

  pub Unread-length :
      {sys : EventSystem N S PD AT E} {key : ℕ} (ops : List (QueuedOp N S PD AT))
      → Unread sys key ops
      → length ops < suc (length sys.op_queue)
  Unread-length _ (caught_up h e) = omega arith
  Unread-length _ (behind front ops op q e) =
      omega (arith, ap length q, length-append front (op ∷ ops))

  queue-enqueue_op :
      (op : QueuedOp N S PD AT) (sys : EventSystem N S PD AT E)
      → length sys.op_queue < sys.max_queue_capacity
      → (enqueue_op op sys).op_queue ≡ sys.op_queue ++ (op ∷ [])
  unfolding enqueue_op
  queue-enqueue_op op sys room = ground (arith, length-append sys.op_queue (op ∷ []))

  -- The id with which a subscriber that is up to date is notified.
  newest-enqueue_op :
      (op : QueuedOp N S PD AT) (sys : EventSystem N S PD AT E)
      → length sys.op_queue < sys.max_queue_capacity
      → sys.popped_count + length sys.op_queue < 2 ^ 64
      → newest sys.popped_count (length (enqueue_op op sys).op_queue)
        ≡ sys.popped_count + length sys.op_queue
  newest-enqueue_op op sys room fits =
      rw (queue-enqueue_op op sys room, length-append sys.op_queue (op ∷ [])) (omega arith)

  -- Below the capacity, an operation that is enqueued is added to what each subscriber has to read.
  pub enqueue_op-Unread :
      (op : QueuedOp N S PD AT) (sys : EventSystem N S PD AT E) (key : ℕ)
      (ops : List (QueuedOp N S PD AT))
      → length sys.op_queue < sys.max_queue_capacity
      → sys.popped_count + length sys.op_queue < 2 ^ 64
      → Unread sys key ops
      → Unread (enqueue_op op sys) key (ops ++ (op ∷ []))
  unfolding enqueue_op
  enqueue_op-Unread op sys key _ room fits (caught_up h e) =
      behind sys.op_queue [] op (queue-enqueue_op op sys room) (
        notify-none key (newest sys.popped_count (length (enqueue_op op sys).op_queue))
          sys.subscribers h e
        ∙ ap (λ t. some (inr t)) (newest-enqueue_op op sys room fits))
  enqueue_op-Unread op sys key _ room fits (behind front ops next q e) =
      behind front (ops ++ (op ∷ [])) next
        (queue-enqueue_op op sys room
          ∙ ap (λ t. t ++ (op ∷ [])) q
          ∙ append_assoc front (next ∷ ops) (op ∷ []))
        (notify-some key (newest sys.popped_count (length (enqueue_op op sys).op_queue))
          (inr (sys.popped_count + length front)) sys.subscribers e)

  full_queue-enqueue_op :
      (op : QueuedOp N S PD AT) (sys : EventSystem N S PD AT E)
      → length sys.op_queue ≡ sys.max_queue_capacity
      → (enqueue_op op sys).op_queue ≡ pop_front (sys.op_queue ++ (op ∷ []))
  unfolding enqueue_op
  full_queue-enqueue_op op sys full = ground (arith, length-append sys.op_queue (op ∷ []))

  -- At the capacity, an operation that is enqueued costs each subscriber that has more than one
  -- operation to read the next one: it is skipped, and the subscriber is not told.
  pub enqueue_op-skips :
      (op : QueuedOp N S PD AT) (sys : EventSystem N S PD AT E) (key : ℕ)
      (next after : QueuedOp N S PD AT) (ops : List (QueuedOp N S PD AT))
      → length sys.op_queue ≡ sys.max_queue_capacity
      → Unread sys key (next ∷ after ∷ ops)
      → Unread (enqueue_op op sys) key (after ∷ (ops ++ (op ∷ [])))
  unfolding enqueue_op
  enqueue_op-skips op sys key next after ops full (behind front _ _ q e) =
      let (front', moved, same) = shifted front ops next after op in
      behind front' (ops ++ (op ∷ [])) after
        (full_queue-enqueue_op op sys full ∙ ap (λ t. pop_front (t ++ (op ∷ []))) q ∙ moved)
        (notify-some key (newest sys.popped_count (length (enqueue_op op sys).op_queue))
            (inr (sys.popped_count + length front)) sys.subscribers e
          ∙ ap (λ t. some (inr (sys.popped_count + t))) (sym same))
