-- ===== src/Store/Events.antt =====
-- data-model/src/store.rs: `EventSystem`, the queue of operations that subscribers read.
pub mod Produce
pub mod Unread
use willow_rs.Prelude.{
  ℕ, zero, suc, ◌+◌, ◌-◌, ◌^◌, ◌%◌, ◌⊎◌, inr, Bool, true, false, Option, none, some, List, [], ◌∷◌,
  ◌++◌, ltb, ◌==◌, if◌then◌else◌, length, get_elem?,
}
use willow_rs.Grouping.Area.{Area}
use willow_rs.Store.{AuthorisedEntry, LengthyAuthorisedEntry, EntryOrigin}

pub data QueuedOp {ℓ} (N S PD AT : Type ℓ) : Type ℓ where
  insertion : AuthorisedEntry N S PD AT → EntryOrigin → QueuedOp N S PD AT
  appended : AuthorisedEntry N S PD AT → ℕ → ℕ → QueuedOp N S PD AT
  entry_forgotten : LengthyAuthorisedEntry N S PD AT → QueuedOp N S PD AT
  area_forgotten : Area S → Option (Area S) → QueuedOp N S PD AT
  payload_forgotten : LengthyAuthorisedEntry N S PD AT → QueuedOp N S PD AT
  area_payloads_forgotten : Area S → Option (Area S) → QueuedOp N S PD AT

-- What the cell `next_op_id` of a subscriber holds, if it holds something: an error, or an op id.
abbrev pub NextOp {ℓ} : Type ℓ → Type ℓ
NextOp E = Option (E ⊎ ℕ)

-- The slab of subscribers lists each key that is in use with the subscriber's cell. The cell is
-- shared: both parts of a subscriber reach it by the key.
pub record EventSystem {ℓ} (N S PD AT E : Type ℓ) : Type ℓ where
  pub op_queue : List (QueuedOp N S PD AT)
  pub max_queue_capacity : ℕ
  pub popped_count : ℕ
  pub subscribers : List (ℕ × NextOp E)

-- `VecDeque::pop_front`.
abbrev pub pop_front {ℓ} : {A : Type ℓ} → List A → List A
pop_front [] = []
pop_front (x ∷ xs) = xs

module _ {ℓ} {E : Type ℓ} where
  -- The loop of `enqueue_op` over the subscribers: an empty cell is set.
  unfoldable pub notify : ℕ → List (ℕ × NextOp E) → List (ℕ × NextOp E)
  notify id [] = []
  notify id ((key, none) ∷ subs) = (key, some (inr id)) ∷ notify id subs
  notify id ((key, some next) ∷ subs) = (key, some next) ∷ notify id subs

  -- The cell of a subscriber; the slab holds the key until the subscriber is dropped.
  unfoldable pub next_op_id : ℕ → List (ℕ × NextOp E) → NextOp E
  next_op_id key [] = none
  next_op_id key ((k, c) ∷ subs) = if k == key then c else next_op_id key subs

  unfoldable pub set_next_op_id : ℕ → NextOp E → List (ℕ × NextOp E) → List (ℕ × NextOp E)
  set_next_op_id key c [] = []
  set_next_op_id key c ((k, d) ∷ subs) =
      if k == key then (k, c) ∷ subs else (k, d) ∷ set_next_op_id key c subs

  unfoldable pub remove_subscriber : ℕ → List (ℕ × NextOp E) → List (ℕ × NextOp E)
  remove_subscriber key [] = []
  remove_subscriber key ((k, d) ∷ subs) =
      if k == key then subs else (k, d) ∷ remove_subscriber key subs

-- The id of the newest op, in a `u64` that wraps: with no capacity the queue is empty here.
abbrev pub newest : ℕ → ℕ → ℕ
newest popped len = (popped + len + 2 ^ 64 - 1) % 2 ^ 64

module _ {ℓ} {N S PD AT E : Type ℓ} where
  unfoldable pub event_system_new : ℕ → EventSystem N S PD AT E
  event_system_new max_queue_capacity = record {
    op_queue = [];
    max_queue_capacity = max_queue_capacity;
    popped_count = 0;
    subscribers = [];
  }

  unfoldable pub enqueue_op : QueuedOp N S PD AT → EventSystem N S PD AT E → EventSystem N S PD AT E
  unfolding notify
  enqueue_op op sys =
      let pushed = sys.op_queue ++ (op ∷ []) in
      let queue = if ltb sys.max_queue_capacity (length pushed) then pop_front pushed else pushed in
      record sys {
        op_queue = queue;
        subscribers = notify (newest sys.popped_count (length queue)) sys.subscribers;
      }

  unfoldable pub resolve_op_id : ℕ → EventSystem N S PD AT E → Option (QueuedOp N S PD AT)
  resolve_op_id id sys =
      if ltb id sys.popped_count then none else get_elem? sys.op_queue (id - sys.popped_count)

  -- `add_subscription`, for the vacant key that the slab chooses.
  unfoldable pub add_subscriber : ℕ → EventSystem N S PD AT E → EventSystem N S PD AT E
  add_subscriber key sys = record sys { subscribers = (key, none) ∷ sys.subscribers }

  -- `Drop for Subscriber`.
  unfoldable pub drop_subscriber : ℕ → EventSystem N S PD AT E → EventSystem N S PD AT E
  unfolding remove_subscriber
  drop_subscriber key sys = record sys { subscribers = remove_subscriber key sys.subscribers }

  unfoldable pub cancel_all_subscriptions : EventSystem N S PD AT E → EventSystem N S PD AT E
  unfolding notify
  cancel_all_subscriptions sys = record sys { subscribers = notify (2 ^ 64 - 1) sys.subscribers }
