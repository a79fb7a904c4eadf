-- ===== src/Store/Tests.antt =====
-- The event system of data-model/src/store.rs at concrete inputs.
use willow_rs.Prelude.{ℕ, suc, refl, inr, some, none, [], ◌∷◌, arith}
use willow_rs.Prelude.Order.{nat_ord}
use willow_rs.Path.{Limits}
use willow_rs.Parameters.{SubspaceId}
use willow_rs.Grouping.Range.{open_end}
use willow_rs.Grouping.Range3d.{Range3d}
use willow_rs.Grouping.Area.{any}
use willow_rs.Store.{ignore_nothing}
use willow_rs.Store.Events.{QueuedOp, area_forgotten, EventSystem, enqueue_op, next_op_id}
use willow_rs.Store.Events.Unread.{Unread, behind, enqueue_op-skips}
use willow_rs.Store.Events.Produce.{Subscriber, produce}
use willow_rs.Store.Events.Produce.Delivery.{Delivers, next_event, produce-Delivers}

abbrev numbers : SubspaceId ℕ
numbers = record {
  ord = nat_ord;
  default = 0;
  successor = λ n. some (suc n);
  default_least = λ s. ground arith;
  successor_gt = λ s t h. ground arith;
  successor_least = λ s t u h k. ground arith;
  successor_none = λ s u h. cc;
}

abbrev small : Limits
small = record { max_component_length = 2; max_component_count = 2; max_path_length = 3 }

abbrev whole : Range3d ℕ
whole = record {
  subspaces = record { start = 0; end = open_end };
  paths = record { start = []; end = open_end };
  times = record { start = 0; end = open_end };
}

-- `n` tells the operations apart.
abbrev forgot : ℕ → QueuedOp ℕ ℕ ℕ ℕ
forgot n =
    area_forgotten
      (record { subspace = any; path = []; times = record { start = n; end = open_end } }) none

-- Two operations in a queue of at most two, and the subscriber 0 has read none of them.
abbrev two_queued : EventSystem ℕ ℕ ℕ ℕ ℕ
two_queued = record {
  op_queue = forgot 1 ∷ forgot 2 ∷ [];
  max_queue_capacity = 2;
  popped_count = 0;
  subscribers = (0, some (inr 0)) ∷ [];
}

two_queued-Unread : Unread two_queued 0 (forgot 1 ∷ forgot 2 ∷ [])
unfolding next_op_id
two_queued-Unread = behind [] (forgot 2 ∷ []) (forgot 1) refl refl

abbrev subscriber : Subscriber ℕ ℕ ℕ ℕ
subscriber = record { slab_key = 0; range = whole; ignore = ignore_nothing; buffered_event = none }

produce-Delivers_example :
    Delivers
      (produce numbers small two_queued subscriber)
      two_queued
      subscriber
      (next_event numbers small whole ignore_nothing (forgot 1 ∷ forgot 2 ∷ []))
produce-Delivers_example =
    produce-Delivers numbers small two_queued subscriber (forgot 1 ∷ forgot 2 ∷ []) refl
      two_queued-Unread

enqueue_op-skips_example : Unread (enqueue_op (forgot 3) two_queued) 0 (forgot 2 ∷ forgot 3 ∷ [])
enqueue_op-skips_example =
    enqueue_op-skips (forgot 3) two_queued 0 (forgot 1) (forgot 2) [] refl two_queued-Unread
