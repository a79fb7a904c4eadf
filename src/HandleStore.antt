-- ===== src/HandleStore.antt =====
-- wgps/src/data_handles/handle_store.rs: `HashMapHandleStore`, the data bound to numeric handles.
pub mod Laws
pub mod Marks
mod Tests
use willow_rs.Prelude.{ℕ, ◌+◌, ◌^◌, ◌%◌, Bool, Option, none, some, [], if◌then◌else◌, ltb}
use willow_rs.Prelude.Order.{nat_ord}
use willow_rs.Prelude.HashMap.{HashMap}
use willow_rs.Prelude.HashMap
use willow_rs.Prelude.Outcome.{Outcome, ok, err, Done, done}

pub data DataHandleState : Type 0 where
  fully_bound : DataHandleState
  me_freed : DataHandleState
  you_freed : DataHandleState
  waiting : DataHandleState

pub data HashMapHandleStoreError : Type 0 where
  handle_limit_reached : HashMapHandleStoreError

-- The store's own error is never returned by the two functions that free a handle.
pub data FreeHandleError {ℓ} (E : Type ℓ) : Type ℓ where
  handle_not_bound : FreeHandleError E
  store_error : E → FreeHandleError E

pub data ConfirmFreeHandleError {ℓ} (E : Type ℓ) : Type ℓ where
  confirm_not_bound : ConfirmFreeHandleError E
  handle_not_marked_for_freeing : ConfirmFreeHandleError E
  confirm_store_error : E → ConfirmFreeHandleError E

pub record HashMapHandleStore {ℓ} (D : Type ℓ) : Type ℓ where
  pub data_of : HashMap ℕ (D × DataHandleState)
  pub least_unassigned_handle : ℕ
  pub handle_limit : ℕ

pub new {ℓ} : {D : Type ℓ} → ℕ → HashMapHandleStore D
new handle_limit = record { data_of = []; least_unassigned_handle = 0; handle_limit = handle_limit }

-- What `mark_for_freeing` makes of the state of a handle.
pub mark : Bool → DataHandleState → DataHandleState
mark me fully_bound = if me then me_freed else you_freed
mark me me_freed = if me then me_freed else waiting
mark me you_freed = if me then waiting else you_freed
mark me waiting = waiting

module _ {ℓ} {D : Type ℓ} where
  pub get : HashMapHandleStore D → ℕ → Outcome HashMapHandleStoreError (Option D)
  get store handle = elim (HashMap.get handle store.data_of) [
    | none ↦ ok none
    | some (value, state) ↦ ok (some value)
  ]

  -- The handle counter wraps around at 2^64, as in a release build.
  pub bind : D → HashMapHandleStore D → Outcome HashMapHandleStoreError ℕ × HashMapHandleStore D
  bind value store =
      let handle = store.least_unassigned_handle in
      let least = (handle + 1) % 2 ^ 64 in
      let bound : HashMapHandleStore D = record {
        data_of = HashMap.insert handle (value, fully_bound) store.data_of;
        least_unassigned_handle = least;
        handle_limit = store.handle_limit;
      } in
      if ltb store.handle_limit least then (err handle_limit_reached, bound) else (ok handle, bound)

  pub mark_for_freeing :
      ℕ
      → Bool
      → HashMapHandleStore D
      → Outcome (FreeHandleError HashMapHandleStoreError) Done × HashMapHandleStore D
  unfolding mark
  mark_for_freeing handle me store = elim (HashMap.get handle store.data_of) [
    | none ↦ (err handle_not_bound, store)
    | some (value, state) ↦ (
      ok done,
      record {
        data_of = HashMap.insert handle (value, mark me state) store.data_of;
        least_unassigned_handle = store.least_unassigned_handle;
        handle_limit = store.handle_limit;
      },
    )
  ]

  -- The first arm of the `match`: only a handle that nobody marked is removed.
  confirm :
      ℕ
      → HashMapHandleStore D
      → D × DataHandleState
      → Outcome (ConfirmFreeHandleError HashMapHandleStoreError) Done × HashMapHandleStore D
  confirm handle store (value, fully_bound) = (
    ok done,
    record {
      data_of = HashMap.remove handle store.data_of;
      least_unassigned_handle = store.least_unassigned_handle;
      handle_limit = store.handle_limit;
    },
  )
  confirm handle store (value, me_freed) = (err handle_not_marked_for_freeing, store)
  confirm handle store (value, you_freed) = (err handle_not_marked_for_freeing, store)
  confirm handle store (value, waiting) = (err handle_not_marked_for_freeing, store)

  pub confirm_freed :
      ℕ
      → HashMapHandleStore D
      → Outcome (ConfirmFreeHandleError HashMapHandleStoreError) Done × HashMapHandleStore D
  unfolding confirm
  confirm_freed handle store = elim (HashMap.get handle store.data_of) [
    | none ↦ (err confirm_not_bound, store)
    | some entry ↦ confirm handle store entry
  ]
