-- ===== src/Guarantee/Cell.antt =====
-- lcmux/src/guarantee_cell.rs: `GuaranteeCell`, the guarantees of a client and the task that waits.
-- The asynchronous `await_threshold_sub` is two functions, what it does up to the `await` and what
-- it does from there when it is polled; `start_threshold_sub`, its first poll, does both.
pub mod Waiting
pub mod Plead
mod Tests
use willow_rs.Prelude.{ℕ, ◌+◌, ◌-◌, ◌^◌, Option, none, some, if◌then◌else◌, ltb, leb, min}
use willow_rs.Prelude.Outcome.{Outcome, ok, err, panic, Done, done}
use willow_rs.Guarantee.TakeCell.{TakeCell}
use willow_rs.Guarantee.Bound
use willow_rs.Guarantee.Bound.{GuaranteeBoundCell}

pub data ThresholdOutcome : Type 0 where
  yay_reached : ThresholdOutcome
  nope_bound : ThresholdOutcome

pub record GuaranteeCell {κ} (C : Type κ) : Type κ where
  pub acc : ℕ
  pub threshold : Option ℕ
  pub notify : C
  pub bound : GuaranteeBoundCell

-- `u64::checked_add`, `u64::saturating_add` and `u64::saturating_sub`.
abbrev pub checked_add : ℕ → ℕ → Option ℕ
checked_add a b = if ltb (a + b) (2 ^ 64) then some (a + b) else none

abbrev pub saturating_add : ℕ → ℕ → ℕ
saturating_add a b = min (a + b) (2 ^ 64 - 1)

abbrev pub saturating_sub : ℕ → ℕ → ℕ
saturating_sub a b = a - b

-- The subtraction of two `u64`, which wraps around as in a release build.
abbrev pub wrapping_sub : ℕ → ℕ → ℕ
wrapping_sub a b = if leb b a then a - b else a + 2 ^ 64 - b

module _ {κ} {C : Type κ} ⦃takes : TakeCell ThresholdOutcome C⦄ where
  pub new : GuaranteeCell C
  new = record { acc = 0; threshold = none; notify = takes.empty; bound = none }

  -- `self.notify.set(outcome); self.threshold.set(None);`
  abbrev pub notified : ThresholdOutcome → GuaranteeCell C → GuaranteeCell C
  notified outcome cell = record {
    acc = cell.acc;
    threshold = none;
    notify = takes.set outcome cell.notify;
    bound = cell.bound;
  }

  unfoldable notify_threshold : GuaranteeCell C → GuaranteeCell C
  notify_threshold cell = elim cell.threshold [
    | none ↦ cell
    | some threshold ↦
        if leb threshold cell.acc then notified yay_reached cell else elim cell.bound [
          | none ↦ cell
          | some bound ↦
              if ltb (saturating_add cell.acc bound) threshold
              then notified nope_bound cell
              else cell
        ]
  ]

  abbrev pub with_bound : GuaranteeBoundCell → GuaranteeCell C → GuaranteeCell C
  with_bound bound cell = record {
    acc = cell.acc;
    threshold = cell.threshold;
    notify = cell.notify;
    bound = bound;
  }

  abbrev pub with_acc : ℕ → GuaranteeCell C → GuaranteeCell C
  with_acc acc cell = record {
    acc = acc;
    threshold = cell.threshold;
    notify = cell.notify;
    bound = cell.bound;
  }

  pub apply_bound : ℕ → GuaranteeCell C → Outcome ℕ Done × GuaranteeCell C
  unfolding notify_threshold
  apply_bound new_bound cell = elim (Bound.apply_bound new_bound cell.bound).0 [
    | ok u ↦
        (ok done, notify_threshold (with_bound (Bound.apply_bound new_bound cell.bound).1 cell))
    | err old_bound ↦ (err old_bound, with_bound (Bound.apply_bound new_bound cell.bound).1 cell)
    | panic ↦ (panic, cell)
  ]

  pub add_guarantees : ℕ → GuaranteeCell C → Outcome Done Done × GuaranteeCell C
  unfolding notify_threshold
  add_guarantees amount cell = elim (checked_add cell.acc amount) [
    | none ↦ (err done, cell)
    | some new_amount ↦ elim (Bound.use_up amount cell.bound).0 [
      | ok remaining ↦ (
        ok done,
        notify_threshold (with_bound (Bound.use_up amount cell.bound).1 (with_acc new_amount cell)),
      )
      | err u ↦ (err done, with_bound (Bound.use_up amount cell.bound).1 (with_acc new_amount cell))
      | panic ↦ (panic, cell)
    ]
  ]

  pub reduce_guarantees_down_to : ℕ → GuaranteeCell C → ℕ × GuaranteeCell C
  reduce_guarantees_down_to target cell = (saturating_sub cell.acc target, with_acc target cell)

  -- `await_threshold_sub` up to the `await`; nothing comes between it and the first poll.
  pub await_threshold_sub : ℕ → GuaranteeCell C → GuaranteeCell C
  unfolding notify_threshold
  await_threshold_sub threshold cell = notify_threshold (record {
    acc = cell.acc;
    threshold = some threshold;
    notify = cell.notify;
    bound = cell.bound;
  })

  abbrev pub with_taken : GuaranteeCell C → GuaranteeCell C
  with_taken cell = record {
    acc = cell.acc;
    threshold = cell.threshold;
    notify = takes.taken cell.notify;
    bound = cell.bound;
  }

  -- `await_threshold_sub` from the `await` on, when the task is polled: with no notification it
  -- parks, `none`.
  pub poll_threshold_sub :
      ℕ → GuaranteeCell C → Option (Outcome Done ThresholdOutcome × GuaranteeCell C)
  poll_threshold_sub threshold cell = elim (takes.peek cell.notify) [
    | none ↦ none
    | some yay_reached ↦
        some (ok yay_reached, with_acc (wrapping_sub cell.acc threshold) (with_taken cell))
    | some nope_bound ↦ some (ok nope_bound, with_taken cell)
  ]

  -- The first poll of `await_threshold_sub`: the answer, if there is one at once, and the cell.
  pub start_threshold_sub :
      ℕ → GuaranteeCell C → Option (Outcome Done ThresholdOutcome) × GuaranteeCell C
  unfolding await_threshold_sub poll_threshold_sub
  start_threshold_sub threshold cell =
      elim (poll_threshold_sub threshold (await_threshold_sub threshold cell)) [
        | none ↦ (none, await_threshold_sub threshold cell)
        | some (outcome, cell') ↦ (some outcome, cell')
      ]
