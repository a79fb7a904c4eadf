-- ===== src/Guarantee/Unbounded.antt =====
-- lcmux/src/guarantee_cell.rs: `GuaranteeCellWithoutBound`, the guarantees that a server has not yet
-- sent to its client. `await_threshold_clear` is two functions, as for the cell with a bound.
pub mod Waiting
mod Tests
use willow_rs.Prelude.{ℕ, Bool, true, false, ◌||◌, Option, none, some, if◌then◌else◌, leb}
use willow_rs.Prelude.Outcome.{Outcome, ok, err, Done, done}
use willow_rs.Guarantee.TakeCell.{TakeCell}
use willow_rs.Guarantee.Cell.{checked_add}

-- `Result<Either<(), ()>, ()>`: `Ok(Left(()))`, `Ok(Right(()))` and `Err(())`.
pub data Notification : Type 0 where
  left : Notification
  right : Notification
  failed : Notification

pub record GuaranteeCellWithoutBound {κ μ} (C : Type κ) (M : Type μ) : Type (κ ⊔ μ) where
  pub acc : ℕ
  pub threshold : Option ℕ
  pub notify : C
  pub must_notify : M

-- What `await_threshold_clear` returns: the pool it cleared, the end, or the error.
pub data Cleared : Type 0 where
  pool : ℕ → Cleared
  final : Cleared

-- The last notification, after which no other is made.
abbrev pub is_last : Option Notification → Bool
is_last none = false
is_last (some left) = false
is_last (some right) = true
is_last (some failed) = true

module _ {κ μ} {C : Type κ} {M : Type μ} ⦃takes : TakeCell Notification C⦄
    ⦃musts : TakeCell Done M⦄ where
  pub new : GuaranteeCellWithoutBound C M
  new = record { acc = 0; threshold = none; notify = takes.empty; must_notify = musts.empty }

  unfoldable notify_threshold : Bool → GuaranteeCellWithoutBound C M → GuaranteeCellWithoutBound C M
  notify_threshold force_notification cell = elim cell.threshold [
    | none ↦ cell
    | some threshold ↦
        if is_last (takes.peek cell.notify)
        then cell
        else if leb threshold cell.acc || force_notification
        then record {
          acc = cell.acc;
          threshold = none;
          notify = takes.set left cell.notify;
          must_notify = cell.must_notify;
        }
        else cell
  ]

  pub add_guarantees :
      ℕ → GuaranteeCellWithoutBound C M → Outcome Done Done × GuaranteeCellWithoutBound C M
  unfolding notify_threshold
  add_guarantees amount cell = elim (checked_add cell.acc amount) [
    | none ↦ (err done, cell)
    | some new_amount ↦ (
      ok done,
      notify_threshold false (record {
        acc = new_amount;
        threshold = cell.threshold;
        notify = cell.notify;
        must_notify = cell.must_notify;
      }),
    )
  ]

  -- `await_threshold_clear` up to the `await`.
  pub await_threshold_clear : ℕ → GuaranteeCellWithoutBound C M → GuaranteeCellWithoutBound C M
  unfolding notify_threshold
  await_threshold_clear threshold cell = notify_threshold false (record {
    acc = cell.acc;
    threshold = some threshold;
    notify = cell.notify;
    must_notify = cell.must_notify;
  })

  abbrev pub with_taken : GuaranteeCellWithoutBound C M → GuaranteeCellWithoutBound C M
  with_taken cell = record {
    acc = cell.acc;
    threshold = cell.threshold;
    notify = takes.taken cell.notify;
    must_notify = cell.must_notify;
  }

  -- The same without what is in the pool.
  abbrev pub cleared : GuaranteeCellWithoutBound C M → GuaranteeCellWithoutBound C M
  cleared cell = record {
    acc = 0;
    threshold = cell.threshold;
    notify = takes.taken cell.notify;
    must_notify = musts.set done cell.must_notify;
  }

  -- `await_threshold_clear` from the `await` on, when the task is polled; `none` if it parks.
  pub poll_threshold_clear :
      GuaranteeCellWithoutBound C M → Option (Outcome Done Cleared × GuaranteeCellWithoutBound C M)
  poll_threshold_clear cell = elim (takes.peek cell.notify) [
    | none ↦ none
    | some left ↦ some (ok (pool cell.acc), cleared cell)
    | some right ↦ some (ok final, with_taken cell)
    | some failed ↦ some (err done, with_taken cell)
  ]

  pub must_clear : GuaranteeCellWithoutBound C M → GuaranteeCellWithoutBound C M
  unfolding notify_threshold
  must_clear cell = record {
    acc = (notify_threshold true cell).acc;
    threshold = (notify_threshold true cell).threshold;
    notify = (notify_threshold true cell).notify;
    must_notify = musts.taken (notify_threshold true cell).must_notify;
  }

  abbrev with_notify : Notification → GuaranteeCellWithoutBound C M → GuaranteeCellWithoutBound C M
  with_notify notification cell = record {
    acc = cell.acc;
    threshold = cell.threshold;
    notify = takes.set notification cell.notify;
    must_notify = cell.must_notify;
  }

  pub set_final : GuaranteeCellWithoutBound C M → GuaranteeCellWithoutBound C M
  set_final cell = with_notify right cell

  pub set_error : GuaranteeCellWithoutBound C M → GuaranteeCellWithoutBound C M
  set_error cell = with_notify failed cell

  -- A poll of `wait_while_must_clear`: it takes the unit and puts it back, or parks.
  pub wait_while_must_clear : GuaranteeCellWithoutBound C M → Option (GuaranteeCellWithoutBound C M)
  wait_while_must_clear cell = elim (musts.peek cell.must_notify) [
    | none ↦ none
    | some u ↦ some (record {
      acc = cell.acc;
      threshold = cell.threshold;
      notify = cell.notify;
      must_notify = musts.set done (musts.taken cell.must_notify);
    })
  ]
