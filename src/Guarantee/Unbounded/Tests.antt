-- ===== src/Guarantee/Unbounded/Tests.antt =====
-- Guarantees without a bound: the theorems at concrete inputs, with an option for each cell.
use willow_rs.Prelude.{◌<◌, ◌≡◌, refl, Option, none, some}
use willow_rs.Prelude.Outcome.{Done}
use willow_rs.Guarantee.TakeCell.{option_cell}
use willow_rs.Guarantee.Unbounded.{
  GuaranteeCellWithoutBound, Notification, add_guarantees, await_threshold_clear,
  poll_threshold_clear, notify_threshold,
}
use willow_rs.Guarantee.Unbounded.Waiting.{
  Steps, here, then_step, guarantees, poll_threshold_clear-none,
}

abbrev unsent : GuaranteeCellWithoutBound (Option Notification) (Option Done)
unsent = record { acc = 5; threshold = none; notify = none; must_notify = none }

abbrev parked : GuaranteeCellWithoutBound (Option Notification) (Option Done)
parked = (add_guarantees 3 (await_threshold_clear 12 unsent)).1

parked-Steps : Steps (await_threshold_clear 12 unsent) parked
parked-Steps =
    then_step (await_threshold_clear 12 unsent) (await_threshold_clear 12 unsent) parked
      (here (await_threshold_clear 12 unsent)) (guarantees 3 (await_threshold_clear 12 unsent))

parked_poll : poll_threshold_clear parked ≡ none
unfolding poll_threshold_clear add_guarantees await_threshold_clear notify_threshold
parked_poll = refl

poll_threshold_clear-none_example : (parked.acc < 12) × (parked.threshold ≡ some 12)
poll_threshold_clear-none_example =
    poll_threshold_clear-none 12 unsent parked refl parked-Steps parked_poll
