-- ===== src/Guarantee/Cell/Tests.antt =====
-- Guarantees with a bound: the theorems at concrete inputs, with an option for the cell that is waited on.
use willow_rs.Prelude.{◌+◌, ◌^◌, ◌-◌, ◌≡◌, refl, Option, none, some, arith, if◌then◌else◌, leb}
use willow_rs.Prelude.Outcome.{ok, done}
use willow_rs.Guarantee.TakeCell.{option_cell}
use willow_rs.Guarantee.Bound
use willow_rs.Guarantee.Bound.{GuaranteeBoundCell}
use willow_rs.Guarantee.Cell.{
  GuaranteeCell, ThresholdOutcome, yay_reached, nope_bound, with_acc, with_taken,
  await_threshold_sub, poll_threshold_sub, add_guarantees, start_threshold_sub, notify_threshold,
}
use willow_rs.Guarantee.Cell.Waiting
use willow_rs.Guarantee.Cell.Waiting.{Steps, poll_threshold_sub_lem, unreachable}
use willow_rs.Guarantee.Cell.Plead.{pleaded, poll-reduce_guarantees}

abbrev three : GuaranteeBoundCell
three = some 3

abbrev idle : GuaranteeCell (Option ThresholdOutcome)
idle = record { acc = 5; threshold = none; notify = none; bound = none }

-- The task waits for 12, and 8 more guarantees come.
abbrev thirteen : GuaranteeCell (Option ThresholdOutcome)
thirteen = (add_guarantees 8 (await_threshold_sub 12 idle)).1

eight_accepted : (add_guarantees 8 (await_threshold_sub 12 idle)).0 ≡ ok done
unfolding add_guarantees await_threshold_sub notify_threshold Bound.use_up
eight_accepted = refl

thirteen-Steps : Steps (await_threshold_sub 12 idle) thirteen
thirteen-Steps =
    Waiting.then_step (await_threshold_sub 12 idle) (await_threshold_sub 12 idle) thirteen
      (Waiting.here (await_threshold_sub 12 idle))
      (Waiting.guarantees 8 (await_threshold_sub 12 idle) eight_accepted)

poll_threshold_sub_lem_example : poll_threshold_sub 12 thirteen ≡ (
    if leb 12 thirteen.acc
    then some (ok yay_reached, with_acc (thirteen.acc - 12) (with_taken thirteen))
    else if unreachable 12 thirteen
    then some (ok nope_bound, with_taken thirteen)
    else none)
poll_threshold_sub_lem_example =
    poll_threshold_sub_lem 12 idle thirteen (omega arith) refl thirteen-Steps

poll-reduce_guarantees_example :
    ((start_threshold_sub 12 idle).0 ≡ none)
    × ((add_guarantees 8 (start_threshold_sub 12 idle).1).0 ≡ ok done)
    × (poll_threshold_sub 12 (pleaded 12 8 3 idle)
        ≡ some (ok yay_reached, with_acc (3 + 2 ^ 64 - 12) (with_taken (pleaded 12 8 3 idle))))
poll-reduce_guarantees_example =
    poll-reduce_guarantees 12 8 3 idle refl refl (omega arith) (omega arith) (omega arith)
      (omega arith)
