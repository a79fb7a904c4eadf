-- ===== src/Guarantee/Cell/Plead.antt =====
-- What a `Plead` of the server does to the pool (`receive_plead` of lcmux/src/client_logic.rs).
use willow_rs.Prelude.{ℕ, ◌+◌, ◌-◌, ◌^◌, ◌≤◌, ◌<◌, ◌≡◌, none, some, arith, ◌↔◌}
use willow_rs.Prelude.Outcome.{ok, done}
use willow_rs.Guarantee.TakeCell.{TakeCell}
use willow_rs.Guarantee.Bound
use willow_rs.Guarantee.Cell.{
  GuaranteeCell, ThresholdOutcome, yay_reached, reduce_guarantees_down_to, await_threshold_sub,
  poll_threshold_sub, notify_threshold, with_taken, with_acc, add_guarantees, start_threshold_sub,
}

module _ {κ} {C : Type κ} ⦃takes : TakeCell ThresholdOutcome C⦄ where
  -- The guarantees that are left and those that were removed add up to the former pool exactly if the
  -- target does not exceed the pool: a greater target adds guarantees to the pool.
  pub reduce_guarantees_iff :
      (target : ℕ) (cell : GuaranteeCell C)
      → ((reduce_guarantees_down_to target cell).1.acc + (reduce_guarantees_down_to target cell).0
          ≡ cell.acc)
        ↔ (target ≤ cell.acc)
  unfolding reduce_guarantees_down_to
  reduce_guarantees_iff target cell = ground arith

  -- The cell from the first poll of a task on: guarantees are added, then a plead reduces the pool.
  abbrev pub pleaded : ℕ → ℕ → ℕ → GuaranteeCell C → GuaranteeCell C
  pleaded threshold amount target cell =
      (reduce_guarantees_down_to target
        (add_guarantees amount (start_threshold_sub threshold cell).1).1).1

  -- A task whose threshold exceeds the pool parks in its first poll, if nothing bounds the guarantees.
  -- If an addition then reaches the threshold, and a plead reduces the pool below it before the task is
  -- polled again, that poll succeeds, and the pool wraps around: it is left with the target and 2^64,
  -- less the threshold.
  pub poll-reduce_guarantees :
      (threshold amount target : ℕ) (cell : GuaranteeCell C)
      → takes.peek cell.notify ≡ none
      → cell.bound ≡ none
      → cell.acc < threshold
      → threshold ≤ cell.acc + amount
      → cell.acc + amount < 2 ^ 64
      → target < threshold
      → ((start_threshold_sub threshold cell).0 ≡ none)
        × ((add_guarantees amount (start_threshold_sub threshold cell).1).0 ≡ ok done)
        × (poll_threshold_sub threshold (pleaded threshold amount target cell)
            ≡ some (
              ok yay_reached,
              with_acc
                  (target + 2 ^ 64 - threshold)
                  (with_taken (pleaded threshold amount target cell)),
            ))
  unfolding reduce_guarantees_down_to poll_threshold_sub await_threshold_sub start_threshold_sub
      notify_threshold add_guarantees Bound.use_up
  poll-reduce_guarantees threshold amount target cell empty b low reached fits k =
      ground (arith, takes.peek-set yay_reached cell.notify)
