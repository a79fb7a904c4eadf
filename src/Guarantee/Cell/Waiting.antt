-- ===== src/Guarantee/Cell/Waiting.antt =====
-- What the waiting task may rely on: it is notified exactly when its threshold is reached, or when it
-- can no longer be.
use willow_rs.Prelude.{
  ℕ, ◌+◌, ◌-◌, ◌^◌, ◌≤◌, ◌<◌, ◌≡◌, Bool, true, false, none, some, arith, ◌⊎◌, leb, ltb,
  if◌then◌else◌,
}
use willow_rs.Prelude.Outcome.{ok, done}
use willow_rs.Guarantee.TakeCell.{TakeCell}
use willow_rs.Guarantee.Bound
use willow_rs.Guarantee.Cell.{
  GuaranteeCell, ThresholdOutcome, yay_reached, nope_bound, notify_threshold, apply_bound,
  add_guarantees, await_threshold_sub, poll_threshold_sub, with_acc, with_taken,
}

module _ {κ} {C : Type κ} ⦃takes : TakeCell ThresholdOutcome C⦄ where
  -- The bound rules out that the pool ever reaches the threshold.
  abbrev pub unreachable : ℕ → GuaranteeCell C → Bool
  unreachable threshold cell = elim cell.bound [
    | none ↦ false
    | some bound ↦ ltb (cell.acc + bound) threshold
  ]

  -- A task waits for `threshold`: it was notified that it is reached, or that it never will be, or it
  -- is registered and neither is the case.
  abbrev pub IsWaiting : ℕ → GuaranteeCell C → Type 0
  IsWaiting threshold cell =
      (takes.peek cell.notify ≡ some yay_reached) × (cell.threshold ≡ none) × (threshold ≤ cell.acc)
      ⊎ (takes.peek cell.notify ≡ some nope_bound)
        × (cell.threshold ≡ none)
        × (unreachable threshold cell ≡ true)
      ⊎ (takes.peek cell.notify ≡ none)
        × (cell.threshold ≡ some threshold)
        × (cell.acc < threshold)
        × (unreachable threshold cell ≡ false)

  await_threshold_sub-IsWaiting :
      (threshold : ℕ) (cell : GuaranteeCell C)
      → threshold < 2 ^ 64
      → takes.peek cell.notify ≡ none
      → IsWaiting threshold (await_threshold_sub threshold cell)
  unfolding await_threshold_sub notify_threshold
  await_threshold_sub-IsWaiting threshold cell h e =
      ground (arith, takes.peek-set yay_reached cell.notify, takes.peek-set nope_bound cell.notify)

  add_guarantees-IsWaiting :
      (amount threshold : ℕ) (cell : GuaranteeCell C)
      → threshold < 2 ^ 64
      → (add_guarantees amount cell).0 ≡ ok done
      → IsWaiting threshold cell
      → IsWaiting threshold (add_guarantees amount cell).1
  unfolding add_guarantees notify_threshold Bound.use_up
  add_guarantees-IsWaiting amount threshold cell h e w =
      ground (arith, takes.peek-set yay_reached cell.notify, takes.peek-set nope_bound cell.notify)

  apply_bound-IsWaiting :
      (bound threshold : ℕ) (cell : GuaranteeCell C)
      → threshold < 2 ^ 64
      → (apply_bound bound cell).0 ≡ ok done
      → IsWaiting threshold cell
      → IsWaiting threshold (apply_bound bound cell).1
  unfolding apply_bound notify_threshold Bound.apply_bound
  apply_bound-IsWaiting bound threshold cell h e w =
      ground (arith, takes.peek-set yay_reached cell.notify, takes.peek-set nope_bound cell.notify)

  -- A message of the server that the cell accepts: more guarantees, or a bound.
  pub data Step : GuaranteeCell C → GuaranteeCell C → Type κ where
    guarantees :
        (amount : ℕ) (cell : GuaranteeCell C)
        → (add_guarantees amount cell).0 ≡ ok done
        → Step cell (add_guarantees amount cell).1
    limit :
        (bound : ℕ) (cell : GuaranteeCell C)
        → (apply_bound bound cell).0 ≡ ok done
        → Step cell (apply_bound bound cell).1

  -- Any number of them.
  pub data Steps : GuaranteeCell C → GuaranteeCell C → Type κ where
    here : (cell : GuaranteeCell C) → Steps cell cell
    then_step : (a b c : GuaranteeCell C) → Steps a b → Step b c → Steps a c

  Step-IsWaiting :
      (threshold : ℕ) (a b : GuaranteeCell C)
      → threshold < 2 ^ 64
      → Step a b
      → IsWaiting threshold a
      → IsWaiting threshold b
  Step-IsWaiting threshold _ _ h (guarantees amount cell e) w =
      add_guarantees-IsWaiting amount threshold cell h e w
  Step-IsWaiting threshold _ _ h (limit bound cell e) w =
      apply_bound-IsWaiting bound threshold cell h e w

  Steps-IsWaiting :
      (threshold : ℕ) (a b : GuaranteeCell C)
      → threshold < 2 ^ 64
      → Steps a b
      → IsWaiting threshold a
      → IsWaiting threshold b
  Steps-IsWaiting threshold _ _ h (here cell) w = w
  Steps-IsWaiting threshold _ _ h (then_step a b c steps step) w =
      Step-IsWaiting threshold b c h step (Steps-IsWaiting threshold a b h steps w)

  poll-IsWaiting :
      (threshold : ℕ) (cell : GuaranteeCell C)
      → IsWaiting threshold cell
      → poll_threshold_sub threshold cell ≡ (
          if leb threshold cell.acc
          then some (ok yay_reached, with_acc (cell.acc - threshold) (with_taken cell))
          else if unreachable threshold cell
          then some (ok nope_bound, with_taken cell)
          else none)
  unfolding poll_threshold_sub
  poll-IsWaiting threshold cell w = ground arith

  -- When a task waits for a threshold below 2^64, and then the server's messages come that the cell
  -- accepts, a poll of the task succeeds exactly if the pool holds the threshold, and takes it from
  -- the pool; fails exactly if the bound rules out that it ever does; and parks otherwise.
  pub poll_threshold_sub_lem :
      (threshold : ℕ) (a b : GuaranteeCell C)
      → threshold < 2 ^ 64
      → takes.peek a.notify ≡ none
      → Steps (await_threshold_sub threshold a) b
      → poll_threshold_sub threshold b ≡ (
          if leb threshold b.acc
          then some (ok yay_reached, with_acc (b.acc - threshold) (with_taken b))
          else if unreachable threshold b
          then some (ok nope_bound, with_taken b)
          else none)
  poll_threshold_sub_lem threshold a b h e steps = poll-IsWaiting threshold b (
      Steps-IsWaiting threshold (await_threshold_sub threshold a) b h steps
        (await_threshold_sub-IsWaiting threshold a h e))
