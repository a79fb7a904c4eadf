-- ===== src/Guarantee/Unbounded/Waiting.antt =====
-- What the task that sends guarantees may rely on: it wakes up exactly when the pool has reached its
-- threshold, when it was told to clear the pool, or at the end.
use willow_rs.Prelude.{ℕ, ◌<◌, ◌≡◌, ◌≢◌, none, some, arith, ◌⊎◌}
use willow_rs.Prelude.Outcome.{Done}
use willow_rs.Guarantee.TakeCell.{TakeCell}
use willow_rs.Guarantee.Unbounded.{
  GuaranteeCellWithoutBound, Notification, left, right, failed, notify_threshold, add_guarantees,
  await_threshold_clear, poll_threshold_clear, must_clear, set_final, set_error,
}

module _ {κ μ} {C : Type κ} {M : Type μ} ⦃takes : TakeCell Notification C⦄
    ⦃musts : TakeCell Done M⦄ where
  -- The calls that others make while the task waits.
  pub data Step : GuaranteeCellWithoutBound C M → GuaranteeCellWithoutBound C M → Type (κ ⊔ μ) where
    guarantees :
        (amount : ℕ) (cell : GuaranteeCellWithoutBound C M)
        → Step cell (add_guarantees amount cell).1
    clearing : (cell : GuaranteeCellWithoutBound C M) → Step cell (must_clear cell)
    ending : (cell : GuaranteeCellWithoutBound C M) → Step cell (set_final cell)
    failing : (cell : GuaranteeCellWithoutBound C M) → Step cell (set_error cell)

  pub data Steps
      : GuaranteeCellWithoutBound C M → GuaranteeCellWithoutBound C M → Type (κ ⊔ μ) where
    here : (cell : GuaranteeCellWithoutBound C M) → Steps cell cell
    then_step : (a b c : GuaranteeCellWithoutBound C M) → Steps a b → Step b c → Steps a c

  -- The task was notified, or it is registered and the pool is below the threshold.
  abbrev pub IsParkedBelow : ℕ → GuaranteeCellWithoutBound C M → Type 0
  IsParkedBelow threshold cell =
      (takes.peek cell.notify ≡ none) × (cell.threshold ≡ some threshold) × (cell.acc < threshold)
      ⊎ (takes.peek cell.notify ≢ none)

  await-IsParkedBelow :
      (threshold : ℕ) (cell : GuaranteeCellWithoutBound C M)
      → takes.peek cell.notify ≡ none
      → IsParkedBelow threshold (await_threshold_clear threshold cell)
  unfolding await_threshold_clear notify_threshold
  await-IsParkedBelow threshold cell e = ground (arith, takes.peek-set left cell.notify)

  Step-IsParkedBelow :
      (threshold : ℕ) (a b : GuaranteeCellWithoutBound C M)
      → Step a b
      → IsParkedBelow threshold a
      → IsParkedBelow threshold b
  unfolding add_guarantees must_clear set_final set_error notify_threshold
  Step-IsParkedBelow threshold _ _ (guarantees amount cell) w =
      ground (arith, takes.peek-set left cell.notify)
  Step-IsParkedBelow threshold _ _ (clearing cell) w =
      ground (arith, takes.peek-set left cell.notify)
  Step-IsParkedBelow threshold _ _ (ending cell) w =
      ground (arith, takes.peek-set right cell.notify)
  Step-IsParkedBelow threshold _ _ (failing cell) w =
      ground (arith, takes.peek-set failed cell.notify)

  Steps-IsParkedBelow :
      (threshold : ℕ) (a b : GuaranteeCellWithoutBound C M)
      → Steps a b
      → IsParkedBelow threshold a
      → IsParkedBelow threshold b
  Steps-IsParkedBelow threshold _ _ (here cell) w = w
  Steps-IsParkedBelow threshold _ _ (then_step a b c steps step) w =
      Step-IsParkedBelow threshold b c step (Steps-IsParkedBelow threshold a b steps w)

  -- After any calls on the cell, a poll of the task that awaits a threshold parks only while the pool
  -- is below that threshold, and then the task is still registered.
  pub poll_threshold_clear-none :
      (threshold : ℕ) (a b : GuaranteeCellWithoutBound C M)
      → takes.peek a.notify ≡ none
      → Steps (await_threshold_clear threshold a) b
      → poll_threshold_clear b ≡ none
      → (b.acc < threshold) × (b.threshold ≡ some threshold)
  unfolding poll_threshold_clear
  poll_threshold_clear-none threshold a b e steps p = ground (
    arith,
    Steps-IsParkedBelow threshold (await_threshold_clear threshold a) b steps
        (await-IsParkedBelow threshold a e),
  )

  -- Once `must_clear` was called, a task that waits does not park, and the sender's side has to wait
  -- until the pool is cleared.
  pub must_clear-poll :
      (threshold : ℕ) (a b : GuaranteeCellWithoutBound C M)
      → takes.peek a.notify ≡ none
      → Steps (await_threshold_clear threshold a) b
      → (poll_threshold_clear (must_clear b) ≢ none)
        × (musts.peek (must_clear b).must_notify ≡ none)
  unfolding poll_threshold_clear must_clear notify_threshold
  must_clear-poll threshold a b e steps = ground (
    arith,
    takes.peek-set left b.notify,
    musts.peek-taken b.must_notify,
    Steps-IsParkedBelow threshold (await_threshold_clear threshold a) b steps
        (await-IsParkedBelow threshold a e),
  )

  -- Once the end or an error was set, neither further guarantees nor a call to clear the pool replace
  -- the notification.
  pub notification-kept :
      (notification : Notification) (amount : ℕ) (cell : GuaranteeCellWithoutBound C M)
      → takes.peek cell.notify ≡ some notification
      → notification ≢ left
      → (takes.peek (add_guarantees amount cell).1.notify ≡ some notification)
        × (takes.peek (must_clear cell).notify ≡ some notification)
        × (takes.peek (await_threshold_clear amount cell).notify ≡ some notification)
  unfolding add_guarantees must_clear await_threshold_clear notify_threshold
  notification-kept left amount cell e h = ground arith
  notification-kept right amount cell e h = ground arith
  notification-kept failed amount cell e h = ground arith
