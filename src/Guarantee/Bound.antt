-- ===== src/Guarantee/Bound.antt =====
-- lcmux/src/guarantee_bound.rs: `GuaranteeBoundCell`, the bound that the peer has set, if any.
pub mod Laws
use willow_rs.Prelude.{ℕ, ◌-◌, Option, none, some, if◌then◌else◌, leb}
use willow_rs.Prelude.Outcome.{Outcome, ok, err, Done, done}

abbrev pub GuaranteeBoundCell : Type 0
GuaranteeBoundCell = Option ℕ

pub new : GuaranteeBoundCell
new = none

-- `u64::checked_sub`.
abbrev pub checked_sub : ℕ → ℕ → Option ℕ
checked_sub a b = if leb b a then some (a - b) else none

unfoldable pub apply_bound : ℕ → GuaranteeBoundCell → Outcome ℕ Done × GuaranteeBoundCell
apply_bound new_bound none = (ok done, some new_bound)
apply_bound new_bound (some old_bound) =
    if leb new_bound old_bound then (ok done, some new_bound) else (err old_bound, some old_bound)

unfoldable pub use_up : ℕ → GuaranteeBoundCell → Outcome Done (Option ℕ) × GuaranteeBoundCell
use_up guarantees none = (ok none, none)
use_up guarantees (some old_bound) = elim (checked_sub old_bound guarantees) [
  | some new_bound ↦ (ok (some new_bound), some new_bound)
  | none ↦ (err done, some old_bound)
]
