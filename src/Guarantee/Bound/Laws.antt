-- ===== src/Guarantee/Bound/Laws.antt =====
-- Bounds: what can be used up after a bound was set, and in which order bounds can be set.
use willow_rs.Prelude.{
  ℕ, ◌+◌, ◌-◌, ◌≤◌, ◌≡◌, some, List, [], ◌∷◌, arith, ◌↔◌, Bool-cases, inl, inr, leb,
}
use willow_rs.Prelude.Outcome.{Outcome, ok, ◌>>=◌, Done}
use willow_rs.Guarantee.Bound.{GuaranteeBoundCell, use_up}

abbrev pub total : List ℕ → ℕ
total [] = 0
total (n ∷ ns) = n + total ns

-- `use_up` of each of the amounts, up to the first error.
abbrev pub use_each : List ℕ → GuaranteeBoundCell → Outcome Done GuaranteeBoundCell
use_each [] cell = ok cell
use_each (n ∷ ns) cell = (use_up n cell).0 >>= λ _. use_each ns (use_up n cell).1

-- Under a bound amounts are used up without an error exactly if their sum stays within it, and what
-- is left is the difference.
pub use_each_iff :
    (ns : List ℕ) (bound : ℕ) (left : GuaranteeBoundCell)
    → (use_each ns (some bound) ≡ ok left) ↔ ((total ns ≤ bound) × (left ≡ some (bound - total ns)))
unfolding use_up
use_each_iff [] bound left = ground arith
use_each_iff (n ∷ ns) bound left = elim (Bool-cases (leb n bound)) [
  | inl e ↦ ground (arith, use_each_iff ns (bound - n) left)
  | inr e ↦ ground arith
]
