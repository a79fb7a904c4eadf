-- ===== src/Guarantee/TakeCell.antt =====
-- The cell of the crate `wb_async_utils` in which the guarantee cells of lcmux leave a notification,
-- as an interface: a cell is empty or holds a value; `set` overwrites; `take` waits for a value and
-- leaves the cell empty; `peek` looks at the value.
use willow_rs.Prelude.{◌≡◌, refl, Option, none, some}

pub record TakeCell {ℓ κ} (T : Type ℓ) (C : Type κ) : Type (ℓ ⊔ κ) where
  pub empty : C
  pub set : T → C → C
  pub peek : C → Option T
  -- The cell after a `take`.
  pub taken : C → C
  pub peek-empty : peek empty ≡ none
  pub peek-set : (x : T) (c : C) → peek (set x c) ≡ some x
  pub peek-taken : (c : C) → peek (taken c) ≡ none

-- A cell of `Option`, which meets the interface.
instance abbrev pub option_cell {ℓ} : {T : Type ℓ} → TakeCell T (Option T)
option_cell = record {
  empty = none;
  set = λ x c. some x;
  peek = λ c. c;
  taken = λ c. none;
  peek-empty = refl;
  peek-set = λ x c. refl;
  peek-taken = λ c. refl;
}
