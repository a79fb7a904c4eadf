-- ===== src/Prelude/Backward.antt =====
-- `for (i, x) in xs.enumerate().rev() { if let Some(r) = … { return Some(r) } } None`: a loop over
-- indices from the last to the first that returns at the first hit. Both `Path::successor` and
-- `Path::greater_but_not_prefixed` are such loops, and so is the byte loop inside the latter.
use Prim.Native.Nat.{ℕ, zero, suc}
use mathlib.Core.Path.{◌≡◌, refl, fun_ext}
use mathlib.Core.Logic.{inl, inr}
use mathlib.Core.Option.{Option, none, some}
use mathlib.Core.Option
use mathlib.Core.List.{List, [], ◌∷◌, ◌++◌, append-nil, append_assoc}
use native.Mathlib.Omega.{arith}
use willow_rs.Prelude.Lists.{get_elem?, take, length}
use willow_rs.Prelude.Tests.{Option-cases}
use willow_rs.Prelude.Order.{list_ord}

module _ {ℓ} {A : Type ℓ} where
  unfoldable pub backward : (ℕ → Option A) → ℕ → Option A
  backward f zero = none
  backward f (suc i) = let rest = backward f i in elim (f i) [ none ↦ rest | some a ↦ some a ]

  abbrev pub or_else : Option A → Option A → Option A
  or_else none b = b
  or_else (some a) b = some a

  backward-suc :
      (f : ℕ → Option A) (n : ℕ)
      → backward f (suc n) ≡ or_else (backward (λ i. f (suc i)) n) (f zero)
  unfolding backward
  backward-suc f zero = ground arith
  backward-suc f (suc n) = ground (arith, backward-suc f n)

pub backward-map {ℓ κ} :
    {A : Type ℓ} {B : Type κ} (g : A → B) (f : ℕ → Option A) (n : ℕ)
    → backward (λ i. Option.map g (f i)) n ≡ Option.map g (backward f n)
unfolding backward
backward-map g f zero = refl
backward-map g f (suc n) = elim (Option-cases (f n)) [
  | inl e ↦ rw (e, backward) (backward-map g f n)
  | inr (a, e) ↦ rw (e, backward)
]

-- Replaces the last element that can be replaced, and drops what follows it. `step` sees the
-- elements before the one it is to replace.
module _ {ℓ} {A : Type ℓ} (step : List A → A → Option A) where
  unfoldable pub replace_at : List A → List A → ℕ → Option (List A)
  replace_at pre xs i = elim (get_elem? xs i) [
    | none ↦ none
    | some x ↦ Option.map (λ y. take i xs ++ (y ∷ [])) (step (pre ++ take i xs) x)
  ]

  -- The same from the front.
  unfoldable pub replace_last : List A → List A → Option (List A)
  replace_last pre [] = none
  replace_last pre (x ∷ xs) =
      or_else (Option.map (λ ys. x ∷ ys) (replace_last (pre ++ (x ∷ [])) xs))
        (Option.map (λ y. y ∷ []) (step pre x))

  replace_at-cons :
      (pre : List A) (x : A) (xs : List A) (i : ℕ)
      → replace_at pre (x ∷ xs) (suc i)
        ≡ Option.map (λ ys. x ∷ ys) (replace_at (pre ++ (x ∷ [])) xs i)
  unfolding replace_at
  replace_at-cons pre x xs i = elim (Option-cases (get_elem? xs i)) [
    | inl e ↦ rw (e, replace_at)
    | inr (a, e) ↦ rw (e, replace_at, append_assoc pre (x ∷ []) (take i xs)) (ground arith)
  ]

  replace_at-zero :
      (pre : List A) (x : A) (xs : List A)
      → replace_at pre (x ∷ xs) 0 ≡ Option.map (λ y. y ∷ []) (step pre x)
  unfolding replace_at
  replace_at-zero pre x xs = rw append-nil

  pub backward-replace_at :
      (pre xs : List A) → backward (replace_at pre xs) (length xs) ≡ replace_last pre xs
  unfolding replace_last
  backward-replace_at pre [] = unfold backward in refl
  backward-replace_at pre (x ∷ xs) = rw (
    backward-suc (replace_at pre (x ∷ xs)) (length xs),
    fun_ext (replace_at-cons pre x xs),
    backward-map (λ ys. x ∷ ys) (replace_at (pre ++ (x ∷ [])) xs) (length xs),
    backward-replace_at (pre ++ (x ∷ [])) xs,
    replace_at-zero pre x xs,
  )
