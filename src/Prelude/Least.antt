-- ===== src/Prelude/Least.antt =====
-- What a backward loop of replacements promises in the lexicographic order: its result is greater
-- than the list it starts from, and is the least such list that does not extend it.
use mathlib.Core.Path.{◌≡◌, refl, sym, subst}
use mathlib.Core.Logic.{◌⊎◌, inl, inr}
use mathlib.Core.Bool.{Bool, true, false, ◌&&◌}
use mathlib.Core.Option.{Option, none, some}
use mathlib.Core.List.{List, [], ◌∷◌, ◌++◌}
use native.Mathlib.Omega.{arith}
use Prim.Native.Nat.{◌<◌}
use willow_rs.Prelude.Lists.{All, length}
use willow_rs.Prelude.Tests.{Option-cases}
use willow_rs.Prelude.Order.{Ord, less_eq, equal, ◌≺◌, cmp_list, list_ord}
use willow_rs.Prelude.Backward.{replace_last}

module _ {ℓ} {A : Type ℓ} ⦃o : Ord A⦄ where
  -- `zs` begins with `xs`.
  unfoldable pub prefixed : List A → List A → Bool
  prefixed [] zs = true
  prefixed (x ∷ xs) [] = false
  prefixed (x ∷ xs) (z ∷ zs) = equal x z && prefixed xs zs

  pub cons-lt : (x z : A) (xs zs : List A) → x ∷ xs ≺ z ∷ zs → (x ≺ z) ⊎ ((x ≡ z) × (xs ≺ zs))
  unfolding cmp_list
  cons-lt x z xs zs h = ground (arith, o.eq_of_cmp x z)

  pub prefixed-tail :
      (x z : A) (xs zs : List A)
      → x ≡ z
      → prefixed (x ∷ xs) (z ∷ zs) ≡ false
      → prefixed xs zs ≡ false
  unfolding prefixed
  prefixed-tail x z xs zs e h = ground (arith, o.cmp_self x)

  -- A strict extension is longer.
  pub prefixed-lt : (xs zs : List A) → prefixed xs zs ≡ true → xs ≺ zs → length xs < length zs
  unfolding cmp_list prefixed
  prefixed-lt [] [] h l = cc
  prefixed-lt [] (z ∷ zs) h l = omega arith
  prefixed-lt (x ∷ xs) [] h l = cc
  prefixed-lt (x ∷ xs) (z ∷ zs) h l = ground (arith, prefixed-lt xs zs)

  module _ {μ} (V : List A → A → Type μ) where
    -- Each element of the list is admissible after those before it.
    abbrev pub Fits : List A → List A → Type μ
    Fits pre [] = Unit {μ}
    Fits pre (z ∷ zs) = V pre z × Fits (pre ++ (z ∷ [])) zs

  module _ (step : List A → A → Option A) where
    -- The result is greater than the list, and does not extend it.
    pub replace_last-gt {ν} :
        (C : A → Type ν)
        → ((pre : List A) (x y : A) → C x → step pre x ≡ some y → x ≺ y)
        → (pre xs ys : List A) → All C xs
        → replace_last step pre xs ≡ some ys
        → (xs ≺ ys) × (prefixed xs ys ≡ false)
    unfolding replace_last cmp_list prefixed
    replace_last-gt C inc pre [] ys c h = cc
    replace_last-gt C inc pre (x ∷ xs) [] c h = ground arith
    replace_last-gt C inc pre (x ∷ xs) (y ∷ ys) c h =
        ground
          (arith, inc pre x y c.0, o.cmp_self x, replace_last-gt C inc (pre ++ (x ∷ [])) xs ys c.1)

    pub replace_last-Fits {μ} :
        (V : List A → A → Type μ)
        → ((pre : List A) (x y : A) → step pre x ≡ some y → V pre x → V pre y)
        → (pre xs ys : List A) → replace_last step pre xs ≡ some ys
        → Fits V pre xs
        → Fits V pre ys
    unfolding replace_last
    replace_last-Fits V keep pre [] ys h f = cc
    replace_last-Fits V keep pre (x ∷ xs) ys h f =
        elim (Option-cases (replace_last step (pre ++ (x ∷ [])) xs)) [
          | inl e ↦ elim (Option-cases (step pre x)) [
            | inl d ↦ ground arith
            | inr (y, d) ↦
                subst (λ t. Fits V pre t) {x = y ∷ []} (ground arith) (keep pre x y d f.0, tt)
          ]
          | inr (rest, e) ↦
              subst (λ t. Fits V pre t) {x = x ∷ rest} (ground arith)
                (f.0, replace_last-Fits V keep (pre ++ (x ∷ [])) xs rest e f.1)
        ]

    module _ {μ} (V : List A → A → Type μ)
        (stuck : (pre : List A) (x z : A) → step pre x ≡ none → V pre z → ¬ (x ≺ z)) where
      -- Where nothing can be replaced, every greater admissible list extends this one.
      pub replace_last-none :
          (pre xs zs : List A)
          → replace_last step pre xs ≡ none
          → Fits V pre zs
          → xs ≺ zs
          → prefixed xs zs ≡ true
      unfolding replace_last prefixed
      replace_last-none pre [] zs h f l = refl
      replace_last-none pre (x ∷ xs) [] h f l = unfold cmp_list in cc
      replace_last-none pre (x ∷ xs) (z ∷ zs) h f l = elim (cons-lt x z xs zs l) [
        | inl d ↦ absurd (stuck pre x z (ground arith) f.0 d)
        | inr (e, d) ↦ ground (
          arith,
          o.cmp_self x,
          replace_last-none (pre ++ (x ∷ [])) xs zs (ground arith)
              (subst (λ t. Fits V (pre ++ (t ∷ [])) zs) (sym e) f.1) d,
        )
      ]

      -- The result is at most every greater admissible list that does not extend the list, if `step`
      -- takes the least replacement of each element.
      pub replace_last-least {ν} :
          (C : A → Type ν)
          → ((pre : List A) (x y z : A)
              → C x
              → step pre x ≡ some y
              → V pre z
              → x ≺ z
              → less_eq y z ≡ true)
          → (pre xs ys zs : List A) → All C xs
          → replace_last step pre xs ≡ some ys
          → Fits V pre zs
          → xs ≺ zs
          → prefixed xs zs ≡ false
          → less_eq ys zs ≡ true
      unfolding replace_last cmp_list
      replace_last-least C least pre [] ys zs c h f l n = cc
      replace_last-least C least pre (x ∷ xs) ys [] c h f l n = cc
      replace_last-least C least pre (x ∷ xs) [] (z ∷ zs) c h f l n = refl
      replace_last-least C least pre (x ∷ xs) (y ∷ ys) (z ∷ zs) c h f l n =
          elim (cons-lt x z xs zs l) [
            | inl d ↦ ground (arith, least pre x y z c.0, f.0)
            | inr (e, d) ↦
                let m = prefixed-tail x z xs zs e n in
                let g = subst (λ t. Fits V (pre ++ (t ∷ [])) zs) (sym e) f.1 in
                elim (Option-cases (replace_last step (pre ++ (x ∷ [])) xs)) [
                  | inl q ↦ cc (replace_last-none (pre ++ (x ∷ [])) xs zs q g d)
                  | inr (rest, q) ↦ ground (
                    arith,
                    o.cmp_self x,
                    replace_last-least C least (pre ++ (x ∷ [])) xs rest zs c.1 q g d m,
                  )
                ]
          ]
