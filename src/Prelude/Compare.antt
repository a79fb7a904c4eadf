-- ===== src/Prelude/Compare.antt =====
-- `<`, `<=`, `max` and `min` of an `Ord` type.
use mathlib.Core.Path.{◌≡◌}
use mathlib.Core.Bool.{true, ◌&&◌, not}
use native.Mathlib.Omega.{arith}
use willow_rs.Prelude.Tests.{if◌then◌else◌}
use willow_rs.Prelude.Order.{Ord, less, less_eq, equal}

module _ {ℓ} {A : Type ℓ} ⦃o : Ord A⦄ where
  -- `core::cmp::max` returns its second argument where the two are equal, and `min` its first.
  abbrev pub ord_max : A → A → A
  ord_max a b = if less b a then a else b

  abbrev pub ord_min : A → A → A
  ord_min a b = if less b a then b else a

  pub less_eq-not-less : (a b : A) → less_eq a b ≡ not (less b a)
  less_eq-not-less a b = ground (arith, o.cmp_swap a b)

  pub equal_iff_eq : (a b : A) → equal a b ≡ true → a ≡ b
  equal_iff_eq a b h = o.eq_of_cmp a b (ground arith)

  pub less_eq_refl : (a : A) → less_eq a a ≡ true
  less_eq_refl a = rw o.cmp_self

  pub less_trans : (a b c : A) → less a b ≡ true → less b c ≡ true → less a c ≡ true
  less_trans a b c h k = ground (arith, o.cmp_trans a b c)

  pub less_eq_trans : (a b c : A) → less_eq a b ≡ true → less_eq b c ≡ true → less_eq a c ≡ true
  less_eq_trans a b c h k = ground (arith, o.cmp_trans a b c, o.eq_of_cmp a b, o.eq_of_cmp b c)

  pub less_of_less_eq : (a b c : A) → less_eq a b ≡ true → less b c ≡ true → less a c ≡ true
  less_of_less_eq a b c h k = ground (arith, o.cmp_trans a b c, o.eq_of_cmp a b)

  pub less_of_less : (a b c : A) → less a b ≡ true → less_eq b c ≡ true → less a c ≡ true
  less_of_less a b c h k = ground (arith, o.cmp_trans a b c, o.eq_of_cmp b c)

  pub less_eq-max : (a b v : A) → less_eq (ord_max a b) v ≡ less_eq a v && less_eq b v
  less_eq-max a b v = ground (arith, less_eq_trans b a v, less_eq_trans a b v, o.cmp_swap a b)

  pub less-min : (v a b : A) → less v (ord_min a b) ≡ less v a && less v b
  less-min v a b = ground (arith, less_of_less v a b, less_of_less v b a, o.cmp_swap a b)
