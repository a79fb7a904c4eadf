-- ===== src/Prelude/Order.antt =====
-- Rust's `Ord`: a comparison with the laws that the trait asks of it, as an instance argument;
-- the operators `<`, `<=` and `==` of `PartialOrd`/`PartialEq`, and the lexicographic comparison
-- of `core::iter::Iterator::cmp` and of slices.
use Prim.Native.Nat.{ℕ, compare, Ordering}
use Prim.Native.Nat.Ordering.{lt, eq, gt}
use mathlib.Core.Path.{◌≡◌, refl}
use mathlib.Core.Bool.{Bool, true, false}
use mathlib.Core.List.{List, [], ◌∷◌}
use native.Mathlib.Omega.{arith}

-- `Ordering::reverse`.
abbrev pub reverse : Ordering → Ordering
reverse lt = gt
reverse eq = eq
reverse gt = lt

pub record Ord {ℓ} (A : Type ℓ) : Type ℓ where
  pub cmp : A → A → Ordering
  pub cmp_self : (a : A) → cmp a a ≡ eq
  pub eq_of_cmp : (a b : A) → cmp a b ≡ eq → a ≡ b
  pub cmp_swap : (a b : A) → cmp b a ≡ reverse (cmp a b)
  pub cmp_trans : (a b c : A) → cmp a b ≡ lt → cmp b c ≡ lt → cmp a c ≡ lt

abbrev pub is_lt : Ordering → Bool
is_lt lt = true
is_lt eq = false
is_lt gt = false

abbrev pub is_le : Ordering → Bool
is_le lt = true
is_le eq = true
is_le gt = false

abbrev pub is_eq : Ordering → Bool
is_eq lt = false
is_eq eq = true
is_eq gt = false

-- `Ordering::then_with`.
abbrev pub then_with : Ordering → Ordering → Ordering
then_with lt second = lt
then_with eq second = second
then_with gt second = gt

module _ {ℓ} {A : Type ℓ} ⦃o : Ord A⦄ where
  abbrev pub less : A → A → Bool
  less a b = is_lt (o.cmp a b)

  abbrev pub less_eq : A → A → Bool
  less_eq a b = is_le (o.cmp a b)

  abbrev pub equal : A → A → Bool
  equal a b = is_eq (o.cmp a b)

  infix 50 ◌≺◌
  abbrev pub ◌≺◌ : A → A → Type 0
  a ≺ b = o.cmp a b ≡ lt

  -- The loop of `Iterator::cmp`, which is also the derived comparison of slices.
  unfoldable pub cmp_list : List A → List A → Ordering
  cmp_list [] [] = eq
  cmp_list [] (y ∷ ys) = lt
  cmp_list (x ∷ xs) [] = gt
  cmp_list (x ∷ xs) (y ∷ ys) = then_with (o.cmp x y) (cmp_list xs ys)

  pub cmp_list_self : (xs : List A) → cmp_list xs xs ≡ eq
  unfolding cmp_list
  cmp_list_self [] = refl
  cmp_list_self (x ∷ xs) = ground (arith, o.cmp_self x, cmp_list_self xs)

  pub eq_of_cmp_list : (xs ys : List A) → cmp_list xs ys ≡ eq → xs ≡ ys
  unfolding cmp_list
  eq_of_cmp_list [] [] h = refl
  eq_of_cmp_list [] (y ∷ ys) h = cc
  eq_of_cmp_list (x ∷ xs) [] h = cc
  eq_of_cmp_list (x ∷ xs) (y ∷ ys) h = ground (arith, o.eq_of_cmp x y, eq_of_cmp_list xs ys)

  pub cmp_list_swap : (xs ys : List A) → cmp_list ys xs ≡ reverse (cmp_list xs ys)
  unfolding cmp_list
  cmp_list_swap [] [] = refl
  cmp_list_swap [] (y ∷ ys) = refl
  cmp_list_swap (x ∷ xs) [] = refl
  cmp_list_swap (x ∷ xs) (y ∷ ys) = ground (arith, o.cmp_swap x y, cmp_list_swap xs ys)

  pub cmp_list_trans :
      (xs ys zs : List A) → cmp_list xs ys ≡ lt → cmp_list ys zs ≡ lt → cmp_list xs zs ≡ lt
  unfolding cmp_list
  cmp_list_trans [] [] zs h k = k
  cmp_list_trans [] (y ∷ ys) [] h k = cc
  cmp_list_trans [] (y ∷ ys) (z ∷ zs) h k = refl
  cmp_list_trans (x ∷ xs) [] zs h k = cc
  cmp_list_trans (x ∷ xs) (y ∷ ys) [] h k = cc
  cmp_list_trans (x ∷ xs) (y ∷ ys) (z ∷ zs) h k =
      ground (arith, o.cmp_trans x y z, o.eq_of_cmp x y, o.eq_of_cmp y z, cmp_list_trans xs ys zs)

  instance abbrev pub list_ord : Ord (List A)
  list_ord = record {
    cmp = cmp_list;
    cmp_self = cmp_list_self;
    eq_of_cmp = eq_of_cmp_list;
    cmp_swap = cmp_list_swap;
    cmp_trans = cmp_list_trans;
  }

pub nat_eq_of_cmp : (a b : ℕ) → compare a b ≡ eq → a ≡ b
nat_eq_of_cmp a b h = ground arith

pub nat_cmp_self : (a : ℕ) → compare a a ≡ eq
nat_cmp_self a = ground arith

pub nat_cmp_swap : (a b : ℕ) → compare b a ≡ reverse (compare a b)
nat_cmp_swap a b = ground arith

pub nat_cmp_trans : (a b c : ℕ) → compare a b ≡ lt → compare b c ≡ lt → compare a c ≡ lt
nat_cmp_trans a b c h k = ground arith

instance abbrev pub nat_ord : Ord ℕ
nat_ord = record {
  cmp = compare;
  cmp_self = nat_cmp_self;
  eq_of_cmp = nat_eq_of_cmp;
  cmp_swap = nat_cmp_swap;
  cmp_trans = nat_cmp_trans;
}
