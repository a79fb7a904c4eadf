-- ===== src/Grouping/AreaMap.antt =====
-- `AreaMap` and `NamespacedAreaMap` of data-model/src/grouping/area.rs, maps from areas to values.
pub mod Laws
use Prim.Native.Nat.Ordering.{lt, eq, gt}
use willow_rs.Prelude.{
  ℕ, ◌≡◌, refl, Ordering, Bool, true, false, Option, none, some, List, [], ◌∷◌, ◌++◌, if◌then◌else◌,
  arith,
}
use willow_rs.Prelude.Order.{Ord, reverse, list_ord, nat_ord}
use willow_rs.Prelude.HashMap.{HashMap, get, update}
use willow_rs.Prelude.Collect.{collect}
use willow_rs.Path.{WillowPath, is_related}
use willow_rs.Grouping.Range
use willow_rs.Grouping.Range.{Range}
use willow_rs.Grouping.Area.{Area, AreaSubspace, any, id}

-- The derived order of `AreaSubspace`, by which its values are told apart as keys.
module _ {ℓ} {S : Type ℓ} ⦃o : Ord S⦄ where
  abbrev pub subspace_cmp : AreaSubspace S → AreaSubspace S → Ordering
  subspace_cmp any any = eq
  subspace_cmp any (id s) = lt
  subspace_cmp (id s) any = gt
  subspace_cmp (id s) (id t) = o.cmp s t

  pub subspace_cmp_self : (a : AreaSubspace S) → subspace_cmp a a ≡ eq
  subspace_cmp_self any = refl
  subspace_cmp_self (id s) = o.cmp_self s

  pub eq_of_subspace_cmp : (a b : AreaSubspace S) → subspace_cmp a b ≡ eq → a ≡ b
  eq_of_subspace_cmp any any h = refl
  eq_of_subspace_cmp any (id t) h = cc
  eq_of_subspace_cmp (id s) any h = cc
  eq_of_subspace_cmp (id s) (id t) h = cc (o.eq_of_cmp s t h)

  pub subspace_cmp_swap : (a b : AreaSubspace S) → subspace_cmp b a ≡ reverse (subspace_cmp a b)
  subspace_cmp_swap any any = refl
  subspace_cmp_swap any (id t) = refl
  subspace_cmp_swap (id s) any = refl
  subspace_cmp_swap (id s) (id t) = o.cmp_swap s t

  pub subspace_cmp_trans :
      (a b c : AreaSubspace S)
      → subspace_cmp a b ≡ lt
      → subspace_cmp b c ≡ lt
      → subspace_cmp a c ≡ lt
  subspace_cmp_trans any any c h k = k
  subspace_cmp_trans any (id t) any h k = cc
  subspace_cmp_trans any (id t) (id u) h k = refl
  subspace_cmp_trans (id s) any c h k = cc
  subspace_cmp_trans (id s) (id t) any h k = cc
  subspace_cmp_trans (id s) (id t) (id u) h k = o.cmp_trans s t u h k

  instance abbrev pub subspace_ord : Ord (AreaSubspace S)
  subspace_ord = record {
    cmp = subspace_cmp;
    cmp_self = subspace_cmp_self;
    eq_of_cmp = eq_of_subspace_cmp;
    cmp_swap = subspace_cmp_swap;
    cmp_trans = subspace_cmp_trans;
  }

abbrev pub PathMap {ℓ} : Type ℓ → Type ℓ
PathMap T = HashMap WillowPath (List (Range ℕ × T))

pub record AreaMap {ℓ κ} (S : Type ℓ) (T : Type κ) : Type (ℓ ⊔ κ) where
  pub subspaces : HashMap (AreaSubspace S) (PathMap T)

pub default {ℓ κ} : {S : Type ℓ} {T : Type κ} → AreaMap S T
default = record { subspaces = [] }

module _ {ℓ κ} {S : Type ℓ} {T : Type κ} ⦃o : Ord S⦄ where
  -- The inner `match`: `path_vec.push(…)`, or a new vector.
  insert_path : Area S → T → PathMap T → PathMap T
  insert_path a value m =
      update a.path (λ path_vec. path_vec ++ ((a.times, value) ∷ [])) ((a.times, value) ∷ []) m

  pub insert : Area S → T → AreaMap S T → AreaMap S T
  unfolding insert_path
  insert a value m = record {
    subspaces =
        update a.subspace (insert_path a value) ((a.path, (a.times, value) ∷ []) ∷ []) m.subspaces;
  }

  -- The loop over one vector: the values whose times intersect those of the area.
  times_values : Area S → List (Range ℕ × T) → List T
  times_values a [] = []
  times_values a ((times, value) ∷ values) = elim (Range.intersection times a.times) [
    | some t ↦ value ∷ times_values a values
    | none ↦ times_values a values
  ]

  -- The loop over one `subspace_map`: the vectors at related paths.
  path_values : Area S → WillowPath × List (Range ℕ × T) → List T
  unfolding times_values
  path_values a (path, values) = if is_related a.path path then times_values a values else []

  related_values : Area S → PathMap T → List T
  unfolding path_values
  related_values a m = collect (path_values a) m

  found_values : Area S → Option (PathMap T) → List T
  unfolding related_values
  found_values a none = []
  found_values a (some m) = related_values a m

  pub intersecting_values : AreaMap S T → Area S → List T
  unfolding related_values found_values
  intersecting_values m a = elim a.subspace [
    | any ↦ collect (λ (subspace, paths). related_values a paths) m.subspaces
    | id s ↦ found_values a (get any m.subspaces) ++ found_values a (get (id s) m.subspaces)
  ]
