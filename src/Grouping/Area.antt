-- ===== src/Grouping/Area.antt =====
-- data-model/src/grouping/area.rs and area_of_interest.rs: areas and areas of interest.
pub mod Laws
pub mod Whole
pub mod Pruning
use willow_rs.Prelude.{
  ℕ, Bool, true, false, ◌&&◌, ◌||◌, not, Option, none, some, [], ltb, min, if◌then◌else◌, ◌>>=◌,
}
use willow_rs.Prelude.Order.{Ord, equal, nat_ord}
use willow_rs.Path.{WillowPath, is_prefix_of, is_prefixed_by}
use willow_rs.Entry.{Entry}
use willow_rs.Grouping.Range
use willow_rs.Grouping.Range.{Range}

pub data AreaSubspace {ℓ} (S : Type ℓ) : Type ℓ where
  any : AreaSubspace S
  id : S → AreaSubspace S

pub record Area {ℓ} (S : Type ℓ) : Type ℓ where
  pub subspace : AreaSubspace S
  pub path : WillowPath
  pub times : Range ℕ

module _ {ℓ} {S : Type ℓ} where
  -- `Path::new_empty` is the path with no components (`new_empty_lem`).
  unfoldable pub new_full : Area S
  unfolding Range.new_open
  new_full = record { subspace = any; path = []; times = Range.new_open 0 }

  unfoldable pub new_subspace : S → Area S
  unfolding Range.new_open
  new_subspace sub = record { subspace = id sub; path = []; times = Range.new_open 0 }

-- The longer of two related paths.
pub path_intersection : WillowPath → WillowPath → Option WillowPath
path_intersection p q =
    if is_prefix_of p q then some q else (if is_prefixed_by p q then some p else none)

module _ {ℓ} {S : Type ℓ} ⦃o : Ord S⦄ where
  unfoldable pub subspace_includes : AreaSubspace S → S → Bool
  subspace_includes any sub = true
  subspace_includes (id s) sub = equal sub s

  pub includes_area_subspace : AreaSubspace S → AreaSubspace S → Bool
  includes_area_subspace any any = true
  includes_area_subspace any (id s) = true
  includes_area_subspace (id s) any = false
  includes_area_subspace (id s) (id other) = equal s other

  pub subspace_intersection : AreaSubspace S → AreaSubspace S → Option (AreaSubspace S)
  subspace_intersection any any = some any
  subspace_intersection (id a) any = some (id a)
  subspace_intersection any (id b) = some (id b)
  subspace_intersection (id a) (id b) = if equal a b then some (id a) else none

  unfoldable pub includes_triplet : Area S → S → WillowPath → ℕ → Bool
  unfolding subspace_includes
  includes_triplet a subspace_id path timestamp =
      subspace_includes a.subspace subspace_id
      && is_prefix_of a.path path
      && Range.includes a.times timestamp

  unfoldable pub includes_entry {κ μ} : {N : Type κ} {PD : Type μ} → Area S → Entry N S PD → Bool
  unfolding includes_triplet
  includes_entry a e = includes_triplet a e.subspace_id e.path e.timestamp

  -- The `match` of `includes_area` on both subspaces.
  unfoldable pub includes_area_at : AreaSubspace S → AreaSubspace S → Bool → Bool → Bool
  includes_area_at any any paths times = paths && times
  includes_area_at any (id s) paths times = paths && times
  includes_area_at (id s) any paths times = false
  includes_area_at (id s) (id other) paths times = equal s other && paths && times

  unfoldable pub includes_area : Area S → Area S → Bool
  unfolding includes_area_at
  includes_area a area =
      includes_area_at a.subspace area.subspace (is_prefix_of a.path area.path)
        (Range.includes_range a.times area.times)

  -- The first early return of `could_be_pruned_by_triplet`.
  other_subspace : AreaSubspace S → S → Bool
  other_subspace any subspace_id = false
  other_subspace (id s) subspace_id = not (equal s subspace_id)

  pub could_be_pruned_by_triplet : Area S → S → WillowPath → ℕ → Bool
  unfolding other_subspace
  could_be_pruned_by_triplet a subspace_id path timestamp =
      if other_subspace a.subspace subspace_id
      then false
      else (if ltb timestamp a.times.start
          then false
          else (is_prefix_of path a.path || is_prefixed_by path a.path))

  pub could_be_pruned_by {κ μ} : {N : Type κ} {PD : Type μ} → Area S → Entry N S PD → Bool
  unfolding could_be_pruned_by_triplet
  could_be_pruned_by a e = could_be_pruned_by_triplet a e.subspace_id e.path e.timestamp

  unfoldable pub intersection : Area S → Area S → Option (Area S)
  unfolding subspace_intersection path_intersection
  intersection a other = do
    subspace_id ← subspace_intersection a.subspace other.subspace
    path ← path_intersection a.path other.path
    times ← Range.intersection a.times other.times
    some (record { subspace = subspace_id; path = path; times = times })

  -- The `match` of `almost_includes_area` on both subspaces.
  subspace_is_fine : AreaSubspace S → AreaSubspace S → Bool
  subspace_is_fine (id s) (id other) = equal s other
  subspace_is_fine any other = true
  subspace_is_fine s any = true

  pub almost_includes_area : Area S → Area S → Bool
  unfolding subspace_is_fine
  almost_includes_area a other =
      subspace_is_fine a.subspace other.subspace
      && is_prefix_of a.path other.path
      && Range.includes_range a.times other.times

pub record AreaOfInterest {ℓ} (S : Type ℓ) : Type ℓ where
  pub area : Area S
  pub max_count : ℕ
  pub max_size : ℕ

pub aoi_intersection {ℓ} :
    {S : Type ℓ} ⦃o : Ord S⦄ → AreaOfInterest S → AreaOfInterest S → Option (AreaOfInterest S)
aoi_intersection a other = do
  area ← intersection a.area other.area
  some (record {
    area = area;
    max_count = min a.max_count other.max_count;
    max_size = min a.max_size other.max_size;
  })
