-- ===== src/Grouping/Range3d.antt =====
-- data-model/src/grouping/range_3d.rs: three-dimensional ranges, and their making from areas.
pub mod Laws
pub mod FromArea
use willow_rs.Prelude.{
  ℕ, Bool, true, false, ◌&&◌, ◌||◌, not, Option, none, some, [], ltb, if◌then◌else◌, ◌>>=◌,
}
use willow_rs.Prelude.Order.{Ord, list_ord, nat_ord}
use willow_rs.Path.{Limits, WillowPath, is_prefix_of, is_prefixed_by}
use willow_rs.Path.Successor.{successor}
use willow_rs.Entry.{Entry}
use willow_rs.Parameters.{SubspaceId, singleton_range}
use willow_rs.Grouping.Range
use willow_rs.Grouping.Range.{Range}
use willow_rs.Grouping.Area.{Area, AreaSubspace, any, id}

pub record Range3d {ℓ} (S : Type ℓ) : Type ℓ where
  pub subspaces : Range S
  pub paths : Range WillowPath
  pub times : Range ℕ

module _ {ℓ} {S : Type ℓ} ⦃o : Ord S⦄ where
  unfoldable pub includes_triplet : Range3d S → S → WillowPath → ℕ → Bool
  includes_triplet r subspace_id path timestamp =
      Range.includes r.subspaces subspace_id
      && Range.includes r.paths path
      && Range.includes r.times timestamp

  unfoldable pub includes_entry {κ μ} : {N : Type κ} {PD : Type μ} → Range3d S → Entry N S PD → Bool
  includes_entry r e =
      Range.includes r.subspaces e.subspace_id
      && Range.includes r.paths e.path
      && Range.includes r.times e.timestamp

  pub includes_range : Range3d S → Range3d S → Bool
  includes_range r other =
      Range.includes_range r.subspaces other.subspaces
      && Range.includes_range r.paths other.paths
      && Range.includes_range r.times other.times

  pub could_be_pruned_by_triplet : Range3d S → S → WillowPath → ℕ → Bool
  could_be_pruned_by_triplet r subspace_id path timestamp =
      if not (Range.includes r.subspaces subspace_id)
      then false
      else (if ltb timestamp r.times.start
          then false
          else (Range.includes r.paths path
              || is_prefix_of path r.paths.start
              || is_prefixed_by path r.paths.start))

  pub intersection : Range3d S → Range3d S → Option (Range3d S)
  intersection r other = do
    paths ← Range.intersection r.paths other.paths
    times ← Range.intersection r.times other.times
    subspaces ← Range.intersection r.subspaces other.subspaces
    some (record { subspaces = subspaces; paths = paths; times = times })

-- `impl From<Area> for Range3d`.
module _ {ℓ} {S : Type ℓ} (i : SubspaceId S) where
  pub from_subspace : AreaSubspace S → Range S
  unfolding Range.new_open singleton_range
  from_subspace any = Range.new_open i.default
  from_subspace (id s) = singleton_range s (i.successor s)

  pub from_area : Limits → Area S → Range3d S
  unfolding from_subspace singleton_range
  from_area k a = record {
    subspaces = from_subspace a.subspace;
    paths = singleton_range a.path (successor k a.path);
    times = a.times;
  }
