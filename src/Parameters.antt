-- ===== src/Parameters.antt =====
-- The trait `SubspaceId` of data-model/src/parameters.rs, with what its comments promise of
-- `successor`, and `singleton_range` of subspace ids and of paths.
use willow_rs.Prelude.{◌≡◌, true, false, Option, none, some}
use willow_rs.Prelude.Order.{Ord, less, less_eq}
use willow_rs.Grouping.Range.{Range, closed, new_open}

pub record SubspaceId {ℓ} (S : Type ℓ) : Type ℓ where
  pub ord : Ord S
  pub default : S
  pub successor : S → Option S
  pub default_least : (s : S) → less_eq ⦃o = ord⦄ default s ≡ true
  pub successor_gt : (s t : S) → successor s ≡ some t → less ⦃o = ord⦄ s t ≡ true
  pub successor_least :
      (s t u : S) → successor s ≡ some t → less ⦃o = ord⦄ s u ≡ true → less_eq ⦃o = ord⦄ t u ≡ true
  pub successor_none : (s u : S) → successor s ≡ none → less ⦃o = ord⦄ s u ≡ false

-- `singleton_range`, of `SubspaceId` and of `Path`: the same `match` on the successor.
unfoldable pub singleton_range {ℓ} : {T : Type ℓ} → T → Option T → Range T
unfolding new_open
singleton_range t none = new_open t
singleton_range t (some next) = record { start = t; end = closed next }
