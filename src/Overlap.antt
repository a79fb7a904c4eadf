-- ===== src/Overlap.antt =====
-- wgps/src/pio/overlap_finder.rs: which areas of interest of the two peers overlap.
pub mod Laws
mod Tests
use willow_rs.Prelude.{ℕ, ◌^◌, ◌-◌, Bool, true, false, List}
use willow_rs.Prelude.Order.{Ord}
use willow_rs.Grouping.Area.{Area, AreaOfInterest}
use willow_rs.Grouping.NamespacedAreaMap
use willow_rs.Grouping.NamespacedAreaMap.{NamespacedAreaMap}

pub record NamespacedAoIWithMaxPayloadPower {ℓ μ} (N : Type μ) (S : Type ℓ) : Type (ℓ ⊔ μ) where
  pub namespace : N
  pub aoi : AreaOfInterest S
  pub max_payload_power : ℕ
  pub my_handle : ℕ
  pub their_handle : ℕ

abbrev pub CaoiMap {ℓ μ} : Type μ → Type ℓ → Type (ℓ ⊔ μ)
CaoiMap N S = NamespacedAreaMap N S (NamespacedAoIWithMaxPayloadPower N S)

pub record OverlapFinder {ℓ μ} (N : Type μ) (S : Type ℓ) : Type (ℓ ⊔ μ) where
  pub my_caois : CaoiMap N S
  pub their_caois : CaoiMap N S

unfoldable pub new_finder {ℓ μ} : {N : Type μ} {S : Type ℓ} → OverlapFinder N S
new_finder = record {
  my_caois = NamespacedAreaMap.default;
  their_caois = NamespacedAreaMap.default;
}

module _ {ℓ μ} {N : Type μ} {S : Type ℓ} ⦃n : Ord N⦄ ⦃o : Ord S⦄ where
  abbrev pub insert_caoi : NamespacedAoIWithMaxPayloadPower N S → CaoiMap N S → CaoiMap N S
  insert_caoi to_add m = NamespacedAreaMap.insert to_add.namespace to_add.aoi.area to_add m

  abbrev pub overlapping :
      NamespacedAoIWithMaxPayloadPower N S
      → CaoiMap N S
      → List (NamespacedAoIWithMaxPayloadPower N S)
  overlapping to_add m = NamespacedAreaMap.intersecting_values m to_add.namespace to_add.aoi.area

  -- The two references of the source are to different maps: the query is not about the insertion.
  unfoldable pub add :
      NamespacedAoIWithMaxPayloadPower N S
      → Bool
      → OverlapFinder N S
      → List (NamespacedAoIWithMaxPayloadPower N S) × OverlapFinder N S
  add to_add true finder = (
    overlapping to_add finder.their_caois,
    record { my_caois = insert_caoi to_add finder.my_caois; their_caois = finder.their_caois },
  )
  add to_add false finder = (
    overlapping to_add finder.my_caois,
    record { my_caois = finder.my_caois; their_caois = insert_caoi to_add finder.their_caois },
  )

  unfoldable pub add_mine :
      NamespacedAoIWithMaxPayloadPower N S
      → OverlapFinder N S
      → List (NamespacedAoIWithMaxPayloadPower N S) × OverlapFinder N S
  add_mine to_add finder = add to_add true finder

  unfoldable pub add_theirs :
      NamespacedAoIWithMaxPayloadPower N S
      → OverlapFinder N S
      → List (NamespacedAoIWithMaxPayloadPower N S) × OverlapFinder N S
  add_theirs to_add finder = add to_add false finder
