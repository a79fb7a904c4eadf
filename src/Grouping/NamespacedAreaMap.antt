-- ===== src/Grouping/NamespacedAreaMap.antt =====
-- `NamespacedAreaMap` of data-model/src/grouping/area.rs: an area map for each namespace.
pub mod Laws
use willow_rs.Prelude.{Option, none, some, List, []}
use willow_rs.Prelude.Order.{Ord}
use willow_rs.Prelude.HashMap.{HashMap, get, update}
use willow_rs.Grouping.Area.{Area}
use willow_rs.Grouping.AreaMap
use willow_rs.Grouping.AreaMap.{AreaMap}

pub record NamespacedAreaMap {ℓ κ μ} (N : Type μ) (S : Type ℓ) (T : Type κ) : Type (ℓ ⊔ κ ⊔ μ) where
  pub namespaces : HashMap N (AreaMap S T)

pub default {ℓ κ μ} : {N : Type μ} {S : Type ℓ} {T : Type κ} → NamespacedAreaMap N S T
default = record { namespaces = [] }

module _ {ℓ κ} {S : Type ℓ} {T : Type κ} ⦃o : Ord S⦄ where
  -- The `match` of `intersecting_values`.
  found : Area S → Option (AreaMap S T) → List T
  found area none = []
  found area (some area_map) = AreaMap.intersecting_values area_map area

module _ {ℓ κ μ} {N : Type μ} {S : Type ℓ} {T : Type κ} ⦃n : Ord N⦄ ⦃o : Ord S⦄ where
  pub insert : N → Area S → T → NamespacedAreaMap N S T → NamespacedAreaMap N S T
  insert namespace area value m = record {
    namespaces =
        update namespace (AreaMap.insert area value) (AreaMap.insert area value AreaMap.default)
          m.namespaces;
  }

  pub intersecting_values : NamespacedAreaMap N S T → N → Area S → List T
  unfolding found
  intersecting_values m namespace area = found area (get namespace m.namespaces)
