-- ===== src/Grouping/Tests.antt =====
-- Groupings: the theorems at concrete inputs, with numbers for subspace ids.
use mathlib.Core.List.{Perm}
use willow_rs.Prelude.{ℕ, suc, ◌≤◌, ◌≡◌, refl, ◌↔◌, true, ◌&&◌, some, List, [], ◌∷◌, arith, All}
use willow_rs.Prelude.Order.{nat_ord}
use willow_rs.Prelude.Collect.{collect}
use willow_rs.Path.{Limits, WillowPath, IsPath, is_prefix_of}
use willow_rs.Path.Successor.Exact.{IsExact}
use willow_rs.Parameters.{SubspaceId}
use willow_rs.Grouping.Range
use willow_rs.Grouping.Range.{Range, RangeEnd, closed, open_end, range_cmp}
use willow_rs.Grouping.Area
use willow_rs.Grouping.Area.{Area, any, id, includes_area, could_be_pruned_by_triplet}
use willow_rs.Grouping.Area.Laws.{in_area, includes-area_intersection}
use willow_rs.Grouping.Area.Pruning.{could_be_pruned_iff}
use willow_rs.Grouping.Range3d
use willow_rs.Grouping.Range3d.{Range3d, from_area}
use willow_rs.Grouping.Range3d.FromArea.{from_area_iff}
use willow_rs.Grouping.AreaMap.{intersecting_values}
use willow_rs.Grouping.AreaMap.Laws.{hit, inserted, intersecting_values-inserted}

abbrev to_5 : Range ℕ
to_5 = record { start = 2; end = closed 5 }

abbrev from_3 : Range ℕ
from_3 = record { start = 3; end = open_end }

to_5_nonempty : Range.includes to_5 to_5.start ≡ true
unfolding Range.includes
to_5_nonempty = refl

abbrev notes : Area ℕ
notes = record { subspace = id 1; path = (7 ∷ []) ∷ []; times = to_5 }

abbrev recent : Area ℕ
recent = record { subspace = any; path = []; times = from_3 }

includes-area_intersection_example :
    in_area (Area.intersection notes recent) 1 ((7 ∷ []) ∷ []) 4
    ≡ Area.includes_triplet notes 1 ((7 ∷ []) ∷ []) 4
      && Area.includes_triplet recent 1 ((7 ∷ []) ∷ []) 4
includes-area_intersection_example = includes-area_intersection notes recent 1 ((7 ∷ []) ∷ []) 4

could_be_pruned_iff_example : (could_be_pruned_by_triplet notes 1 [] 9 ≡ true) ↔ (
    (q : WillowPath) × (u : ℕ) × (Area.includes_triplet notes 1 q u ≡ true)
    × (is_prefix_of [] q ≡ true)
    × (u ≤ 9))
could_be_pruned_iff_example = could_be_pruned_iff notes 1 [] 9 to_5_nonempty

-- The natural numbers as subspace ids.
abbrev numbers : SubspaceId ℕ
numbers = record {
  ord = nat_ord;
  default = 0;
  successor = λ n. some (suc n);
  default_least = λ s. ground arith;
  successor_gt = λ s t h. ground arith;
  successor_least = λ s t u h k. ground arith;
  successor_none = λ s u h. cc;
}

abbrev wide : Limits
wide = record { max_component_length = 4; max_component_count = 4; max_path_length = 16 }

notes-IsPath : IsPath wide ((7 ∷ []) ∷ [])
notes-IsPath = ground arith

notes-IsExact : All IsExact ((7 ∷ []) ∷ [])
notes-IsExact = ground arith

abbrev below : WillowPath
below = (7 ∷ []) ∷ (1 ∷ []) ∷ []

below-IsPath : IsPath wide below
below-IsPath = ground arith

from_area_iff_example :
    (Range3d.includes_triplet (from_area numbers wide notes) 1 below 4 ≡ true)
    ↔ ((Area.includes_triplet notes 1 below 4 ≡ true) × (below ≡ notes.path))
from_area_iff_example =
    from_area_iff numbers wide notes 1 below 4 notes-IsPath notes-IsExact below-IsPath

abbrev stored : List (Area ℕ × ℕ)
stored = (notes, 10) ∷ (recent, 20) ∷ []

intersecting_values-inserted_example :
    Perm (intersecting_values (inserted stored) notes) (collect (hit notes) stored)
intersecting_values-inserted_example = intersecting_values-inserted notes stored
