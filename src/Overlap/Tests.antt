-- ===== src/Overlap/Tests.antt =====
-- The overlap finder: the theorem at a concrete input, with numbers for namespaces and subspaces.
use mathlib.Core.List.{Perm}
use willow_rs.Prelude.{ℕ, true, false, List, [], ◌∷◌}
use willow_rs.Prelude.Order.{nat_ord}
use willow_rs.Prelude.Collect.{collect}
use willow_rs.Path.{WillowPath}
use willow_rs.Grouping.Range.{closed}
use willow_rs.Grouping.Area.{AreaSubspace, any, id}
use willow_rs.Overlap.{NamespacedAoIWithMaxPayloadPower, add}
use willow_rs.Overlap.Laws.{Addition, finder_after, overlap, add_lem}

abbrev interest : AreaSubspace ℕ → WillowPath → ℕ → NamespacedAoIWithMaxPayloadPower ℕ ℕ
interest subspace path handle = record {
  namespace = 1;
  aoi = record {
    area = record {
      subspace = subspace;
      path = path;
      times = record { start = 0; end = closed 9 };
    };
    max_count = 0;
    max_size = 0;
  };
  max_payload_power = 0;
  my_handle = handle;
  their_handle = 0;
}

abbrev history : List (Addition ℕ ℕ)
history =
    (false, interest any [] 1)
    ∷ (true, interest (id 4) [] 2)
    ∷ (false, interest (id 5) ((3 ∷ []) ∷ []) 3)
    ∷ []

add_lem_example :
    Perm
      (add (interest (id 5) [] 6) true (finder_after history)).0
      (collect (overlap (interest (id 5) [] 6) false) history)
add_lem_example = add_lem (interest (id 5) [] 6) true history
