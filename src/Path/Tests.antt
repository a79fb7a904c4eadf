-- ===== src/Path/Tests.antt =====
-- Paths: runs, and the theorems at concrete inputs.
use willow_rs.Prelude.{◌≡◌, refl, [], ◌∷◌, arith}
use willow_rs.Prelude.Outcome.{ok, err, panic}
use willow_rs.Path.{
  Limits, WillowPath, new_from_iter, append, from_slices, component_too_long_error, builder_new,
  append_components, append_component, build, append_slices, component_new,
}
use willow_rs.Path.NewMax.{new_max, new_max_panics}

-- Components of at most 2 bytes, at most 2 of them, and 3 bytes in all.
abbrev small : Limits
small = record { max_component_length = 2; max_component_count = 2; max_path_length = 3 }

-- Its components, its total length of 3 and the claim of 2.
abbrev two : WillowPath
two = (5 ∷ []) ∷ (1 ∷ 2 ∷ []) ∷ []

new_from_iter_run : new_from_iter small 2 two ≡ panic
unfolding new_from_iter builder_new append_components append_component build
new_from_iter_run = refl

append_run : append small ((5 ∷ []) ∷ []) (1 ∷ 2 ∷ []) ≡ ok two
unfolding append builder_new append_components append_component build
append_run = refl

from_slices_run : from_slices small ((1 ∷ 2 ∷ 3 ∷ []) ∷ []) ≡ err component_too_long_error
unfolding from_slices append_slices component_new builder_new append_component build
from_slices_run = refl

new_max_panics_example :
    new_max (record { max_component_length = 2; max_component_count = 2; max_path_length = 5 })
    ≡ panic
new_max_panics_example =
    new_max_panics
      (record { max_component_length = 2; max_component_count = 2; max_path_length = 5 })
      (omega arith)
