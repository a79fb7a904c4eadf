-- ===== src/Path/Representation/Tests.antt =====
-- The buffer of a path: the theorems at concrete inputs, with words of one byte.
use willow_rs.Prelude.{ℕ, ◌≡◌, refl, List, [], ◌∷◌}
use willow_rs.Prelude.Outcome.{ok, err, panic}
use willow_rs.Path.{Limits, WillowPath, component_new, new_from_iter}
use willow_rs.Path.Representation.{Usize, buf_component}
use willow_rs.Path.Representation.Layout.{layout, sums}
use willow_rs.Path.Representation.Slices.{flat}
use willow_rs.Path.Representation.Read.{buf_component-layout}
use willow_rs.Path.Representation.Builder.{byte_from_iter}
use willow_rs.Path.Representation.Builder.Laws.{bytes_of, byte_from_iter_lem}

abbrev first_byte : List ℕ → ℕ
first_byte [] = 0
first_byte (b ∷ bs) = b

abbrev one_byte : Usize
one_byte = record {
  size = 1;
  to_ne_bytes = λ n. n ∷ [];
  from_ne_bytes = first_byte;
  bound = 256;
  length-to_ne_bytes = λ n. refl;
  from_ne_bytes-to_ne_bytes = λ n h. refl;
}

abbrev limits : Limits
limits = record { max_component_length = 2; max_component_count = 2; max_path_length = 3 }

abbrev two_components : WillowPath
two_components = (5 ∷ []) ∷ (1 ∷ 2 ∷ []) ∷ []

layout_run : layout one_byte two_components ≡ 2 ∷ 1 ∷ 3 ∷ 5 ∷ 1 ∷ 2 ∷ []
unfolding layout sums flat
layout_run = refl

buf_component-layout_example :
    buf_component one_byte limits (layout one_byte two_components) 1
    ≡ component_new limits (1 ∷ 2 ∷ [])
buf_component-layout_example =
    buf_component-layout one_byte limits ((5 ∷ []) ∷ []) [] (1 ∷ 2 ∷ []) refl refl

byte_from_iter_lem_example :
    byte_from_iter one_byte limits 3 two_components
    ≡ (elim (new_from_iter limits 3 two_components) [
      | ok p ↦ ok (bytes_of one_byte p)
      | err e ↦ err e
      | panic ↦ panic
    ])
byte_from_iter_lem_example = byte_from_iter_lem one_byte limits 3 two_components refl refl
