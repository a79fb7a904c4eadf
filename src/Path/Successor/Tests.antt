-- ===== src/Path/Successor/Tests.antt =====
-- Successors: the theorems at concrete inputs.
use Prim.Native.Nat.Ordering.{lt}
use willow_rs.Prelude.{◌≡◌, refl, true, false, none, some, [], ◌∷◌, arith, All}
use willow_rs.Prelude.Backward.{backward}
use willow_rs.Prelude.Order.{is_le, cmp_list}
use willow_rs.Path.{
  Limits, WillowPath, IsPath, path_cmp, is_prefix_of, append, builder_new, builder_new_from_prefix,
  append_component, append_components, build, path_length_of_prefix, sum_of_lengths_for_component,
}
use willow_rs.Path.Successor.{
  successor, greater_but_not_prefixed, greater_body, successor_body, next_component_length,
  increment_at, fixed_width_increment, increment_loop, can_append_zero, all_255,
}
use willow_rs.Path.Successor.Greater.{
  greater_but_not_prefixed-gt, greater_but_not_prefixed-least, greater_but_not_prefixed-none,
}
use willow_rs.Path.Successor.Next.{successor-gt, successor-none}
use willow_rs.Path.Successor.Exact.{successor-least, IsExact}
use willow_rs.Path.Successor.Gap.{successor_gap}

-- Components of at most 2 bytes, at most 2 of them, and 3 bytes in all.
abbrev small : Limits
small = record { max_component_length = 2; max_component_count = 2; max_path_length = 3 }

abbrev one_255 : WillowPath
one_255 = (5 ∷ []) ∷ (1 ∷ 255 ∷ []) ∷ []

one_255-IsPath : IsPath small one_255
one_255-IsPath = ground arith

greater_run : greater_but_not_prefixed small one_255 ≡ some ((5 ∷ []) ∷ (2 ∷ []) ∷ [])
unfolding greater_but_not_prefixed greater_body next_component_length increment_at backward
greater_run = refl

successor_run : successor small one_255 ≡ some ((5 ∷ []) ∷ (2 ∷ 0 ∷ []) ∷ [])
unfolding successor successor_body can_append_zero all_255 fixed_width_increment increment_loop
    backward append builder_new builder_new_from_prefix append_component append_components build
    path_length_of_prefix sum_of_lengths_for_component
successor_run = refl

abbrev top : WillowPath
top = (255 ∷ 255 ∷ []) ∷ (255 ∷ []) ∷ []

successor_top : successor small top ≡ none
unfolding successor successor_body can_append_zero all_255 fixed_width_increment increment_loop
    backward append builder_new builder_new_from_prefix append_component append_components build
    path_length_of_prefix sum_of_lengths_for_component
successor_top = refl

greater_top : greater_but_not_prefixed small top ≡ none
unfolding greater_but_not_prefixed greater_body next_component_length increment_at backward
greater_top = refl

greater_but_not_prefixed-gt_example :
    IsPath small ((5 ∷ []) ∷ (2 ∷ []) ∷ [])
    × (path_cmp one_255 ((5 ∷ []) ∷ (2 ∷ []) ∷ []) ≡ lt)
    × (is_prefix_of one_255 ((5 ∷ []) ∷ (2 ∷ []) ∷ []) ≡ false)
greater_but_not_prefixed-gt_example =
    greater_but_not_prefixed-gt small one_255 ((5 ∷ []) ∷ (2 ∷ []) ∷ []) one_255-IsPath greater_run

other-IsPath : IsPath small ((7 ∷ []) ∷ [])
other-IsPath = ground arith

other_prefix : is_prefix_of one_255 ((7 ∷ []) ∷ []) ≡ false
unfolding is_prefix_of cmp_list
other_prefix = refl

greater_but_not_prefixed-least_example :
    is_le (path_cmp ((5 ∷ []) ∷ (2 ∷ []) ∷ []) ((7 ∷ []) ∷ [])) ≡ true
unfolding cmp_list
greater_but_not_prefixed-least_example =
    greater_but_not_prefixed-least small one_255 ((5 ∷ []) ∷ (2 ∷ []) ∷ []) ((7 ∷ []) ∷ [])
      one_255-IsPath greater_run other-IsPath refl other_prefix

-- Only extensions of this path are greater.
abbrev last_path : WillowPath
last_path = (255 ∷ 255 ∷ []) ∷ []

greater_last : greater_but_not_prefixed small last_path ≡ none
unfolding greater_but_not_prefixed greater_body next_component_length increment_at backward
greater_last = refl

below_last-IsPath : IsPath small ((255 ∷ 255 ∷ []) ∷ (9 ∷ []) ∷ [])
below_last-IsPath = ground arith

greater_but_not_prefixed-none_example :
    is_prefix_of last_path ((255 ∷ 255 ∷ []) ∷ (9 ∷ []) ∷ []) ≡ true
unfolding cmp_list
greater_but_not_prefixed-none_example =
    greater_but_not_prefixed-none small last_path ((255 ∷ 255 ∷ []) ∷ (9 ∷ []) ∷ []) greater_last
      below_last-IsPath refl

successor-gt_example :
    IsPath small ((5 ∷ []) ∷ (2 ∷ 0 ∷ []) ∷ [])
    × (path_cmp one_255 ((5 ∷ []) ∷ (2 ∷ 0 ∷ []) ∷ []) ≡ lt)
successor-gt_example =
    successor-gt small one_255 ((5 ∷ []) ∷ (2 ∷ 0 ∷ []) ∷ []) one_255-IsPath successor_run

top-IsPath : IsPath small top
top-IsPath = ground arith

successor-none_example : ¬ (path_cmp top one_255 ≡ lt)
successor-none_example = successor-none small top one_255 top-IsPath successor_top one_255-IsPath

-- A full path that ends in a component below 255.
abbrev plain : WillowPath
plain = (5 ∷ []) ∷ (1 ∷ 3 ∷ []) ∷ []

plain-IsPath : IsPath small plain
plain-IsPath = ground arith

plain-IsExact : All IsExact plain
unfolding all_255
plain-IsExact = ground arith

successor_plain : successor small plain ≡ some ((5 ∷ []) ∷ (1 ∷ 4 ∷ []) ∷ [])
unfolding successor successor_body can_append_zero all_255 fixed_width_increment increment_loop
    backward append builder_new builder_new_from_prefix append_component append_components build
    path_length_of_prefix sum_of_lengths_for_component
successor_plain = refl

successor-least_example : is_le (path_cmp ((5 ∷ []) ∷ (1 ∷ 4 ∷ []) ∷ []) ((7 ∷ []) ∷ [])) ≡ true
unfolding cmp_list
successor-least_example =
    successor-least small plain ((5 ∷ []) ∷ (1 ∷ 4 ∷ []) ∷ []) ((7 ∷ []) ∷ []) plain-IsPath
      plain-IsExact successor_plain other-IsPath refl

all_255_one : all_255 (1 ∷ 255 ∷ []) ≡ false
unfolding all_255
all_255_one = refl

successor_gap_example :
    (r g : WillowPath) × (successor small one_255 ≡ some r)
    × (greater_but_not_prefixed small one_255 ≡ some g)
    × IsPath small g
    × (path_cmp one_255 g ≡ lt)
    × (path_cmp g r ≡ lt)
successor_gap_example =
    successor_gap small ((5 ∷ []) ∷ []) (1 ∷ 255 ∷ []) one_255-IsPath refl refl refl all_255_one
