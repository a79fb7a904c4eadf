-- ===== src/Path/Successor.antt =====
-- `Path::successor`, `Path::greater_but_not_prefixed` and `Path::singleton_range` of
-- data-model/src/path/mod.rs. The loops `for (i, component) in self.components().enumerate().rev()`
-- are `backward`. `clone_prefix_and_lengthen_final_component` copies the first `i + 1` components
-- into a new buffer, whose last component is then lengthened, incremented or cut.
pub mod Bytes
pub mod Order
pub mod Step
pub mod Admissible
pub mod Greater
pub mod Next
pub mod Exact
pub mod Gap
mod Tests
use willow_rs.Prelude.{
  ℕ, zero, suc, ◌+◌, ◌-◌, ◌<◌, Bool, true, false, ◌&&◌, not, Option, none, some, List, [], ◌∷◌,
  ◌++◌, ltb, ◌==◌, if◌then◌else◌, length, get_elem?, take, reverse,
}
use willow_rs.Prelude.Outcome.{ok, err, panic}
use willow_rs.Prelude.Backward.{backward}
use willow_rs.Path.{
  Limits, Component, WillowPath, append, component_count, sum_of_lengths_for_component,
}

-- `component.iter().all(|byte| *byte == 255)`.
pub all_255 : Component → Bool
all_255 [] = true
all_255 (b ∷ c) = b == 255 && all_255 c

-- The loop of `fixed_width_increment` over the bytes from the last on; it stops at the first byte
-- that does not overflow.
increment_loop : List ℕ → List ℕ
increment_loop [] = []
increment_loop (b ∷ bs) =
    let rest = 0 ∷ increment_loop bs in if b == 255 then rest else (b + 1) ∷ bs

pub fixed_width_increment : Component → Component
unfolding increment_loop
fixed_width_increment c = reverse (increment_loop (reverse c))

-- Whether a zero byte fits behind component `i`.
pub can_append_zero : Limits → WillowPath → ℕ → Component → Bool
can_append_zero k p i c =
    ltb (length c) k.max_component_length
    && ltb (sum_of_lengths_for_component p i) k.max_path_length

pub successor_body : Limits → WillowPath → ℕ → Option WillowPath
unfolding can_append_zero all_255 fixed_width_increment
successor_body k p i = elim (get_elem? p i) [
  | none ↦ none
  | some c ↦
      if can_append_zero k p i c
      then some (take i p ++ ((c ++ (0 ∷ [])) ∷ []))
      else (if not (all_255 c) then some (take i p ++ (fixed_width_increment c ∷ [])) else none)
]

-- `append` does not panic (`append-new_from_slice`), so the last case is never met.
pub successor : Limits → WillowPath → Option WillowPath
unfolding append backward successor_body
successor k p = elim (append k p []) [
  | ok q ↦ some q
  | err e ↦ backward (successor_body k p) (component_count p)
  | panic ↦ none
]

-- The inner loop of `greater_but_not_prefixed`: behind the last byte that is below 255.
next_component_length : Component → Option ℕ
unfolding backward
next_component_length c =
    backward
      (λ j. elim (get_elem? c j) [
        | none ↦ none
        | some b ↦ if ltb b 255 then some (j + 1) else none
      ])
      (length c)

-- `buf[offset] = byte + 1`.
increment_at : Component → ℕ → Component
increment_at [] j = []
increment_at (b ∷ c) zero = (b + 1) ∷ c
increment_at (b ∷ c) (suc j) = b ∷ increment_at c j

pub greater_body : Limits → WillowPath → ℕ → Option WillowPath
unfolding can_append_zero next_component_length increment_at
greater_body k p i = elim (get_elem? p i) [
  | none ↦ none
  | some c ↦
      if can_append_zero k p i c
      then some (take i p ++ ((c ++ (0 ∷ [])) ∷ []))
      else (elim (next_component_length c) [
        | none ↦ none
        | some n ↦ some (take i p ++ (increment_at (take n c) (n - 1) ∷ []))
      ])
]

pub greater_but_not_prefixed : Limits → WillowPath → Option WillowPath
unfolding backward greater_body
greater_but_not_prefixed k p = backward (greater_body k p) (component_count p)
