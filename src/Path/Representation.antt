-- ===== src/Path/Representation.antt =====
-- data-model/src/path/representation.rs: a path as a buffer of bytes. It begins with the number of
-- components, then has for each component the sum of the lengths up to it, then the components.
pub mod Slices
pub mod Layout
pub mod Read
pub mod Builder
mod Tests
use willow_rs.Prelude.{
  ℕ, zero, suc, true, ◌+◌, ◌-◌, ◌*◌, ◌≡◌, Option, none, some, List, [], ◌∷◌, if◌then◌else◌, ltb,
  ◌==◌, length, take, ◌>>=◌,
}
use willow_rs.Path.{Limits, Component, component_new}

-- `size_of::<usize>()`, `to_ne_bytes` and `from_ne_bytes`, of whatever width and order the machine has.
pub record Usize : Type 0 where
  pub size : ℕ
  pub to_ne_bytes : ℕ → List ℕ
  pub from_ne_bytes : List ℕ → ℕ
  -- The first number that does not fit.
  pub bound : ℕ
  pub length-to_ne_bytes : (n : ℕ) → length (to_ne_bytes n) ≡ size
  pub from_ne_bytes-to_ne_bytes : (n : ℕ) → ltb n bound ≡ true → from_ne_bytes (to_ne_bytes n) ≡ n

abbrev pub drop {ℓ} : {A : Type ℓ} → ℕ → List A → List A
drop zero xs = xs
drop (suc n) [] = []
drop (suc n) (x ∷ xs) = drop n xs

-- `&buf[start..end]`; `none` is the panic out of range, here and below.
abbrev pub slice : List ℕ → ℕ → ℕ → Option (List ℕ)
slice buf start end =
    if ltb end start
    then none
    else (if ltb (length buf) end then none else some (take (end - start) (drop start buf)))

module _ (word : Usize) where
  pub usize_at_offset : List ℕ → ℕ → Option ℕ
  usize_at_offset buf offset_in_bytes = do
    bytes ← slice buf offset_in_bytes (offset_in_bytes + word.size)
    some (word.from_ne_bytes bytes)

  unfoldable pub buf_component_count : List ℕ → Option ℕ
  unfolding usize_at_offset
  buf_component_count buf = usize_at_offset buf 0

  unfoldable pub start_offset_of_sum : ℕ → ℕ
  start_offset_of_sum i = word.size * (i + 1)

  unfoldable pub sum_of_lengths : List ℕ → ℕ → Option ℕ
  unfolding usize_at_offset start_offset_of_sum
  sum_of_lengths buf i = usize_at_offset buf (start_offset_of_sum i)

  unfoldable pub total_length : List ℕ → ℕ → Option ℕ
  unfolding sum_of_lengths
  total_length buf zero = some 0
  total_length buf (suc i) = sum_of_lengths buf i

  pub start_offset_of_component : List ℕ → ℕ → Option ℕ
  unfolding buf_component_count sum_of_lengths
  start_offset_of_component buf zero = do
    count ← buf_component_count buf
    some ((count + 1) * word.size)
  start_offset_of_component buf (suc i) = do
    count ← buf_component_count buf
    sum ← sum_of_lengths buf i
    some (sum + (count + 1) * word.size)

  pub end_offset_of_component : List ℕ → ℕ → Option ℕ
  unfolding buf_component_count sum_of_lengths
  end_offset_of_component buf i = do
    count ← buf_component_count buf
    sum ← sum_of_lengths buf i
    some (sum + (count + 1) * word.size)

  pub buf_component : Limits → List ℕ → ℕ → Option Component
  unfolding start_offset_of_component end_offset_of_component
  buf_component k buf i = do
    start ← start_offset_of_component buf i
    end ← end_offset_of_component buf i
    bytes ← slice buf start end
    component_new k bytes
