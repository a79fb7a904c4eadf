-- ===== src/Path/NewMax.antt =====
-- `Path::new_max` of data-model/src/path/mod.rs, the upper bound of range scans over all paths.
use willow_rs.Prelude.{
  ℕ, zero, suc, ◌+◌, ◌-◌, ◌*◌, ◌/◌, ◌≤◌, ◌<◌, ◌≡◌, refl, ap, min, List, [], ◌∷◌, ◌++◌, arith, ◌==◌,
  if◌then◌else◌, length,
}
use willow_rs.Prelude.Order.{list_ord, nat_ord}
use willow_rs.Prelude.Outcome.{Outcome, ok, err, panic}
use willow_rs.Path.{
  Limits, Component, WillowPath, InvalidPathError, path_length, builder_new, append_components,
  append_component, build,
}
use willow_rs.Path.Construct.{path_length-append, append_components_lem}

-- A slice of `max_comp_bytes`.
unfoldable pub bytes_255 : ℕ → Component
bytes_255 zero = []
bytes_255 (suc n) = 255 ∷ bytes_255 n

-- `for _ in 0..num_comps`.
unfoldable pub full_components : Limits → ℕ → ℕ → List Component
unfolding bytes_255
full_components k zero len_so_far = []
full_components k (suc n) len_so_far =
    let comp_len = min k.max_component_length (k.max_path_length - len_so_far) in
    bytes_255 comp_len ∷ full_components k n (len_so_far + comp_len)

-- `while num_comps < MCC`.
unfoldable pub empty_components : ℕ → List Component
empty_components zero = []
empty_components (suc n) = [] ∷ empty_components n

unfoldable pub num_comps : Limits → ℕ
num_comps k =
    if k.max_component_length == 0
    then k.max_component_count
    else min k.max_component_count
        ((k.max_path_length + k.max_component_length - 1) / k.max_component_length)

unfoldable pub new_max : Limits → Outcome InvalidPathError WillowPath
unfolding builder_new append_components append_component build full_components empty_components
    num_comps
new_max k = elim (builder_new k k.max_path_length k.max_component_count) [
  | ok b ↦ build (
      append_components (append_components b (full_components k (num_comps k) 0))
        (empty_components (k.max_component_count - num_comps k)))
  | err e ↦ panic
  | panic ↦ panic
]

length-bytes_255 : (n : ℕ) → length (bytes_255 n) ≡ n
unfolding bytes_255
length-bytes_255 zero = refl
length-bytes_255 (suc n) = ap suc (length-bytes_255 n)

full_components-le :
    (k : Limits) (n len : ℕ) → path_length (full_components k n len) ≤ n * k.max_component_length
unfolding full_components
full_components-le k zero len = omega arith
full_components-le k (suc n) len =
    let comp_len = min k.max_component_length (k.max_path_length - len) in
    grind (arith, length-bytes_255 comp_len, full_components-le k n (len + comp_len))

path_length-empty : (n : ℕ) → path_length (empty_components n) ≡ 0
unfolding empty_components
path_length-empty zero = refl
path_length-empty (suc n) = omega (arith, path_length-empty n)

mul_le : (m n c : ℕ) → m ≤ n → m * c ≤ n * c
mul_le m n c h = grind arith

num_comps-le : (k : Limits) → num_comps k ≤ k.max_component_count
unfolding num_comps
num_comps-le k = ground arith

max_components-lt :
    (k : Limits)
    → k.max_component_count * k.max_component_length < k.max_path_length
    → path_length (
        full_components k (num_comps k) 0 ++ empty_components (k.max_component_count - num_comps k))
      < k.max_path_length
max_components-lt k h = grind (
  arith,
  path_length-append (full_components k (num_comps k) 0)
      (empty_components (k.max_component_count - num_comps k)),
  full_components-le k (num_comps k) 0,
  path_length-empty (k.max_component_count - num_comps k),
  mul_le (num_comps k) k.max_component_count k.max_component_length (num_comps-le k),
)

build-short :
    (cs : List Component) (count n : ℕ)
    → path_length cs < n
    → build {E = InvalidPathError}
        (record { components = cs; target_count = count; target_length = n })
      ≡ panic
unfolding build
build-short cs count n h = ground arith

-- Where even the longest components do not add up to the maximal length of a path, `new_max`
-- panics: the path that it builds is shorter than it claims.
pub new_max_panics :
    (k : Limits)
    → k.max_component_count * k.max_component_length < k.max_path_length
    → new_max k ≡ panic
unfolding new_max builder_new
new_max_panics k h = grind (arith, append_components_lem, build-short, max_components-lt k h)
