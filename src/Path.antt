-- ===== src/Path.antt =====
-- data-model/src/path/component.rs and mod.rs, with the builder of builder.rs: components, paths,
-- their construction and their accessors. A path is the list of its components, and a component the
-- list of its bytes: what the accessors `components()` and `as_ref()` show of the heap buffer.
-- The `const` generics MCL, MCC and MPL are one record, `Limits`.
pub mod Construct
pub mod NewMax
pub mod Prefix
pub mod Representation
pub mod Successor
mod Tests
use Prim.Native.Nat.Ordering.{lt, eq, gt}
use willow_rs.Prelude.{
  ℕ, zero, suc, ◌+◌, ◌-◌, ◌≤◌, ◌<◌, min, Ordering, Bool, true, false, ◌&&◌, ◌||◌, not, Option, none,
  some, List, [], ◌∷◌, ◌++◌, ltb, leb, ◌==◌, if◌then◌else◌, length, get_elem?, take, All,
}
use willow_rs.Prelude.Order.{Ord, cmp_list, equal, list_ord, nat_ord}
use willow_rs.Prelude.Outcome.{Outcome, ok, err, panic, ◌>>=◌, unwrap}

pub record Limits : Type 0 where
  pub max_component_length : ℕ
  pub max_component_count : ℕ
  pub max_path_length : ℕ

abbrev pub Component : Type 0
Component = List ℕ

abbrev pub WillowPath : Type 0
WillowPath = List Component

pub data InvalidPathError : Type 0 where
  path_too_long too_many_components : InvalidPathError

pub data PathConstructionError : Type 0 where
  invalid_path : InvalidPathError → PathConstructionError
  component_too_long_error : PathConstructionError

-- `Component::new`.
unfoldable pub component_new : Limits → List ℕ → Option Component
component_new k slice = if leb (length slice) k.max_component_length then some slice else none

-- The sum of the lengths of all components.
abbrev pub path_length : WillowPath → ℕ
path_length [] = 0
path_length (c ∷ p) = length c + path_length p

-- `Representation::sum_of_lengths_for_component`: of the components up to the `i`-th, inclusive.
abbrev pub sum_of_lengths_for_component : WillowPath → ℕ → ℕ
sum_of_lengths_for_component p i = path_length (take (suc i) p)

-- `path_length_of_prefix`, by `Representation::total_length`.
pub path_length_of_prefix : WillowPath → ℕ → ℕ
path_length_of_prefix p zero = 0
path_length_of_prefix p (suc i) = sum_of_lengths_for_component p i

-- The components appended so far, and what `new` was told to expect.
pub record PathBuilder : Type 0 where
  pub components : List Component
  pub target_count : ℕ
  pub target_length : ℕ

module _ (k : Limits) where
  unfoldable pub builder_new : ℕ → ℕ → Outcome InvalidPathError PathBuilder
  builder_new total_length component_count =
      if ltb k.max_path_length total_length
      then err path_too_long
      else (if ltb k.max_component_count component_count
          then err too_many_components
          else ok (record {
            components = [];
            target_count = component_count;
            target_length = total_length;
          }))

unfoldable pub append_component : PathBuilder → Component → PathBuilder
append_component b c = record b { components = b.components ++ (c ∷ []) }

-- `for component in iter { builder.append_component(component) }`.
unfoldable pub append_components : PathBuilder → List Component → PathBuilder
append_components b [] = b
append_components b (c ∷ cs) = append_components (append_component b c) cs

-- Both assertions of `build`.
unfoldable pub build {ℓ} : {E : Type ℓ} → PathBuilder → Outcome E WillowPath
build b =
    if length b.components == b.target_count
    then (if path_length b.components == b.target_length then ok b.components else panic)
    else panic

module _ (k : Limits) where
  pub builder_new_from_prefix : ℕ → ℕ → WillowPath → ℕ → Outcome InvalidPathError PathBuilder
  unfolding builder_new append_components append_component
  builder_new_from_prefix target_total_length target_component_count reference prefix_count = do
    b ← builder_new k target_total_length target_component_count
    if leb prefix_count (length reference)
        then ok (append_components b (take prefix_count reference))
        else panic

  pub new_empty : Outcome InvalidPathError WillowPath
  unfolding builder_new build
  new_empty = elim (builder_new k 0 0) [ ok b ↦ build b | err e ↦ panic | panic ↦ panic ]

  pub new_singleton : Component → Outcome InvalidPathError WillowPath
  unfolding builder_new append_component build
  new_singleton c = do b ← builder_new k (length c) 1; build (append_component b c)

  unfoldable pub new_from_iter : ℕ → List Component → Outcome InvalidPathError WillowPath
  unfolding builder_new append_components append_component build
  new_from_iter total_length cs = do
    b ← builder_new k total_length (length cs)
    build (append_components b cs)

  pub new_from_slice : List Component → Outcome InvalidPathError WillowPath
  unfolding new_from_iter
  new_from_slice cs = new_from_iter (path_length cs) cs

  pub append : WillowPath → Component → Outcome InvalidPathError WillowPath
  unfolding builder_new append_components append_component build
  append p c = do
    b ← builder_new k (path_length p + length c) (length p + 1)
    build (append_component (append_components b p) c)

  pub append_slice : WillowPath → List Component → Outcome InvalidPathError WillowPath
  unfolding builder_new_from_prefix append_components append_component build
  append_slice p cs = do
    b ← builder_new_from_prefix (path_length p + path_length cs) (length p + length cs) p (length p)
    build (append_components b cs)

  -- The loop of `from_slices`: the check of a component comes before it is appended.
  append_slices : PathBuilder → List (List ℕ) → Outcome PathConstructionError PathBuilder
  unfolding component_new append_component
  append_slices b [] = ok b
  append_slices b (s ∷ ss) = elim (component_new k s) [
    | none ↦ err component_too_long_error
    | some c ↦ append_slices (append_component b c) ss
  ]

  pub from_slices : List (List ℕ) → Outcome PathConstructionError WillowPath
  unfolding builder_new append_slices build
  from_slices slices = elim (builder_new k (path_length slices) (length slices)) [
    | ok b ↦ append_slices b slices >>= build
    | err e ↦ err (invalid_path e)
    | panic ↦ panic
  ]

abbrev pub component_count : WillowPath → ℕ
component_count p = length p

pub is_empty : WillowPath → Bool
is_empty p = component_count p == 0

pub component : WillowPath → ℕ → Option Component
component p i = if ltb i (component_count p) then get_elem? p i else none

pub create_prefix : WillowPath → ℕ → Option WillowPath
create_prefix p n = if ltb (component_count p) n then none else some (take n p)

-- `(0..=self.component_count()).map(…)`, the first `n` of them.
prefixes_below : WillowPath → ℕ → List WillowPath
prefixes_below p zero = []
prefixes_below p (suc n) = prefixes_below p n ++ (take n p ∷ [])

pub all_prefixes : WillowPath → List WillowPath
unfolding prefixes_below
all_prefixes p = prefixes_below p (suc (component_count p))

-- The loop of `is_prefix_of` over `self.components().zip(other.components())`.
zip_agree : WillowPath → WillowPath → Bool
zip_agree (a ∷ p) (b ∷ q) = if not (equal a b) then false else zip_agree p q
zip_agree p q = true

unfoldable pub is_prefix_of : WillowPath → WillowPath → Bool
unfolding zip_agree
is_prefix_of p q = zip_agree p q && leb (component_count p) (component_count q)

unfoldable pub is_prefixed_by : WillowPath → WillowPath → Bool
unfolding is_prefix_of
is_prefixed_by p q = is_prefix_of q p

pub is_related : WillowPath → WillowPath → Bool
unfolding is_prefix_of is_prefixed_by
is_related p q = is_prefix_of p q || is_prefixed_by p q

-- The loop of `longest_common_prefix`; `break` ends it.
lcp_len : WillowPath → WillowPath → ℕ
lcp_len (a ∷ p) (b ∷ q) = let rest = suc (lcp_len p q) in if not (equal a b) then 0 else rest
lcp_len p q = 0

-- `none` is the panic of the `unwrap`.
pub longest_common_prefix : WillowPath → WillowPath → Option WillowPath
unfolding lcp_len create_prefix
longest_common_prefix p q = create_prefix p (lcp_len p q)

-- `impl PartialEq for Path`: the counts, then `components().eq(…)`.
iter_eq : WillowPath → WillowPath → Bool
iter_eq [] [] = true
iter_eq [] (b ∷ q) = false
iter_eq (a ∷ p) [] = false
iter_eq (a ∷ p) (b ∷ q) = if equal a b then iter_eq p q else false

pub path_eq : WillowPath → WillowPath → Bool
unfolding iter_eq
path_eq p q = if not (component_count p == component_count q) then false else iter_eq p q

-- `impl Ord for Path`: components are compared lexicographically, and their bytes too.
abbrev pub path_cmp : WillowPath → WillowPath → Ordering
path_cmp p q = cmp_list p q

-- The invariant of the type: what `Component::new` and `PathBuilder::new` enforce.
pub record IsComponent (k : Limits) (c : Component) : Type 0 where
  pub length_fits : length c ≤ k.max_component_length
  pub bytes : All (λ b. b < 256) c

pub record IsPath (k : Limits) (p : WillowPath) : Type 0 where
  pub components : All (IsComponent k) p
  pub count_fits : length p ≤ k.max_component_count
  pub length_fits : path_length p ≤ k.max_path_length
