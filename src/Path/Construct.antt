-- ===== src/Path/Construct.antt =====
-- The constructors of `Path` through `PathBuilder` (data-model/src/path/mod.rs): which inputs they
-- accept, with which error they refuse the others, and that no assertion of `build` fails.
use willow_rs.Prelude.{
  ℕ, ◌+◌, ◌≤◌, ◌≡◌, refl, sym, ◌∙◌, some, Bool, true, false, List, [], ◌∷◌, ◌++◌, arith, ltb, leb,
  ◌==◌, if◌then◌else◌, length, All, length-append, take_whole, append_assoc, append-nil, All-append,
  ◌↔◌,
}
use willow_rs.Prelude.Outcome.{Outcome, ok, err, panic}
use willow_rs.Path.{
  Limits, Component, WillowPath, InvalidPathError, path_too_long, too_many_components, invalid_path,
  component_too_long_error, component_new, path_length, PathBuilder, append_component,
  append_components, new_empty, new_from_iter, new_from_slice, append, append_slice, append_slices,
  from_slices, IsPath, IsComponent,
}

pub path_length-append : (p q : WillowPath) → path_length (p ++ q) ≡ path_length p + path_length q
path_length-append [] q = omega arith
path_length-append (c ∷ p) q = omega (arith, path_length-append p q)

pub append_components_lem :
    (b : PathBuilder) (cs : List Component)
    → append_components b cs ≡ record b { components = b.components ++ cs }
unfolding append_components append_component
append_components_lem b [] = λ i. record b { components = sym (append-nil b.components) i }
append_components_lem b (c ∷ cs) =
    append_components_lem (append_component b c) cs
    ∙ (λ i. record b { components = append_assoc b.components (c ∷ []) cs i })

-- What the limits make of a list of components, whichever way a path is built from it.
abbrev pub checked : Limits → List Component → Outcome InvalidPathError WillowPath
checked k cs =
    if ltb k.max_path_length (path_length cs)
    then err path_too_long
    else (if ltb k.max_component_count (length cs) then err too_many_components else ok cs)

-- `new_from_iter`, for a claimed total length that may be wrong: a path within the limits is built
-- if the claim is right, and `build` panics otherwise.
pub new_from_iter_lem :
    (k : Limits) (n : ℕ) (cs : List Component)
    → new_from_iter k n cs ≡ (
        if ltb k.max_path_length n
        then err path_too_long
        else (if ltb k.max_component_count (length cs)
            then err too_many_components
            else (if path_length cs == n then ok cs else panic)))
unfolding new_from_iter
new_from_iter_lem k n cs =
    let b : PathBuilder = record { components = []; target_count = length cs; target_length = n } in
    ground (arith, append_components_lem b cs)

pub new_from_slice-checked : (k : Limits) (cs : List Component) → new_from_slice k cs ≡ checked k cs
unfolding new_from_slice
new_from_slice-checked k cs = ground (arith, new_from_iter_lem k (path_length cs) cs)

-- Appending a component is building the longer path from its components: it never panics, and
-- refuses exactly what `new_from_slice` refuses, with the same error.
pub append-new_from_slice :
    (k : Limits) (p : WillowPath) (c : Component) → append k p c ≡ new_from_slice k (p ++ (c ∷ []))
unfolding append
append-new_from_slice k p c =
    let b : PathBuilder = record {
      components = [];
      target_count = length p + 1;
      target_length = path_length p + length c;
    } in
    rw new_from_slice-checked (
      ground
        (arith, append_components_lem b p, length-append p (c ∷ []), path_length-append p (c ∷ [])))

-- The same of a slice of components, though the builder is filled from the buffer of the prefix.
append_slice-new_from_slice :
    (k : Limits) (p : WillowPath) (cs : List Component)
    → append_slice k p cs ≡ new_from_slice k (p ++ cs)
unfolding append_slice
append_slice-new_from_slice k p cs =
    let b : PathBuilder = record {
      components = [];
      target_count = length p + length cs;
      target_length = path_length p + path_length cs;
    } in
    rw new_from_slice-checked (
      ground (
        arith,
        take_whole p,
        append_components_lem b p,
        append_components_lem (record b { components = p }) cs,
        length-append p cs,
        path_length-append p cs,
      ))

checked-ok :
    (k : Limits) (cs q : WillowPath)
    → checked k cs ≡ ok q
    → (cs ≡ q) × (length cs ≤ k.max_component_count) × (path_length cs ≤ k.max_path_length)
checked-ok k cs q h = ground arith

pub checked-IsPath :
    (k : Limits) (cs q : WillowPath)
    → All (IsComponent k) cs
    → checked k cs ≡ ok q
    → (cs ≡ q) × IsPath k cs
checked-IsPath k cs q hc h =
    let (e, n, l) = checked-ok k cs q h in
    (e, record { components = hc; count_fits = n; length_fits = l })

-- Every path that `append` returns is the old one with the component behind it, and keeps the
-- invariant.
append-IsPath :
    (k : Limits) (p : WillowPath) (c : Component) (q : WillowPath)
    → IsPath k p
    → IsComponent k c
    → append k p c ≡ ok q
    → (p ++ (c ∷ []) ≡ q) × IsPath k (p ++ (c ∷ []))
append-IsPath k p c q hp hc h =
    checked-IsPath k (p ++ (c ∷ [])) q
      (All-append (IsComponent k) p (c ∷ []) hp.components (hc, tt))
      (sym (append-new_from_slice k p c ∙ new_from_slice-checked k (p ++ (c ∷ []))) ∙ h)

-- A valid path is built from its own components.
pub new_from_slice-IsPath : (k : Limits) (p : WillowPath) → IsPath k p → new_from_slice k p ≡ ok p
new_from_slice-IsPath k p h = rw new_from_slice-checked (ground arith)

pub all_fit : Limits → List (List ℕ) → Bool
all_fit k [] = true
all_fit k (s ∷ ss) = if leb (length s) k.max_component_length then all_fit k ss else false

append_slices_lem :
    (k : Limits) (b : PathBuilder) (ss : List (List ℕ))
    → append_slices k b ss
      ≡ (if all_fit k ss then ok (append_components b ss) else err component_too_long_error)
unfolding append_slices append_components component_new all_fit
append_slices_lem k b [] = refl
append_slices_lem k b (s ∷ ss) = ground (arith, append_slices_lem k (append_component b s) ss)

-- `from_slices` never panics. It tests the length of the path first, then the number of
-- components, and the length of each component last.
pub from_slices_lem :
    (k : Limits) (ss : List (List ℕ))
    → from_slices k ss ≡ (
        if ltb k.max_path_length (path_length ss)
        then err (invalid_path path_too_long)
        else (if ltb k.max_component_count (length ss)
            then err (invalid_path too_many_components)
            else (if all_fit k ss then ok ss else err component_too_long_error)))
unfolding from_slices
from_slices_lem k ss =
    let b : PathBuilder = record {
      components = [];
      target_count = length ss;
      target_length = path_length ss;
    } in
    ground (arith, append_slices_lem k b ss, append_components_lem b ss)

abbrev pub AllFit : Limits → List (List ℕ) → Type 0
AllFit k ss = All (λ s. length s ≤ k.max_component_length) ss

all_fit_iff : (k : Limits) (ss : List (List ℕ)) → (all_fit k ss ≡ true) ↔ AllFit k ss
unfolding all_fit
all_fit_iff k [] = (λ _. tt, λ _. refl)
all_fit_iff k (s ∷ ss) = ground (arith, all_fit_iff k ss)

-- `from_slices` returns a path exactly for slices within all three limits, and it is those slices.
from_slices_iff :
    (k : Limits) (ss : List (List ℕ)) (q : WillowPath)
    → (from_slices k ss ≡ ok q) ↔ (
        (ss ≡ q)
        × (path_length ss ≤ k.max_path_length)
        × (length ss ≤ k.max_component_count)
        × AllFit k ss)
from_slices_iff k ss q = rw from_slices_lem (ground (arith, all_fit_iff k ss))

pub new_empty_lem : (k : Limits) → new_empty k ≡ ok []
unfolding new_empty
new_empty_lem k = ground arith

-- A component within its limit is built as it is.
pub component_new_fits :
    (k : Limits) (c : List ℕ) → length c ≤ k.max_component_length → component_new k c ≡ some c
unfolding component_new
component_new_fits k c h = ground arith
