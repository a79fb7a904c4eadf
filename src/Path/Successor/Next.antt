-- ===== src/Path/Successor/Next.antt =====
-- `successor`: it is greater, it misses only the maximum, and it is the least greater path unless a
-- component ends in the byte 255.
use Prim.Native.Nat.Ordering.{lt}
use willow_rs.Prelude.{
  ◌+◌, ◌≤◌, ◌<◌, ◌≡◌, refl, sym, ◌∙◌, true, false, none, some, [], ◌∷◌, ◌++◌, arith, ltb,
  if◌then◌else◌, length, All-append, length-append, Bool-cases, inl, inr, ◌⊎◌,
}
use mathlib.Core.Path.{subst}
use willow_rs.Prelude.Outcome.{ok, err}
use willow_rs.Prelude.Order.{◌≺◌, less_eq, cmp_list, list_ord, nat_ord, cmp_list_self}
use willow_rs.Prelude.Backward.{replace_last}
use willow_rs.Prelude.Least.{
  prefixed, prefixed-lt, replace_last-gt, replace_last-none, replace_last-Fits,
}
use willow_rs.Path.{
  Limits, WillowPath, IsPath, IsComponent, path_cmp, append, path_length, path_too_long,
  too_many_components,
}
use willow_rs.Path.Construct.{append-new_from_slice, new_from_slice-checked, path_length-append}
use willow_rs.Path.Successor.{successor}
use willow_rs.Path.Successor.Order.{IsBytes}
use willow_rs.Path.Successor.Step.{Admissible, successor_step, backward-successor_body}
use willow_rs.Path.Successor.Admissible.{
  successor_step-gt, successor_step_keeps, successor_step-none, Fits-path, IsPath-of_Fits,
  IsBytes-path, length-replace_last,
}

-- The two ways of `successor`: an empty component is appended, or the path has all the components
-- that it may have and one of them is replaced.
pub successor_cases :
    (k : Limits) (p : WillowPath)
    → IsPath k p
    → ((length p < k.max_component_count) × (successor k p ≡ some (p ++ ([] ∷ []))))
      ⊎ ((length p ≡ k.max_component_count)
          × (successor k p ≡ replace_last (successor_step k) [] p))
unfolding successor
successor_cases k p v = elim (Bool-cases (ltb (length p) k.max_component_count)) [
  | inl f ↦ inl (ground arith, ground (arith, e, v.length_fits))
  | inr f ↦ inr (
    omega (arith, full f, v.count_fits),
    ground (arith, e, v.length_fits, backward-successor_body k p),
  )
]
  where
    full : ltb (length p) k.max_component_count ≡ false → k.max_component_count ≤ length p
    full f = ground arith

    e : append k p [] ≡ (
        if ltb k.max_path_length (path_length p)
        then err path_too_long
        else (if ltb k.max_component_count (length p + 1)
            then err too_many_components
            else ok (p ++ ([] ∷ []))))
    e =
        append-new_from_slice k p []
        ∙ new_from_slice-checked k (p ++ ([] ∷ []))
        ∙ ground (arith, path_length-append p ([] ∷ []), length-append p ([] ∷ []))

pub append_empty-least : (p q : WillowPath) → p ≺ q → less_eq (p ++ ([] ∷ [])) q ≡ true
unfolding cmp_list
append_empty-least [] [] h = cc
append_empty-least [] ([] ∷ []) h = refl
append_empty-least [] ([] ∷ c ∷ q) h = refl
append_empty-least [] ((b ∷ d) ∷ q) h = refl
append_empty-least (a ∷ p) [] h = cc
append_empty-least (a ∷ p) (b ∷ q) h = ground (arith, append_empty-least p q)

append_empty-IsPath :
    (k : Limits) (p : WillowPath)
    → IsPath k p
    → length p < k.max_component_count
    → IsPath k (p ++ ([] ∷ []))
append_empty-IsPath k p v h = record {
  components =
      All-append (IsComponent k) p ([] ∷ []) v.components
        (record { length_fits = omega arith; bytes = tt }, tt);
  count_fits = omega (arith, length-append p ([] ∷ []));
  length_fits = omega (arith, path_length-append p ([] ∷ []), v.length_fits);
}

append_empty-gt : (p : WillowPath) → p ≺ p ++ ([] ∷ [])
unfolding cmp_list
append_empty-gt [] = refl
append_empty-gt (a ∷ p) = ground (arith, cmp_list_self a, append_empty-gt p)

-- A path of full count has no strict extension.
pub full_count :
    (k : Limits) (p q : WillowPath)
    → length p ≡ k.max_component_count
    → IsPath k q
    → p ≺ q
    → prefixed p q ≡ false
full_count k p q n w l = elim (Bool-cases (prefixed p q)) [
  | inl e ↦ absurd (omega (arith, prefixed-lt p q e l, w.count_fits))
  | inr e ↦ e
]

-- A path that `successor` returns for a valid path is valid and greater.
pub successor-gt :
    (k : Limits) (p r : WillowPath)
    → IsPath k p
    → successor k p ≡ some r
    → IsPath k r × (path_cmp p r ≡ lt)
successor-gt k p r v h = elim (successor_cases k p v) [
  | inl (n, e) ↦
      let g : p ++ ([] ∷ []) ≡ r = cc in
      subst (λ t. IsPath k t × (path_cmp p t ≡ lt)) g
        (append_empty-IsPath k p v n, append_empty-gt p)
  | inr (n, e) ↦
      let g = sym e ∙ h in
      (
        IsPath-of_Fits k r
            (replace_last-Fits (successor_step k) (Admissible k) (successor_step_keeps k) [] p r g
              (Fits-path k p v))
            (omega (arith, length-replace_last (successor_step k) [] p r g)),
        (replace_last-gt (successor_step k) IsBytes (successor_step-gt k) [] p r
            (IsBytes-path k p v.components) g).0,
      )
]

-- Where `successor` finds nothing for a valid path, that path is the greatest valid path.
pub successor-none :
    (k : Limits) (p q : WillowPath)
    → IsPath k p
    → successor k p ≡ none
    → IsPath k q
    → ¬ (path_cmp p q ≡ lt)
successor-none k p q v h w l = elim (successor_cases k p v) [
  | inl (n, e) ↦ cc
  | inr (n, e) ↦ cc (
    replace_last-none (successor_step k) (Admissible k) (successor_step-none k) [] p q (sym e ∙ h)
        (Fits-path k q w) l,
    full_count k p q n w l,
  )
]
