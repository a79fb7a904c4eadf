-- ===== src/Path/Successor/Admissible.antt =====
-- What a round of the two loops promises: the replacement of a component is greater, admissible,
-- and at most every greater admissible component; and whole paths as lists of admissible ones.
use willow_rs.Prelude.{
  ℕ, zero, suc, ◌+◌, ◌-◌, ◌≤◌, ◌<◌, ◌≡◌, sym, ◌∙◌, true, false, Option, none, some, List, [], ◌∷◌,
  ◌++◌, arith, length, All, All-append, length-append, Bool-cases, inl, inr, Option-cases,
}
use mathlib.Core.Path.{subst}
use willow_rs.Prelude.Order.{◌≺◌, less_eq, list_ord, nat_ord}
use willow_rs.Prelude.Backward.{replace_last}
use willow_rs.Prelude.Least.{prefixed, Fits}
use willow_rs.Path.{Limits, Component, WillowPath, path_length, IsComponent, IsPath}
use willow_rs.Path.Construct.{path_length-append}
use willow_rs.Path.Successor.{all_255, fixed_width_increment}
use willow_rs.Path.Successor.Bytes.{
  raise, zeros, raise-none_iff, raise-some_iff, length-raise, increment-raise,
}
use willow_rs.Path.Successor.Order.{
  IsBytes, raise-gt, raise-IsBytes, raise-none, raise-least, append_zero-gt, append_zero-least,
  append_zero-IsBytes, lt_append,
}
use willow_rs.Path.Successor.Step.{Admissible, room, greater_step, successor_step, full_stuck}

pub greater_step-gt :
    (k : Limits) (pre : List Component) (c y : Component)
    → Unit {0}
    → greater_step k pre c ≡ some y
    → c ≺ y
greater_step-gt k pre c y u h = ground (arith, append_zero-gt c, raise-gt c y)

append_zero-Admissible :
    (k : Limits) (pre : List Component) (c : Component)
    → room k pre c ≡ true
    → Admissible k pre c
    → Admissible k pre (c ++ (0 ∷ []))
append_zero-Admissible k pre c r (v, f) = (
  record {
    length_fits = ground (arith, length-append c (0 ∷ []));
    bytes = append_zero-IsBytes c v.bytes;
  },
  ground (arith, length-append c (0 ∷ [])),
)

raise-Admissible :
    (k : Limits) (pre : List Component) (c d : Component)
    → raise c ≡ some d
    → Admissible k pre c
    → Admissible k pre d
raise-Admissible k pre c d h (v, f) = (
  record {
    length_fits = omega (arith, length-raise [] c d h, v.length_fits);
    bytes = raise-IsBytes c d h v.bytes;
  },
  omega (arith, length-raise [] c d h),
)

pub greater_step_keeps :
    (k : Limits) (pre : List Component) (c y : Component)
    → greater_step k pre c ≡ some y
    → Admissible k pre c
    → Admissible k pre y
greater_step_keeps k pre c y h v = elim (Bool-cases (room k pre c)) [
  | inl r ↦
      let e : c ++ (0 ∷ []) ≡ y = ground arith in
      subst (Admissible k pre) e (append_zero-Admissible k pre c r v)
  | inr r ↦ raise-Admissible k pre c y (ground arith) v
]

pub greater_step-none :
    (k : Limits) (pre : List Component) (c z : Component)
    → greater_step k pre c ≡ none
    → Admissible k pre z
    → ¬ (c ≺ z)
greater_step-none k pre c z h v l =
    let r : room k pre c ≡ false = ground arith in
    full_stuck k pre c z r (raise-none c z (ground arith) v.0.bytes l) v l

pub greater_step-least :
    (k : Limits) (pre : List Component) (c y z : Component)
    → Unit {0}
    → greater_step k pre c ≡ some y
    → Admissible k pre z
    → c ≺ z
    → less_eq y z ≡ true
greater_step-least k pre c y z u h v l = elim (Bool-cases (room k pre c)) [
  | inl r ↦
      let e : c ++ (0 ∷ []) ≡ y = ground arith in
      subst (λ t. less_eq t z ≡ true) e (append_zero-least c z l)
  | inr r ↦ elim (Bool-cases (prefixed c z)) [
    | inl p ↦ absurd (full_stuck k pre c z r p v l)
    | inr n ↦ raise-least c y z (ground arith) v.0.bytes l n
  ]
]

-- A component that the fixed-width increment changes can be raised, and the increment pads.
pub increment_lem :
    (c : Component)
    → IsBytes c
    → all_255 c ≡ false
    → (d : Component) × (raise c ≡ some d)
      × (fixed_width_increment c ≡ d ++ zeros (length c - length d))
increment_lem c v h = elim (Option-cases (raise c)) [
  | inl e ↦ cc (raise-none_iff [] c v e)
  | inr (d, e) ↦ (d, e, increment-raise [] c d v e)
]

length-zeros : (n : ℕ) → length (zeros n) ≡ n
length-zeros zero = omega arith
length-zeros (suc n) = omega (arith, length-zeros n)

zeros-IsBytes : (n : ℕ) → IsBytes (zeros n)
zeros-IsBytes zero = tt
zeros-IsBytes (suc n) = (omega arith, zeros-IsBytes n)

pub successor_step-gt :
    (k : Limits) (pre : List Component) (c y : Component)
    → IsBytes c
    → successor_step k pre c ≡ some y
    → c ≺ y
successor_step-gt k pre c y v h = elim (Bool-cases (room k pre c)) [
  | inl r ↦ ground (arith, append_zero-gt c)
  | inr r ↦
      let q : all_255 c ≡ false = ground arith in
      let (d, e, f) = increment_lem c v q in
      let g : fixed_width_increment c ≡ y = ground arith in
      let (l, n) = raise-gt c d e in
      subst (λ t. c ≺ t) (sym f ∙ g) (lt_append c d (zeros (length c - length d)) l n)
]

pub successor_step_keeps :
    (k : Limits) (pre : List Component) (c y : Component)
    → successor_step k pre c ≡ some y
    → Admissible k pre c
    → Admissible k pre y
successor_step_keeps k pre c y h v = elim (Bool-cases (room k pre c)) [
  | inl r ↦
      let e : c ++ (0 ∷ []) ≡ y = ground arith in
      subst (Admissible k pre) e (append_zero-Admissible k pre c r v)
  | inr r ↦
      let q : all_255 c ≡ false = ground arith in
      let (d, e, f) = increment_lem c v.0.bytes q in
      let g : fixed_width_increment c ≡ y = ground arith in
      let n = length c - length d in
      let same : length (d ++ zeros n) ≡ length c =
        omega (arith, length-append d (zeros n), length-zeros n, length-raise [] c d e) in
      subst (Admissible k pre) (sym f ∙ g) (
        record {
          length_fits = omega (arith, same, v.0.length_fits);
          bytes =
              All-append (λ b. b < 256) d (zeros n) (raise-IsBytes c d e v.0.bytes)
                (zeros-IsBytes n);
        },
        omega (arith, same, v.1),
      )
]

pub successor_step-none :
    (k : Limits) (pre : List Component) (c z : Component)
    → successor_step k pre c ≡ none
    → Admissible k pre z
    → ¬ (c ≺ z)
successor_step-none k pre c z h v l =
    let r : room k pre c ≡ false = ground arith in
    let q : all_255 c ≡ true = ground arith in
    elim (Option-cases (raise c)) [
      | inl e ↦ full_stuck k pre c z r (raise-none c z e v.0.bytes l) v l
      | inr (d, e) ↦ cc (raise-some_iff [] c d e)
    ]

Fits-of_IsPath :
    (k : Limits) (pre p : List Component)
    → All (IsComponent k) p
    → path_length pre + path_length p ≤ k.max_path_length
    → Fits (Admissible k) pre p
Fits-of_IsPath k pre [] v h = tt
Fits-of_IsPath k pre (c ∷ p) v h = (
  (v.0, omega arith),
  Fits-of_IsPath k (pre ++ (c ∷ [])) p v.1 (omega (arith, path_length-append pre (c ∷ []))),
)

pub Fits-path : (k : Limits) (p : WillowPath) → IsPath k p → Fits (Admissible k) [] p
Fits-path k p v = Fits-of_IsPath k [] p v.components (omega (arith, v.length_fits))

components_of_Fits :
    (k : Limits) (pre p : List Component) → Fits (Admissible k) pre p → All (IsComponent k) p
components_of_Fits k pre [] f = tt
components_of_Fits k pre (c ∷ p) f = (f.0.0, components_of_Fits k (pre ++ (c ∷ [])) p f.1)

path_length_of_Fits :
    (k : Limits) (pre p : List Component)
    → Fits (Admissible k) pre p
    → path_length pre ≤ k.max_path_length
    → path_length pre + path_length p ≤ k.max_path_length
path_length_of_Fits k pre [] f h = omega arith
path_length_of_Fits k pre (c ∷ p) f h = omega (
  arith,
  path_length-append pre (c ∷ []),
  path_length_of_Fits k (pre ++ (c ∷ [])) p f.1
      (omega (arith, path_length-append pre (c ∷ []), f.0.1)),
)

pub IsPath-of_Fits :
    (k : Limits) (p : WillowPath)
    → Fits (Admissible k) [] p
    → length p ≤ k.max_component_count
    → IsPath k p
IsPath-of_Fits k p f n = record {
  components = components_of_Fits k [] p f;
  count_fits = n;
  length_fits = omega (arith, path_length_of_Fits k [] p f (omega arith));
}

pub All-unit : (p : WillowPath) → All (λ _. Unit {0}) p
All-unit [] = tt
All-unit (c ∷ p) = (tt, All-unit p)

pub IsBytes-path : (k : Limits) (p : WillowPath) → All (IsComponent k) p → All IsBytes p
IsBytes-path k [] h = tt
IsBytes-path k (c ∷ p) h = (h.0.bytes, IsBytes-path k p h.1)

-- A replacement leaves a list no longer than it was.
pub length-replace_last :
    (step : List Component → Component → Option Component) (pre p q : List Component)
    → replace_last step pre p ≡ some q
    → length q ≤ length p
unfolding replace_last
length-replace_last step pre [] q h = cc
length-replace_last step pre (c ∷ p) [] h = omega arith
length-replace_last step pre (c ∷ p) (d ∷ q) h =
    ground (arith, length-replace_last step (pre ++ (c ∷ [])) p q)
