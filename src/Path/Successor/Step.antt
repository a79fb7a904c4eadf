-- ===== src/Path/Successor/Step.antt =====
-- One round of the two loops as a step on components, and what it promises in the order of
-- components: the replacement is greater, admissible, and the least possible one.
use willow_rs.Prelude.{
  ℕ, zero, suc, ◌+◌, ◌-◌, ◌≤◌, ◌≡◌, sym, ap, ◌∙◌, Bool, true, false, ◌&&◌, not, Option, none, some,
  List, [], ◌∷◌, ◌++◌, arith, ltb, if◌then◌else◌, length, get_elem?, take, Bool-cases, inl, inr,
  Option-cases,
}
use mathlib.Core.Option
use mathlib.Core.Path.{fun_ext}
use willow_rs.Prelude.Order.{◌≺◌, list_ord, nat_ord}
use willow_rs.Prelude.Backward.{
  backward, backward-map, replace_at, replace_last, backward-replace_at,
}
use willow_rs.Prelude.Least.{prefixed, prefixed-lt}
use willow_rs.Path.{
  Limits, Component, WillowPath, path_length, sum_of_lengths_for_component, IsComponent,
}
use willow_rs.Path.Successor.{
  all_255, fixed_width_increment, next_component_length, increment_at, can_append_zero,
  greater_body, successor_body,
}
use willow_rs.Path.Successor.Bytes.{byte_step, raise}

-- Admissible behind the components `pre`.
abbrev pub Admissible : Limits → List Component → Component → Type 0
Admissible k pre c = IsComponent k c × (path_length pre + length c ≤ k.max_path_length)

-- Whether a zero byte fits behind `c`.
abbrev pub room : Limits → List Component → Component → Bool
room k pre c =
    ltb (length c) k.max_component_length && ltb (path_length pre + length c) k.max_path_length

abbrev pub greater_step : Limits → List Component → Component → Option Component
greater_step k pre c = if room k pre c then some (c ++ (0 ∷ [])) else raise c

abbrev pub successor_step : Limits → List Component → Component → Option Component
successor_step k pre c =
    if room k pre c
    then some (c ++ (0 ∷ []))
    else (if not (all_255 c) then some (fixed_width_increment c) else none)

sum_of_lengths_lem :
    (p : WillowPath) (i : ℕ) (c : Component)
    → get_elem? p i ≡ some c
    → sum_of_lengths_for_component p i ≡ path_length (take i p) + length c
sum_of_lengths_lem [] i c h = cc
sum_of_lengths_lem (a ∷ p) zero c h = ground arith
sum_of_lengths_lem (a ∷ p) (suc i) c h = omega (arith, sum_of_lengths_lem p i c h)

increment_at_lem :
    (c : Component) (j b : ℕ)
    → get_elem? c j ≡ some b
    → increment_at (take (suc j) c) j ≡ take j c ++ ((b + 1) ∷ [])
unfolding increment_at
increment_at_lem [] j b h = cc
increment_at_lem (x ∷ c) zero b h = ground arith
increment_at_lem (x ∷ c) (suc j) b h = ap (λ (t : List ℕ). x ∷ t) (increment_at_lem c j b h)

increment_at-raised :
    (c : Component) (j b : ℕ)
    → get_elem? c j ≡ some b
    → increment_at (take (j + 1) c) (j + 1 - 1) ≡ take j c ++ ((b + 1) ∷ [])
increment_at-raised c j b h =
    let one : j + 1 ≡ suc j = omega arith in
    let back : suc j - 1 ≡ j = omega arith in
    ap (λ n. increment_at (take n c) (n - 1)) one
    ∙ ap (increment_at (take (suc j) c)) back
    ∙ increment_at_lem c j b h

-- The round of `next_component_length` at a byte, and the increment of the byte it finds.
raised_at :
    (c : Component) (j : ℕ)
    → Option.map {A = ℕ} {B = Component}
        (λ n. increment_at (take n c) (n - 1))
        (elim (get_elem? c j) [ none ↦ none | some b ↦ if ltb b 255 then some (j + 1) else none ])
      ≡ replace_at byte_step [] c j
unfolding replace_at
raised_at c j = elim (Option-cases (get_elem? c j)) [
  | inl e ↦ rw (e, replace_at)
  | inr (b, e) ↦ elim (Bool-cases (ltb b 255)) [
    | inl q ↦ rw (e, replace_at, q) (ap some (increment_at-raised c j b e))
    | inr q ↦ rw (e, replace_at, q)
  ]
]

next_component_length-raise :
    (c : Component)
    → Option.map (λ n. increment_at (take n c) (n - 1)) (next_component_length c) ≡ raise c
unfolding next_component_length
next_component_length-raise c =
    sym (backward-map (λ n. increment_at (take n c) (n - 1)) _ (length c))
    ∙ ap (λ f. backward f (length c)) (fun_ext (raised_at c))
    ∙ backward-replace_at byte_step [] c

can_append_zero-room :
    (k : Limits) (p : WillowPath) (i : ℕ) (c : Component)
    → get_elem? p i ≡ some c
    → can_append_zero k p i c ≡ room k (take i p) c
unfolding can_append_zero
can_append_zero-room k p i c h = rw (sum_of_lengths_lem p i c h)

greater_body-step :
    (k : Limits) (p : WillowPath) (i : ℕ) → greater_body k p i ≡ replace_at (greater_step k) [] p i
unfolding greater_body replace_at
greater_body-step k p i = elim (Option-cases (get_elem? p i)) [
  | inl e ↦ rw (e, greater_body, replace_at)
  | inr (c, e) ↦
      rw (e, greater_body, replace_at)
        (ground (arith, can_append_zero-room k p i c e, next_component_length-raise c))
]

successor_body-step :
    (k : Limits) (p : WillowPath) (i : ℕ)
    → successor_body k p i ≡ replace_at (successor_step k) [] p i
unfolding successor_body replace_at
successor_body-step k p i = elim (Option-cases (get_elem? p i)) [
  | inl e ↦ rw (e, successor_body, replace_at)
  | inr (c, e) ↦ rw (e, successor_body, replace_at) (ground (arith, can_append_zero-room k p i c e))
]

pub backward-greater_body :
    (k : Limits) (p : WillowPath)
    → backward (greater_body k p) (length p) ≡ replace_last (greater_step k) [] p
backward-greater_body k p =
    ap (λ f. backward f (length p)) (fun_ext (greater_body-step k p))
    ∙ backward-replace_at (greater_step k) [] p

pub backward-successor_body :
    (k : Limits) (p : WillowPath)
    → backward (successor_body k p) (length p) ≡ replace_last (successor_step k) [] p
backward-successor_body k p =
    ap (λ f. backward f (length p)) (fun_ext (successor_body-step k p))
    ∙ backward-replace_at (successor_step k) [] p

-- A component of 255s that cannot be lengthened has no greater admissible one.
pub full_stuck :
    (k : Limits) (pre : List Component) (c z : Component)
    → room k pre c ≡ false
    → prefixed c z ≡ true
    → Admissible k pre z
    → ¬ (c ≺ z)
full_stuck k pre c z r h (v, f) l = omega (arith, prefixed-lt c z h l, full (v.length_fits) f)
  where
    full :
        length z ≤ k.max_component_length
        → path_length pre + length z ≤ k.max_path_length
        → length z ≤ length c
    full a b = ground arith
