-- ===== src/Path/Successor/Exact.antt =====
-- Where `successor` returns the least greater path: `fixed_width_increment` keeps the length of a
-- component, so it finds the least greater component only if the byte it raises is the last one.
use Prim.Native.Nat.Ordering.{lt}
use willow_rs.Prelude.{
  ℕ, ◌+◌, ◌-◌, ◌<◌, ◌≡◌, sym, ap, ◌∙◌, Bool, true, false, some, List, [], ◌∷◌, ◌++◌, arith, ◌==◌,
  length, All, Bool-cases, inl, inr, Option-cases, append-nil,
}
use mathlib.Core.Path.{subst}
use willow_rs.Prelude.Order.{◌≺◌, is_le, less_eq, list_ord, nat_ord}
use willow_rs.Prelude.Backward.{replace_last}
use willow_rs.Prelude.Least.{prefixed, replace_last-least}
use willow_rs.Path.{Limits, Component, WillowPath, IsPath, path_cmp}
use willow_rs.Path.Successor.{successor, all_255, fixed_width_increment}
use willow_rs.Path.Successor.Bytes.{byte_step, raise, zeros, raise-none_iff, raise-some_iff}
use willow_rs.Path.Successor.Order.{IsBytes, append_zero-least, raise-least}
use willow_rs.Path.Successor.Step.{Admissible, room, successor_step, full_stuck}
use willow_rs.Path.Successor.Next.{successor_cases, full_count, append_empty-least}
use willow_rs.Path.Successor.Admissible.{
  increment_lem, successor_step-none, Fits-path, IsBytes-path,
}

-- The last byte is 255.
abbrev pub ends_in_255 : Component → Bool
ends_in_255 [] = false
ends_in_255 (b ∷ []) = b == 255
ends_in_255 (b ∷ x ∷ c) = ends_in_255 (x ∷ c)

ends_in-all_255 : (b : ℕ) (c : Component) → all_255 (b ∷ c) ≡ true → ends_in_255 (b ∷ c) ≡ true
unfolding all_255
ends_in-all_255 b [] h = ground arith
ends_in-all_255 b (x ∷ c) h = ends_in-all_255 x c (ground arith)

length-raise_exact :
    (pre c d : List ℕ)
    → IsBytes c
    → ends_in_255 c ≡ false
    → replace_last byte_step pre c ≡ some d
    → length d ≡ length c
unfolding replace_last
length-raise_exact pre [] d v n h = cc
length-raise_exact pre (b ∷ []) d v n h = ground arith
length-raise_exact pre (b ∷ x ∷ c) d v n h =
    elim (Option-cases (replace_last byte_step (pre ++ (b ∷ [])) (x ∷ c))) [
      | inl e ↦ cc (ends_in-all_255 x c (raise-none_iff (pre ++ (b ∷ [])) (x ∷ c) v.1 e), n)
      | inr (t, e) ↦
          let f : b ∷ t ≡ d = ground arith in
          omega (arith, ap length f, length-raise_exact (pre ++ (b ∷ [])) (x ∷ c) t v.1 n e)
    ]

pub length-raise_cut :
    (pre c d : List ℕ)
    → ends_in_255 c ≡ true
    → replace_last byte_step pre c ≡ some d
    → length d < length c
unfolding replace_last
length-raise_cut pre [] d n h = cc
length-raise_cut pre (b ∷ []) d n h = ground arith
length-raise_cut pre (b ∷ x ∷ c) d n h =
    elim (Option-cases (replace_last byte_step (pre ++ (b ∷ [])) (x ∷ c))) [
      | inl e ↦ let f : (b + 1) ∷ [] ≡ d = ground arith in omega (arith, ap length f)
      | inr (t, e) ↦
          let f : b ∷ t ≡ d = ground arith in
          omega (arith, ap length f, length-raise_cut (pre ++ (b ∷ [])) (x ∷ c) t n e)
    ]

-- Incrementing this component finds the least greater one.
abbrev pub IsExact : Component → Type 0
IsExact c = ends_in_255 c ≡ true → all_255 c ≡ true

increment_exact :
    (c d : Component)
    → IsBytes c
    → IsExact c
    → raise c ≡ some d
    → fixed_width_increment c ≡ d ++ zeros (length c - length d)
    → fixed_width_increment c ≡ d
increment_exact c d v x e f = elim (Bool-cases (ends_in_255 c)) [
  | inl q ↦ cc (x q, raise-some_iff [] c d e)
  | inr q ↦
      let n : length c - length d ≡ 0 = omega (arith, length-raise_exact [] c d v q e) in
      f ∙ ap (λ m. d ++ zeros m) n ∙ append-nil d
]

abbrev IsExactBytes : Component → Type 0
IsExactBytes c = IsBytes c × IsExact c

successor_step-least :
    (k : Limits) (pre : List Component) (c y z : Component)
    → IsExactBytes c
    → successor_step k pre c ≡ some y
    → Admissible k pre z
    → c ≺ z
    → less_eq y z ≡ true
successor_step-least k pre c y z x h v l = elim (Bool-cases (room k pre c)) [
  | inl r ↦
      let e : c ++ (0 ∷ []) ≡ y = ground arith in
      subst (λ t. less_eq t z ≡ true) e (append_zero-least c z l)
  | inr r ↦ elim (Bool-cases (prefixed c z)) [
    | inl p ↦ absurd (full_stuck k pre c z r p v l)
    | inr n ↦
        let q : all_255 c ≡ false = ground arith in
        let (d, e, f) = increment_lem c x.0 q in
        let g : fixed_width_increment c ≡ y = ground arith in
        subst (λ t. less_eq t z ≡ true) (sym (increment_exact c d x.0 x.1 e f) ∙ g)
          (raise-least c d z e v.0.bytes l n)
  ]
]

exact_bytes : (p : WillowPath) → All IsBytes p → All IsExact p → All IsExactBytes p
exact_bytes [] v x = tt
exact_bytes (c ∷ p) v x = ((v.0, x.0), exact_bytes p v.1 x.1)

-- If no component of a valid path ends in the byte 255, or all bytes of it are 255, then the path
-- that `successor` returns is at most every valid path that is greater.
pub successor-least :
    (k : Limits) (p r q : WillowPath)
    → IsPath k p
    → All IsExact p
    → successor k p ≡ some r
    → IsPath k q
    → path_cmp p q ≡ lt
    → is_le (path_cmp r q) ≡ true
successor-least k p r q v x h w l = elim (successor_cases k p v) [
  | inl (n, e) ↦
      let g : p ++ ([] ∷ []) ≡ r = cc in
      subst (λ t. is_le (path_cmp t q) ≡ true) g (append_empty-least p q l)
  | inr (n, e) ↦
      replace_last-least (successor_step k) (Admissible k) (successor_step-none k) IsExactBytes
        (successor_step-least k) [] p r q (exact_bytes p (IsBytes-path k p v.components) x)
        (sym e ∙ h) (Fits-path k q w) l (full_count k p q n w l)
]
