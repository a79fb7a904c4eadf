-- ===== src/Path/Successor/Gap.antt =====
-- Where `successor` is not the least greater path: its fixed-width increment leaves zero bytes behind
-- the byte that it raises, and the path without them lies in between.
use Prim.Native.Nat.Ordering.{lt}
use willow_rs.Prelude.{
  ℕ, suc, zero, ◌-◌, ◌<◌, ◌≡◌, refl, sym, ap, ◌∙◌, true, false, Option, some, List, [], ◌∷◌, ◌++◌,
  arith, length, All, inl, inr, append-nil, append_assoc,
}
use willow_rs.Prelude.Order.{◌≺◌, cmp_list, list_ord, nat_ord, cmp_list_self}
use willow_rs.Prelude.Backward.{replace_last}
use willow_rs.Path.{Limits, Component, WillowPath, IsPath, IsComponent, path_cmp}
use willow_rs.Path.Successor.{successor, all_255, greater_but_not_prefixed}
use willow_rs.Path.Successor.Bytes.{zeros}
use willow_rs.Path.Successor.Order.{IsBytes}
use willow_rs.Path.Successor.Step.{room, successor_step, greater_step}
use willow_rs.Path.Successor.Greater.{greater-replace_last, greater_but_not_prefixed_lem}
use willow_rs.Path.Successor.Next.{successor_cases}
use willow_rs.Path.Successor.Admissible.{increment_lem}
use willow_rs.Path.Successor.Exact.{ends_in_255, length-raise_cut}

replace_last-snoc :
    (step : List Component → Component → Option Component) (pre front : List Component)
    (c y : Component)
    → step (pre ++ front) c ≡ some y
    → replace_last step pre (front ++ (c ∷ [])) ≡ some (front ++ (y ∷ []))
unfolding replace_last
replace_last-snoc step pre [] c y h =
    let e : step pre c ≡ some y = ap (λ t. step t c) (sym (append-nil pre)) ∙ h in rw e
replace_last-snoc step pre (a ∷ front) c y h =
    let e = ap (λ t. step t c) (append_assoc pre (a ∷ []) front) ∙ h in
    rw (replace_last-snoc step (pre ++ (a ∷ [])) front c y e)

zeros-gt : (d : Component) (n : ℕ) → 0 < n → d ≺ d ++ zeros n
unfolding cmp_list
zeros-gt [] zero h = absurd (omega arith)
zeros-gt [] (suc n) h = refl
zeros-gt (b ∷ d) n h = ground (arith, zeros-gt d n h)

padded-gt :
    (front : List Component) (d : Component) (n : ℕ)
    → 0 < n
    → front ++ (d ∷ []) ≺ front ++ ((d ++ zeros n) ∷ [])
unfolding cmp_list
padded-gt [] d n h = ground (arith, zeros-gt d n h)
padded-gt (a ∷ front) d n h = ground (arith, cmp_list_self a, padded-gt front d n h)

last-IsBytes :
    (k : Limits) (front : List Component) (c : Component)
    → All (IsComponent k) (front ++ (c ∷ []))
    → IsBytes c
last-IsBytes k [] c h = h.0.bytes
last-IsBytes k (a ∷ front) c h = last-IsBytes k front c h.1

-- A valid path of the greatest number of components, whose last component has the greatest length,
-- ends in 255 and has a byte below 255: there `successor` returns a path that is not the least
-- greater one, since the path that `greater_but_not_prefixed` returns is valid and lies in between.
pub successor_gap :
    (k : Limits) (front : List Component) (c : Component)
    → IsPath k (front ++ (c ∷ []))
    → length (front ++ (c ∷ [])) ≡ k.max_component_count
    → length c ≡ k.max_component_length
    → ends_in_255 c ≡ true
    → all_255 c ≡ false
    → (r g : WillowPath) × (successor k (front ++ (c ∷ [])) ≡ some r)
      × (greater_but_not_prefixed k (front ++ (c ∷ [])) ≡ some g)
      × IsPath k g
      × (path_cmp (front ++ (c ∷ [])) g ≡ lt)
      × (path_cmp g r ≡ lt)
successor_gap k front c v count full ends not_all =
    let bytes = last-IsBytes k front c v.components in
    let (d, e, f) = increment_lem c bytes not_all in
    let n = length c - length d in
    let closed : room k front c ≡ false = ground arith in
    let p = front ++ (c ∷ []) in
    let next : successor_step k front c ≡ some (d ++ zeros n) = rw (closed, not_all) (ap some f) in
    let cut : greater_step k front c ≡ some d = rw closed e in
    let g = greater-replace_last k p ∙ replace_last-snoc (greater_step k) [] front c d cut in
    let (valid, above, _, _) = greater_but_not_prefixed_lem k p (front ++ (d ∷ [])) v g in
    (
      front ++ ((d ++ zeros n) ∷ []),
      front ++ (d ∷ []),
      (elim (successor_cases k p v) [
        | inl (less, _) ↦ absurd (omega arith)
        | inr (_, s) ↦ s ∙ replace_last-snoc (successor_step k) [] front c (d ++ zeros n) next
      ]),
      g,
      valid,
      above,
      padded-gt front d n (omega (arith, length-raise_cut [] c d ends e)),
    )
