-- ===== src/Path/Successor/Bytes.antt =====
-- The byte loops inside `successor` and `greater_but_not_prefixed`, against one description of the
-- least greater component: raise the last byte that is below 255 and drop what follows it.
use willow_rs.Prelude.{
  ℕ, zero, suc, ◌+◌, ◌-◌, ◌≤◌, ◌<◌, ◌≡◌, refl, ap, ◌∙◌, true, false, ◌&&◌, Option, none, some, List,
  [], ◌∷◌, ◌++◌, arith, ltb, ◌==◌, if◌then◌else◌, length, length-append, All, reverse,
  reverse-append, Bool-cases, inl, inr,
}
use willow_rs.Prelude.Order.{list_ord, nat_ord}
use willow_rs.Prelude.Backward.{replace_last}
use willow_rs.Path.{Component}
use willow_rs.Path.Successor.{all_255, increment_loop, fixed_width_increment}

abbrev pub byte_step : List ℕ → ℕ → Option ℕ
byte_step pre b = if ltb b 255 then some (b + 1) else none

-- The least component that is greater than this one and does not extend it.
abbrev pub raise : Component → Option Component
raise c = replace_last byte_step [] c

abbrev pub zeros : ℕ → List ℕ
zeros zero = []
zeros (suc n) = 0 ∷ zeros n

zeros-snoc : (n : ℕ) → zeros n ++ (0 ∷ []) ≡ 0 ∷ zeros n
zeros-snoc zero = refl
zeros-snoc (suc n) = ap (λ (t : List ℕ). 0 ∷ t) (zeros-snoc n)

reverse-cons : (b : ℕ) (c : List ℕ) → reverse (b ∷ c) ≡ reverse c ++ (b ∷ [])
reverse-cons b c = reverse-append (b ∷ []) c

reverse-snoc : (b : ℕ) (c : List ℕ) → reverse (c ++ (b ∷ [])) ≡ b ∷ reverse c
reverse-snoc b c = reverse-append c (b ∷ [])

length-reverse : (c : List ℕ) → length (reverse c) ≡ length c
length-reverse [] = refl
length-reverse (b ∷ c) =
    rw reverse-cons (omega (arith, length-append (reverse c) (b ∷ []), length-reverse c))

reverse-zeros : (n : ℕ) → reverse (zeros n) ≡ zeros n
reverse-zeros zero = refl
reverse-zeros (suc n) =
    reverse-cons 0 (zeros n) ∙ ap (λ t. t ++ (0 ∷ [])) (reverse-zeros n) ∙ zeros-snoc n

all_255-snoc : (xs : List ℕ) (b : ℕ) → all_255 (xs ++ (b ∷ [])) ≡ all_255 xs && (b == 255)
unfolding all_255
all_255-snoc [] b = ground arith
all_255-snoc (x ∷ xs) b = ground (arith, all_255-snoc xs b)

all_255-reverse : (c : List ℕ) → all_255 (reverse c) ≡ all_255 c
all_255-reverse [] = refl
all_255-reverse (b ∷ c) =
    rw (reverse-cons b c, all_255-snoc (reverse c) b, all_255-reverse c)
      (unfold all_255 in ground arith)

increment_loop-snoc :
    (xs : List ℕ) (b : ℕ)
    → increment_loop (xs ++ (b ∷ [])) ≡ (
        if all_255 xs
        then zeros (length xs) ++ ((if b == 255 then 0 else b + 1) ∷ [])
        else increment_loop xs ++ (b ∷ []))
unfolding increment_loop all_255
increment_loop-snoc [] b = ground arith
increment_loop-snoc (x ∷ xs) b = ground (arith, increment_loop-snoc xs b)

-- The loop read from the front: a byte changes exactly if all bytes behind it are 255.
fixed_width_increment-cons :
    (b : ℕ) (c : Component)
    → fixed_width_increment (b ∷ c) ≡ (
        if all_255 c
        then (if b == 255 then 0 else b + 1) ∷ zeros (length c)
        else b ∷ fixed_width_increment c)
unfolding fixed_width_increment
fixed_width_increment-cons b c = elim (Bool-cases (all_255 c)) [
  | inl e ↦
      let raised : Component = (if b == 255 then 0 else b + 1) ∷ [] in
      let stop : increment_loop (reverse c ++ (b ∷ [])) ≡ zeros (length c) ++ raised =
        increment_loop-snoc (reverse c) b ∙ rw (all_255-reverse c, e, length-reverse c) in
      loop ∙ ap reverse stop ∙ reverse-snoc _ (zeros (length c)) ∙ rw (e, reverse-zeros (length c))
  | inr e ↦
      let stop : increment_loop (reverse c ++ (b ∷ [])) ≡ increment_loop (reverse c) ++ (b ∷ []) =
        increment_loop-snoc (reverse c) b ∙ rw (all_255-reverse c, e) in
      loop ∙ ap reverse stop ∙ reverse-snoc b (increment_loop (reverse c)) ∙ rw e
]
  where
    loop : fixed_width_increment (b ∷ c) ≡ reverse (increment_loop (reverse c ++ (b ∷ [])))
    loop = ap (λ t. reverse (increment_loop t)) (reverse-cons b c)

pub raise-none_iff :
    (pre c : List ℕ) → All (λ b. b < 256) c → replace_last byte_step pre c ≡ none → all_255 c ≡ true
unfolding all_255 replace_last
raise-none_iff pre [] v h = refl
raise-none_iff pre (b ∷ c) v h = ground (arith, raise-none_iff (pre ++ (b ∷ [])) c)

pub raise-some_iff : (pre c d : List ℕ) → replace_last byte_step pre c ≡ some d → all_255 c ≡ false
unfolding all_255 replace_last
raise-some_iff pre [] d h = cc
raise-some_iff pre (b ∷ c) [] h = ground arith
raise-some_iff pre (b ∷ c) (x ∷ d) h = ground (arith, raise-some_iff (pre ++ (b ∷ [])) c d)

pub length-raise : (pre c d : List ℕ) → replace_last byte_step pre c ≡ some d → length d ≤ length c
unfolding replace_last
length-raise pre [] d h = cc
length-raise pre (b ∷ c) [] h = ground arith
length-raise pre (b ∷ c) (x ∷ d) h = ground (arith, length-raise (pre ++ (b ∷ [])) c d)

-- `fixed_width_increment` raises the component and pads it with zeros to its old length.
pub increment-raise :
    (pre c d : List ℕ)
    → All (λ b. b < 256) c
    → replace_last byte_step pre c ≡ some d
    → fixed_width_increment c ≡ d ++ zeros (length c - length d)
unfolding replace_last
increment-raise pre [] d v h = cc
increment-raise pre (b ∷ c) [] v h = ground arith
increment-raise pre (b ∷ c) (x ∷ d) v h =
    fixed_width_increment-cons b c
    ∙ ground (
      arith,
      raise-none_iff (pre ++ (b ∷ [])) c,
      raise-some_iff (pre ++ (b ∷ [])) c d,
      increment-raise (pre ++ (b ∷ [])) c d,
    )
