-- ===== src/Path/Successor/Order.antt =====
-- Components in the lexicographic order of their bytes: the zero byte appended, and the raised byte.
use willow_rs.Prelude.{ℕ, ◌<◌, ◌≡◌, refl, true, false, none, some, List, [], ◌∷◌, ◌++◌, arith, All}
use willow_rs.Prelude.Order.{◌≺◌, less_eq, cmp_list, list_ord, nat_ord}
use willow_rs.Prelude.Least.{
  prefixed, Fits, replace_last-gt, replace_last-none, replace_last-least, replace_last-Fits,
}
use willow_rs.Path.{Component}
use willow_rs.Path.Successor.Bytes.{byte_step, raise}

abbrev pub IsBytes : Component → Type 0
IsBytes c = All (λ b. b < 256) c

abbrev IsByteAfter : List ℕ → ℕ → Type 0
IsByteAfter pre b = b < 256

Fits-of_bytes : (pre c : List ℕ) → IsBytes c → Fits IsByteAfter pre c
Fits-of_bytes pre [] h = tt
Fits-of_bytes pre (b ∷ c) h = (h.0, Fits-of_bytes (pre ++ (b ∷ [])) c h.1)

IsBytes-of_Fits : (pre c : List ℕ) → Fits IsByteAfter pre c → IsBytes c
IsBytes-of_Fits pre [] h = tt
IsBytes-of_Fits pre (b ∷ c) h = (h.0, IsBytes-of_Fits (pre ++ (b ∷ [])) c h.1)

byte_step-gt : (pre : List ℕ) (b y : ℕ) → Unit {0} → byte_step pre b ≡ some y → b ≺ y
byte_step-gt pre b y u h = ground arith

byte_step_keeps : (pre : List ℕ) (b y : ℕ) → byte_step pre b ≡ some y → b < 256 → y < 256
byte_step_keeps pre b y h v = ground arith

byte_step-none : (pre : List ℕ) (b z : ℕ) → byte_step pre b ≡ none → z < 256 → ¬ (b ≺ z)
byte_step-none pre b z h v l = ground arith

byte_step-least :
    (pre : List ℕ) (b y z : ℕ)
    → Unit {0}
    → byte_step pre b ≡ some y
    → z < 256
    → b ≺ z
    → less_eq y z ≡ true
byte_step-least pre b y z u h v l = ground arith

All-tt : (c : Component) → All (λ _. Unit {0}) c
All-tt [] = tt
All-tt (b ∷ c) = (tt, All-tt c)

pub raise-gt : (c d : Component) → raise c ≡ some d → (c ≺ d) × (prefixed c d ≡ false)
raise-gt c d h = replace_last-gt byte_step (λ _. Unit {0}) byte_step-gt [] c d (All-tt c) h

pub raise-IsBytes : (c d : Component) → raise c ≡ some d → IsBytes c → IsBytes d
raise-IsBytes c d h v =
    IsBytes-of_Fits [] d
      (replace_last-Fits byte_step IsByteAfter byte_step_keeps [] c d h (Fits-of_bytes [] c v))

pub raise-none : (c z : Component) → raise c ≡ none → IsBytes z → c ≺ z → prefixed c z ≡ true
raise-none c z h v l =
    replace_last-none byte_step IsByteAfter byte_step-none [] c z h (Fits-of_bytes [] z v) l

pub raise-least :
    (c d z : Component)
    → raise c ≡ some d
    → IsBytes z
    → c ≺ z
    → prefixed c z ≡ false
    → less_eq d z ≡ true
raise-least c d z h v l n =
    replace_last-least byte_step IsByteAfter byte_step-none (λ _. Unit {0}) byte_step-least [] c d z
      (All-tt c) h (Fits-of_bytes [] z v) l n

pub append_zero-gt : (c : Component) → c ≺ c ++ (0 ∷ [])
unfolding cmp_list
append_zero-gt [] = refl
append_zero-gt (b ∷ c) = ground (arith, append_zero-gt c)

pub append_zero-least : (c z : Component) → c ≺ z → less_eq (c ++ (0 ∷ [])) z ≡ true
unfolding cmp_list
append_zero-least [] [] l = cc
append_zero-least [] (x ∷ []) l = ground arith
append_zero-least [] (x ∷ y ∷ z) l = ground arith
append_zero-least (b ∷ c) [] l = cc
append_zero-least (b ∷ c) (x ∷ z) l = ground (arith, append_zero-least c z)

pub append_zero-IsBytes : (c : Component) → IsBytes c → IsBytes (c ++ (0 ∷ []))
append_zero-IsBytes [] h = omega arith
append_zero-IsBytes (b ∷ c) h = (h.0, append_zero-IsBytes c h.1)

-- Bytes behind a list that is already greater do not matter.
pub lt_append : (c d s : Component) → c ≺ d → prefixed c d ≡ false → c ≺ d ++ s
unfolding cmp_list prefixed
lt_append [] d s l n = cc
lt_append (b ∷ c) [] s l n = cc
lt_append (b ∷ c) (x ∷ d) s l n = ground (arith, lt_append c d s)
