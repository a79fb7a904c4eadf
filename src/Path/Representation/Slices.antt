-- ===== src/Path/Representation/Slices.antt =====
-- Slices and offsets of buffers: lists of bytes that are put together.
use willow_rs.Prelude.{
  ℕ, suc, ◌+◌, ◌-◌, ◌*◌, ◌≡◌, refl, ap, some, List, [], ◌∷◌, ◌++◌, length, take, length-append,
  arith, append_assoc, ◌⊎◌, inl, inr,
}
use willow_rs.Path.{Component, WillowPath, path_length}
use willow_rs.Path.Construct.{path_length-append}
use willow_rs.Path.Representation.{drop, slice}

pub drop-length : (xs ys : List ℕ) → drop (length xs) (xs ++ ys) ≡ ys
drop-length [] ys = refl
drop-length (x ∷ xs) ys = drop-length xs ys

pub take-append : (xs ys : List ℕ) → take (length xs) (xs ++ ys) ≡ xs
take-append [] ys = refl
take-append (x ∷ xs) ys = ap (λ (t : List ℕ). x ∷ t) (take-append xs ys)

pub add_sub : (a b : ℕ) → (a + b) - a ≡ b
add_sub a b = omega arith

-- A slice is the middle of the list, where the offsets are those of the middle.
pub slice-middle :
    (before middle after : List ℕ) (start end : ℕ)
    → start ≡ length before
    → end ≡ length before + length middle
    → slice (before ++ (middle ++ after)) start end ≡ some middle
slice-middle before middle after start end a b =
    rw
      (
        a,
        b,
        drop-length before (middle ++ after),
        add_sub (length before) (length middle),
        take-append middle after,
      )
      (ground (arith, length-append before (middle ++ after), length-append middle after))

unfoldable pub flat : WillowPath → List ℕ
flat [] = []
flat (c ∷ cs) = c ++ flat cs

pub length-flat : (p : WillowPath) → length (flat p) ≡ path_length p
unfolding flat path_length
length-flat [] = refl
length-flat (c ∷ p) = omega (arith, length-flat p, length-append c (flat p))

pub flat-append : (p q : WillowPath) → flat (p ++ q) ≡ flat p ++ flat q
unfolding flat
flat-append [] q = refl
flat-append (c ∷ p) q = rw (flat-append p q, append_assoc c (flat p) (flat q)) refl

pub length_snoc : (p : WillowPath) (d : Component) → length (p ++ (d ∷ [])) ≡ suc (length p)
length_snoc p d = omega (arith, length-append p (d ∷ []))

pub path_length_snoc :
    (p : WillowPath) (d : Component) → path_length (p ++ (d ∷ [])) ≡ path_length p + length d
unfolding path_length
path_length_snoc p d = omega (arith, path_length-append p (d ∷ []))

pub zero_plus : (a : ℕ) → 0 + a ≡ a
zero_plus a = omega arith

pub regroup_sum : (t s w r f : List ℕ) → t ++ ((s ++ (w ++ r)) ++ f) ≡ (t ++ s) ++ (w ++ (r ++ f))
regroup_sum t s w r f =
    rw (append_assoc t s (w ++ (r ++ f)), append_assoc s (w ++ r) f, append_assoc w r f) refl

pub regroup_component : (t s p r : List ℕ) → t ++ (s ++ (p ++ r)) ≡ (t ++ (s ++ p)) ++ r
regroup_component t s p r = rw (append_assoc t (s ++ p) r, append_assoc s p r) refl

pub add_assoc : (a b c : ℕ) → (a + b) + c ≡ a + (b + c)
add_assoc a b c = omega arith

pub snoc-cases :
    (p : WillowPath) → (p ≡ []) ⊎ ((q : WillowPath) × (c : Component) × (p ≡ q ++ (c ∷ [])))
snoc-cases [] = inl refl
snoc-cases (c ∷ p) = elim (snoc-cases p) [
  | inl e ↦ inr ([], c, ap (λ (t : WillowPath). c ∷ t) e)
  | inr (q, d, e) ↦ inr (c ∷ q, d, ap (λ (t : WillowPath). c ∷ t) e)
]

pub next_mul : (a b : ℕ) → (b + 1) * a ≡ a + a * b
next_mul a b = ground arith

pub mul_next : (a b : ℕ) → a * (b + 1) ≡ a + a * b
mul_next a b = ground arith
