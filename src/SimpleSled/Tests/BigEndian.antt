-- ===== src/SimpleSled/Tests/BigEndian.antt =====
-- Eight bytes, the most significant first: the encoding that `U64BE` of ufotofu_codec_endian
-- documents, with which the theorems on the keys are applied.
use willow_rs.Prelude.{
  ℕ, zero, suc, ◌+◌, ◌*◌, ◌/◌, ◌%◌, ◌^◌, ◌<◌, ◌≡◌, refl, ap, ◌∙◌, Option, none, some, List, [], ◌∷◌,
  ◌++◌, arith, append_assoc, compare, length, length-append,
}
use willow_rs.Prelude.Order.{cmp_list, then_with, nat_ord}
use willow_rs.SimpleSled.Codec.{U64Codec}

unfoldable pub digits : ℕ → ℕ → List ℕ
digits zero n = []
digits (suc w) n = digits w (n / 256) ++ (n % 256 ∷ [])

unfoldable pub undigits : ℕ → ℕ → List ℕ → Option (ℕ × List ℕ)
undigits zero acc input = some (acc, input)
undigits (suc w) acc [] = none
undigits (suc w) acc (b ∷ input) = undigits w (acc * 256 + b) input

bound : ℕ → ℕ
bound zero = 1
bound (suc w) = 256 * bound w

pub length-digits : (w n : ℕ) → length (digits w n) ≡ w
unfolding digits
length-digits zero n = refl
length-digits (suc w) n =
    omega (arith, length-append (digits w (n / 256)) (n % 256 ∷ []), length-digits w (n / 256))

undigits-digits :
    (w v acc n : ℕ) (rest : List ℕ)
    → n < bound w
    → undigits (w + v) acc (digits w n ++ rest) ≡ undigits v (acc * bound w + n) rest
unfolding bound digits undigits
undigits-digits zero v acc n rest h = λ i. undigits (zero_add v i) (acc_eq acc n h i) rest
  where
    zero_add : (v : ℕ) → 0 + v ≡ v
    zero_add v = omega arith

    acc_eq : (acc n : ℕ) → n < 1 → acc ≡ acc * 1 + n
    acc_eq acc n h = omega arith
undigits-digits (suc w) v acc n rest h =
    rw (append_assoc (digits w (n / 256)) (n % 256 ∷ []) rest, widths w v)
      (undigits-digits w (suc v) acc (n / 256) (n % 256 ∷ rest) (omega arith)
        ∙ ap (λ t. undigits v t rest) (value acc (bound w) n))
  where
    widths : (w v : ℕ) → suc w + v ≡ w + suc v
    widths w v = omega arith

    value : (acc b n : ℕ) → (acc * b + n / 256) * 256 + n % 256 ≡ acc * (256 * b) + n
    value acc b n = grind arith

cmp-digits :
    (w m n : ℕ) (x y : List ℕ)
    → m < bound w
    → n < bound w
    → cmp_list (digits w m ++ x) (digits w n ++ y) ≡ then_with (compare m n) (cmp_list x y)
unfolding bound digits
cmp-digits zero m n x y h k = ground arith
cmp-digits (suc w) m n x y h k =
    rw
      (
        append_assoc (digits w (m / 256)) (m % 256 ∷ []) x,
        append_assoc (digits w (n / 256)) (n % 256 ∷ []) y,
        cmp-digits w (m / 256) (n / 256) (m % 256 ∷ x) (n % 256 ∷ y) (omega arith) (omega arith),
      )
      (unfold cmp_list in ground arith)

-- Eight digits hold the numbers below 2 ^ 64.
pub round_trip :
    (n : ℕ) (rest : List ℕ) → n < 2 ^ 64 → undigits 8 0 (digits 8 n ++ rest) ≡ some (n, rest)
unfolding bound
round_trip n rest h =
    undigits-digits 8 0 0 n rest h ∙ unfold undigits in ap (λ t. some (t, rest)) (start n)
  where
    start : (n : ℕ) → 0 * 2 ^ 64 + n ≡ n
    start n = omega arith

pub same_order :
    (m n : ℕ) (x y : List ℕ)
    → m < 2 ^ 64
    → n < 2 ^ 64
    → cmp_list (digits 8 m ++ x) (digits 8 n ++ y) ≡ then_with (compare m n) (cmp_list x y)
unfolding bound
same_order m n x y h k = cmp-digits 8 m n x y h k

abbrev pub u64_be : U64Codec
u64_be = record {
  encode = digits 8;
  decode = undigits 8 0;
  decode_encode = round_trip;
  length-encode = length-digits 8;
  cmp-encode = same_order;
}
