-- ===== src/Path/Representation/Builder/Overwrite.antt =====
-- Overwriting a word of a buffer, and how buffers are put together.
use willow_rs.Prelude.{
  ℕ, zero, suc, ◌+◌, ◌*◌, ◌≡◌, refl, sym, ap, ◌∙◌, some, List, [], ◌∷◌, ◌++◌, length, length-append,
  arith, append_assoc, append-nil,
}
use willow_rs.Path.{Component, WillowPath}
use willow_rs.Path.Representation.{drop}
use willow_rs.Path.Representation.Slices.{drop-length, take-append, zero_plus}
use willow_rs.Path.Representation.Builder.{ByteBuilder, put_zeros, overwrite}

pub suc_plus : (a b : ℕ) → suc a + b ≡ suc (a + b)
suc_plus a b = omega arith

pub times_zero : (a : ℕ) → a * 0 ≡ 0
times_zero a = ground arith

pub times_suc : (a b : ℕ) → a * suc b ≡ a + a * b
times_suc a b = ground arith

pub put_zeros-add : (a b : ℕ) → put_zeros (a + b) ≡ put_zeros a ++ put_zeros b
unfolding put_zeros
put_zeros-add zero b = ap put_zeros (zero_plus b)
put_zeros-add (suc a) b =
    ap put_zeros (suc_plus a b) ∙ ap (λ (t : List ℕ). 0 ∷ t) (put_zeros-add a b)

pub length-put_zeros : (n : ℕ) → length (put_zeros n) ≡ n
unfolding put_zeros
length-put_zeros zero = refl
length-put_zeros (suc n) = ap (λ (t : ℕ). suc t) (length-put_zeros n)

pub drop_middle :
    (before middle after : List ℕ)
    → drop (length before + length middle) (before ++ (middle ++ after)) ≡ after
drop_middle before middle after =
    ap (λ (n : ℕ). drop n (before ++ (middle ++ after))) (sym (length-append before middle))
    ∙ ap (λ (t : List ℕ). drop (length (before ++ middle)) t)
        (sym (append_assoc before middle after))
    ∙ drop-length (before ++ middle) after

pub overwrite-middle :
    (before middle after new : List ℕ) (start end : ℕ)
    → start ≡ length before
    → end ≡ length before + length middle
    → overwrite (before ++ (middle ++ after)) start end new ≡ some (before ++ (new ++ after))
overwrite-middle before middle after new start end a b =
    rw (a, b, take-append before (middle ++ after), drop_middle before middle after)
      (ground (arith, length-append before (middle ++ after), length-append middle after))

pub regroup_word :
    (t s w z f : List ℕ) → t ++ (((s ++ (w ++ [])) ++ z) ++ f) ≡ (t ++ s) ++ (w ++ (z ++ f))
regroup_word t s w z f =
    rw
      (
        append-nil w,
        append_assoc t s (w ++ (z ++ f)),
        append_assoc s w z,
        append_assoc s (w ++ z) f,
        append_assoc w z f,
      )
      refl

pub regroup_tail :
    (h w z f c : List ℕ) → (h ++ (w ++ (z ++ f))) ++ c ≡ h ++ (w ++ (z ++ (f ++ (c ++ []))))
regroup_tail h w z f c =
    rw
      (
        append-nil c,
        append_assoc h (w ++ (z ++ f)) c,
        append_assoc w (z ++ f) c,
        append_assoc z f c,
      )
      refl

pub add_swap : (a b : ℕ) → a + b ≡ b + a
add_swap a b = omega arith

abbrev pub sized : ℕ → ℕ → List ℕ → ByteBuilder
sized target m bytes = record { bytes = bytes; initialised_components = m; target_length = target }

abbrev pub grown : ℕ → WillowPath → Component → List ℕ → ByteBuilder
grown target p c bytes = sized target (length p + 1) (bytes ++ c)
