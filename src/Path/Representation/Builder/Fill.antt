-- ===== src/Path/Representation/Builder/Fill.antt =====
-- The buffer of a builder that has some of its components, and what appending does to it.
use mathlib.Core.Path.{subst}
use willow_rs.Prelude.{
  ℕ, suc, ◌+◌, ◌*◌, ◌≡◌, refl, sym, ap, ◌∙◌, true, Option, some, List, [], ◌∷◌, ◌++◌, ltb, length,
  length-append, arith, append-nil, inl, inr, ◌>>=◌,
}
use willow_rs.Path.{Component, WillowPath, path_length}
use willow_rs.Path.Representation.{Usize, sum_of_lengths, start_offset_of_sum, total_length}
use willow_rs.Path.Representation.Slices.{
  flat, flat-append, length_snoc, path_length_snoc, zero_plus, regroup_sum, snoc-cases, mul_next,
}
use willow_rs.Path.Representation.Layout.{sums, layout, length-sums, sums-append, read_word}
use willow_rs.Path.Representation.Builder.{ByteBuilder, put_zeros, overwrite, byte_append}
use willow_rs.Path.Representation.Builder.Overwrite.{
  times_zero, times_suc, put_zeros-add, length-put_zeros, overwrite-middle, regroup_word,
  regroup_tail, add_swap, sized, grown,
}

module _ (word : Usize) where
  -- The buffer of a builder for `n` components that has `p`, with `r` sums left at zero.
  unfoldable pub filled : ℕ → WillowPath → ℕ → List ℕ
  filled n p r = word.to_ne_bytes n ++ ((sums word 0 p ++ put_zeros (word.size * r)) ++ flat p)

  pub filled-layout : (p : WillowPath) → filled (length p) p 0 ≡ layout word p
  unfolding filled layout put_zeros
  filled-layout p =
      ap (λ (n : ℕ). word.to_ne_bytes (length p) ++ ((sums word 0 p ++ put_zeros n) ++ flat p))
        (times_zero word.size)
      ∙ ap (λ (t : List ℕ). word.to_ne_bytes (length p) ++ (t ++ flat p))
          (append-nil (sums word 0 p))

  -- The sum of the last component.
  pub filled-snoc :
      (n : ℕ) (p : WillowPath) (c : Component) (r : ℕ)
      → filled n (p ++ (c ∷ [])) r
        ≡ (word.to_ne_bytes n ++ sums word 0 p)
          ++ (word.to_ne_bytes (path_length p + length c)
              ++ (put_zeros (word.size * r) ++ flat (p ++ (c ∷ []))))
  unfolding filled sums
  filled-snoc n p c r =
      rw (sums-append word 0 p (c ∷ []), zero_plus (path_length p))
        (regroup_word (word.to_ne_bytes n) (sums word 0 p)
          (word.to_ne_bytes (path_length p + length c)) (put_zeros (word.size * r))
          (flat (p ++ (c ∷ []))))

  pub length-header :
      (n : ℕ) (p : WillowPath)
      → start_offset_of_sum word (length p) ≡ length (word.to_ne_bytes n ++ sums word 0 p)
  unfolding start_offset_of_sum
  length-header n p = omega (
    arith,
    length-append (word.to_ne_bytes n) (sums word 0 p),
    word.length-to_ne_bytes n,
    length-sums word 0 p,
    mul_next word.size (length p),
  )

  pub total_length-snoc :
      (n : ℕ) (p : WillowPath) (c : Component) (r : ℕ)
      → ltb (path_length (p ++ (c ∷ []))) word.bound ≡ true
      → total_length word (filled n (p ++ (c ∷ [])) r) (length (p ++ (c ∷ [])))
        ≡ some (path_length (p ++ (c ∷ [])))
  unfolding total_length sum_of_lengths
  total_length-snoc n p c r =
      rw (length_snoc p c, path_length_snoc p c)
        (read_word word (filled n (p ++ (c ∷ [])) r) (word.to_ne_bytes n ++ sums word 0 p)
          (put_zeros (word.size * r) ++ flat (p ++ (c ∷ []))) (path_length p + length c)
          (start_offset_of_sum word (length p)) (filled-snoc n p c r) (length-header n p))

  pub total_length-filled :
      (n : ℕ) (p : WillowPath) (r : ℕ)
      → ltb (path_length p) word.bound ≡ true
      → total_length word (filled n p r) (length p) ≡ some (path_length p)
  unfolding total_length
  total_length-filled n p r h = elim (snoc-cases p) [
    | inl e ↦
        subst (λ t. total_length word (filled n t r) (length t) ≡ some (path_length t)) (sym e) refl
    | inr (q, c, e) ↦
        subst
          (λ t.
            ltb (path_length t) word.bound ≡ true
            → total_length word (filled n t r) (length t) ≡ some (path_length t))
          (sym e) (total_length-snoc n q c r) h
  ]

  -- Where a sum is still zero.
  pub filled-room :
      (n : ℕ) (p : WillowPath) (r : ℕ)
      → filled n p (suc r)
        ≡ (word.to_ne_bytes n ++ sums word 0 p)
          ++ (put_zeros word.size ++ (put_zeros (word.size * r) ++ flat p))
  unfolding filled
  filled-room n p r =
      rw (times_suc word.size r, put_zeros-add word.size (word.size * r))
        (regroup_sum (word.to_ne_bytes n) (sums word 0 p) (put_zeros word.size)
          (put_zeros (word.size * r)) (flat p))

  -- What the builder is after some components.
  unfoldable pub builder_of : ℕ → ℕ → WillowPath → ℕ → ByteBuilder
  unfolding filled
  builder_of target n p r = record {
    bytes = filled n p r;
    initialised_components = length p;
    target_length = target;
  }

  -- The bytes that an appended component leaves behind.
  pub filled-append :
      (n : ℕ) (p : WillowPath) (c : Component) (r : ℕ)
      → ((word.to_ne_bytes n ++ sums word 0 p)
            ++ (word.to_ne_bytes (length c + path_length p)
                ++ (put_zeros (word.size * r) ++ flat p)))
          ++ c
        ≡ filled n (p ++ (c ∷ [])) r
  unfolding flat
  filled-append n p c r = rw (add_swap (length c) (path_length p)) (
      regroup_tail (word.to_ne_bytes n ++ sums word 0 p)
        (word.to_ne_bytes (path_length p + length c)) (put_zeros (word.size * r)) (flat p) c
      ∙ ap
          (λ (t : List ℕ).
            (word.to_ne_bytes n ++ sums word 0 p)
            ++ (word.to_ne_bytes (path_length p + length c) ++ (put_zeros (word.size * r) ++ t)))
          (sym (flat-append p (c ∷ [])))
      ∙ sym (filled-snoc n p c r))

  pub overwrite-filled :
      (n : ℕ) (p : WillowPath) (r : ℕ) (new : List ℕ)
      → overwrite
          (filled n p (suc r))
          (start_offset_of_sum word (length p))
          (start_offset_of_sum word (length p) + word.size)
          new
        ≡ some (
            (word.to_ne_bytes n ++ sums word 0 p) ++ (new ++ (put_zeros (word.size * r) ++ flat p)))
  overwrite-filled n p r new =
      ap
        (λ b.
          overwrite b (start_offset_of_sum word (length p))
            (start_offset_of_sum word (length p) + word.size) new)
        (filled-room n p r)
      ∙ overwrite-middle (word.to_ne_bytes n ++ sums word 0 p) (put_zeros word.size)
          (put_zeros (word.size * r) ++ flat p) new (start_offset_of_sum word (length p))
          (start_offset_of_sum word (length p) + word.size) (length-header n p)
          (omega (arith, length-header n p, length-put_zeros word.size))

  -- Appending a component to the bytes is appending it to the components.
  pub byte_append-builder_of :
      (target n : ℕ) (p : WillowPath) (c : Component) (r : ℕ)
      → ltb (path_length p) word.bound ≡ true
      → byte_append word (builder_of target n p (suc r)) c
        ≡ some (builder_of target n (p ++ (c ∷ [])) r)
  unfolding byte_append builder_of
  byte_append-builder_of target n p c r h =
      ap
        (λ (total : Option ℕ). total >>= (λ t.
          overwrite (filled n p (suc r)) (start_offset_of_sum word (length p))
            (start_offset_of_sum word (length p) + word.size) (word.to_ne_bytes (length c + t))
          >>= (λ bytes. some (grown target p c bytes))))
        (total_length-filled n p (suc r) h)
      ∙ ap (λ (o : Option (List ℕ)). o >>= (λ bytes. some (grown target p c bytes)))
          (overwrite-filled n p r (word.to_ne_bytes (length c + path_length p)))
      ∙ ap (λ bytes. some (sized target (length p + 1) bytes)) (filled-append n p c r)
      ∙ ap (λ m. some (sized target m (filled n (p ++ (c ∷ [])) r)))
          (omega (arith, length_snoc p c))
