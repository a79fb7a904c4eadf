-- ===== src/Path/Representation/Read.antt =====
-- Reading a component out of the buffer of a path.
use mathlib.Core.Path.{subst}
use willow_rs.Prelude.{
  ℕ, suc, ◌+◌, ◌*◌, ◌≡◌, sym, ap, ◌∙◌, true, Option, some, List, [], ◌∷◌, ◌++◌, ltb, length,
  length-append, arith, append_assoc, inl, inr, ◌>>=◌,
}
use willow_rs.Path.{Limits, Component, WillowPath, component_new, path_length}
use willow_rs.Path.Representation.{
  Usize, slice, sum_of_lengths, start_offset_of_component, end_offset_of_component, buf_component,
}
use willow_rs.Path.Representation.Slices.{
  slice-middle, flat, length-flat, length_snoc, path_length_snoc, zero_plus, snoc-cases, next_mul,
}
use willow_rs.Path.Representation.Layout.{
  sums, layout, length-sums, layout-component, sum_of_lengths-layout, buf_component_count-layout,
}

module _ (word : Usize) where
  pub start_offset_first :
      (q : WillowPath) (c : Component)
      → ltb (length (c ∷ q)) word.bound ≡ true
      → start_offset_of_component word (layout word (c ∷ q)) 0
        ≡ some (0 + (length (c ∷ q) + 1) * word.size)
  unfolding start_offset_of_component
  start_offset_first q c h =
      ap (λ (t : Option ℕ). t >>= (λ count. some ((count + 1) * word.size)))
        (buf_component_count-layout word (c ∷ q) h)
      ∙ ap (λ (t : ℕ). some t) (sym (zero_plus ((length (c ∷ q) + 1) * word.size)))

  pub start_offset_later :
      (p q : WillowPath) (c : Component)
      → ltb (length (p ++ (c ∷ q))) word.bound ≡ true
      → ltb (path_length p + length c) word.bound ≡ true
      → start_offset_of_component word (layout word (p ++ (c ∷ q))) (suc (length p))
        ≡ some ((path_length p + length c) + (length (p ++ (c ∷ q)) + 1) * word.size)
  unfolding start_offset_of_component
  start_offset_later p q c h k =
      ap
        (λ (t : Option ℕ). t >>= (λ count.
          sum_of_lengths word (layout word (p ++ (c ∷ q))) (length p)
          >>= (λ sum. some (sum + (count + 1) * word.size))))
        (buf_component_count-layout word (p ++ (c ∷ q)) h)
      ∙ ap (λ (t : Option ℕ). t >>= (λ sum. some (sum + (length (p ++ (c ∷ q)) + 1) * word.size)))
          (sum_of_lengths-layout word p q c k)

  pub start_offset_snoc :
      (p q : WillowPath) (c d : Component)
      → ltb (length ((p ++ (d ∷ [])) ++ (c ∷ q))) word.bound ≡ true
      → ltb (path_length (p ++ (d ∷ []))) word.bound ≡ true
      → start_offset_of_component word
          (layout word ((p ++ (d ∷ [])) ++ (c ∷ q)))
          (length (p ++ (d ∷ [])))
        ≡ some (path_length (p ++ (d ∷ [])) + (length ((p ++ (d ∷ [])) ++ (c ∷ q)) + 1) * word.size)
  start_offset_snoc p q c d =
      rw (append_assoc p (d ∷ []) (c ∷ q), length_snoc p d, path_length_snoc p d)
        (start_offset_later p (c ∷ q) d)

  pub start_offset-layout :
      (p q : WillowPath) (c : Component)
      → ltb (length (p ++ (c ∷ q))) word.bound ≡ true
      → ltb (path_length p) word.bound ≡ true
      → start_offset_of_component word (layout word (p ++ (c ∷ q))) (length p)
        ≡ some (path_length p + (length (p ++ (c ∷ q)) + 1) * word.size)
  start_offset-layout p q c h k = elim (snoc-cases p) [
    | inl e ↦
        subst
          (λ t.
            ltb (length (t ++ (c ∷ q))) word.bound ≡ true
            → start_offset_of_component word (layout word (t ++ (c ∷ q))) (length t)
              ≡ some (path_length t + (length (t ++ (c ∷ q)) + 1) * word.size))
          (sym e) (start_offset_first q c) h
    | inr (z, d, e) ↦
        subst
          (λ t.
            ltb (length (t ++ (c ∷ q))) word.bound ≡ true
            → ltb (path_length t) word.bound ≡ true
            → start_offset_of_component word (layout word (t ++ (c ∷ q))) (length t)
              ≡ some (path_length t + (length (t ++ (c ∷ q)) + 1) * word.size))
          (sym e) (start_offset_snoc z q c d) h k
  ]

  pub end_offset-layout :
      (p q : WillowPath) (c : Component)
      → ltb (length (p ++ (c ∷ q))) word.bound ≡ true
      → ltb (path_length p + length c) word.bound ≡ true
      → end_offset_of_component word (layout word (p ++ (c ∷ q))) (length p)
        ≡ some ((path_length p + length c) + (length (p ++ (c ∷ q)) + 1) * word.size)
  unfolding end_offset_of_component
  end_offset-layout p q c h k =
      ap
        (λ (t : Option ℕ). t >>= (λ count.
          sum_of_lengths word (layout word (p ++ (c ∷ q))) (length p)
          >>= (λ sum. some (sum + (count + 1) * word.size))))
        (buf_component_count-layout word (p ++ (c ∷ q)) h)
      ∙ ap (λ (t : Option ℕ). t >>= (λ sum. some (sum + (length (p ++ (c ∷ q)) + 1) * word.size)))
          (sum_of_lengths-layout word p q c k)

  pub slice-layout :
      (p q : WillowPath) (c : Component)
      → slice
          (layout word (p ++ (c ∷ q)))
          (path_length p + (length (p ++ (c ∷ q)) + 1) * word.size)
          ((path_length p + length c) + (length (p ++ (c ∷ q)) + 1) * word.size)
        ≡ some c
  slice-layout p q c =
      let n = length (p ++ (c ∷ q)) in
      let before = word.to_ne_bytes n ++ (sums word 0 (p ++ (c ∷ q)) ++ flat p) in
      let size : length before ≡ path_length p + (n + 1) * word.size = omega (
        arith,
        length-append (word.to_ne_bytes n) (sums word 0 (p ++ (c ∷ q)) ++ flat p),
        length-append (sums word 0 (p ++ (c ∷ q))) (flat p),
        word.length-to_ne_bytes n,
        length-sums word 0 (p ++ (c ∷ q)),
        length-flat p,
        next_mul word.size n,
      ) in
      ap
        (λ b.
          slice b (path_length p + (n + 1) * word.size)
            ((path_length p + length c) + (n + 1) * word.size))
        (layout-component word p q c)
      ∙ slice-middle before c (flat q) (path_length p + (n + 1) * word.size)
          ((path_length p + length c) + (n + 1) * word.size) (sym size) (omega (arith, size))

  -- Reading a component of the buffer of a path gives the component.
  pub buf_component-layout :
      (k : Limits) (p q : WillowPath) (c : Component)
      → ltb (length (p ++ (c ∷ q))) word.bound ≡ true
      → ltb (path_length p + length c) word.bound ≡ true
      → buf_component word k (layout word (p ++ (c ∷ q))) (length p) ≡ component_new k c
  unfolding buf_component
  buf_component-layout k p q c h l =
      let buf = layout word (p ++ (c ∷ q)) in
      let start = path_length p + (length (p ++ (c ∷ q)) + 1) * word.size in
      let end = (path_length p + length c) + (length (p ++ (c ∷ q)) + 1) * word.size in
      ap
        (λ (t : Option ℕ). t >>= (λ first.
          end_offset_of_component word buf (length p)
          >>= (λ last. slice buf first last >>= component_new k)))
        (start_offset-layout p q c h (ground arith))
      ∙ ap (λ (t : Option ℕ). t >>= (λ last. slice buf start last >>= component_new k))
          (end_offset-layout p q c h l)
      ∙ ap (λ (t : Option (List ℕ)). t >>= component_new k) (slice-layout p q c)
