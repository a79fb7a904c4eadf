-- ===== src/Path/Representation/Layout.antt =====
-- The buffer that holds a path, and what its words say.
use willow_rs.Prelude.{
  ℕ, ◌+◌, ◌*◌, ◌≡◌, refl, ap, ◌∙◌, true, Option, some, List, [], ◌∷◌, ◌++◌, ltb, length,
  length-append, arith, append_assoc, ◌>>=◌,
}
use willow_rs.Path.{Component, WillowPath, path_length}
use willow_rs.Path.Representation.{
  Usize, slice, usize_at_offset, buf_component_count, start_offset_of_sum, sum_of_lengths,
}
use willow_rs.Path.Representation.Slices.{
  slice-middle, flat, flat-append, zero_plus, regroup_sum, regroup_component, add_assoc, mul_next,
}

module _ (word : Usize) where
  -- The accumulated sums, from `acc` on.
  unfoldable pub sums : ℕ → WillowPath → List ℕ
  sums acc [] = []
  sums acc (c ∷ cs) = word.to_ne_bytes (acc + length c) ++ sums (acc + length c) cs

  -- The buffer of a path.
  unfoldable pub layout : WillowPath → List ℕ
  unfolding sums flat
  layout p = word.to_ne_bytes (length p) ++ (sums 0 p ++ flat p)

  pub length-sums : (acc : ℕ) (p : WillowPath) → length (sums acc p) ≡ word.size * length p
  unfolding sums
  length-sums acc [] = ground arith
  length-sums acc (c ∷ p) = omega (
    arith,
    length-append (word.to_ne_bytes (acc + length c)) (sums (acc + length c) p),
    word.length-to_ne_bytes (acc + length c),
    length-sums (acc + length c) p,
    mul_next word.size (length p),
  )

  pub sums-append :
      (acc : ℕ) (p q : WillowPath) → sums acc (p ++ q) ≡ sums acc p ++ sums (acc + path_length p) q
  unfolding sums path_length
  sums-append acc [] q = ap (λ (t : ℕ). sums t q) (ground arith)
  sums-append acc (c ∷ p) q =
      rw
        (
          sums-append (acc + length c) p q,
          add_assoc acc (length c) (path_length p),
          append_assoc (word.to_ne_bytes (acc + length c)) (sums (acc + length c) p)
              (sums (acc + (length c + path_length p)) q),
        )
        refl

  -- The buffer of a path, cut before the sum of one of its components.
  pub layout-sum :
      (p q : WillowPath) (c : Component)
      → layout (p ++ (c ∷ q))
        ≡ (word.to_ne_bytes (length (p ++ (c ∷ q))) ++ sums 0 p)
          ++ (word.to_ne_bytes (path_length p + length c)
              ++ (sums (path_length p + length c) q ++ flat (p ++ (c ∷ q))))
  unfolding layout sums
  layout-sum p q c =
      rw (sums-append 0 p (c ∷ q), zero_plus (path_length p))
        (regroup_sum (word.to_ne_bytes (length (p ++ (c ∷ q)))) (sums 0 p)
          (word.to_ne_bytes (path_length p + length c)) (sums (path_length p + length c) q)
          (flat (p ++ (c ∷ q))))

  -- The same before the component itself.
  pub layout-component :
      (p q : WillowPath) (c : Component)
      → layout (p ++ (c ∷ q))
        ≡ (word.to_ne_bytes (length (p ++ (c ∷ q))) ++ (sums 0 (p ++ (c ∷ q)) ++ flat p))
          ++ (c ++ flat q)
  unfolding layout flat
  layout-component p q c =
      ap (λ t. word.to_ne_bytes (length (p ++ (c ∷ q))) ++ (sums 0 (p ++ (c ∷ q)) ++ t))
        (flat-append p (c ∷ q))
      ∙ regroup_component (word.to_ne_bytes (length (p ++ (c ∷ q)))) (sums 0 (p ++ (c ∷ q)))
          (flat p) (c ++ flat q)

  -- What is read of a word that stands in the buffer.
  pub read_word :
      (buf before after : List ℕ) (n offset : ℕ)
      → buf ≡ before ++ (word.to_ne_bytes n ++ after)
      → offset ≡ length before
      → ltb n word.bound ≡ true
      → usize_at_offset word buf offset ≡ some n
  unfolding usize_at_offset
  read_word buf before after n offset e d h =
      ap (λ b. slice b offset (offset + word.size) >>= (λ bytes. some (word.from_ne_bytes bytes))) e
      ∙ ap (λ (t : Option (List ℕ)). t >>= (λ bytes. some (word.from_ne_bytes bytes)))
          (slice-middle before (word.to_ne_bytes n) after offset (offset + word.size) d
            (omega (arith, word.length-to_ne_bytes n)))
      ∙ ap (λ (t : ℕ). some t) (word.from_ne_bytes-to_ne_bytes n h)

  pub sum_of_lengths-layout :
      (p q : WillowPath) (c : Component)
      → ltb (path_length p + length c) word.bound ≡ true
      → sum_of_lengths word (layout (p ++ (c ∷ q))) (length p) ≡ some (path_length p + length c)
  unfolding sum_of_lengths start_offset_of_sum
  sum_of_lengths-layout p q c h =
      read_word (layout (p ++ (c ∷ q))) (word.to_ne_bytes (length (p ++ (c ∷ q))) ++ sums 0 p)
        (sums (path_length p + length c) q ++ flat (p ++ (c ∷ q))) (path_length p + length c)
        (word.size * (length p + 1)) (layout-sum p q c)
        (omega (
          arith,
          length-append (word.to_ne_bytes (length (p ++ (c ∷ q)))) (sums 0 p),
          word.length-to_ne_bytes (length (p ++ (c ∷ q))),
          length-sums 0 p,
          mul_next word.size (length p),
        ))
        h

  pub buf_component_count-layout :
      (p : WillowPath)
      → ltb (length p) word.bound ≡ true
      → buf_component_count word (layout p) ≡ some (length p)
  unfolding buf_component_count layout
  buf_component_count-layout p h =
      read_word (layout p) [] (sums 0 p ++ flat p) (length p) 0 refl refl h
