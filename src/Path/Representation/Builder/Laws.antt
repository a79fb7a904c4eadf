-- ===== src/Path/Representation/Builder/Laws.antt =====
-- The builder fills the buffer of the path that is built from the same components.
use willow_rs.Prelude.{
  ℕ, ◌*◌, ◌≡◌, sym, ap, ◌∙◌, true, Option, none, some, List, [], ◌∷◌, ◌++◌, if◌then◌else◌, ltb,
  ◌==◌, length, arith, append_assoc, append-nil, ◌>>=◌,
}
use willow_rs.Prelude.Outcome.{ok, err, panic}
use willow_rs.Path.Construct.{path_length-append, new_from_iter_lem}
use willow_rs.Path.{new_from_iter, Limits, Component, WillowPath, path_length}
use willow_rs.Path.Representation.{Usize}
use willow_rs.Path.Representation.Slices.{flat}
use willow_rs.Path.Representation.Layout.{sums, layout, buf_component_count-layout}
use willow_rs.Path.Representation.Builder.{
  ByteBuilder, BytePath, put_zeros, byte_new, byte_append_all, byte_build, byte_from_iter,
}
use willow_rs.Path.Representation.Builder.Overwrite.{sized}
use willow_rs.Path.Representation.Builder.Fill.{
  filled, filled-layout, total_length-filled, builder_of, byte_append-builder_of,
}

module _ (word : Usize) where
  builder_of-move :
      (target n : ℕ) (p q : WillowPath) (r : ℕ)
      → p ≡ q
      → builder_of word target n p r ≡ builder_of word target n q r
  builder_of-move target n p q r e = ap (λ t. builder_of word target n t r) e

  byte_append_all-builder_of :
      (target n : ℕ) (p cs : WillowPath)
      → ltb (path_length (p ++ cs)) word.bound ≡ true
      → byte_append_all word (builder_of word target n p (length cs)) cs
        ≡ some (builder_of word target n (p ++ cs) 0)
  unfolding byte_append_all
  byte_append_all-builder_of target n p [] h =
      ap (λ b. some b) (builder_of-move target n p (p ++ []) 0 (sym (append-nil p)))
  byte_append_all-builder_of target n p (c ∷ cs) h =
      ap (λ (o : Option ByteBuilder). o >>= (λ b. byte_append_all word b cs))
        (byte_append-builder_of word target n p c (length cs)
          (ground (arith, path_length-append p (c ∷ cs))))
      ∙ byte_append_all-builder_of target n (p ++ (c ∷ [])) cs
          (ap (λ (t : WillowPath). ltb (path_length t) word.bound) (append_assoc p (c ∷ []) cs) ∙ h)
      ∙ ap (λ b. some b)
          (builder_of-move target n ((p ++ (c ∷ [])) ++ cs) (p ++ (c ∷ cs)) 0
            (append_assoc p (c ∷ []) cs))

  byte_new-builder_of :
      (target n : ℕ) → word.to_ne_bytes n ++ put_zeros (word.size * n) ≡ filled word n [] n
  unfolding filled sums flat
  byte_new-builder_of target n =
      ap (λ (t : List ℕ). word.to_ne_bytes n ++ t) (sym (append-nil (put_zeros (word.size * n))))

  -- The buffer of a path and its number of components.
  abbrev pub bytes_of : WillowPath → BytePath
  bytes_of p = record { buffer = layout word p; component_count = length p }

  byte_build-builder_of :
      (target : ℕ) (p : WillowPath)
      → ltb (length p) word.bound ≡ true
      → ltb (path_length p) word.bound ≡ true
      → byte_build word (builder_of word target (length p) p 0)
        ≡ (if target == path_length p then some (bytes_of p) else none)
  unfolding byte_build builder_of
  byte_build-builder_of target p h k = ground (
    arith,
    filled-layout word p,
    buf_component_count-layout word p h,
    total_length-filled word (length p) p 0 k,
  )

  fill-build :
      (n : ℕ) (cs : WillowPath)
      → ltb (length cs) word.bound ≡ true
      → ltb (path_length cs) word.bound ≡ true
      → (byte_append_all word
            (sized n 0 (word.to_ne_bytes (length cs) ++ put_zeros (word.size * length cs)))
            cs
          >>= byte_build word)
        ≡ (if n == path_length cs then some (bytes_of cs) else none)
  unfolding builder_of
  fill-build n cs h l =
      ap (λ t. byte_append_all word (sized n 0 t) cs >>= byte_build word)
        (byte_new-builder_of n (length cs))
      ∙ ap (λ (o : Option ByteBuilder). o >>= byte_build word)
          (byte_append_all-builder_of n (length cs) [] cs l)
      ∙ byte_build-builder_of n cs h l

  -- Over the buffer `new_from_iter` does what it does on lists: it returns the buffer of the path, or
  -- the same error, or panics, for numbers that fit the machine's words.
  pub byte_from_iter_lem :
      (k : Limits) (n : ℕ) (cs : List Component)
      → ltb (length cs) word.bound ≡ true
      → ltb (path_length cs) word.bound ≡ true
      → byte_from_iter word k n cs
        ≡ (elim (new_from_iter k n cs) [ ok p ↦ ok (bytes_of p) | err e ↦ err e | panic ↦ panic ])
  unfolding byte_from_iter byte_new
  byte_from_iter_lem k n cs h l = ground (arith, new_from_iter_lem k n cs, fill-build n cs h l)
