-- ===== src/Grouping/Range3d/Laws.antt =====
-- What the operations on three-dimensional ranges mean for the entries that a range includes.
use willow_rs.Prelude.{ℕ, ◌≡◌, refl, ◌∙◌, Bool, true, false, ◌&&◌, Option, none, some, arith, ◌>>=◌}
use willow_rs.Prelude.Order.{Ord, list_ord, nat_ord}
use willow_rs.Path.{WillowPath}
use willow_rs.Grouping.Range
use willow_rs.Grouping.Range.{Range}
use willow_rs.Grouping.Range.Laws.{in_some, includes-intersection, includes_range-includes}
use willow_rs.Grouping.Range3d.{Range3d, includes_triplet, includes_range, intersection}

module _ {ℓ} {S : Type ℓ} ⦃o : Ord S⦄ where
  -- Whether an optional range includes a triplet; no range includes nothing.
  abbrev pub in_range3d : Option (Range3d S) → S → WillowPath → ℕ → Bool
  in_range3d none s p t = false
  in_range3d (some r) s p t = includes_triplet r s p t

  in_range3d-parts :
      (y : Option (Range WillowPath)) (z : Option (Range ℕ)) (x : Option (Range S)) (s : S)
      (p : WillowPath) (t : ℕ)
      → in_range3d
          (y >>= λ b. z >>= λ c. x >>= λ a. some (record { subspaces = a; paths = b; times = c }))
          s
          p
          t
        ≡ in_some x s && in_some y p && in_some z t
  unfolding includes_triplet
  in_range3d-parts none z x s p t = ground arith
  in_range3d-parts (some b) none x s p t = ground arith
  in_range3d-parts (some b) (some c) none s p t = refl
  in_range3d-parts (some b) (some c) (some a) s p t = refl

  -- The intersection of two ranges includes exactly the entries that both include; where there is
  -- none, no entry is in both.
  includes-range3d_intersection :
      (a b : Range3d S) (s : S) (p : WillowPath) (t : ℕ)
      → in_range3d (intersection a b) s p t ≡ includes_triplet a s p t && includes_triplet b s p t
  unfolding intersection includes_triplet
  includes-range3d_intersection a b s p t =
      in_range3d-parts (Range.intersection a.paths b.paths) (Range.intersection a.times b.times)
        (Range.intersection a.subspaces b.subspaces) s p t
      ∙ rw
          (
            includes-intersection a.subspaces b.subspaces s,
            includes-intersection a.paths b.paths p,
            includes-intersection a.times b.times t,
          )
          (ground arith)

  -- A range that `includes_range` accepts includes only entries of the including one.
  pub includes_range3d-includes :
      (a b : Range3d S) (s : S) (p : WillowPath) (t : ℕ)
      → includes_range a b ≡ true
      → includes_triplet b s p t ≡ true
      → includes_triplet a s p t ≡ true
  unfolding includes_range includes_triplet
  includes_range3d-includes a b s p t h k = ground (
    arith,
    includes_range-includes a.subspaces b.subspaces s,
    includes_range-includes a.paths b.paths p,
    includes_range-includes a.times b.times t,
  )
