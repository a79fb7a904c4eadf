-- ===== src/Grouping/Area/Laws.antt =====
-- What the operations on areas mean for the entries that an area includes.
use willow_rs.Prelude.{
  ℕ, ◌≡◌, ◌≢◌, refl, ◌∙◌, ◌↔◌, Bool, true, false, ◌&&◌, ◌||◌, Option, none, some, arith, ◌>>=◌,
}
use willow_rs.Prelude.Order.{Ord, equal, nat_ord}
use willow_rs.Path.{WillowPath, is_prefix_of}
use willow_rs.Path.Prefix.{
  is_prefix_of_trans, is_prefix_of_refl, is_prefixed_by_lem, prefixes_related, is_related_lem,
}
use willow_rs.Grouping.Range
use willow_rs.Grouping.Range.{Range}
use willow_rs.Grouping.Range.Laws.{
  in_some, includes-intersection, includes_range-includes, includes_range-all,
}
use willow_rs.Grouping.Area.{
  AreaSubspace, any, id, Area, subspace_includes, subspace_intersection, path_intersection,
  intersection, includes_triplet, includes_area, includes_area_at, includes_area_subspace,
}

-- The paths that both prefix a path are those that the longer prefixes.
path_in : Option WillowPath → WillowPath → Bool
path_in none q = false
path_in (some p) q = is_prefix_of p q

is_prefix_of-path_intersection :
    (p q r : WillowPath) → path_in (path_intersection p q) r ≡ is_prefix_of p r && is_prefix_of q r
unfolding path_intersection path_in
is_prefix_of-path_intersection p q r = ground (
  arith,
  is_prefixed_by_lem p q,
  is_related_lem p q,
  is_prefix_of_trans p q r,
  is_prefix_of_trans q p r,
  prefixes_related p q r,
)

module _ {ℓ} {S : Type ℓ} ⦃o : Ord S⦄ where
  subspace_in : Option (AreaSubspace S) → S → Bool
  subspace_in none s = false
  subspace_in (some a) s = subspace_includes a s

  subspace_includes-intersection :
      (a b : AreaSubspace S) (s : S)
      → subspace_in (subspace_intersection a b) s ≡ subspace_includes a s && subspace_includes b s
  unfolding subspace_in subspace_intersection subspace_includes
  subspace_includes-intersection any any s = refl
  subspace_includes-intersection (id x) any s = ground arith
  subspace_includes-intersection any (id y) s = refl
  subspace_includes-intersection (id x) (id y) s =
      ground (arith, o.eq_of_cmp x y, o.eq_of_cmp s x, o.eq_of_cmp s y, o.cmp_self s)

  -- Whether an optional area includes a triplet; no area includes nothing.
  abbrev pub in_area : Option (Area S) → S → WillowPath → ℕ → Bool
  in_area none s p t = false
  in_area (some a) s p t = includes_triplet a s p t

  in_area-parts :
      (x : Option (AreaSubspace S)) (y : Option WillowPath) (z : Option (Range ℕ)) (s : S)
      (p : WillowPath) (t : ℕ)
      → in_area
          (x >>= λ a. y >>= λ b. z >>= λ c. some (record { subspace = a; path = b; times = c }))
          s
          p
          t
        ≡ subspace_in x s && path_in y p && in_some z t
  unfolding subspace_in path_in includes_triplet
  in_area-parts none y z s p t = refl
  in_area-parts (some a) none z s p t = ground arith
  in_area-parts (some a) (some b) none s p t = ground arith
  in_area-parts (some a) (some b) (some c) s p t = refl

  -- The intersection of two areas includes exactly the entries that both include; where there is
  -- none, no entry is in both.
  pub includes-area_intersection :
      (a b : Area S) (s : S) (p : WillowPath) (t : ℕ)
      → in_area (intersection a b) s p t ≡ includes_triplet a s p t && includes_triplet b s p t
  unfolding intersection includes_triplet
  includes-area_intersection a b s p t =
      in_area-parts (subspace_intersection a.subspace b.subspace) (path_intersection a.path b.path)
        (Range.intersection a.times b.times) s p t
      ∙ rw
          (
            subspace_includes-intersection a.subspace b.subspace s,
            is_prefix_of-path_intersection a.path b.path p,
            includes-intersection a.times b.times t,
          )
          (ground arith)

  includes_area-split :
      (a b : Area S)
      → includes_area a b
        ≡ includes_area_subspace a.subspace b.subspace
          && is_prefix_of a.path b.path
          && Range.includes_range a.times b.times
  unfolding includes_area
  includes_area-split a b = at a.subspace b.subspace _ _
    where
      at :
          (x y : AreaSubspace S) (p t : Bool)
          → includes_area_at x y p t ≡ includes_area_subspace x y && p && t
      at any any p t = unfold includes_area_at includes_area_subspace in refl
      at any (id y) p t = unfold includes_area_at includes_area_subspace in refl
      at (id x) any p t = unfold includes_area_at includes_area_subspace in refl
      at (id x) (id y) p t = unfold includes_area_at includes_area_subspace in refl

  subspace_includes_trans :
      (x y : AreaSubspace S) (s : S)
      → includes_area_subspace x y ≡ true
      → subspace_includes y s ≡ true
      → subspace_includes x s ≡ true
  unfolding includes_area_subspace subspace_includes
  subspace_includes_trans any y s h k = refl
  subspace_includes_trans (id x) any s h k = cc
  subspace_includes_trans (id x) (id y) s h k =
      ground (arith, o.eq_of_cmp x y, o.eq_of_cmp s y, o.cmp_self y)

  -- An area that `includes_area` accepts includes only entries of the including one.
  pub includes_area-includes :
      (a b : Area S) (s : S) (p : WillowPath) (t : ℕ)
      → includes_area a b ≡ true
      → includes_triplet b s p t ≡ true
      → includes_triplet a s p t ≡ true
  unfolding includes_triplet
  includes_area-includes a b s p t h k = ground (
    arith,
    includes_area-split a b,
    subspace_includes_trans a.subspace b.subspace s,
    is_prefix_of_trans a.path b.path p,
    includes_range-includes a.times b.times t,
  )

  -- A subspace id that an area subspace includes.
  abbrev member : S → AreaSubspace S → S
  member d any = d
  member d (id s) = s

  member_included : (d : S) (x : AreaSubspace S) → subspace_includes x (member d x) ≡ true
  unfolding subspace_includes
  member_included d any = refl
  member_included d (id s) = ground (arith, o.cmp_self s)

  includes_area_subspace_of :
      (other : S → S)
      → ((x : S) → other x ≢ x)
      → (x y : AreaSubspace S)
      → ((s : S) → subspace_includes y s ≡ true → subspace_includes x s ≡ true)
      → includes_area_subspace x y ≡ true
  unfolding includes_area_subspace subspace_includes
  includes_area_subspace_of other ne any any h = refl
  includes_area_subspace_of other ne any (id y) h = refl
  includes_area_subspace_of other ne (id x) any h =
      absurd (ne x (o.eq_of_cmp (other x) x (ground (arith, h (other x) refl))))
  includes_area_subspace_of other ne (id x) (id y) h =
      ground (arith, h y, o.cmp_self y, o.cmp_swap x y)

  includes_area-all :
      (d : S) (other : S → S)
      → ((x : S) → other x ≢ x)
      → (a b : Area S) → Range.includes b.times b.times.start ≡ true
      → (includes_area a b ≡ true) ↔ (
          (s : S) (p : WillowPath) (t : ℕ)
          → includes_triplet b s p t ≡ true
          → includes_triplet a s p t ≡ true)
  unfolding includes_triplet
  includes_area-all d other ne a b n = (
    λ h s p t k. includes_area-includes a b s p t h k,
    λ h.
        let s = member d b.subspace in
        let start = b.times.start in
        let subspaces =
          includes_area_subspace_of other ne a.subspace b.subspace
            (λ x k. ground (arith, h x b.path start, is_prefix_of_refl b.path)) in
        let times = (includes_range-all a.times b.times n).1 (λ t k.
          ground (arith, h s b.path t, is_prefix_of_refl b.path, member_included d b.subspace)) in
        ground (
          arith,
          includes_area-split a b,
          subspaces,
          times,
          h s b.path start,
          is_prefix_of_refl b.path,
          member_included d b.subspace,
        ),
  )

  -- `includes_area` decides whether each entry of the second area is in the first area too, where the
  -- times of the second are not empty and `other` gives for each subspace id a different one.
  includes_area_iff :
      (d : S) (other : S → S)
      → ((x : S) → other x ≢ x)
      → (a b : Area S) → Range.includes b.times b.times.start ≡ true
      → (includes_area a b ≡ true) ↔ (
          (s : S) (p : WillowPath) (t : ℕ)
          → includes_triplet b s p t ≡ includes_triplet a s p t && includes_triplet b s p t)
  includes_area_iff d other ne a b n = (
    λ h s p t. ground (arith, (includes_area-all d other ne a b n).0 h s p t),
    λ h. (includes_area-all d other ne a b n).1 (λ s p t k. ground (arith, h s p t)),
  )

  pub subspace_includes-any : (s : S) → subspace_includes any s ≡ true
  unfolding subspace_includes
  subspace_includes-any s = refl

  pub subspace_includes-id : (x s : S) → (subspace_includes (id x) s ≡ true) ↔ (s ≡ x)
  unfolding subspace_includes
  subspace_includes-id x s =
      (λ h. o.eq_of_cmp s x (ground arith), λ e. ground (arith, o.cmp_self x))

  pub includes_triplet_lem :
      (a : Area S) (s : S) (p : WillowPath) (t : ℕ)
      → includes_triplet a s p t
        ≡ subspace_includes a.subspace s && is_prefix_of a.path p && Range.includes a.times t
  unfolding includes_triplet
  includes_triplet_lem a s p t = refl

  -- Whether two area subspaces have a subspace in common.
  abbrev pub meets : AreaSubspace S → AreaSubspace S → Bool
  meets any y = true
  meets (id x) any = true
  meets (id x) (id y) = equal x y

  pub subspace_intersection-meets :
      (x y : AreaSubspace S)
      → (elim (subspace_intersection x y) [ none ↦ false | some _ ↦ true ]) ≡ meets x y
  unfolding subspace_intersection
  subspace_intersection-meets any any = refl
  subspace_intersection-meets any (id y) = refl
  subspace_intersection-meets (id x) any = refl
  subspace_intersection-meets (id x) (id y) = ground arith

pub path_intersection-related :
    (p q : WillowPath)
    → (elim (path_intersection p q) [ none ↦ false | some _ ↦ true ])
      ≡ is_prefix_of p q || is_prefix_of q p
unfolding path_intersection
path_intersection-related p q = ground (arith, is_prefixed_by_lem p q)
