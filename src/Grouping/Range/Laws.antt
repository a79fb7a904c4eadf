-- ===== src/Grouping/Range/Laws.antt =====
-- What the operations on ranges mean for the values that a range includes.
use Prim.Native.Nat.Ordering.{eq}
use willow_rs.Prelude.{
  ℕ, ◌≤◌, ◌≡◌, refl, ap, ◌∙◌, ◌≢◌, ◌↔◌, Bool, true, false, ◌&&◌, Option, none, some, arith,
}
use willow_rs.Prelude.Order.{Ord, less_eq, is_le, nat_ord}
use willow_rs.Prelude.Compare.{
  ord_max, less_eq-max, less-min, less_of_less_eq, less_eq_trans, less_of_less, less_eq_refl,
  less_eq-not-less, less_trans,
}
use willow_rs.Grouping.Range.{
  RangeEnd, closed, open_end, Range, new_open, gt_val, range_end_cmp, new_closed, includes,
  includes_range, intersection, intersect_ends, range_cmp,
}

and_regroup : (a b c d : Bool) → (a && b) && (c && d) ≡ (a && c) && (b && d)
and_regroup a b c d = ground arith

module _ {ℓ} {T : Type ℓ} ⦃o : Ord T⦄ where
  -- Whether an optional range includes a value; no range includes nothing.
  abbrev pub in_some : Option (Range T) → T → Bool
  in_some none v = false
  in_some (some t) v = includes t v

  gt_val-intersect_ends :
      (e f : RangeEnd T) (v : T) → gt_val (intersect_ends e f) v ≡ gt_val e v && gt_val f v
  unfolding gt_val intersect_ends
  gt_val-intersect_ends open_end (closed b) v = refl
  gt_val-intersect_ends (closed a) (closed b) v = less-min v a b
  gt_val-intersect_ends (closed a) open_end v = ground arith
  gt_val-intersect_ends open_end open_end v = refl

  in_some-ends :
      (start v : T) (e : RangeEnd T)
      → in_some (elim e [ open_end ↦ some (new_open start) | closed t ↦ new_closed start t ]) v
        ≡ less_eq start v && gt_val e v
  unfolding new_open new_closed includes gt_val
  in_some-ends start v open_end = refl
  in_some-ends start v (closed t) = ground (arith, less_of_less_eq start v t)

  -- The intersection of two ranges includes exactly the values that both include; where there is
  -- none, no value is in both.
  pub includes-intersection :
      (r s : Range T) (v : T) → in_some (intersection r s) v ≡ includes r v && includes s v
  unfolding intersection includes
  includes-intersection r s v =
      in_some-ends (ord_max r.start s.start) v (intersect_ends r.end s.end)
      ∙ rw (less_eq-max r.start s.start v, gt_val-intersect_ends r.end s.end v)
          (and_regroup (less_eq r.start v) (less_eq s.start v) (gt_val r.end v) (gt_val s.end v))

  built_start :
      (start : T) (e : RangeEnd T) (t : Range T)
      → elim e [ open_end ↦ some (new_open start) | closed x ↦ new_closed start x ] ≡ some t
      → includes t t.start ≡ true
  unfolding new_open new_closed includes gt_val
  built_start start open_end t h = ground (arith, less_eq_refl t.start)
  built_start start (closed x) t h = ground (arith, less_eq_refl t.start)

  -- A range that `intersection` returns is not empty: it includes its start.
  pub intersection-includes_start :
      (r s t : Range T) → intersection r s ≡ some t → includes t t.start ≡ true
  unfolding intersection
  intersection-includes_start r s t h =
      built_start (ord_max r.start s.start) (intersect_ends r.end s.end) t h

  -- `impl Ord for Range` ignores the ends of ranges with one start: it answers `Equal` for ranges
  -- that differ.
  range_cmp_equal :
      (r : Range T) (e : RangeEnd T)
      → r.end ≢ e
      → (range_cmp r (record r { end = e }) ≡ eq) × (r ≢ record r { end = e })
  unfolding range_cmp
  range_cmp_equal r e n =
      (rw (o.cmp_self r.start, range_cmp), λ q. n (ap (λ (t : Range T). t.end) q))

  gt_val_mono :
      (e f : RangeEnd T) (v : T)
      → is_le (range_end_cmp e f) ≡ true
      → gt_val e v ≡ true
      → gt_val f v ≡ true
  unfolding gt_val range_end_cmp
  gt_val_mono (closed e) (closed f) v h k = less_of_less v e f k h
  gt_val_mono e open_end v h k = refl
  gt_val_mono open_end (closed f) v h k = cc

  -- The ends are in order if every value from a bound on that lies below the one end lies below
  -- the other.
  le_of_gt_val :
      (e f : RangeEnd T) (a : T)
      → gt_val e a ≡ true
      → ((v : T) → less_eq a v ≡ true → gt_val e v ≡ true → gt_val f v ≡ true)
      → is_le (range_end_cmp e f) ≡ true
  unfolding gt_val range_end_cmp
  le_of_gt_val (closed e) open_end a n h = refl
  le_of_gt_val open_end open_end a n h = refl
  le_of_gt_val (closed e) (closed f) a n h =
      let m = ord_max a f in
      ground (
        arith,
        h f,
        h a,
        less_eq-not-less e f,
        less_eq-not-less a f,
        less_eq_refl a,
        less_eq_refl f,
        less_of_less_eq f a e,
        less_eq-not-less f f,
        less_of_less f a f,
      )
  le_of_gt_val open_end (closed f) a n h = ground (
    arith,
    h f,
    h a,
    less_eq_refl a,
    less_eq_refl f,
    less_eq-not-less a f,
    less_eq-not-less f f,
    less_trans a f a,
  )

  pub includes_range-all :
      (r s : Range T)
      → includes s s.start ≡ true
      → (includes_range r s ≡ true) ↔ ((v : T) → includes s v ≡ true → includes r v ≡ true)
  unfolding includes_range includes
  includes_range-all r s n = (
    λ h v k. ground (arith, less_eq_trans r.start s.start v, gt_val_mono s.end r.end v),
    λ h.
        let low = h s.start n in
        let high = le_of_gt_val s.end r.end s.start (ground arith) (λ v a b. ground (arith, h v)) in
        ground (arith, low, high),
  )

  -- For a range that is not empty, `includes_range` decides whether each of its values is in the other
  -- range too.
  includes_range_iff :
      (r s : Range T)
      → includes s s.start ≡ true
      → (includes_range r s ≡ true) ↔ ((v : T) → includes s v ≡ includes r v && includes s v)
  includes_range_iff r s n = (
    λ h v. ground (arith, (includes_range-all r s n).0 h v),
    λ h. (includes_range-all r s n).1 (λ v k. ground (arith, h v)),
  )

  -- A range that includes another in this sense includes each of its values, empty or not.
  pub includes_range-includes :
      (r s : Range T) (v : T)
      → includes_range r s ≡ true
      → includes s v ≡ true
      → includes r v ≡ true
  unfolding includes_range includes
  includes_range-includes r s v h k =
      ground (arith, less_eq_trans r.start s.start v, gt_val_mono s.end r.end v)

  -- `RangeEnd` is ordered as the trait `Ord` asks, with the open end above all others.
  pub range_end_self : (e : RangeEnd T) → range_end_cmp e e ≡ eq
  unfolding range_end_cmp
  range_end_self (closed e) = o.cmp_self e
  range_end_self open_end = refl

pub start-le : (r : Range ℕ) (v : ℕ) → includes r v ≡ true → r.start ≤ v
unfolding includes
start-le r v h = ground arith
