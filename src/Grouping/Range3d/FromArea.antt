-- ===== src/Grouping/Range3d/FromArea.antt =====
-- `singleton_range`, and what the range that is made from an area includes.
use Prim.Native.Nat.Ordering.{lt}
use willow_rs.Prelude.{ℕ, ◌≡◌, ◌↔◌, refl, sym, ap, true, false, Option, none, some, arith, All}
use willow_rs.Prelude.Order.{Ord, less, less_eq, list_ord, nat_ord}
use willow_rs.Prelude.Compare.{less_eq-not-less, less_eq_refl}
use willow_rs.Path.{Limits, WillowPath, IsPath, is_prefix_of, path_cmp}
use willow_rs.Path.Successor.{successor}
use willow_rs.Path.Successor.Next.{successor-gt, successor-none}
use willow_rs.Path.Successor.Exact.{IsExact, successor-least}
use willow_rs.Parameters.{SubspaceId, singleton_range}
use willow_rs.Grouping.Range
use willow_rs.Grouping.Range.{Range, includes}
use willow_rs.Grouping.Area
use willow_rs.Grouping.Area.{Area, AreaSubspace, any, id, subspace_includes}
use willow_rs.Grouping.Area.Laws.{subspace_includes-any, subspace_includes-id, includes_triplet_lem}
use willow_rs.Path.Prefix.{is_prefix_of_refl}
use willow_rs.Grouping.Range3d.{includes_triplet, from_area, from_subspace}

module _ {ℓ} {T : Type ℓ} ⦃o : Ord T⦄ where
  -- A range from a value to its successor includes the value alone, among values that the successor
  -- is right about.
  singleton_range_lem :
      (t : T) (next : Option T) (u : T)
      → ((n : T) → next ≡ some n → less t n ≡ true)
      → ((n : T) → next ≡ some n → less t u ≡ true → less_eq n u ≡ true)
      → (next ≡ none → less t u ≡ false)
      → (includes (singleton_range t next) u ≡ true) ↔ (u ≡ t)
  unfolding singleton_range includes
  singleton_range_lem t none u above least top =
      (λ h. sym (o.eq_of_cmp t u (ground (arith, top refl))), λ e. ground (arith, less_eq_refl t))
  singleton_range_lem t (some n) u above least top = (
    λ h. sym (o.eq_of_cmp t u (ground (arith, least n refl, less_eq-not-less n u))),
    λ e. ground (arith, less_eq_refl t, above n refl),
  )

includes-new_open {ℓ} :
    {T : Type ℓ} ⦃o : Ord T⦄ (t u : T) → less_eq t u ≡ true → includes (Range.new_open t) u ≡ true
unfolding includes Range.new_open
includes-new_open t u h = ground arith

-- The singleton range of a subspace id includes that id alone.
pub subspace_singleton_range {ℓ} :
    {S : Type ℓ} (i : SubspaceId S) (s u : S)
    → (includes ⦃o = i.ord⦄ (singleton_range s (i.successor s)) u ≡ true) ↔ (u ≡ s)
subspace_singleton_range i s u =
    singleton_range_lem ⦃o = i.ord⦄ s (i.successor s) u (i.successor_gt s)
      (λ n. i.successor_least s n u) (i.successor_none s u)

-- The singleton range of a valid path includes that path alone, among valid paths, if no component
-- of it ends in the byte 255 or all bytes of it are 255.
pub path_singleton_range :
    (k : Limits) (p q : WillowPath)
    → IsPath k p
    → All IsExact p
    → IsPath k q
    → (includes (singleton_range p (successor k p)) q ≡ true) ↔ (q ≡ p)
path_singleton_range k p q v x w =
    singleton_range_lem p (successor k p) q (λ n h. ground (arith, (successor-gt k p n v h).1))
      (λ n h l. successor-least k p n q v x h w (ground arith))
      (λ h. not_lt (successor-none k p q v h w))
  where
    not_lt : ¬ (path_cmp p q ≡ lt) → less p q ≡ false
    not_lt n = ground arith

subspace_range_iff {ℓ} :
    {S : Type ℓ} (i : SubspaceId S) (x : AreaSubspace S) (s : S)
    → (includes ⦃o = i.ord⦄ (from_subspace i x) s ≡ true)
      ↔ (subspace_includes ⦃o = i.ord⦄ x s ≡ true)
unfolding from_subspace
subspace_range_iff i any s = (
  λ _. subspace_includes-any ⦃o = i.ord⦄ s,
  λ _. includes-new_open ⦃o = i.ord⦄ i.default s (i.default_least s),
)
subspace_range_iff i (id x) s = (
  λ h. (subspace_includes-id ⦃o = i.ord⦄ x s).1 ((subspace_singleton_range i x s).0 h),
  λ h. (subspace_singleton_range i x s).1 ((subspace_includes-id ⦃o = i.ord⦄ x s).0 h),
)

-- The range that is made from an area includes, among entries at valid paths, those of the area
-- whose path is the area's own: no entry at a path that extends it. This is for an area whose path
-- is valid and has no component that ends in the byte 255 and holds another.
pub from_area_iff {ℓ} :
    {S : Type ℓ} (i : SubspaceId S) (k : Limits) (a : Area S) (s : S) (q : WillowPath) (t : ℕ)
    → IsPath k a.path
    → All IsExact a.path
    → IsPath k q
    → (includes_triplet ⦃o = i.ord⦄ (from_area i k a) s q t ≡ true)
      ↔ ((Area.includes_triplet ⦃o = i.ord⦄ a s q t ≡ true) × (q ≡ a.path))
unfolding from_area includes_triplet
from_area_iff i k a s q t v x w =
    let one = path_singleton_range k a.path q v x w in
    let sub = subspace_range_iff i a.subspace s in
    (
      λ h.
          let e = one.0 (ground arith) in
          (
            ground (
              arith,
              sub,
              includes_triplet_lem ⦃o = i.ord⦄ a s q t,
              ap (λ u. is_prefix_of a.path u) e,
              is_prefix_of_refl a.path,
            ),
            e,
          ),
      λ h. ground (arith, sub, one, includes_triplet_lem ⦃o = i.ord⦄ a s q t),
    )
