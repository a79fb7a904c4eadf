-- ===== src/Grouping/Range.antt =====
-- data-model/src/grouping/range.rs: ranges of an ordered type, closed or open.
pub mod Laws
use Prim.Native.Nat.Ordering.{lt, eq, gt}
use willow_rs.Prelude.{Ordering, Bool, true, false, ◌&&◌, Option, none, some, if◌then◌else◌}
use willow_rs.Prelude.Order.{Ord, less, less_eq, is_le}
use willow_rs.Prelude.Compare.{ord_max, ord_min}

-- `Closed` and `Open`; the latter is a reserved word here.
pub data RangeEnd {ℓ} (T : Type ℓ) : Type ℓ where
  closed : T → RangeEnd T
  open_end : RangeEnd T

pub record Range {ℓ} (T : Type ℓ) : Type ℓ where
  pub start : T
  pub end : RangeEnd T

module _ {ℓ} {T : Type ℓ} where
  unfoldable pub new_open : T → Range T
  new_open start = record { start = start; end = open_end }

  pub is_open : Range T → Bool
  is_open r = elim r.end [ open_end ↦ true | closed t ↦ false ]

  unfoldable pub get_end : Range T → Option T
  get_end r = elim r.end [ open_end ↦ none | closed t ↦ some t ]

module _ {ℓ} {T : Type ℓ} ⦃o : Ord T⦄ where
  unfoldable pub gt_val : RangeEnd T → T → Bool
  gt_val open_end val = true
  gt_val (closed end_val) val = less val end_val

  -- `impl Ord for RangeEnd`; `partial_cmp` is the same function under `Some`.
  unfoldable pub range_end_cmp : RangeEnd T → RangeEnd T → Ordering
  range_end_cmp (closed e) (closed f) = o.cmp e f
  range_end_cmp (closed e) open_end = lt
  range_end_cmp open_end (closed f) = gt
  range_end_cmp open_end open_end = eq

  -- `impl PartialOrd<T> for RangeEnd<T>`.
  pub cmp_val : RangeEnd T → T → Ordering
  cmp_val (closed e) val = o.cmp e val
  cmp_val open_end val = gt

  unfoldable pub new_closed : T → T → Option (Range T)
  new_closed start end =
      if less start end then some (record { start = start; end = closed end }) else none

  unfoldable pub includes : Range T → T → Bool
  unfolding gt_val
  includes r value = less_eq r.start value && gt_val r.end value

  unfoldable pub includes_range : Range T → Range T → Bool
  unfolding range_end_cmp
  includes_range r other = less_eq r.start other.start && is_le (range_end_cmp other.end r.end)

  -- The `match` on both ends, of `intersection`.
  intersect_ends : RangeEnd T → RangeEnd T → RangeEnd T
  intersect_ends open_end (closed b) = closed b
  intersect_ends (closed a) (closed b) = closed (ord_min a b)
  intersect_ends (closed a) open_end = closed a
  intersect_ends open_end open_end = open_end

  unfoldable pub intersection : Range T → Range T → Option (Range T)
  unfolding intersect_ends new_open new_closed
  intersection r other =
      let start = ord_max r.start other.start in
      elim (intersect_ends r.end other.end) [
        | open_end ↦ some (new_open start)
        | closed t ↦ new_closed start t
      ]

  -- `impl Ord for Range`.
  pub range_cmp : Range T → Range T → Ordering
  unfolding range_end_cmp
  range_cmp r other = elim (o.cmp r.start other.start) [
    | lt ↦ lt
    | eq ↦ eq
    | gt ↦ range_end_cmp r.end other.end
  ]
