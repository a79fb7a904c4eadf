-- ===== src/SimpleSled/Split.antt =====
-- `SplitProducer` of store_simple_sled/src/lib.rs: the parts into which a range is split.
pub mod Parts
use willow_rs.Prelude.{
  ℕ, zero, suc, ◌+◌, ◌-◌, ◌/◌, ◌%◌, ◌^◌, ◌⊎◌, inl, inr, Bool, true, false, ◌&&◌, ◌||◌, not, Option,
  none, some, List, [], ◌∷◌, ◌++◌, ltb, ◌==◌, if◌then◌else◌, length,
}
use willow_rs.Prelude.Order.{Ord, nat_ord}
use willow_rs.Prelude.Outcome.{Outcome, ok, err, panic, ◌>>=◌, Done, done}
use willow_rs.Path.{WillowPath}
use willow_rs.Path.NewMax.{new_max}
use willow_rs.Parameters.{SubspaceId}
use willow_rs.Grouping.Range
use willow_rs.Grouping.Range.{Range, RangeEnd, closed, open_end}
use willow_rs.Grouping.Area.{AreaOfInterest}
use willow_rs.Grouping.Range3d
use willow_rs.Grouping.Range3d.{Range3d, from_area}
use willow_rs.Store.{LengthyAuthorisedEntry, ignore_nothing}
use willow_rs.Store.Events.Produce.{Subscriber}
use willow_rs.SimpleSled.Keys.{decode_tsp_entry_key}
use willow_rs.SimpleSled.Sled.{Bytes, Binding}
use willow_rs.SimpleSled.State.{
  Setting, Faults, flatten, checked, Store, decode_entry_values, tsp_key,
}
use willow_rs.SimpleSled.Query.{EntryProducer, started, produce_entry, or_end}
use willow_rs.SimpleSled.Ranges.{Fingerprint, summarise, tsp_scan}

pub record PartitionOpts : Type 0 where
  pub min_range_size : ℕ
  pub target_split_count : ℕ

pub data SplitAction (FP : Type 0) : Type 0 where
  send_fingerprint : FP → SplitAction FP
  send_entries : ℕ → SplitAction FP

pub record SplitProducer (S : Type 0) : Type 0 where
  pub iter : List Binding
  -- The number that `enumerate` gives to the next item.
  pub index : ℕ
  pub range : Range3d S
  pub options : PartitionOpts
  pub current_size : ℕ
  pub target_size : ℕ
  pub total_count : ℕ
  pub current_lower_bound_timestamp : ℕ

-- The range of a part of the range that is split.
abbrev part : {S : Type 0} → SplitProducer S → RangeEnd ℕ → Range3d S
part q end = record {
  subspaces = q.range.subspaces;
  paths = q.range.paths;
  times = record { start = q.current_lower_bound_timestamp; end = end };
}

-- `time_upper_bound`; `none` is a panic.
unfoldable pub time_upper_bound :
    {N S PD AT : Type 0} → Setting N S PD AT → Bool → Bytes → RangeEnd ℕ → Option (RangeEnd ℕ)
time_upper_bound cfg true key end = some end
time_upper_bound cfg false key end =
    elim (decode_tsp_entry_key cfg.subspaces cfg.u64_be cfg.limits key) [
      | none ↦ none
      | some (timestamp, subspace, path) ↦ some (closed timestamp)
    ]

module _ {N S PD AT E FP : Type 0} (cfg : Setting N S PD AT) (max_id : S) ⦃o : Ord S⦄
    (faults : Faults E) (s : Store cfg E) (fp : Fingerprint N S PD AT FP) where
  -- What to do with a part of a range.
  unfoldable pub split_of : PartitionOpts → Range3d S → Outcome E (Range3d S × SplitAction FP)
  unfolding summarise
  split_of options range = do
    (fingerprint, size) ← summarise cfg max_id faults s fp range
    ok (
      range,
      if ltb size options.min_range_size then send_entries size else send_fingerprint fingerprint,
    )

  -- `SplitProducer::new`.
  pub split_producer_new : Range3d S → PartitionOpts → Outcome E (SplitProducer S)
  unfolding summarise tsp_scan
  split_producer_new range options = do
    _ ← checked faults.open_tsp (λ x. x)
    (_, count) ← summarise cfg max_id faults s fp range
    elim options.target_split_count [
      | zero ↦ panic
      | suc c ↦ elim (new_max cfg.limits) [
        | ok max_path ↦ ok (record {
          iter = flatten faults (tsp_scan cfg max_id max_path range s.tsp);
          index = 0;
          range = range;
          options = options;
          current_size = 0;
          target_size = count / suc c;
          total_count = count;
          current_lower_bound_timestamp = range.times.start;
        })
        | err e ↦ panic
        | panic ↦ panic
      ]
    ]

  -- The part that ends at a bound, or `none` where it would be empty.
  unfoldable pub make_split :
      RangeEnd ℕ
      → SplitProducer S
      → Outcome E (Option (Range3d S × SplitAction FP)) × SplitProducer S
  unfolding split_of
  make_split open_end q = elim (split_of q.options (part q open_end)) [
    | ok split ↦ (ok (some split), q)
    | err e ↦ (err e, q)
    | panic ↦ (panic, q)
  ]
  make_split (closed timestamp) q =
      elim (Range.new_closed q.current_lower_bound_timestamp timestamp) [
        | none ↦ (ok none, q)
        | some times ↦ elim (split_of q.options (part q (closed timestamp))) [
          | ok split ↦ (
            ok (some split),
            record q { current_lower_bound_timestamp = timestamp; current_size = 0 },
          )
          | err e ↦ (err e, q)
          | panic ↦ (panic, q)
        ]
      ]

  -- What `produce` does with one item of the scan: the part that it makes, or `none` to go on.
  unfoldable pub split_at :
      Bytes → SplitProducer S → Outcome E (Option (Range3d S × SplitAction FP)) × SplitProducer S
  unfolding make_split time_upper_bound
  split_at key p =
      let is_last = p.index == (p.total_count + 2 ^ 64 - 1) % 2 ^ 64 in
      let q : SplitProducer S = record p {
        index = p.index + 1;
        current_size = p.current_size + 1;
      } in
      if not (is_last || ltb q.target_size q.current_size)
      then (ok none, q)
      else elim (time_upper_bound cfg is_last key q.range.times.end) [
        | none ↦ (panic, q)
        | some end ↦ make_split end q
      ]

  -- The recursion of `produce`, over what is left of the scan.
  unfoldable pub split_loop :
      List Binding
      → SplitProducer S
      → Outcome E ((Range3d S × SplitAction FP) ⊎ Done) × SplitProducer S
  split_loop [] p = (ok (inr done), p)
  split_loop ((key, value) ∷ bs) p =
      let (result, q) = split_at key (record p { iter = bs }) in
      elim result [
        | ok none ↦ split_loop bs q
        | ok (some split) ↦ (ok (inl split), q)
        | err e ↦ (err e, q)
        | panic ↦ (panic, q)
      ]

  -- `SplitProducer::produce`.
  unfoldable pub produce_split :
      SplitProducer S → Outcome E ((Range3d S × SplitAction FP) ⊎ Done) × SplitProducer S
  unfolding split_loop
  produce_split p = split_loop p.iter p
