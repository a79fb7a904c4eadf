-- ===== src/SimpleSled/Ranges.antt =====
-- store_simple_sled/src/lib.rs as a store for range-based set reconciliation: the query with a
-- subscription, `summarise`, and `area_of_interest_to_range`.
pub mod Summary
use willow_rs.Prelude.{
  ℕ, zero, suc, ◌+◌, ◌-◌, ◌/◌, ◌%◌, ◌^◌, ◌⊎◌, inl, inr, Bool, true, false, ◌&&◌, ◌||◌, not, Option,
  none, some, List, [], ◌∷◌, ◌++◌, ltb, ◌==◌, if◌then◌else◌, length,
}
use willow_rs.Prelude.Order.{Ord, nat_ord}
use willow_rs.Prelude.Outcome.{Outcome, ok, err, panic, ◌>>=◌, Done, done}
use willow_rs.Path.{WillowPath}
use willow_rs.Path.NewMax.{new_max}
use willow_rs.Parameters.{SubspaceId}
use willow_rs.Grouping.Range
use willow_rs.Grouping.Range.{Range, RangeEnd, closed, open_end}
use willow_rs.Grouping.Area.{AreaOfInterest}
use willow_rs.Grouping.Range3d
use willow_rs.Grouping.Range3d.{Range3d, from_area}
use willow_rs.Store.{LengthyAuthorisedEntry, ignore_nothing}
use willow_rs.Store.Events.Produce.{Subscriber}
use willow_rs.SimpleSled.Keys.{decode_tsp_entry_key}
use willow_rs.SimpleSled.Sled.{Bytes, Binding}
use willow_rs.SimpleSled.State.{
  Setting, Faults, flatten, checked, Store, decode_entry_values, tsp_key,
}
use willow_rs.SimpleSled.Query.{EntryProducer, started, produce_entry, or_end}

-- The trait `Fingerprint`.
pub record Fingerprint (N S PD AT FP : Type 0) : Type 0 where
  pub neutral : FP
  pub singleton : LengthyAuthorisedEntry N S PD AT → FP
  pub combine : FP → FP → FP

pub record EntryAndSubProducer (N S PD AT : Type 0) : Type 0 where
  pub entry_producer : EntryProducer N S PD AT
  pub subscriber : Option (Subscriber N S PD AT)

abbrev reverse_onto : {A : Type 0} → List A → List A → List A
reverse_onto [] ys = ys
reverse_onto (x ∷ xs) ys = reverse_onto xs (x ∷ ys)

module _ {N S PD AT : Type 0} (cfg : Setting N S PD AT) (max_id : S) where
  -- The scan of the second tree between the keys of the ends of a range, with both ends included.
  unfoldable pub tsp_scan : WillowPath → Range3d S → cfg.sled.Tree → List Binding
  tsp_scan max_path r tree =
      cfg.sled.range (tsp_key cfg r.subspaces.start r.paths.start r.times.start)
        (tsp_key cfg (or_end (Range.get_end r.subspaces) max_id)
          (or_end (Range.get_end r.paths) max_path) (or_end (Range.get_end r.times) (2 ^ 64 - 1)))
        tree

  module _ ⦃o : Ord S⦄ {E : Type 0} (faults : Faults E) (s : Store cfg E) where
    -- `EntryAndSubProducer::produce`; a subscriber that was given away already is a panic.
    pub produce_entry_or_subscriber :
        EntryAndSubProducer N S PD AT
        → Outcome E (LengthyAuthorisedEntry N S PD AT ⊎ Subscriber N S PD AT)
          × EntryAndSubProducer N S PD AT
    produce_entry_or_subscriber p =
        let (result, q) = produce_entry cfg max_id faults s p.entry_producer in
        elim result [
          | ok (inl item) ↦ (ok (inl item), record p { entry_producer = q })
          | ok (inr _) ↦ elim p.subscriber [
            | none ↦ (panic, record p { entry_producer = q })
            | some sub ↦ (ok (inr sub), record { entry_producer = q; subscriber = none })
          ]
          | err e ↦ (err e, record p { entry_producer = q })
          | panic ↦ (panic, record p { entry_producer = q })
        ]

    module _ {FP : Type 0} (fp : Fingerprint N S PD AT FP) where
      -- The loop of `summarise`. Each round but the last takes a binding of the scan, so one round
      -- more than the scan is long is enough.
      unfoldable pub summarise_loop : ℕ → EntryProducer N S PD AT → FP → ℕ → Outcome E (FP × ℕ)
      summarise_loop zero p fingerprint size = panic
      summarise_loop (suc fuel) p fingerprint size =
          let (result, q) = produce_entry cfg max_id faults s p in
          elim result [
            | ok (inl item) ↦
                summarise_loop fuel q (fp.combine fingerprint (fp.singleton item)) (size + 1)
            | ok (inr _) ↦ ok (fingerprint, size)
            | err e ↦ ok (fingerprint, size)
            | panic ↦ panic
          ]

      -- `summarise`: an error of the producer ends the loop, and is not passed on.
      unfoldable pub summarise : Range3d S → Outcome E (FP × ℕ)
      unfolding summarise_loop
      summarise range =
          let p : EntryProducer N S PD AT = record {
            iter = none;
            ignore = ignore_nothing;
            range = range;
          } in
          elim (started cfg max_id faults s p) [
            | ok bs ↦ summarise_loop (suc (length bs)) (record p { iter = some bs }) fp.neutral 0
            | err e ↦ ok (fp.neutral, 0)
            | panic ↦ panic
          ]

-- The two tests that end the loop of `area_of_interest_to_range`.
unfoldable exceeds : {S : Type 0} → AreaOfInterest S → ℕ → ℕ → Bool
exceeds aoi count size =
    (not (aoi.max_count == 2 ^ 64 - 1) && ltb aoi.max_count ((count + 1) % 2 ^ 64))
    || (not (aoi.max_size == 2 ^ 64 - 1) && ltb aoi.max_size (size % 2 ^ 64))

module _ {N S PD AT : Type 0} (cfg : Setting N S PD AT) ⦃o : Ord S⦄ where
  -- The loop of `area_of_interest_to_range` over the scan from its end: the time of the last entry
  -- that it looks at, which may be the one that exceeds a limit. The outer `none` is a panic.
  pub least_time :
      AreaOfInterest S → Range3d S → List Binding → ℕ → ℕ → Option ℕ → Option (Option ℕ)
  unfolding exceeds
  least_time aoi range [] count size least = some least
  least_time aoi range ((key, value) ∷ bs) count size least =
      elim (decode_tsp_entry_key cfg.subspaces cfg.u64_be cfg.limits key) [
        | none ↦ none
        | some (timestamp, subspace, path) ↦
            elim (Range3d.includes_triplet range subspace path timestamp) [
              | false ↦ least_time aoi range bs count size least
              | true ↦ elim (decode_entry_values cfg value) [
                | none ↦ none
                | some v ↦ elim (exceeds aoi count (size + v.length)) [
                  | true ↦ some (some timestamp)
                  | false ↦
                      least_time aoi range bs ((count + 1) % 2 ^ 64) ((size + v.length) % 2 ^ 64)
                        (some timestamp)
                ]
              ]
            ]
      ]

module _ {N S PD AT : Type 0} (cfg : Setting N S PD AT) where
  -- `area_of_interest_to_range`; an error of sled is a panic.
  pub area_of_interest_to_range :
      {E : Type 0}
      → SubspaceId S
      → S
      → Faults E
      → Store cfg E
      → AreaOfInterest S
      → Outcome E (Range3d S)
  unfolding least_time
  area_of_interest_to_range i max_id faults s aoi =
      let range = from_area i cfg.limits aoi.area in
      elim faults.open_tsp [
        | some e ↦ panic
        | none ↦ elim (new_max cfg.limits) [
          | err e ↦ panic
          | panic ↦ panic
          | ok max_path ↦
              elim (least_time cfg ⦃o = i.ord⦄ aoi range
                (reverse_onto (flatten faults (tsp_scan cfg max_id max_path range s.tsp)) []) 0 0
                none) [
                  | none ↦ panic
                  | some least ↦ ok (record range {
                    times = record {
                      start = or_end least range.times.start;
                      end = range.times.end;
                    };
                  })
                ]
        ]
      ]
