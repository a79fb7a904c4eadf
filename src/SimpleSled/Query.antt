-- ===== src/SimpleSled/Query.antt =====
-- Reading of store_simple_sled/src/lib.rs: `payload`, `entry`, the producers of payloads and of
-- entries, and `count_area`.
use willow_rs.Prelude.{
  ℕ, zero, suc, ◌+◌, ◌-◌, ◌^◌, ◌⊎◌, inl, inr, Bool, true, false, ◌&&◌, ◌||◌, not, Option, none,
  some, List, [], ◌∷◌, ltb, ◌==◌, if◌then◌else◌, length, get_elem?, Ordering, compare,
}
pub mod Producer
use mathlib.Core.Option
use Prim.Native.Nat.Ordering.{lt, eq, gt}
use willow_rs.Prelude.Order.{Ord, equal, list_ord, nat_ord}
use willow_rs.Prelude.Outcome.{Outcome, ok, err, panic, ◌>>=◌, unwrap, Done, done}
use willow_rs.Path.{WillowPath}
use willow_rs.Path.NewMax.{new_max}
use willow_rs.Entry.{Entry}
use willow_rs.Grouping.Range
use willow_rs.Grouping.Area
use willow_rs.Grouping.Area.{Area}
use willow_rs.Grouping.Range3d
use willow_rs.Grouping.Range3d.{Range3d}
use willow_rs.Store.{LengthyAuthorisedEntry, PayloadError, QueryIgnoreParams}
use willow_rs.SimpleSled.Sled.{Bytes, Binding}
use willow_rs.SimpleSled.State.{
  Setting, Faults, checked, Store, EntryValues, path_key, spt_key, decode_binding, decode_key,
  decode_entry_values,
}
use willow_rs.SimpleSled.Forget.{unexpected, prefix_gt, lengthy, area_scan}

abbrev drop {ℓ} : {A : Type ℓ} → ℕ → List A → List A
drop zero xs = xs
drop (suc n) [] = []
drop (suc n) (x ∷ xs) = drop n xs

-- `PayloadProducer`.
pub record PayloadProducer : Type 0 where
  pub produced : ℕ
  pub ivec : Bytes

-- `produce`: a byte or the end, or the panic of `unreachable!`; the producer is not advanced.
pub produce_byte : {E : Type 0} → PayloadProducer → Outcome E (ℕ ⊎ Done) × PayloadProducer
produce_byte p = elim (compare p.produced (length p.ivec)) [
  | lt ↦ elim (get_elem? p.ivec p.produced) [ some byte ↦ (ok (inl byte), p) | none ↦ (panic, p) ]
  | eq ↦ (ok (inr done), p)
  | gt ↦ (panic, p)
]

-- `consider_produced`.
pub consider_produced : ℕ → PayloadProducer → PayloadProducer
consider_produced amount p = record p { produced = p.produced + amount }

-- `expose_items`: the slice that is left, or the end; slicing past the end panics.
pub expose_items : {E : Type 0} → PayloadProducer → Outcome E (Bytes ⊎ Done)
expose_items p = if ltb (length p.ivec) p.produced then panic else elim (drop p.produced p.ivec) [
  | [] ↦ ok (inr done)
  | byte ∷ bytes ↦ ok (inl (byte ∷ bytes))
]

pub data Payload : Type 0 where
  complete incomplete : PayloadProducer → Payload

-- The ends of a payload that is there or not.
pub payload_of : ℕ → ℕ → PayloadProducer → Payload
payload_of length local_length p = if length == local_length then complete p else incomplete p

module _ {N S PD AT E : Type 0} (cfg : Setting N S PD AT) ⦃pd : Ord PD⦄ where
  pub payload :
      Faults E → Store cfg E → S → WillowPath → ℕ → Option PD → Outcome (PayloadError E) Payload
  unfolding unexpected payload_of
  payload faults s subspace path offset expected_digest = do
    _ ← checked faults.open_spt PayloadError.operation_error
    _ ← checked faults.open_payload PayloadError.operation_error
    let exact_key = path_key cfg subspace path true
    elim (prefix_gt cfg faults exact_key s.spt) [
      | some (_, value) ↦ do
        v ← unwrap (decode_entry_values cfg value)
        _ ← if unexpected expected_digest v.digest then err PayloadError.wrong_entry else ok done
        elim (prefix_gt cfg faults exact_key s.payloads) [
          | some (_, payload_value) ↦ ok (
              payload_of v.length v.local_length
                (record { produced = offset; ivec = payload_value }))
          | none ↦
              if ltb 0 v.length && (v.length == v.local_length)
              then panic
              else ok (payload_of v.length v.local_length (record { produced = 0; ivec = [] }))
        ]
      | none ↦ elim (prefix_gt cfg faults exact_key s.payloads) [
        | none ↦ err PayloadError.no_such_entry
        | some b ↦ panic
      ]
    ]

module _ {N S PD AT : Type 0} (cfg : Setting N S PD AT) where
  -- The test that `entry` and the producer of entries share.
  unfoldable pub is_ignored : QueryIgnoreParams → EntryValues PD AT → Bool
  is_ignored ignore v =
      (ignore.ignore_incomplete_payloads && ltb v.local_length v.length)
      || (ignore.ignore_empty_payloads && (v.length == 0))

  module _ {E : Type 0} where
    pub entry :
        Faults E
        → Store cfg E
        → S
        → WillowPath
        → QueryIgnoreParams
        → Outcome E (Option (LengthyAuthorisedEntry N S PD AT))
    unfolding is_ignored
    entry faults s subspace path ignore = do
      _ ← checked faults.open_spt (λ x. x)
      elim (prefix_gt cfg faults (path_key cfg subspace path true) s.spt) [
        | none ↦ ok none
        | some b ↦ do
          (e, v) ← unwrap (decode_binding cfg s.namespace_id b)
          if is_ignored ignore v then ok none else ok (some (lengthy cfg e v))
      ]

-- `EntryProducer`; the iterator is what is left of the scan, once there is one.
module _ (N S PD AT : Type 0) where
  pub record EntryProducer : Type 0 where
    pub iter : Option (List Binding)
    pub ignore : QueryIgnoreParams
    pub range : Range3d S

-- `unwrap_or`.
abbrev pub or_end : {A : Type 0} → Option A → A → A
or_end none other = other
or_end (some end) other = end

module _ {N S PD AT : Type 0} (cfg : Setting N S PD AT) ⦃o : Ord S⦄ where
  -- The loop of `produce`: the next entry in the range that is not ignored, or the first error of
  -- the scan, with what is left of the scan.
  unfoldable pub entry_loop :
      {E : Type 0}
      → Faults E
      → N
      → QueryIgnoreParams
      → Range3d S
      → List Binding
      → Outcome E (Option (LengthyAuthorisedEntry N S PD AT)) × List Binding
  unfolding is_ignored
  entry_loop faults namespace ignore range [] = (ok none, [])
  entry_loop faults namespace ignore range (b ∷ bs) =
      let rest = entry_loop faults namespace ignore range bs in
      elim (faults.item b) [
        | some e ↦ (err e, bs)
        | none ↦ elim (decode_binding cfg namespace b) [
          | none ↦ (panic, bs)
          | some (e, v) ↦
              if not (Range3d.includes_entry range e)
              then rest
              else (if is_ignored cfg ignore v then rest else (ok (some (lengthy cfg e v)), bs))
        ]
      ]

module _ {N S PD AT : Type 0} (cfg : Setting N S PD AT) (max_id : S) ⦃o : Ord S⦄ where
  -- The scan of `produce` over the first tree, with both ends included.
  unfoldable pub range_scan : WillowPath → Range3d S → cfg.sled.Tree → List Binding
  range_scan max_path r tree =
      cfg.sled.range (spt_key cfg r.subspaces.start r.paths.start r.times.start)
        (spt_key cfg (or_end (Range.get_end r.subspaces) max_id)
          (or_end (Range.get_end r.paths) max_path) (or_end (Range.get_end r.times) (2 ^ 64 - 1)))
        tree

  module _ {E : Type 0} where
    -- The iterator that the producer has, or the one that it makes; the largest path is that of
    -- `Path::new_max`, which may panic.
    unfoldable pub started :
        Faults E → Store cfg E → EntryProducer N S PD AT → Outcome E (List Binding)
    unfolding range_scan
    started faults s p = elim p.iter [
      | some bs ↦ ok bs
      | none ↦ do
        _ ← checked faults.open_spt (λ x. x)
        elim (new_max cfg.limits) [
          | ok max_path ↦ ok (range_scan max_path p.range s.spt)
          | err e ↦ panic
          | panic ↦ panic
        ]
    ]

    -- `EntryProducer::produce`.
    unfoldable pub produce_entry :
        Faults E
        → Store cfg E
        → EntryProducer N S PD AT
        → Outcome E (LengthyAuthorisedEntry N S PD AT ⊎ Done) × EntryProducer N S PD AT
    unfolding started entry_loop
    produce_entry faults s p = elim (started faults s p) [
      | err e ↦ (err e, p)
      | panic ↦ (panic, p)
      | ok bs ↦
          let (result, rest) = entry_loop cfg faults s.namespace_id p.ignore p.range bs in
          let q : EntryProducer N S PD AT = record p { iter = some rest } in
          elim result [
            | err e ↦ (err e, q)
            | panic ↦ (panic, q)
            | ok none ↦ (ok (inr done), q)
            | ok (some found) ↦ (ok (inl found), q)
          ]
    ]

module _ {N S PD AT : Type 0} (cfg : Setting N S PD AT) ⦃o : Ord S⦄ {E : Type 0} where
  -- The loop of `count_area`; it decodes the keys only, and ends at an error of the scan.
  pub count_loop : Faults E → Area S → List Binding → Outcome E ℕ
  count_loop faults area [] = ok 0
  count_loop faults area ((key, value) ∷ bs) =
      let rest = count_loop faults area bs in
      elim (faults.item (key, value)) [
        | some e ↦ err e
        | none ↦ elim (decode_key cfg key) [
          | none ↦ panic
          | some (subspace, path, timestamp) ↦ rest >>= λ (n : ℕ).
              ok (if Area.includes_triplet area subspace path timestamp then n + 1 else n)
        ]
      ]

  pub count_area : Faults E → Store cfg E → Area S → Outcome E ℕ
  unfolding count_loop
  count_area faults s area = do
    _ ← checked faults.open_spt (λ x. x)
    count_loop faults area (area_scan cfg area s.spt)
