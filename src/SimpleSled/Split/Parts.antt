-- ===== src/SimpleSled/Split/Parts.antt =====
-- The parts that `SplitProducer` of store_simple_sled/src/lib.rs produces.
use willow_rs.Prelude.{
  ℕ, ◌+◌, ◌-◌, ◌%◌, ◌^◌, ◌<◌, ◌≡◌, refl, sym, ap, ◌∙◌, ◌⊎◌, inl, inr, Bool, ◌||◌, not, Option, none,
  some, List, [], ◌∷◌, ltb, ◌==◌, arith, Bool-cases, Option-cases,
}
use willow_rs.Prelude.Order.{Ord, less, nat_ord}
use willow_rs.Prelude.Outcome.{Outcome, ok, err, panic, bind_ok, ok_inj, Outcome-cases}
use willow_rs.Grouping.Range
use willow_rs.Grouping.Range.{RangeEnd, closed, open_end}
use willow_rs.Grouping.Range3d.{Range3d}
use willow_rs.SimpleSled.Sled.{Bytes, Binding}
use willow_rs.SimpleSled.State.{Setting, Faults, Store}
use willow_rs.SimpleSled.Ranges.{Fingerprint, summarise}
use willow_rs.SimpleSled.Split.{
  SplitAction, SplitProducer, part, time_upper_bound, PartitionOpts, make_split, split_of, split_at,
  split_loop, produce_split,
}

result_cases :
    {E A B : Type 0} (t : Outcome E (Option A) × B)
    → ((q : B) × (t ≡ (ok none, q)))
      ⊎ (((a : A) × (q : B) × (t ≡ (ok (some a), q)))
          ⊎ (((e : E) × (q : B) × (t ≡ (err e, q))) ⊎ ((q : B) × (t ≡ (panic, q)))))
result_cases (ok none, q) = inl (q, refl)
result_cases (ok (some a), q) = inr (inl (a, q, refl))
result_cases (err e, q) = inr (inr (inl (e, q, refl)))
result_cases (panic, q) = inr (inr (inr (q, refl)))

-- Where the next part begins: at the end of this one, which is later than its start, if it has an
-- end.
abbrev pub NextStart : RangeEnd ℕ → ℕ → ℕ → Type 0
NextStart open_end lower lower' = lower' ≡ lower
NextStart (closed timestamp) lower lower' = (lower < timestamp) × (lower' ≡ timestamp)

-- The part is one of the range that is split, from the current lower bound on.
abbrev pub NextPart : {S : Type 0} → SplitProducer S → Range3d S → SplitProducer S → Type 0
NextPart p r q =
    (q.range ≡ p.range)
    × (r.subspaces ≡ p.range.subspaces)
    × (r.paths ≡ p.range.paths)
    × (r.times.start ≡ p.current_lower_bound_timestamp)
    × NextStart r.times.end p.current_lower_bound_timestamp q.current_lower_bound_timestamp

module _ {N S PD AT E FP : Type 0} (cfg : Setting N S PD AT) (max_id : S) ⦃o : Ord S⦄
    (faults : Faults E) (s : Store cfg E) (fp : Fingerprint N S PD AT FP) where
  -- What an item leaves as it was.
  abbrev Unmoved : SplitProducer S → SplitProducer S → Type 0
  Unmoved p q =
      (q.range ≡ p.range) × (q.current_lower_bound_timestamp ≡ p.current_lower_bound_timestamp)

  split_of-ok :
      (options : PartitionOpts) (r r' : Range3d S) (action : SplitAction FP)
      → split_of cfg max_id faults s fp options r ≡ ok (r', action)
      → r ≡ r'
  unfolding split_of
  split_of-ok options r r' action h =
      let (_, _, h1) = bind_ok (summarise cfg max_id faults s fp r) _ h in ap (λ x. x.0) (ok_inj h1)

  make_split-open :
      (p q : SplitProducer S) (r : Range3d S) (action : SplitAction FP)
      → make_split cfg max_id faults s fp open_end p ≡ (ok (some (r, action)), q)
      → NextPart p r q
  unfolding make_split
  make_split-open p q r action h =
      elim (Outcome-cases (split_of cfg max_id faults s fp p.options (part p open_end))) [
        | inr (inl (x, e)) ↦ absurd (cc (rw (make_split, e) at h))
        | inr (inr e) ↦ absurd (cc (rw (make_split, e) at h))
        | inl ((r', a), e) ↦
            let same : part p open_end ≡ r =
              split_of-ok p.options (part p open_end) r' a e ∙ ground (arith, h, e) in
            let moved : p ≡ q = ground (arith, h, e) in
            rw (← same, ← moved) (refl, refl, refl, refl, refl)
      ]

  make_split-closed :
      (timestamp : ℕ) (p q : SplitProducer S) (r : Range3d S) (action : SplitAction FP)
      → make_split cfg max_id faults s fp (closed timestamp) p ≡ (ok (some (r, action)), q)
      → NextPart p r q
  unfolding make_split Range.new_closed
  make_split-closed timestamp p q r action h =
      elim (Bool-cases (less p.current_lower_bound_timestamp timestamp)) [
        | inr l ↦ absurd (cc (rw (make_split, l) at h))
        | inl l ↦
            elim (Outcome-cases
              (split_of cfg max_id faults s fp p.options (part p (closed timestamp)))) [
                | inr (inl (x, e)) ↦ absurd (cc (rw (make_split, l, e) at h))
                | inr (inr e) ↦ absurd (cc (rw (make_split, l, e) at h))
                | inl ((r', a), e) ↦
                    let same : part p (closed timestamp) ≡ r =
                      split_of-ok p.options (part p (closed timestamp)) r' a e
                      ∙ ground (arith, h, e, l) in
                    let moved : record p {
                      current_lower_bound_timestamp = timestamp;
                      current_size = 0;
                    }
                        ≡ q =
                      ground (arith, h, e, l) in
                    rw (← same, ← moved) (refl, refl, refl, refl, (ground arith, refl))
              ]
      ]

  make_split-some :
      (end : RangeEnd ℕ) (p q : SplitProducer S) (r : Range3d S) (action : SplitAction FP)
      → make_split cfg max_id faults s fp end p ≡ (ok (some (r, action)), q)
      → NextPart p r q
  make_split-some open_end p q r action h = make_split-open p q r action h
  make_split-some (closed timestamp) p q r action h = make_split-closed timestamp p q r action h

  make_split-none :
      (end : RangeEnd ℕ) (p q : SplitProducer S)
      → make_split cfg max_id faults s fp end p ≡ (ok none, q)
      → p ≡ q
  unfolding make_split Range.new_closed
  make_split-none open_end p q h =
      ground (arith, Outcome-cases (split_of cfg max_id faults s fp p.options (part p open_end)))
  make_split-none (closed timestamp) p q h = ground (
    arith,
    Bool-cases (less p.current_lower_bound_timestamp timestamp),
    Outcome-cases (split_of cfg max_id faults s fp p.options (part p (closed timestamp))),
  )

  -- The producer with an item counted.
  abbrev counted : SplitProducer S → SplitProducer S
  counted p = record p { index = p.index + 1; current_size = p.current_size + 1 }

  -- The end of the part that an item may make, and whether it makes one.
  abbrev is_last : SplitProducer S → Bool
  is_last p = p.index == (p.total_count + 2 ^ 64 - 1) % 2 ^ 64

  abbrev upper : Bytes → SplitProducer S → Option (RangeEnd ℕ)
  upper key p = time_upper_bound cfg (is_last p) key p.range.times.end

  abbrev goes_on : SplitProducer S → Bool
  goes_on p = not (is_last p || ltb p.target_size (p.current_size + 1))

  split_at-some :
      (key : Bytes) (p q : SplitProducer S) (r : Range3d S) (action : SplitAction FP)
      → split_at cfg max_id faults s fp key p ≡ (ok (some (r, action)), q)
      → NextPart p r q
  unfolding split_at
  split_at-some key p q r action h = elim (Bool-cases (goes_on p)) [
    | inl g ↦ absurd (cc (rw (split_at, g) at h))
    | inr g ↦ elim (Option-cases (upper key p)) [
      | inl u ↦ absurd (cc (rw (split_at, g, u) at h))
      | inr (end, u) ↦ make_split-some end (counted p) q r action (rw (split_at, g, u) at h)
    ]
  ]

  split_at-none :
      (key : Bytes) (p q : SplitProducer S)
      → split_at cfg max_id faults s fp key p ≡ (ok none, q)
      → Unmoved p q
  unfolding split_at
  split_at-none key p q h = elim (Bool-cases (goes_on p)) [
    | inl g ↦
        rw
          (← ap (λ (x : Outcome E (Option (Range3d S × SplitAction FP)) × SplitProducer S). x.1)
            (rw (split_at, g) at h))
          (refl, refl)
    | inr g ↦ elim (Option-cases (upper key p)) [
      | inl u ↦ absurd (cc (rw (split_at, g, u) at h))
      | inr (end, u) ↦
          rw (← make_split-none end (counted p) q (rw (split_at, g, u) at h)) (refl, refl)
    ]
  ]

  split_loop-some :
      (bs : List Binding) (p q : SplitProducer S) (r : Range3d S) (action : SplitAction FP)
      → split_loop cfg max_id faults s fp bs p ≡ (ok (inl (r, action)), q)
      → NextPart p r q
  unfolding split_loop
  split_loop-some [] p q r action h = absurd (cc h)
  split_loop-some ((key, value) ∷ bs) p q r action h =
      elim (result_cases (split_at cfg max_id faults s fp key (record p { iter = bs }))) [
        | inl (q', e) ↦
            let (ranges, lower) = split_at-none key (record p { iter = bs }) q' e in
            rw (← ranges, ← lower)
              (split_loop-some bs q' q r action (
                ap (λ t. split_loop cfg max_id faults s fp bs t.1) (sym e)
                ∙ rw (split_loop, ap (λ t. t.0) e) at h))
        | inr (inl (split, q', e)) ↦
            split_at-some key (record p { iter = bs }) q r action
              (e ∙ ground (arith, rw (split_loop, e) at h))
        | inr (inr (inl (x, q', e))) ↦ absurd (cc (rw (split_loop, e) at h))
        | inr (inr (inr (q', e))) ↦ absurd (cc (rw (split_loop, e) at h))
      ]

  -- Each part that the producer of splits yields is one of the range with its subspaces and paths and
  -- the times from the current lower bound on. If the part has an end, that is later than its start,
  -- and is the lower bound then, where the next part starts; otherwise the lower bound stays.
  pub produce_split-NextPart :
      (p q : SplitProducer S) (r : Range3d S) (action : SplitAction FP)
      → produce_split cfg max_id faults s fp p ≡ (ok (inl (r, action)), q)
      → NextPart p r q
  unfolding produce_split
  produce_split-NextPart p q r action h = split_loop-some p.iter p q r action h
