-- ===== src/SimpleSled/Ranges/Summary.antt =====
-- `summarise` of store_simple_sled/src/lib.rs: the fingerprint and the number of the entries of a
-- range.
use willow_rs.Prelude.{
  ℕ, zero, suc, ◌+◌, ◌<◌, ◌≡◌, refl, ap, ◌∙◌, ◌⊎◌, inl, inr, false, not, Option, none, some, List,
  [], ◌∷◌, length, if◌then◌else◌, arith, Bool-cases, Option-cases,
}
use mathlib.Core.Option
use mathlib.Core.Path.{subst}
use willow_rs.Entry.{Entry}
use willow_rs.Prelude.Order.{Ord}
use willow_rs.Prelude.Outcome.{ok, err, done}
use willow_rs.Grouping.Range3d
use willow_rs.Grouping.Range3d.{Range3d}
use willow_rs.Store.{LengthyAuthorisedEntry, QueryIgnoreParams, ignore_nothing}
use willow_rs.SimpleSled.Sled.{Binding}
use willow_rs.SimpleSled.State.{Setting, Faults, Store, EntryValues, decode_binding}
use willow_rs.SimpleSled.Forget.{lengthy}
use willow_rs.SimpleSled.Query.{EntryProducer, is_ignored, entry_loop, started, produce_entry}
use willow_rs.SimpleSled.Ranges.{Fingerprint, summarise_loop, summarise}

module _ {N S PD AT : Type 0} (cfg : Setting N S PD AT) ⦃o : Ord S⦄ where
  -- The entries of the bindings that are in the range and not ignored, up to the first binding that
  -- sled answers by an error; `none` where a binding cannot be decoded.
  unfoldable pub visible :
      {E : Type 0}
      → Faults E
      → N
      → QueryIgnoreParams
      → Range3d S
      → List Binding
      → Option (List (LengthyAuthorisedEntry N S PD AT))
  visible faults namespace ignore range [] = some []
  visible faults namespace ignore range (b ∷ bs) =
      let rest = visible faults namespace ignore range bs in
      elim (faults.item b) [
        | some e ↦ some []
        | none ↦ elim (decode_binding cfg namespace b) [
          | none ↦ none
          | some (e, v) ↦
              if not (Range3d.includes_entry range e)
              then rest
              else (if is_ignored cfg ignore v
                  then rest
                  else Option.map
                      (λ (xs : List (LengthyAuthorisedEntry N S PD AT)). lengthy cfg e v ∷ xs) rest)
        ]
      ]

  module _ {E : Type 0} (faults : Faults E) where
    -- The loop of the producer ends, at the end of the scan or at an error.
    abbrev Ends : N → QueryIgnoreParams → Range3d S → List Binding → Type 0
    Ends namespace ignore range bs =
        (rest : List Binding) × ((entry_loop cfg faults namespace ignore range bs ≡ (ok none, rest))
          ⊎ ((e : E) × (entry_loop cfg faults namespace ignore range bs ≡ (err e, rest))))

    -- The loop of the producer finds the first of them, or ends.
    abbrev Finds :
        N
        → QueryIgnoreParams
        → Range3d S
        → List Binding
        → List (LengthyAuthorisedEntry N S PD AT)
        → Type 0
    Finds namespace ignore range bs [] = Ends namespace ignore range bs
    Finds namespace ignore range bs (x ∷ xs) =
        (rest : List Binding) × (entry_loop cfg faults namespace ignore range bs
          ≡ (ok (some x), rest))
        × (length rest < length bs)
        × (visible faults namespace ignore range rest ≡ some xs)

    Finds-cons :
        (namespace : N) (ignore : QueryIgnoreParams) (range : Range3d S) (b : Binding)
        (bs : List Binding) (xs : List (LengthyAuthorisedEntry N S PD AT))
        → entry_loop cfg faults namespace ignore range (b ∷ bs)
          ≡ entry_loop cfg faults namespace ignore range bs
        → Finds namespace ignore range bs xs
        → Finds namespace ignore range (b ∷ bs) xs
    Finds-cons namespace ignore range b bs [] e (rest, inl f) = (rest, inl (e ∙ f))
    Finds-cons namespace ignore range b bs [] e (rest, inr (x, f)) = (rest, inr (x, e ∙ f))
    Finds-cons namespace ignore range b bs (x ∷ xs) e (rest, f, l, v) =
        (rest, e ∙ f, omega arith, v)

    Finds-error :
        (namespace : N) (ignore : QueryIgnoreParams) (range : Range3d S) (b : Binding)
        (bs : List Binding) (xs : List (LengthyAuthorisedEntry N S PD AT)) (e : E)
        → faults.item b ≡ some e
        → ◌≡◌ {A = Option (List (LengthyAuthorisedEntry N S PD AT))} (some []) (some xs)
        → Finds namespace ignore range (b ∷ bs) xs
    unfolding entry_loop
    Finds-error namespace ignore range b bs [] e i h = (bs, inr (e, rw (entry_loop, i) refl))
    Finds-error namespace ignore range b bs (x ∷ xs) e i h = absurd (cc h)

    Finds-first :
        (namespace : N) (ignore : QueryIgnoreParams) (range : Range3d S) (b : Binding)
        (bs : List Binding) (xs : List (LengthyAuthorisedEntry N S PD AT)) (e : Entry N S PD)
        (v : EntryValues PD AT)
        → faults.item b ≡ none
        → decode_binding cfg namespace b ≡ some (e, v)
        → not (Range3d.includes_entry range e) ≡ false
        → is_ignored cfg ignore v ≡ false
        → Option.map
            (λ (ys : List (LengthyAuthorisedEntry N S PD AT)). lengthy cfg e v ∷ ys)
            (visible faults namespace ignore range bs)
          ≡ some xs
        → Finds namespace ignore range (b ∷ bs) xs
    unfolding entry_loop
    Finds-first namespace ignore range b bs xs e v f d out i h =
        elim (Option-cases (visible faults namespace ignore range bs)) [
          | inl r ↦ absurd (cc (rw r at h))
          | inr (ys, r) ↦
              subst (λ t. Finds namespace ignore range (b ∷ bs) t) {x = lengthy cfg e v ∷ ys}
                (ground (arith, rw r at h)) (bs, rw (entry_loop, f, d, out, i) refl, omega arith, r)
        ]

    entry_loop-visible :
        (namespace : N) (ignore : QueryIgnoreParams) (range : Range3d S) (bs : List Binding)
        (xs : List (LengthyAuthorisedEntry N S PD AT))
        → visible faults namespace ignore range bs ≡ some xs
        → Finds namespace ignore range bs xs
    unfolding visible entry_loop
    entry_loop-visible namespace ignore range [] [] h = ([], inl refl)
    entry_loop-visible namespace ignore range [] (x ∷ xs) h = cc
    entry_loop-visible namespace ignore range (b ∷ bs) xs h = elim (Option-cases (faults.item b)) [
      | inr (x, f) ↦ Finds-error namespace ignore range b bs xs x f (rw (visible, f) at h)
      | inl f ↦ elim (Option-cases (decode_binding cfg namespace b)) [
        | inl d ↦ absurd (cc (rw (visible, f, d) at h))
        | inr ((e, v), d) ↦ elim (Bool-cases (not (Range3d.includes_entry range e))) [
          | inl out ↦
              Finds-cons namespace ignore range b bs xs (rw (entry_loop, f, d, out) refl)
                (entry_loop-visible namespace ignore range bs xs (rw (visible, f, d, out) at h))
          | inr out ↦ elim (Bool-cases (is_ignored cfg ignore v)) [
            | inl i ↦
                Finds-cons namespace ignore range b bs xs (rw (entry_loop, f, d, out, i) refl) (
                  entry_loop-visible namespace ignore range bs xs (rw (visible, f, d, out, i) at h))
            | inr i ↦
                Finds-first namespace ignore range b bs xs e v f d out i
                  (rw (visible, f, d, out, i) at h)
          ]
        ]
      ]
    ]

module _ {N S PD AT E FP : Type 0} (cfg : Setting N S PD AT) (max_id : S) ⦃o : Ord S⦄
    (faults : Faults E) (s : Store cfg E) (fp : Fingerprint N S PD AT FP) where
  -- The entries' fingerprints, combined from the first on.
  abbrev pub combined : FP → List (LengthyAuthorisedEntry N S PD AT) → FP
  combined fingerprint [] = fingerprint
  combined fingerprint (x ∷ xs) = combined (fp.combine fingerprint (fp.singleton x)) xs

  abbrev scanning : QueryIgnoreParams → Range3d S → List Binding → EntryProducer N S PD AT
  scanning ignore range bs = record { iter = some bs; ignore = ignore; range = range }

  produce_entry-some :
      (ignore : QueryIgnoreParams) (range : Range3d S) (bs rest : List Binding)
      (x : LengthyAuthorisedEntry N S PD AT)
      → entry_loop cfg faults s.namespace_id ignore range bs ≡ (ok (some x), rest)
      → produce_entry cfg max_id faults s (scanning ignore range bs)
        ≡ (ok (inl x), scanning ignore range rest)
  unfolding produce_entry started
  produce_entry-some ignore range bs rest x e = ground (arith, e)

  produce_entry-none :
      (ignore : QueryIgnoreParams) (range : Range3d S) (bs rest : List Binding)
      → entry_loop cfg faults s.namespace_id ignore range bs ≡ (ok none, rest)
      → produce_entry cfg max_id faults s (scanning ignore range bs)
        ≡ (ok (inr done), scanning ignore range rest)
  unfolding produce_entry started
  produce_entry-none ignore range bs rest e = ground (arith, e)

  produce_entry_failed :
      (ignore : QueryIgnoreParams) (range : Range3d S) (bs rest : List Binding) (x : E)
      → entry_loop cfg faults s.namespace_id ignore range bs ≡ (err x, rest)
      → produce_entry cfg max_id faults s (scanning ignore range bs)
        ≡ (err x, scanning ignore range rest)
  unfolding produce_entry started
  produce_entry_failed ignore range bs rest x e = ground (arith, e)

  round :
      (fuel : ℕ) (p q : EntryProducer N S PD AT) (x : LengthyAuthorisedEntry N S PD AT)
      (fingerprint : FP) (size : ℕ)
      → produce_entry cfg max_id faults s p ≡ (ok (inl x), q)
      → summarise_loop cfg max_id faults s fp (suc fuel) p fingerprint size
        ≡ summarise_loop cfg max_id faults s fp fuel q
            (fp.combine fingerprint (fp.singleton x))
            (size + 1)
  unfolding summarise_loop
  round fuel p q x fingerprint size e =
      rw (summarise_loop, ap (λ t. t.0) e)
        (ap
          (λ t.
            summarise_loop cfg max_id faults s fp fuel t (fp.combine fingerprint (fp.singleton x))
              (size + 1))
          (ap (λ t. t.1) e))

  last_round :
      (fuel : ℕ) (p : EntryProducer N S PD AT) (fingerprint : FP) (size : ℕ)
      → ((produce_entry cfg max_id faults s p).0 ≡ ok (inr done))
        ⊎ ((x : E) × ((produce_entry cfg max_id faults s p).0 ≡ err x))
      → summarise_loop cfg max_id faults s fp (suc fuel) p fingerprint size ≡ ok (fingerprint, size)
  unfolding summarise_loop
  last_round fuel p fingerprint size (inl e) = rw (summarise_loop, e) refl
  last_round fuel p fingerprint size (inr (x, e)) = rw (summarise_loop, e) refl

  ending :
      (ignore : QueryIgnoreParams) (range : Range3d S) (bs : List Binding)
      → Ends cfg faults s.namespace_id ignore range bs
      → ((produce_entry cfg max_id faults s (scanning ignore range bs)).0 ≡ ok (inr done))
        ⊎ ((x : E) × ((produce_entry cfg max_id faults s (scanning ignore range bs)).0 ≡ err x))
  ending ignore range bs (rest, inl e) =
      inl (ap (λ t. t.0) (produce_entry-none ignore range bs rest e))
  ending ignore range bs (rest, inr (x, e)) =
      inr (x, ap (λ t. t.0) (produce_entry_failed ignore range bs rest x e))

  summarise_loop-visible :
      (fuel : ℕ) (ignore : QueryIgnoreParams) (range : Range3d S) (bs : List Binding)
      (xs : List (LengthyAuthorisedEntry N S PD AT)) (fingerprint : FP) (size : ℕ)
      → length bs < fuel
      → visible cfg faults s.namespace_id ignore range bs ≡ some xs
      → summarise_loop cfg max_id faults s fp fuel (scanning ignore range bs) fingerprint size
        ≡ ok (combined fingerprint xs, size + length xs)
  summarise_loop-visible zero ignore range bs xs fingerprint size f h = elim f [ ]
  summarise_loop-visible (suc fuel) ignore range bs [] fingerprint size f h =
      last_round fuel (scanning ignore range bs) fingerprint size
        (ending ignore range bs (entry_loop-visible cfg faults s.namespace_id ignore range bs [] h))
      ∙ ap (λ n. ok (fingerprint, n)) (omega arith)
  summarise_loop-visible (suc fuel) ignore range bs (x ∷ xs) fingerprint size f h =
      let (rest, e, l, v) =
        entry_loop-visible cfg faults s.namespace_id ignore range bs (x ∷ xs) h in
      let combined_x = fp.combine fingerprint (fp.singleton x) in
      round fuel (scanning ignore range bs) (scanning ignore range rest) x fingerprint size
        (produce_entry-some ignore range bs rest x e)
      ∙ summarise_loop-visible fuel ignore range rest xs combined_x (size + 1) (omega arith) v
      ∙ ap (λ n. ok (combined combined_x xs, n)) (omega arith)

  -- Where the scan of a range can be made and decoded, `summarise` returns the combined fingerprints
  -- and the number of the entries in the range that the scan finds, up to the first binding that sled
  -- answers by an error: its loop ends.
  pub summarise-visible :
      (range : Range3d S) (bs : List Binding) (xs : List (LengthyAuthorisedEntry N S PD AT))
      → started cfg max_id faults s (record { iter = none; ignore = ignore_nothing; range = range })
        ≡ ok bs
      → visible cfg faults s.namespace_id ignore_nothing range bs ≡ some xs
      → summarise cfg max_id faults s fp range ≡ ok (combined fp.neutral xs, length xs)
  unfolding summarise
  summarise-visible range bs xs e h =
      rw (summarise, e)
        (summarise_loop-visible (suc (length bs)) ignore_nothing range bs xs fp.neutral 0
            (omega arith) h
          ∙ ap (λ n. ok (combined fp.neutral xs, n)) (omega arith))
