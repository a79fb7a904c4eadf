-- ===== src/SimpleSled/Ingest/Consistent.antt =====
-- The invariant of a store of store_simple_sled/src/lib.rs: no entry that it holds prunes another.
use willow_rs.Prelude.{
  ℕ, ◌≡◌, refl, sym, ap, ◌∙◌, Bool, true, false, ◌&&◌, not, Option, none, some, arith,
  if◌then◌else◌, ◌⊎◌, inl, inr, ◌>>=◌, Option-cases,
}
use willow_rs.Prelude.Order.{Ord, equal, eq_of_cmp_list, list_ord, nat_ord}
use willow_rs.Prelude.Outcome.{ok}
use willow_rs.Path.{WillowPath, is_prefix_of, is_prefixed_by}
use willow_rs.Path.Prefix.{is_prefixed_by_lem}
use willow_rs.Entry.{Entry, is_newer_than, prunes}
use willow_rs.Entry.Newer.{is_newer_than_irrefl, is_newer_than_asym, prunes_lem}
use willow_rs.Store.{AuthorisedEntry, EntryOrigin, success}
use willow_rs.SimpleSled.Keys.Scan.{subspace-encode_spt_entry_key}
use willow_rs.SimpleSled.Sled.{Bytes}
use willow_rs.SimpleSled.Sled.Laws.{holds_value}
use willow_rs.SimpleSled.State.{
  Setting, Faults, Store, EntryValues, decode_entry_values, spt_key, entry_of,
}
use willow_rs.SimpleSled.State.Seen.{is_seen, Yields, holds_value-Yields}
use willow_rs.SimpleSled.Held.{held_in, Fits, decode_binding-spt_key, same_place}
use willow_rs.SimpleSled.Ingest.{ingest_entry}
use willow_rs.SimpleSled.Ingest.Pruning.{obsoletes}
use willow_rs.SimpleSled.Ingest.Ends.{not_obsolete}
use willow_rs.SimpleSled.Ingest.Invariant.{not_newer, fresh_values, EntryFits, held-ingest_entry}

if_some :
    {A : Type 0} (c d : Bool) (x : A) (o : Option A) {w : A}
    → (if c then some x else (if d then none else o)) ≡ some w
    → ((c ≡ true) × (w ≡ x)) ⊎ ((d ≡ false) × (o ≡ some w))
if_some true d x o h = inl (refl, cc)
if_some false true x o h = cc
if_some false false x o h = inr (refl, h)

module _ {N S PD AT : Type 0} (cfg : Setting N S PD AT) ⦃pd : Ord PD⦄ ⦃n : Ord N⦄ ⦃o : Ord S⦄ where
  abbrev pub Consistent : N → cfg.sled.Tree → Type 0
  Consistent namespace tree =
      (u t : S) (p q : WillowPath) (l m : ℕ) (v w : EntryValues PD AT)
      → Fits cfg p l
      → Fits cfg q m
      → held_in cfg tree u p l ≡ some v
      → held_in cfg tree t q m ≡ some w
      → prunes (entry_of cfg namespace u p l v) (entry_of cfg namespace t q m w) ≡ false

  -- A held entry that makes `e` obsolete.
  abbrev makes_obsolete : N → Entry N S PD → S → WillowPath → ℕ → EntryValues PD AT → Bool
  makes_obsolete namespace e u p l v =
      equal e.subspace_id u
      && is_prefixed_by e.path p
      && is_newer_than (entry_of cfg namespace u p l v) e

  obsoletes-held :
      (namespace : N) (e : Entry N S PD) (u : S) (p : WillowPath) (l : ℕ) (x : Option Bytes)
      (v : EntryValues PD AT)
      → Fits cfg p l
      → (x >>= decode_entry_values cfg) ≡ some v
      → (equal e.subspace_id u && holds_value (obsoletes cfg namespace e (spt_key cfg u p l)) x)
        ≡ makes_obsolete namespace e u p l v
  unfolding obsoletes
  obsoletes-held namespace e u p l none v f h = cc
  obsoletes-held namespace e u p l (some value) v f h =
      ground (arith, decode_binding-spt_key cfg namespace u p l value f)

  module _ {E : Type 0} (faults : Faults E) (s : Store cfg E) (a : AuthorisedEntry N S PD AT)
      (prevent : Bool) (origin : EntryOrigin)
      (done : (ingest_entry cfg faults s a prevent origin).0 ≡ ok success)
      (fits : EntryFits cfg a.entry) (yields : Yields faults cfg.sled s.spt) where
    seen-held :
        (t : S) (q : WillowPath) (m : ℕ) (w : EntryValues PD AT)
        → held_in cfg s.spt t q m ≡ some w
        → is_seen faults (spt_key cfg t q m) (cfg.sled.get (spt_key cfg t q m) s.spt) ≡ true
    unfolding held_in
    seen-held t q m w h = elim (Option-cases (cfg.sled.get (spt_key cfg t q m) s.spt)) [
      | inl e ↦ absurd (cc (rw e at h))
      | inr (value, e) ↦ rw (e, yields (spt_key cfg t q m) value e)
    ]

    not_obsolete-held :
        (u : S) (p : WillowPath) (l : ℕ) (v : EntryValues PD AT)
        → Fits cfg p l
        → held_in cfg s.spt u p l ≡ some v
        → makes_obsolete s.namespace_id a.entry u p l v ≡ false
    unfolding held_in
    not_obsolete-held u p l v f h =
        sym (
          obsoletes-held s.namespace_id a.entry u p l (cfg.sled.get (spt_key cfg u p l) s.spt) v f
            h)
        ∙ ap (λ b. equal a.entry.subspace_id u && b)
            (sym (
              holds_value-Yields faults cfg.sled (spt_key cfg u p l)
                (obsoletes cfg s.namespace_id a.entry (spt_key cfg u p l)) s.spt yields))
        ∙ ap
            (λ b.
              b
              && (holds_value (obsoletes cfg s.namespace_id a.entry (spt_key cfg u p l))
                    (cfg.sled.get (spt_key cfg u p l) s.spt)
                  && is_seen faults (spt_key cfg u p l) (cfg.sled.get (spt_key cfg u p l) s.spt)))
            (sym (subspace-encode_spt_entry_key cfg.subspaces cfg.u64_be a.entry.subspace_id u p l))
        ∙ not_obsolete cfg faults s a prevent origin (spt_key cfg u p l) done

    not_fallen :
        (t : S) (q : WillowPath) (m : ℕ) (w : EntryValues PD AT)
        → ((equal a.entry.subspace_id t && is_prefix_of a.entry.path q)
            && (not_newer cfg s.namespace_id a.entry t q m (held_in cfg s.spt t q m)
                && is_seen faults (spt_key cfg t q m) (cfg.sled.get (spt_key cfg t q m) s.spt)))
          ≡ false
        → held_in cfg s.spt t q m ≡ some w
        → (equal a.entry.subspace_id t
            && is_prefix_of a.entry.path q
            && not (is_newer_than (entry_of cfg s.namespace_id t q m w) a.entry))
          ≡ false
    not_fallen t q m w d e = ground (arith, rw (e, seen-held t q m w e) at d)

    -- An entry that is held afterwards is the new one, or one that was held and does not fall to it.
    held_cases :
        (t : S) (q : WillowPath) (m : ℕ) (w : EntryValues PD AT)
        → Fits cfg q m
        → held_in cfg (ingest_entry cfg faults s a prevent origin).1.spt t q m ≡ some w
        → ((same_place cfg a.entry.subspace_id a.entry.path a.entry.timestamp t q m ≡ true)
            × (w ≡ fresh_values cfg a))
          ⊎ ((held_in cfg s.spt t q m ≡ some w)
              × ((equal a.entry.subspace_id t
                    && is_prefix_of a.entry.path q
                    && not (is_newer_than (entry_of cfg s.namespace_id t q m w) a.entry))
                  ≡ false))
    held_cases t q m w g h =
        elim (if_some (same_place cfg a.entry.subspace_id a.entry.path a.entry.timestamp t q m)
          ((equal a.entry.subspace_id t && is_prefix_of a.entry.path q)
            && (not_newer cfg s.namespace_id a.entry t q m (held_in cfg s.spt t q m)
                && is_seen faults (spt_key cfg t q m) (cfg.sled.get (spt_key cfg t q m) s.spt)))
          (fresh_values cfg a) (held_in cfg s.spt t q m)
          (sym (held-ingest_entry cfg faults s a prevent origin t q m fits g done) ∙ h)) [
            | inl (c, e) ↦ inl (c, e)
            | inr (d, e) ↦ inr (e, not_fallen t q m w d e)
          ]

    -- The new entry, as the store holds it.
    abbrev new : Entry N S PD
    new =
        entry_of cfg s.namespace_id a.entry.subspace_id a.entry.path a.entry.timestamp
          (fresh_values cfg a)

    newer_than_new : (e : Entry N S PD) → is_newer_than e new ≡ is_newer_than e a.entry
    unfolding is_newer_than
    newer_than_new e = refl

    -- What stands at the place of the new entry, with its values, is the new entry.
    is_new :
        (t : S) (q : WillowPath) (m : ℕ) (w : EntryValues PD AT)
        → same_place cfg a.entry.subspace_id a.entry.path a.entry.timestamp t q m ≡ true
        → w ≡ fresh_values cfg a
        → entry_of cfg s.namespace_id t q m w ≡ new
    is_new t q m w h e =
        ground (arith, o.eq_of_cmp a.entry.subspace_id t, eq_of_cmp_list a.entry.path q)

    new_does_not_prune :
        (t : S) (q : WillowPath) (m : ℕ) (w : EntryValues PD AT)
        → (equal a.entry.subspace_id t
            && is_prefix_of a.entry.path q
            && not (is_newer_than (entry_of cfg s.namespace_id t q m w) a.entry))
          ≡ false
        → prunes new (entry_of cfg s.namespace_id t q m w) ≡ false
    new_does_not_prune t q m w h = ground (
      arith,
      prunes_lem new (entry_of cfg s.namespace_id t q m w),
      o.cmp_swap t a.entry.subspace_id,
      newer_than_new (entry_of cfg s.namespace_id t q m w),
      is_newer_than_asym new (entry_of cfg s.namespace_id t q m w),
    )

    new_is_not_pruned :
        (u : S) (p : WillowPath) (l : ℕ) (v : EntryValues PD AT)
        → makes_obsolete s.namespace_id a.entry u p l v ≡ false
        → prunes (entry_of cfg s.namespace_id u p l v) new ≡ false
    new_is_not_pruned u p l v h = ground (
      arith,
      prunes_lem (entry_of cfg s.namespace_id u p l v) new,
      is_prefixed_by_lem a.entry.path p,
      newer_than_new (entry_of cfg s.namespace_id u p l v),
    )

    -- The invariant that no entry which the store holds prunes another is kept by a successful
    -- `ingest_entry` of an entry that fits the keys and values, if sled yields every binding of the
    -- first tree: of two entries that the store holds
    -- after it, at paths within the limits and times below 2^64, neither prunes the other.
    pub ingest_entry-Consistent :
        (u t : S) (p q : WillowPath) (l m : ℕ) (v w : EntryValues PD AT)
        → Consistent s.namespace_id s.spt
        → Fits cfg p l
        → Fits cfg q m
        → held_in cfg (ingest_entry cfg faults s a prevent origin).1.spt u p l ≡ some v
        → held_in cfg (ingest_entry cfg faults s a prevent origin).1.spt t q m ≡ some w
        → prunes (entry_of cfg s.namespace_id u p l v) (entry_of cfg s.namespace_id t q m w) ≡ false
    ingest_entry-Consistent u t p q l m v w c f g h k = elim (held_cases u p l v f h) [
      | inl (same, e) ↦ elim (held_cases t q m w g k) [
        | inl (same', e') ↦
            rw (is_new u p l v same e, is_new t q m w same' e')
              (ground (arith, prunes_lem new new, is_newer_than_irrefl new))
        | inr (old, d) ↦ rw (is_new u p l v same e) (new_does_not_prune t q m w d)
      ]
      | inr (old, d) ↦ elim (held_cases t q m w g k) [
        | inl (same', e') ↦
            rw (is_new t q m w same' e')
              (new_is_not_pruned u p l v (not_obsolete-held u p l v f old))
        | inr (old', d') ↦ c u t p q l m v w f g old old'
      ]
    ]
