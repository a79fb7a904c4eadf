-- ===== src/SimpleSled/Ingest/Invariant.antt =====
-- `ingest_entry` of store_simple_sled/src/lib.rs on the entries that the store holds, and the
-- invariant of prefix pruning.
use willow_rs.Prelude.{
  ℕ, ◌^◌, ◌<◌, ◌≡◌, refl, Bool, true, false, ◌&&◌, not, Option, none, some, arith, ◌>>=◌,
  if◌then◌else◌, Option-cases, inl, inr,
}
use willow_rs.Prelude.Order.{Ord, equal, list_ord, nat_ord}
use willow_rs.Prelude.Outcome.{ok}
use willow_rs.Path.{WillowPath, is_prefix_of}
use willow_rs.Entry.{Entry, is_newer_than}
use willow_rs.Store.{AuthorisedEntry, EntryOrigin, success}
use willow_rs.SimpleSled.Keys.Scan.{prefixed-encode_spt_entry_key}
use willow_rs.SimpleSled.Sled.{Bytes}
use willow_rs.SimpleSled.Sled.Laws.{holds_value}
use willow_rs.SimpleSled.State.{
  Setting, Faults, Store, EntryValues, encode_entry_values, decode_entry_values, spt_key, entry_of,
}
use willow_rs.SimpleSled.State.Values.{decode-encode_entry_values}
use willow_rs.SimpleSled.State.Seen.{is_seen}
use willow_rs.SimpleSled.Held.{held_in, Fits, decode_binding-spt_key, same_place, equal-spt_key}
use willow_rs.SimpleSled.Ingest.{ingest_entry}
use willow_rs.SimpleSled.Ingest.Pruning.{falls_to}
use willow_rs.SimpleSled.Ingest.Ends.{get-ingest_entry}

bind_if :
    {A B : Type 0} (c d : Bool) (x : A) (o : Option A) (f : A → Option B) {y : B}
    → f x ≡ some y
    → ((if c then some x else (if d then none else o)) >>= f)
      ≡ (if c then some y else (if d then none else (o >>= f)))
bind_if true d x o f h = h
bind_if false true x o f h = refl
bind_if false false x o f h = refl

module _ {N S PD AT : Type 0} (cfg : Setting N S PD AT) ⦃pd : Ord PD⦄ where
  -- A held entry that is not newer than `e`.
  abbrev pub not_newer : N → Entry N S PD → S → WillowPath → ℕ → Option (EntryValues PD AT) → Bool
  not_newer namespace e s p t none = false
  not_newer namespace e s p t (some v) = not (is_newer_than (entry_of cfg namespace s p t v) e)

  falls_to-held :
      (namespace : N) (e : Entry N S PD) (s : S) (p : WillowPath) (t : ℕ) (o : Option Bytes)
      → Fits cfg p t
      → holds_value (falls_to cfg namespace e (spt_key cfg s p t)) o
        ≡ not_newer namespace e s p t (o >>= decode_entry_values cfg)
  unfolding falls_to
  falls_to-held namespace e s p t none f = refl
  falls_to-held namespace e s p t (some value) f =
      elim (Option-cases (decode_entry_values cfg value)) [
        | inl d ↦ ground (arith, decode_binding-spt_key cfg namespace s p t value f)
        | inr (v, d) ↦ ground (arith, decode_binding-spt_key cfg namespace s p t value f)
      ]

  -- The values under which a new entry is stored: no byte of its payload is there.
  abbrev pub fresh_values : AuthorisedEntry N S PD AT → EntryValues PD AT
  fresh_values a = record {
    length = a.entry.payload_length;
    digest = a.entry.payload_digest;
    token = a.token;
    local_length = 0;
  }

  -- An entry that the store can hold.
  abbrev pub EntryFits : Entry N S PD → Type 0
  EntryFits e = Fits cfg e.path e.timestamp × (e.payload_length < 2 ^ 64)

  module _ {E : Type 0} ⦃n : Ord N⦄ ⦃o : Ord S⦄ (faults : Faults E) (s : Store cfg E)
      (a : AuthorisedEntry N S PD AT) (prevent : Bool) (origin : EntryOrigin) where
    -- For an entry whose path is within the limits and whose time and length are below 2^64, and for
    -- such a place: after a successful `ingest_entry` the store
    -- holds the new entry, with none of its payload; of
    -- the others it holds those that it held, less the entries of the same subspace whose paths
    -- extend the new entry's path and that are not newer, save those that the scan answers by an
    -- error.
    pub held-ingest_entry :
        (t : S) (q : WillowPath) (m : ℕ)
        → EntryFits a.entry
        → Fits cfg q m
        → (ingest_entry cfg faults s a prevent origin).0 ≡ ok success
        → held_in cfg (ingest_entry cfg faults s a prevent origin).1.spt t q m ≡ (
            if same_place cfg a.entry.subspace_id a.entry.path a.entry.timestamp t q m
            then some (fresh_values a)
            else (if (equal a.entry.subspace_id t && is_prefix_of a.entry.path q)
                  && (not_newer s.namespace_id a.entry t q m (held_in cfg s.spt t q m)
                      && is_seen faults
                          (spt_key cfg t q m)
                          (cfg.sled.get (spt_key cfg t q m) s.spt))
                then none
                else held_in cfg s.spt t q m))
    unfolding held_in
    held-ingest_entry t q m f g h =
        rw
          (
            get-ingest_entry cfg faults s a prevent origin (spt_key cfg t q m) h,
            equal-spt_key cfg a.entry.subspace_id t a.entry.path q a.entry.timestamp m f.0 g,
            prefixed-encode_spt_entry_key cfg.subspaces cfg.u64_be a.entry.subspace_id t
                a.entry.path q m,
            falls_to-held s.namespace_id a.entry t q m (cfg.sled.get (spt_key cfg t q m) s.spt) g,
          )
          (bind_if (same_place cfg a.entry.subspace_id a.entry.path a.entry.timestamp t q m)
            ((equal a.entry.subspace_id t && is_prefix_of a.entry.path q)
              && (not_newer s.namespace_id a.entry t q m
                    (cfg.sled.get (spt_key cfg t q m) s.spt >>= decode_entry_values cfg)
                  && is_seen faults (spt_key cfg t q m) (cfg.sled.get (spt_key cfg t q m) s.spt)))
            (encode_entry_values cfg a.entry.payload_length a.entry.payload_digest a.token 0)
            (cfg.sled.get (spt_key cfg t q m) s.spt) (decode_entry_values cfg)
            (decode-encode_entry_values cfg a.entry.payload_length a.entry.payload_digest a.token 0
              f.1 (omega arith)))
