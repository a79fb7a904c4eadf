-- ===== src/SimpleSled/Forget/Payloads.antt =====
-- Payloads in store_simple_sled/src/lib.rs: they are stored under a key without a timestamp, and
-- removed under the key of the entry, so that they outlive their entries.
use willow_rs.Prelude.{
  ℕ, ◌≡◌, ap, ◌∙◌, Bool, true, false, ◌&&◌, Option, none, some, arith, if◌then◌else◌, Option-cases,
  inl, inr,
}
use willow_rs.Prelude.Order.{Ord, list_ord, nat_ord}
use willow_rs.Prelude.Outcome.{ok}
use willow_rs.Path.{WillowPath}
use willow_rs.Grouping.Area.{Area}
use willow_rs.Store.{AuthorisedEntry, EntryOrigin, success}
use willow_rs.SimpleSled.Keys.Apart.{path_key-ne-spt_entry_key}
use willow_rs.SimpleSled.Sled.{Bytes}
use willow_rs.SimpleSled.Sled.Laws.{contains, holds_value, get-remove_all}
use willow_rs.SimpleSled.State.{Setting, Faults, Store, path_key, spt_key}
use willow_rs.SimpleSled.State.Seen.{is_seen}
use willow_rs.Prelude.Least.{prefixed}
use willow_rs.SimpleSled.Ingest.{ingest_entry}
use willow_rs.SimpleSled.Ingest.Ends.{payload-ingest_entry}
use willow_rs.SimpleSled.Forget.{forgot_area, forget_area}
use willow_rs.SimpleSled.Forget.Areas.{
  forgotten, forget_area_loop-some, in_scan, finds-area_scan, forget_area-ok,
}

and_false : (b : Bool) → (b && false) ≡ false
and_false b = ground arith

module _ {N S PD AT : Type 0} (cfg : Setting N S PD AT) where
  -- The keys of the first tree are keys of entries.
  abbrev pub Canonical : cfg.sled.Tree → Type 0
  Canonical tree =
      (key value : Bytes)
      → cfg.sled.get key tree ≡ some value
      → (t : S) × (q : WillowPath) × (n : ℕ) × (key ≡ spt_key cfg t q n)

  module _ ⦃o : Ord S⦄ where
    no_entry_at_path_key :
        (tree : cfg.sled.Tree) (s : S) (p : WillowPath)
        → Canonical tree
        → cfg.sled.get (path_key cfg s p true) tree ≡ none
    no_entry_at_path_key tree s p c =
        elim (Option-cases (cfg.sled.get (path_key cfg s p true) tree)) [
          | inl e ↦ e
          | inr (value, e) ↦
              let (t, q, n, k) = c (path_key cfg s p true) value e in
              absurd (path_key-ne-spt_entry_key cfg.subspaces cfg.u64_be s t p q n k)
        ]

    module _ {E : Type 0} (faults : Faults E) (s : Store cfg E) where
      -- If the keys of the first tree are keys of entries, `forget_area` removes no payload.
      pub forget_area-payloads :
          (area : Area S) (protected : Option (Area S)) (t : S) (q : WillowPath) {count : ℕ}
          → Canonical s.spt
          → (forget_area cfg faults s area protected).0 ≡ ok count
          → cfg.sled.get
              (path_key cfg t q true)
              (forget_area cfg faults s area protected).1.payloads
            ≡ cfg.sled.get (path_key cfg t q true) s.payloads
      unfolding forgot_area
      forget_area-payloads area protected t q c h =
          let (keys, ts, l, _, e) = forget_area-ok cfg faults s area protected h in
          let key = path_key cfg t q true in
          let kept : contains key keys ≡ false =
            forget_area_loop-some cfg s.namespace_id area protected _ keys ts key l
            ∙ finds-area_scan cfg faults area key (forgotten cfg s.namespace_id area protected key)
                s.spt
            ∙ ap
                (λ x.
                  in_scan cfg area key
                  && (holds_value (forgotten cfg s.namespace_id area protected key) x
                      && is_seen faults key x))
                (no_entry_at_path_key s.spt t q c)
            ∙ and_false (in_scan cfg area key) in
          ap (λ (x : Store cfg E). cfg.sled.get key x.payloads) e
          ∙ get-remove_all cfg.sled keys key s.payloads
          ∙ ap (λ b. if b then none else cfg.sled.get key s.payloads) kept

  module _ ⦃pd : Ord PD⦄ ⦃n : Ord N⦄ ⦃o : Ord S⦄ {E : Type 0} (faults : Faults E)
      (s : Store cfg E) where
    -- If the keys of the first tree are keys of entries, a successful `ingest_entry` leaves every
    -- payload as it was, also those of the entries that it prunes and one at the path of the new entry.
    pub ingest_entry-payloads :
        (a : AuthorisedEntry N S PD AT) (prevent : Bool) (origin : EntryOrigin) (t : S)
        (q : WillowPath)
        → Canonical s.spt
        → (ingest_entry cfg faults s a prevent origin).0 ≡ ok success
        → cfg.sled.get
            (path_key cfg t q true)
            (ingest_entry cfg faults s a prevent origin).1.payloads
          ≡ cfg.sled.get (path_key cfg t q true) s.payloads
    ingest_entry-payloads a prevent origin t q c h = rw (
      payload-ingest_entry cfg faults s a prevent origin (path_key cfg t q true) h,
      no_entry_at_path_key s.spt t q c,
      and_false
          (prefixed (path_key cfg a.entry.subspace_id a.entry.path false) (path_key cfg t q true)),
    )
