-- ===== src/SimpleSled/Forget/Areas.antt =====
-- `forget_area` of store_simple_sled/src/lib.rs on the entries that the store holds.
use willow_rs.Prelude.{
  ℕ, ◌≡◌, refl, sym, ◌∙◌, Bool, true, false, ◌&&◌, not, Option, none, some, List, [], ◌∷◌, arith,
  ◌>>=◌, if◌then◌else◌, length, Option-cases, inl, inr,
}
use willow_rs.Prelude.Order.{Ord, eq_of_cmp_list, list_ord, nat_ord}
use willow_rs.Prelude.Least.{prefixed}
use willow_rs.Prelude.Outcome.{ok, unwrap, bind_ok, unwrap_ok}
use willow_rs.Path.{WillowPath}
use willow_rs.Path.Prefix.{is_prefixed_by_lem}
use willow_rs.Grouping.Range.{Range}
use willow_rs.Grouping.Area.{Area, AreaSubspace, any, id, includes_triplet}
use willow_rs.SimpleSled.Keys.Scan.{prefixed-encode_spt_entry_key}
use willow_rs.SimpleSled.Sled.{Bytes, Binding, remove_all}
use willow_rs.SimpleSled.Sled.Laws.{contains, finds, holds_value, get-remove_all}
use willow_rs.SimpleSled.State.Seen.{is_seen, finds-flatten-scan_prefix, finds-flatten-iter}
use willow_rs.SimpleSled.State.{
  Setting, Faults, flatten, checked, Store, settle_ok, settled-inj, EntryValues, path_key, spt_key,
  decode_entry_values, decode_binding,
}
use willow_rs.SimpleSled.Held.{held_in, Fits, decode_binding-spt_key}
use willow_rs.SimpleSled.Forget.{
  is_protected, is_forgotten, area_scan, forget_area_loop, forgot_area, forget_area_body,
  forget_area,
}

keep_if :
    {A B : Type 0} (c : Bool) (x : A) (f : A → Option B)
    → ((if c then none else some x) >>= f) ≡ (if c then none else f x)
keep_if true x f = refl
keep_if false x f = refl

and_assoc : (b c d : Bool) → (b && (c && d)) ≡ ((b && c) && d)
and_assoc b c d = ground arith

module _ {N S PD AT : Type 0} (cfg : Setting N S PD AT) ⦃o : Ord S⦄ where
  pub forgotten : N → Area S → Option (Area S) → Bytes → Bytes → Bool
  forgotten namespace area protected key value = elim (decode_binding cfg namespace (key, value)) [
    | none ↦ false
    | some (e, v) ↦ is_forgotten area protected e.subspace_id e.path e.timestamp
  ]

  pub forget_area_loop-some :
      (namespace : N) (area : Area S) (protected : Option (Area S)) (bs : List Binding)
      (keys ts : List Bytes) (key : Bytes)
      → forget_area_loop cfg namespace area protected bs ≡ some (keys, ts)
      → contains key keys ≡ finds key (forgotten namespace area protected key) bs
  unfolding forget_area_loop contains finds forgotten
  forget_area_loop-some namespace area protected [] keys ts key h = ground arith
  forget_area_loop-some namespace area protected ((k, v) ∷ bs) keys ts key h =
      elim (Option-cases (decode_binding cfg namespace (k, v))) [
        | inl d ↦ ground arith
        | inr ((e, w), d) ↦ elim (Option-cases (forget_area_loop cfg namespace area protected bs)) [
          | inl r ↦ ground arith
          | inr ((ks, us), r) ↦ ground (
            arith,
            eq_of_cmp_list k key,
            forget_area_loop-some namespace area protected bs ks us key r,
          )
        ]
      ]

  -- Whether the scan of the loop sees the key.
  pub in_scan : Area S → Bytes → Bool
  in_scan area key = elim area.subspace [
    | any ↦ true
    | id subspace ↦ prefixed (path_key cfg subspace area.path false) key
  ]

  pub finds-area_scan :
      {E : Type 0} (faults : Faults E) (area : Area S) (key : Bytes) (f : Bytes → Bool)
      (tree : cfg.sled.Tree)
      → finds key f (flatten faults (area_scan cfg area tree))
        ≡ in_scan area key
          && (holds_value f (cfg.sled.get key tree) && is_seen faults key (cfg.sled.get key tree))
  unfolding area_scan in_scan
  finds-area_scan faults area key f tree = go area.subspace area.path
    where
      go :
          (sub : AreaSubspace S) (path : WillowPath)
          → finds key f (
              flatten faults (elim sub [
                | any ↦ cfg.sled.iter tree
                | id subspace ↦ cfg.sled.scan_prefix (path_key cfg subspace path false) tree
              ]))
            ≡ (elim sub [
              | any ↦ true
              | id subspace ↦ prefixed (path_key cfg subspace path false) key
            ])
              && (holds_value f (cfg.sled.get key tree)
                  && is_seen faults key (cfg.sled.get key tree))
      go any path = finds-flatten-iter faults cfg.sled key f tree
      go (id subspace) path =
          finds-flatten-scan_prefix faults cfg.sled key f (path_key cfg subspace path false) tree

  -- What the loop tests, of an entry that the scan sees, is that the area includes it and that the
  -- protected area does not.
  scan_and_test :
      (sub : AreaSubspace S) (path : WillowPath) (times : Range ℕ) (protected : Option (Area S))
      (t : S) (q : WillowPath) (n : ℕ)
      → let area : Area S = record { subspace = sub; path = path; times = times } in
        (in_scan area (spt_key cfg t q n) && is_forgotten area protected t q n)
        ≡ includes_triplet area t q n && not (is_protected protected t q n)
  unfolding in_scan is_forgotten includes_triplet
  scan_and_test any path times protected t q n = ground (arith, is_prefixed_by_lem q path)
  scan_and_test (id s) path times protected t q n =
      rw (prefixed-encode_spt_entry_key cfg.subspaces cfg.u64_be s t path q n)
        (ground (arith, o.cmp_swap s t))

  is_forgotten_test :
      (namespace : N) (area : Area S) (protected : Option (Area S)) (t : S) (q : WillowPath) (n : ℕ)
      (value : Bytes) (w : EntryValues PD AT)
      → Fits cfg q n
      → decode_entry_values cfg value ≡ some w
      → forgotten namespace area protected (spt_key cfg t q n) value
        ≡ is_forgotten area protected t q n
  unfolding forgotten
  is_forgotten_test namespace area protected t q n value w f d =
      ground (arith, decode_binding-spt_key cfg namespace t q n value f)

  forgotten-held :
      (namespace : N) (area : Area S) (protected : Option (Area S)) (t : S) (q : WillowPath) (n : ℕ)
      (seen : Bool) (x : Option Bytes)
      → Fits cfg q n
      → ((if in_scan area (spt_key cfg t q n)
              && (holds_value (forgotten namespace area protected (spt_key cfg t q n)) x && seen)
            then none
            else x)
          >>= decode_entry_values cfg)
        ≡ (if (includes_triplet area t q n && not (is_protected protected t q n)) && seen
            then none
            else (x >>= decode_entry_values cfg))
  unfolding forgotten
  forgotten-held namespace area protected t q n seen none f = ground arith
  forgotten-held namespace area protected t q n seen (some value) f =
      elim (Option-cases (decode_entry_values cfg value)) [
        | inl d ↦ ground (arith, decode_binding-spt_key cfg namespace t q n value f)
        | inr (w, d) ↦
            rw
              (
                ← scan_and_test area.subspace area.path area.times protected t q n,
                is_forgotten_test namespace area protected t q n value w f d,
                and_assoc (in_scan area (spt_key cfg t q n)) (is_forgotten area protected t q n)
                    seen,
              )
              (keep_if
                ((in_scan area (spt_key cfg t q n) && is_forgotten area protected t q n) && seen)
                value (decode_entry_values cfg))
      ]

  module _ {E : Type 0} where
    pub forget_area-ok :
        (faults : Faults E) (s : Store cfg E) (area : Area S) (protected : Option (Area S))
        {count : ℕ}
        → (forget_area cfg faults s area protected).0 ≡ ok count
        → (keys : List Bytes) × (ts : List Bytes) × (forget_area_loop cfg s.namespace_id area
              protected
              (flatten faults (area_scan cfg area s.spt))
            ≡ some (keys, ts))
          × (length keys ≡ count)
          × ((forget_area cfg faults s area protected).1 ≡ forgot_area cfg s area protected keys ts)
    unfolding forget_area
    forget_area-ok faults s area protected h =
        let (s', m, e) = settle_ok cfg s (forget_area_body cfg faults s area protected) h in
        let (_, _, h1) = bind_ok (checked faults.open_spt (λ (x : E). x)) _ m in
        let (_, _, h2) = bind_ok (checked faults.open_tsp (λ (x : E). x)) _ h1 in
        let (_, _, h3) = bind_ok (checked faults.open_payload (λ (x : E). x)) _ h2 in
        let ((keys, ts), q, h4) =
          bind_ok
            (unwrap (
              forget_area_loop cfg s.namespace_id area protected
                (flatten faults (area_scan cfg area s.spt))))
            _ h3 in
        let (_, _, h5) = bind_ok (checked faults.commit (λ (x : E). x)) _ h4 in
        let (c, f) = settled-inj cfg h5 in
        (
          keys,
          ts,
          unwrap_ok
              (forget_area_loop cfg s.namespace_id area protected
                (flatten faults (area_scan cfg area s.spt)))
              q,
          c,
          e ∙ sym f,
        )

    spt-forgot_area :
        (s : Store cfg E) (area : Area S) (protected : Option (Area S)) (keys ts : List Bytes)
        → (forgot_area cfg s area protected keys ts).spt ≡ remove_all cfg.sled keys s.spt
    unfolding forgot_area
    spt-forgot_area s area protected keys ts = refl

    -- At paths within the limits and times below 2^64, after a successful `forget_area` the store holds
    -- what it held, less the entries that the area includes and the protected area does not, save those
    -- that the scan answers by an error.
    pub held-forget_area :
        (faults : Faults E) (s : Store cfg E) (area : Area S) (protected : Option (Area S)) (t : S)
        (q : WillowPath) (n : ℕ) {count : ℕ}
        → Fits cfg q n
        → (forget_area cfg faults s area protected).0 ≡ ok count
        → held_in cfg (forget_area cfg faults s area protected).1.spt t q n ≡ (
            if (includes_triplet area t q n && not (is_protected protected t q n))
              && is_seen faults (spt_key cfg t q n) (cfg.sled.get (spt_key cfg t q n) s.spt)
            then none
            else held_in cfg s.spt t q n)
    unfolding held_in
    held-forget_area faults s area protected t q n f h =
        let (keys, ts, l, _, e) = forget_area-ok faults s area protected h in
        rw
          (
            e,
            spt-forgot_area s area protected keys ts,
            get-remove_all cfg.sled keys (spt_key cfg t q n) s.spt,
            forget_area_loop-some s.namespace_id area protected
                (flatten faults (area_scan cfg area s.spt)) keys ts (spt_key cfg t q n) l,
            finds-area_scan faults area (spt_key cfg t q n)
                (forgotten s.namespace_id area protected (spt_key cfg t q n)) s.spt,
          )
          (forgotten-held s.namespace_id area protected t q n
            (is_seen faults (spt_key cfg t q n) (cfg.sled.get (spt_key cfg t q n) s.spt))
            (cfg.sled.get (spt_key cfg t q n) s.spt) f)
