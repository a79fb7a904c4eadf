-- ===== src/Entry/Newer.antt =====
-- `is_newer_than` is a strict order in which entries that differ in timestamp, digest or length are
-- comparable, and prefix pruning is a strict partial order.
use willow_rs.Prelude.{◌≡◌, ◌⊎◌, true, false, ◌&&◌, arith}
use willow_rs.Prelude.Order.{Ord, equal}
use willow_rs.Path.{is_prefix_of}
use willow_rs.Path.Prefix.{is_prefix_of_trans, is_prefixed_by_lem}
use willow_rs.Entry.{Entry, is_newer_than, prunes}

module _ {ℓ κ μ} {N : Type ℓ} {S : Type κ} {PD : Type μ} ⦃pd : Ord PD⦄ where
  -- No entry is newer than itself.
  pub is_newer_than_irrefl : (e : Entry N S PD) → is_newer_than e e ≡ false
  unfolding is_newer_than
  is_newer_than_irrefl e = ground (arith, pd.cmp_self e.payload_digest)

  -- An entry that is newer than a newer one is newer.
  pub is_newer_than_trans :
      (e f g : Entry N S PD)
      → is_newer_than e f ≡ true
      → is_newer_than f g ≡ true
      → is_newer_than e g ≡ true
  unfolding is_newer_than
  is_newer_than_trans e f g h k = ground (
    arith,
    pd.eq_of_cmp f.payload_digest e.payload_digest,
    pd.eq_of_cmp g.payload_digest f.payload_digest,
    pd.cmp_trans g.payload_digest f.payload_digest e.payload_digest,
  )

  -- Of two entries exactly one is newer, or they agree in timestamp, digest and length.
  is_newer_than_total :
      (e f : Entry N S PD)
      → ((is_newer_than e f ≡ true) × (is_newer_than f e ≡ false))
        ⊎ ((is_newer_than f e ≡ true) × (is_newer_than e f ≡ false))
        ⊎ ((e.timestamp ≡ f.timestamp)
            × (e.payload_digest ≡ f.payload_digest)
            × (e.payload_length ≡ f.payload_length))
  unfolding is_newer_than
  is_newer_than_total e f = ground (
    arith,
    pd.cmp_swap e.payload_digest f.payload_digest,
    pd.eq_of_cmp e.payload_digest f.payload_digest,
  )

  module _ ⦃n : Ord N⦄ ⦃s : Ord S⦄ where
    -- Pruning is transitive: what an entry prunes also falls to whatever prunes that entry.
    prunes_trans :
        (e f g : Entry N S PD) → prunes e f ≡ true → prunes f g ≡ true → prunes e g ≡ true
    unfolding prunes
    prunes_trans e f g h k = ground (
      arith,
      n.eq_of_cmp f.namespace_id e.namespace_id,
      s.eq_of_cmp f.subspace_id e.subspace_id,
      is_newer_than_trans e f g,
      is_prefixed_by_lem f.path e.path,
      is_prefixed_by_lem g.path f.path,
      is_prefixed_by_lem g.path e.path,
      is_prefix_of_trans e.path f.path g.path,
    )

    -- No entry prunes itself, and of two entries at most one prunes the other.
    pub prunes_asym : (e f : Entry N S PD) → prunes e f ≡ true → prunes f e ≡ false
    unfolding prunes
    prunes_asym e f h = ground (arith, is_newer_than_trans e f e, is_newer_than_irrefl e)

  pub is_newer_than_asym :
      (e f : Entry N S PD) → is_newer_than e f ≡ true → is_newer_than f e ≡ false
  is_newer_than_asym e f h = ground (arith, is_newer_than_trans e f e, is_newer_than_irrefl e)

  module _ ⦃n : Ord N⦄ ⦃s : Ord S⦄ where
    -- Pruning in its parts.
    pub prunes_lem :
        (e f : Entry N S PD)
        → prunes e f
          ≡ equal f.namespace_id e.namespace_id
            && equal f.subspace_id e.subspace_id
            && is_newer_than e f
            && is_prefix_of e.path f.path
    unfolding prunes
    prunes_lem e f = rw (← is_prefixed_by_lem f.path e.path) (ground arith)
