-- ===== src/Grouping/Area/Whole.antt =====
-- The full area and the area of a whole subspace (data-model/src/grouping/area.rs).
use willow_rs.Prelude.{ℕ, ◌≡◌, true, arith, ◌↔◌}
use willow_rs.Prelude.Order.{Ord, nat_ord}
use willow_rs.Path.{WillowPath}
use willow_rs.Path.Prefix.{is_prefix_of_empty}
use willow_rs.Grouping.Range
use willow_rs.Grouping.Area.{
  Area, new_full, new_subspace, includes_triplet, includes_entry, subspace_includes,
}
use willow_rs.Entry.{Entry}

module _ {ℓ} {S : Type ℓ} ⦃o : Ord S⦄ where
  -- The full area includes every triplet.
  pub new_full-includes : (s : S) (p : WillowPath) (t : ℕ) → includes_triplet new_full s p t ≡ true
  unfolding new_full includes_triplet subspace_includes Range.includes Range.new_open
  new_full-includes s p t = ground (arith, is_prefix_of_empty p)

  -- The area of a subspace includes exactly the triplets of that subspace.
  pub new_subspace_iff :
      (sub s : S) (p : WillowPath) (t : ℕ)
      → (includes_triplet (new_subspace sub) s p t ≡ true) ↔ (s ≡ sub)
  unfolding new_subspace includes_triplet subspace_includes Range.includes Range.new_open
  new_subspace_iff sub s p t = ground (arith, is_prefix_of_empty p, o.eq_of_cmp s sub, o.cmp_self s)

  pub includes_entry_lem {κ μ} :
      {N : Type κ} {PD : Type μ} (a : Area S) (e : Entry N S PD)
      → includes_entry a e ≡ true
      → includes_triplet a e.subspace_id e.path e.timestamp ≡ true
  unfolding includes_entry
  includes_entry_lem a e h = h
