-- ===== src/Grouping/Area/Pruning.antt =====
-- `could_be_pruned_by_triplet` against what it promises.
use willow_rs.Prelude.{ℕ, ◌≤◌, ◌≡◌, refl, ◌↔◌, true, not, arith, if◌then◌else◌}
use willow_rs.Prelude.Order.{Ord, nat_ord}
use willow_rs.Path.{WillowPath, is_prefix_of}
use willow_rs.Path.Prefix.{is_prefix_of_refl, is_prefixed_by_lem, is_related_lem, prefixes_related}
use willow_rs.Grouping.Range
use willow_rs.Grouping.Range.{Range}
use willow_rs.Grouping.Range.Laws.{start-le}
use willow_rs.Grouping.Area.{
  AreaSubspace, any, id, Area, subspace_includes, includes_triplet, could_be_pruned_by_triplet,
  other_subspace,
}

module _ {ℓ} {S : Type ℓ} ⦃o : Ord S⦄ where
  other_subspace_lem :
      (x : AreaSubspace S) (s : S) → other_subspace x s ≡ not (subspace_includes x s)
  unfolding other_subspace subspace_includes
  other_subspace_lem any s = refl
  other_subspace_lem (id x) s = ground (arith, o.cmp_swap x s)

  -- An entry can cause pruning in an area whose times are not empty exactly if the area includes a
  -- place in the entry's subspace, at a path that the entry's path prefixes and at a timestamp that
  -- is not above the entry's.
  pub could_be_pruned_iff :
      (a : Area S) (s : S) (p : WillowPath) (t : ℕ)
      → Range.includes a.times a.times.start ≡ true
      → (could_be_pruned_by_triplet a s p t ≡ true) ↔ (
          (q : WillowPath) × (u : ℕ) × (includes_triplet a s q u ≡ true)
          × (is_prefix_of p q ≡ true)
          × (u ≤ t))
  unfolding could_be_pruned_by_triplet includes_triplet
  could_be_pruned_iff a s p t n = (
    λ h. (
      if is_prefix_of p a.path then a.path else p,
      a.times.start,
      ground (
        arith,
        other_subspace_lem a.subspace s,
        is_prefixed_by_lem p a.path,
        is_prefix_of_refl a.path,
      ),
      ground (arith, other_subspace_lem a.subspace s, is_prefix_of_refl p),
      ground (arith, other_subspace_lem a.subspace s),
    ),
    λ (q, u, h, k, l). ground (
      arith,
      other_subspace_lem a.subspace s,
      is_prefixed_by_lem p a.path,
      is_related_lem p a.path,
      prefixes_related p a.path q,
      start-le a.times u,
    ),
  )
