-- ===== src/SimpleSled/Keys/Apart.antt =====
-- The payload trees of store_simple_sled/src/lib.rs have keys without a timestamp: none of them is a
-- key of the entry trees.
use willow_rs.Prelude.{
  ℕ, ◌+◌, ◌≡◌, ◌≢◌, refl, sym, ap, ◌∙◌, true, List, [], ◌∷◌, ◌++◌, arith, length, length-append,
}
use willow_rs.Prelude.Order.{Ord, list_ord, nat_ord, eq_of_cmp_list}
use willow_rs.Prelude.Least.{prefixed}
use willow_rs.Path.{WillowPath}
use willow_rs.SimpleSled.Codec.{Codec, U64Codec}
use willow_rs.SimpleSled.Keys.{encode_components, encode_subspace_path_key, encode_spt_entry_key}
use willow_rs.SimpleSled.Keys.Scan.{exact-encode_spt_entry_key}

prefixed_self : (x : List ℕ) → prefixed x x ≡ true
unfolding prefixed
prefixed_self [] = refl
prefixed_self (a ∷ x) = ground (arith, prefixed_self x)

module _ {ℓ} {S : Type ℓ} ⦃o : Ord S⦄ (subspaces : Codec S) (u64_be : U64Codec) where
  -- An entry's key is eight bytes longer than the payload's.
  length-spt_entry_key :
      (s : S) (p : WillowPath) (n : ℕ)
      → length (encode_spt_entry_key subspaces u64_be s p n)
        ≡ length (encode_subspace_path_key subspaces s p true) + 8
  unfolding encode_spt_entry_key encode_subspace_path_key
  length-spt_entry_key s p n = omega (
    arith,
    length-append (subspaces.encode s) (encode_components p ++ (0 ∷ 0 ∷ u64_be.encode n)),
    length-append (subspaces.encode s) (encode_components p ++ (0 ∷ 0 ∷ [])),
    length-append (encode_components p) (0 ∷ 0 ∷ u64_be.encode n),
    length-append (encode_components p) (0 ∷ 0 ∷ []),
    u64_be.length-encode n,
  )

  pub path_key-ne-spt_entry_key :
      (s t : S) (p q : WillowPath) (n : ℕ)
      → encode_subspace_path_key subspaces s p true ≢ encode_spt_entry_key subspaces u64_be t q n
  path_key-ne-spt_entry_key s t p q n e =
      let k = encode_subspace_path_key subspaces s p true in
      let both =
        sym (exact-encode_spt_entry_key subspaces u64_be s t p q n)
        ∙ ap (prefixed k) (sym e)
        ∙ prefixed_self k in
      let same : encode_spt_entry_key subspaces u64_be s p n
          ≡ encode_spt_entry_key subspaces u64_be t q n =
        ground (arith, both, o.eq_of_cmp s t, eq_of_cmp_list p q) in
      absurd (omega (arith, length-spt_entry_key s p n, ap length (e ∙ sym same)))
