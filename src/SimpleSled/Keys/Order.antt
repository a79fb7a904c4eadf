-- ===== src/SimpleSled/Keys/Order.antt =====
-- The order of the keys of store_simple_sled/src/lib.rs, which is the order of the trees: by
-- subspace, path and timestamp in one tree, and by timestamp, subspace and path in the other.
use Prim.Native.Nat.Ordering.{lt, eq, gt}
use willow_rs.Prelude.{
  ℕ, ◌^◌, ◌<◌, ◌≡◌, refl, List, [], ◌∷◌, ◌++◌, arith, append_assoc, append-nil, compare, Ordering,
}
use willow_rs.Prelude.Order.{Ord, cmp_list, cmp_list_self, then_with, list_ord, nat_ord}
use willow_rs.Path.{WillowPath, path_cmp}
use willow_rs.SimpleSled.Codec.{Codec, U64Codec, IsOrdered}
use willow_rs.SimpleSled.Keys.{
  escape, encode_components, encode_spt_entry_key, encode_tsp_entry_key,
}

cmp-escape :
    (c d x y : List ℕ)
    → cmp_list (escape c ++ (0 ∷ 1 ∷ x)) (escape d ++ (0 ∷ 1 ∷ y))
      ≡ then_with (cmp_list c d) (cmp_list x y)
unfolding escape cmp_list
cmp-escape [] [] x y = refl
cmp-escape [] (b ∷ d) x y = ground arith
cmp-escape (a ∷ c) [] x y = ground arith
cmp-escape (a ∷ c) (b ∷ d) x y = ground (arith, cmp-escape c d x y)

end-cmp-escape : (c x y : List ℕ) → cmp_list (0 ∷ 0 ∷ y) (escape c ++ (0 ∷ 1 ∷ x)) ≡ lt
unfolding escape cmp_list
end-cmp-escape [] x y = refl
end-cmp-escape (a ∷ c) x y = ground arith

escape-cmp-end : (c x y : List ℕ) → cmp_list (escape c ++ (0 ∷ 1 ∷ x)) (0 ∷ 0 ∷ y) ≡ gt
unfolding escape cmp_list
escape-cmp-end [] x y = refl
escape-cmp-end (a ∷ c) x y = ground arith

then_with_assoc : (a b c : Ordering) → then_with (then_with a b) c ≡ then_with a (then_with b c)
then_with_assoc lt b c = refl
then_with_assoc eq b c = refl
then_with_assoc gt b c = refl

then_with-eq : (a : Ordering) → then_with a eq ≡ a
then_with-eq lt = refl
then_with-eq eq = refl
then_with-eq gt = refl

-- The encodings of two paths are ordered like the paths.
cmp-encode_path :
    (p q : WillowPath) (x y : List ℕ)
    → cmp_list (encode_components p ++ (0 ∷ 0 ∷ x)) (encode_components q ++ (0 ∷ 0 ∷ y))
      ≡ then_with (path_cmp p q) (cmp_list x y)
unfolding encode_components cmp_list
cmp-encode_path [] [] x y = refl
cmp-encode_path [] (d ∷ q) x y = rw (
  append_assoc (escape d) (0 ∷ 1 ∷ encode_components q) (0 ∷ 0 ∷ y),
  end-cmp-escape d (encode_components q ++ (0 ∷ 0 ∷ y)) x,
)
cmp-encode_path (c ∷ p) [] x y = rw (
  append_assoc (escape c) (0 ∷ 1 ∷ encode_components p) (0 ∷ 0 ∷ x),
  escape-cmp-end c (encode_components p ++ (0 ∷ 0 ∷ x)) y,
)
cmp-encode_path (c ∷ p) (d ∷ q) x y = rw (
  append_assoc (escape c) (0 ∷ 1 ∷ encode_components p) (0 ∷ 0 ∷ x),
  append_assoc (escape d) (0 ∷ 1 ∷ encode_components q) (0 ∷ 0 ∷ y),
  cmp-escape c d (encode_components p ++ (0 ∷ 0 ∷ x)) (encode_components q ++ (0 ∷ 0 ∷ y)),
  cmp-encode_path p q x y,
  then_with_assoc (cmp_list c d) (cmp_list p q) (cmp_list x y),
)

module _ {ℓ} {S : Type ℓ} ⦃o : Ord S⦄ (subspaces : Codec S) (u64_be : U64Codec)
    (ordered : IsOrdered subspaces) where
  cmp-u64 :
      (m n : ℕ)
      → m < 2 ^ 64
      → n < 2 ^ 64
      → cmp_list (u64_be.encode m) (u64_be.encode n) ≡ compare m n
  unfolding cmp_list
  cmp-u64 m n h k =
      rw
        (
          ← append-nil (u64_be.encode m),
          ← append-nil (u64_be.encode n),
          u64_be.cmp-encode m n [] [] h k,
        )
        (ground arith)

  -- The keys of the first tree are ordered by subspace, then path, then timestamp, if the encodings of
  -- subspaces are ordered like the subspaces and the timestamps are below 2^64.
  pub cmp-encode_spt_entry_key :
      (s t : S) (p q : WillowPath) (m n : ℕ)
      → m < 2 ^ 64
      → n < 2 ^ 64
      → cmp_list
          (encode_spt_entry_key subspaces u64_be s p m)
          (encode_spt_entry_key subspaces u64_be t q n)
        ≡ then_with (o.cmp s t) (then_with (path_cmp p q) (compare m n))
  unfolding encode_spt_entry_key
  cmp-encode_spt_entry_key s t p q m n h k = rw (
    ordered.cmp-encode s t (encode_components p ++ (0 ∷ 0 ∷ u64_be.encode m))
        (encode_components q ++ (0 ∷ 0 ∷ u64_be.encode n)),
    cmp-encode_path p q (u64_be.encode m) (u64_be.encode n),
    cmp-u64 m n h k,
  )

  -- The second tree is ordered by timestamp, then subspace, then path.
  pub cmp-encode_tsp_entry_key :
      (s t : S) (p q : WillowPath) (m n : ℕ)
      → m < 2 ^ 64
      → n < 2 ^ 64
      → cmp_list
          (encode_tsp_entry_key subspaces u64_be s p m)
          (encode_tsp_entry_key subspaces u64_be t q n)
        ≡ then_with (compare m n) (then_with (o.cmp s t) (path_cmp p q))
  unfolding encode_tsp_entry_key
  cmp-encode_tsp_entry_key s t p q m n h k = rw (
    u64_be.cmp-encode m n (subspaces.encode s ++ (encode_components p ++ (0 ∷ 0 ∷ [])))
        (subspaces.encode t ++ (encode_components q ++ (0 ∷ 0 ∷ []))) h k,
    ordered.cmp-encode s t (encode_components p ++ (0 ∷ 0 ∷ []))
        (encode_components q ++ (0 ∷ 0 ∷ [])),
    cmp-encode_path p q [] [],
    cmp_list_self {A = ℕ} [],
    then_with-eq (path_cmp p q),
  )
