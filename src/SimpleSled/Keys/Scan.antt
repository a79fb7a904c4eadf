-- ===== src/SimpleSled/Keys/Scan.antt =====
-- What the prefix scans of store_simple_sled/src/lib.rs find: the keys of one subspace and of the
-- paths that extend a path, or of one path alone.
use willow_rs.Prelude.{
  ℕ, ◌≡◌, refl, sym, ◌∙◌, ap, Bool, true, false, ◌&&◌, List, [], ◌∷◌, ◌++◌, arith, append_assoc,
  append-nil, Bool-cases, inl, inr,
}
use willow_rs.Prelude.Order.{Ord, cmp_list, equal, list_ord, nat_ord}
use willow_rs.Prelude.Least.{prefixed}
use willow_rs.Path.{WillowPath, is_prefix_of}
use willow_rs.Path.Prefix.{is_prefix_of-prefixed}
use willow_rs.SimpleSled.Codec.{Codec, U64Codec}
use willow_rs.SimpleSled.Keys.{
  escape, encode_components, encode_subspace_path_key, encode_spt_entry_key,
}

prefixed-escape :
    (c d x y : List ℕ)
    → prefixed (escape c ++ (0 ∷ 1 ∷ x)) (escape d ++ (0 ∷ 1 ∷ y)) ≡ equal c d && prefixed x y
unfolding prefixed escape cmp_list
prefixed-escape [] [] x y = refl
prefixed-escape [] (b ∷ d) x y = ground arith
prefixed-escape (a ∷ c) [] x y = ground arith
prefixed-escape (a ∷ c) (b ∷ d) x y = ground (arith, prefixed-escape c d x y)

not_prefixed_end : (c x y : List ℕ) → prefixed (escape c ++ (0 ∷ 1 ∷ x)) (0 ∷ 0 ∷ y) ≡ false
unfolding prefixed escape
not_prefixed_end [] x y = refl
not_prefixed_end (a ∷ c) x y = ground arith

end_not_prefixed : (c x y : List ℕ) → prefixed (0 ∷ 0 ∷ y) (escape c ++ (0 ∷ 1 ∷ x)) ≡ false
unfolding prefixed escape
end_not_prefixed [] x y = refl
end_not_prefixed (a ∷ c) x y = ground arith

-- Without the end of the path, a key is a prefix of the keys of the paths that extend its path.
prefixed-encode_components :
    (p q : WillowPath) (y : List ℕ)
    → prefixed (encode_components p) (encode_components q ++ (0 ∷ 0 ∷ y)) ≡ prefixed p q
unfolding prefixed encode_components
prefixed-encode_components [] q y = refl
prefixed-encode_components (c ∷ p) [] y = not_prefixed_end c (encode_components p) y
prefixed-encode_components (c ∷ p) (d ∷ q) y = rw (
  append_assoc (escape d) (0 ∷ 1 ∷ encode_components q) (0 ∷ 0 ∷ y),
  prefixed-escape c d (encode_components p) (encode_components q ++ (0 ∷ 0 ∷ y)),
  prefixed-encode_components p q y,
)

-- With the end of the path, it is a prefix of the keys of its path only.
prefixed-encode_path :
    (p q : WillowPath) (x y : List ℕ)
    → prefixed (encode_components p ++ (0 ∷ 0 ∷ x)) (encode_components q ++ (0 ∷ 0 ∷ y))
      ≡ equal p q && prefixed x y
unfolding prefixed encode_components cmp_list
prefixed-encode_path [] [] x y = refl
prefixed-encode_path [] (d ∷ q) x y = rw (
  append_assoc (escape d) (0 ∷ 1 ∷ encode_components q) (0 ∷ 0 ∷ y),
  end_not_prefixed d (encode_components q ++ (0 ∷ 0 ∷ y)) x,
)
prefixed-encode_path (c ∷ p) [] x y = rw (
  append_assoc (escape c) (0 ∷ 1 ∷ encode_components p) (0 ∷ 0 ∷ x),
  not_prefixed_end c (encode_components p ++ (0 ∷ 0 ∷ x)) y,
)
prefixed-encode_path (c ∷ p) (d ∷ q) x y =
    rw
      (
        append_assoc (escape c) (0 ∷ 1 ∷ encode_components p) (0 ∷ 0 ∷ x),
        append_assoc (escape d) (0 ∷ 1 ∷ encode_components q) (0 ∷ 0 ∷ y),
        prefixed-escape c d (encode_components p ++ (0 ∷ 0 ∷ x))
            (encode_components q ++ (0 ∷ 0 ∷ y)),
        prefixed-encode_path p q x y,
      )
      (unfold cmp_list in ground arith)

pub prefixed_nil : (y : List ℕ) → prefixed [] y ≡ true
unfolding prefixed
prefixed_nil y = refl

and_true : (b : Bool) → (b && true) ≡ b
and_true b = ground arith

prefixed-append_both : (a x y : List ℕ) → prefixed (a ++ x) (a ++ y) ≡ prefixed x y
unfolding prefixed
prefixed-append_both [] x y = refl
prefixed-append_both (b ∷ a) x y = ground (arith, prefixed-append_both a x y)

rest_of_prefixed : (x y : List ℕ) → prefixed x y ≡ true → (r : List ℕ) × (x ++ r ≡ y)
unfolding prefixed
rest_of_prefixed [] y h = (y, refl)
rest_of_prefixed (a ∷ x) [] h = cc
rest_of_prefixed (a ∷ x) (b ∷ y) h =
    let (r, e) = rest_of_prefixed x y (ground arith) in (r, ground arith)

module _ {ℓ} {S : Type ℓ} ⦃o : Ord S⦄ (subspaces : Codec S) where
  same_subspace :
      (s t : S) (x y : List ℕ)
      → prefixed (subspaces.encode s ++ x) (subspaces.encode t ++ y) ≡ true
      → s ≡ t
  same_subspace s t x y h =
      let (r, e) = rest_of_prefixed (subspaces.encode s ++ x) (subspaces.encode t ++ y) h in
      let e' : subspaces.encode s ++ (x ++ r) ≡ subspaces.encode t ++ y =
        sym (append_assoc (subspaces.encode s) x r) ∙ e in
      cc (subspaces.decode_encode s (x ++ r), subspaces.decode_encode t y)

  -- No encoding of a subspace is the beginning of another's.
  pub prefixed-encode :
      (s t : S) (x y : List ℕ)
      → prefixed (subspaces.encode s ++ x) (subspaces.encode t ++ y) ≡ equal s t && prefixed x y
  prefixed-encode s t x y = elim (Bool-cases (equal s t)) [
    | inl e ↦ rw (e, o.eq_of_cmp s t (ground arith)) (prefixed-append_both (subspaces.encode t) x y)
    | inr e ↦ elim (Bool-cases (prefixed (subspaces.encode s ++ x) (subspaces.encode t ++ y))) [
      | inl h ↦ ground (arith, same_subspace s t x y h, o.cmp_self t)
      | inr h ↦ rw (e, h)
    ]
  ]

  module _ (u64_be : U64Codec) where
    -- A scan by a subspace and a path finds the entries of the subspace whose paths extend the path.
    pub prefixed-encode_spt_entry_key :
        (s t : S) (p q : WillowPath) (n : ℕ)
        → prefixed
            (encode_subspace_path_key subspaces s p false)
            (encode_spt_entry_key subspaces u64_be t q n)
          ≡ equal s t && is_prefix_of p q
    unfolding encode_subspace_path_key encode_spt_entry_key
    prefixed-encode_spt_entry_key s t p q n = rw (
      append-nil (encode_components p),
      prefixed-encode s t (encode_components p) (encode_components q ++ (0 ∷ 0 ∷ u64_be.encode n)),
      prefixed-encode_components p q (u64_be.encode n),
      is_prefix_of-prefixed p q,
    )

    -- A scan by a subspace, a path and the end of the path finds the entries of just that path.
    pub exact-encode_spt_entry_key :
        (s t : S) (p q : WillowPath) (n : ℕ)
        → prefixed
            (encode_subspace_path_key subspaces s p true)
            (encode_spt_entry_key subspaces u64_be t q n)
          ≡ equal s t && equal p q
    unfolding encode_subspace_path_key encode_spt_entry_key
    exact-encode_spt_entry_key s t p q n = rw (
      prefixed-encode s t (encode_components p ++ (0 ∷ 0 ∷ []))
          (encode_components q ++ (0 ∷ 0 ∷ u64_be.encode n)),
      prefixed-encode_path p q [] (u64_be.encode n),
      prefixed_nil (u64_be.encode n),
      and_true (equal p q),
    )

    -- A scan by a subspace finds the entries of the subspace.
    pub subspace-encode_spt_entry_key :
        (s t : S) (q : WillowPath) (n : ℕ)
        → prefixed (subspaces.encode s) (encode_spt_entry_key subspaces u64_be t q n) ≡ equal s t
    unfolding encode_spt_entry_key
    subspace-encode_spt_entry_key s t q n =
        ap (λ x. prefixed x (encode_spt_entry_key subspaces u64_be t q n))
          (sym (append-nil (subspaces.encode s)))
        ∙ prefixed-encode s t [] (encode_components q ++ (0 ∷ 0 ∷ u64_be.encode n))
        ∙ ap (λ b. equal s t && b) (prefixed_nil (encode_components q ++ (0 ∷ 0 ∷ u64_be.encode n)))
        ∙ and_true (equal s t)
