-- ===== src/Path/Prefix.antt =====
-- Prefixes, equality and order of paths (data-model/src/path/mod.rs).
use willow_rs.Prelude.{
  ℕ, zero, suc, ◌≤◌, ◌≡◌, refl, sym, ap, ◌∙◌, true, ◌&&◌, ◌||◌, none, some, List, [], ◌∷◌, ◌++◌,
  arith, ltb, ◌==◌, if◌then◌else◌, length, take, get_elem?, length-take, length-append,
  append_assoc, append-nil, ◌↔◌,
}
use willow_rs.Prelude.Order.{
  equal, less_eq, is_eq, cmp_list, list_ord, nat_ord, cmp_list_self, eq_of_cmp_list,
}
use willow_rs.Prelude.Least.{prefixed}
use willow_rs.Path.{
  Component, WillowPath, is_prefix_of, is_prefixed_by, is_related, lcp_len, create_prefix,
  longest_common_prefix, iter_eq, path_eq, path_cmp, all_prefixes, prefixes_below,
}

pub is_prefix_of-prefixed : (p q : WillowPath) → is_prefix_of p q ≡ prefixed p q
unfolding is_prefix_of prefixed
is_prefix_of-prefixed [] q = ground arith
is_prefix_of-prefixed (a ∷ p) [] = ground arith
is_prefix_of-prefixed (a ∷ p) (b ∷ q) = ground (arith, is_prefix_of-prefixed p q)

pub is_prefixed_by_lem : (p q : WillowPath) → is_prefixed_by p q ≡ is_prefix_of q p
unfolding is_prefixed_by
is_prefixed_by_lem p q = refl

pub is_related_lem : (p q : WillowPath) → is_related p q ≡ is_prefix_of p q || is_prefix_of q p
unfolding is_related is_prefixed_by
is_related_lem p q = refl

pub equal_self : (a : Component) → equal a a ≡ true
equal_self a = rw cmp_list_self

pub prefixed-append : (p s : WillowPath) → prefixed p (p ++ s) ≡ true
unfolding prefixed
prefixed-append [] s = refl
prefixed-append (a ∷ p) s = ground (arith, equal_self a, prefixed-append p s)

pub append_of_prefixed : (p q : WillowPath) → prefixed p q ≡ true → (s : WillowPath) × (p ++ s ≡ q)
unfolding prefixed
append_of_prefixed [] q h = (q, refl)
append_of_prefixed (a ∷ p) [] h = cc
append_of_prefixed (a ∷ p) (b ∷ q) h =
    let (s, e) = append_of_prefixed p q (ground arith) in (s, ground (arith, eq_of_cmp_list a b))

-- `is_prefix_of` decides whether the second path is the first one with some components behind it.
pub is_prefix_of_iff :
    (p q : WillowPath) → (is_prefix_of p q ≡ true) ↔ ((s : WillowPath) × (p ++ s ≡ q))
is_prefix_of_iff p q = (
  λ h. append_of_prefixed p q (sym (is_prefix_of-prefixed p q) ∙ h),
  λ t. is_prefix_of-prefixed p q ∙ ap (prefixed p) (sym t.1) ∙ prefixed-append p t.0,
)

pub is_prefix_of_trans :
    (p q r : WillowPath)
    → is_prefix_of p q ≡ true
    → is_prefix_of q r ≡ true
    → is_prefix_of p r ≡ true
is_prefix_of_trans p q r h k =
    let (s, e) = (is_prefix_of_iff p q).0 h in
    let (t, d) = (is_prefix_of_iff q r).0 k in
    (is_prefix_of_iff p r).1 (s ++ t, sym (append_assoc p s t) ∙ ap (λ u. u ++ t) e ∙ d)

pub is_prefix_of_refl : (p : WillowPath) → is_prefix_of p p ≡ true
is_prefix_of_refl p = (is_prefix_of_iff p p).1 ([], append-nil p)

prefixed_linear :
    (p q r : WillowPath)
    → prefixed p r ≡ true
    → prefixed q r ≡ true
    → (prefixed p q || prefixed q p) ≡ true
unfolding prefixed
prefixed_linear [] q r h k = refl
prefixed_linear (a ∷ p) [] r h k = refl
prefixed_linear (a ∷ p) (b ∷ q) [] h k = cc
prefixed_linear (a ∷ p) (b ∷ q) (c ∷ r) h k =
    ground (arith, eq_of_cmp_list a c, eq_of_cmp_list b c, equal_self a, prefixed_linear p q r)

-- Two prefixes of one path are related.
pub prefixes_related :
    (p q r : WillowPath) → is_prefix_of p r ≡ true → is_prefix_of q r ≡ true → is_related p q ≡ true
unfolding is_related is_prefixed_by
prefixes_related p q r h k =
    rw (is_prefix_of-prefixed p q, is_prefix_of-prefixed q p)
      (prefixed_linear p q r (sym (is_prefix_of-prefixed p r) ∙ h)
        (sym (is_prefix_of-prefixed q r) ∙ k))

-- A prefix of a path comes before it in the order of paths.
pub prefixed-le : (p q : WillowPath) → prefixed p q ≡ true → less_eq p q ≡ true
unfolding prefixed cmp_list
prefixed-le [] [] h = refl
prefixed-le [] (b ∷ q) h = refl
prefixed-le (a ∷ p) [] h = cc
prefixed-le (a ∷ p) (b ∷ q) h = ground (arith, prefixed-le p q)

iter_eq-cmp : (p q : WillowPath) → iter_eq p q ≡ is_eq (cmp_list p q)
unfolding iter_eq cmp_list
iter_eq-cmp [] [] = refl
iter_eq-cmp [] (b ∷ q) = refl
iter_eq-cmp (a ∷ p) [] = refl
iter_eq-cmp (a ∷ p) (b ∷ q) = ground (arith, iter_eq-cmp p q)

-- `==` of paths decides equality, and agrees with `cmp`, which answers `Equal` for equal paths
-- alone.
pub path_eq_iff :
    (p q : WillowPath) → ((path_eq p q ≡ true) ↔ (p ≡ q)) × (path_eq p q ≡ is_eq (path_cmp p q))
unfolding path_eq path_cmp
path_eq_iff p q = (
  (
    λ h. ground (arith, iter_eq-cmp p q, eq_of_cmp_list p q),
    λ e. ground (arith, iter_eq-cmp p q, ap length e, cmp_list_self p),
  ),
  ground (arith, iter_eq-cmp p q, eq_of_cmp_list p q),
)

lcp_len-le : (p q : WillowPath) → lcp_len p q ≤ length p
unfolding lcp_len
lcp_len-le [] q = omega arith
lcp_len-le (a ∷ p) [] = omega arith
lcp_len-le (a ∷ p) (b ∷ q) = ground (arith, lcp_len-le p q)

take_lcp :
    (p q : WillowPath)
    → (prefixed (take (lcp_len p q) p) p ≡ true) × (prefixed (take (lcp_len p q) p) q ≡ true)
unfolding lcp_len prefixed
take_lcp [] q = ground arith
take_lcp (a ∷ p) [] = ground arith
take_lcp (a ∷ p) (b ∷ q) = ground (arith, equal_self a, take_lcp p q)

take_lcp_greatest :
    (p q s : WillowPath)
    → prefixed s p ≡ true
    → prefixed s q ≡ true
    → prefixed s (take (lcp_len p q) p) ≡ true
unfolding lcp_len prefixed
take_lcp_greatest p q [] h k = refl
take_lcp_greatest [] q (c ∷ s) h k = cc
take_lcp_greatest (a ∷ p) [] (c ∷ s) h k = cc
take_lcp_greatest (a ∷ p) (b ∷ q) (c ∷ s) h k =
    ground (arith, eq_of_cmp_list c a, eq_of_cmp_list c b, equal_self a, take_lcp_greatest p q s)

longest_common_prefix-greatest :
    (p q : WillowPath)
    → (r : WillowPath) × (longest_common_prefix p q ≡ some r)
      × (is_prefix_of r p ≡ true)
      × (is_prefix_of r q ≡ true)
      × ((s : WillowPath)
          → is_prefix_of s p ≡ true
          → is_prefix_of s q ≡ true
          → is_prefix_of s r ≡ true)
unfolding longest_common_prefix
longest_common_prefix-greatest p q =
    let r = take (lcp_len p q) p in
    (
      r,
      ground (arith, lcp_len-le p q),
      is_prefix_of-prefixed r p ∙ (take_lcp p q).0,
      is_prefix_of-prefixed r q ∙ (take_lcp p q).1,
      λ s h k.
          is_prefix_of-prefixed s r
          ∙ take_lcp_greatest p q s (sym (is_prefix_of-prefixed s p) ∙ h)
              (sym (is_prefix_of-prefixed s q) ∙ k),
    )

-- `longest_common_prefix` never panics: it returns a path whose prefixes are exactly the common
-- prefixes of the two paths.
longest_common_prefix_lem :
    (p q : WillowPath)
    → (r : WillowPath) × (longest_common_prefix p q ≡ some r)
      × ((s : WillowPath) → is_prefix_of s r ≡ is_prefix_of s p && is_prefix_of s q)
longest_common_prefix_lem p q =
    let (r, e, left, right, greatest) = longest_common_prefix-greatest p q in
    (r, e, λ s. ground (arith, greatest s, is_prefix_of_trans s r p, is_prefix_of_trans s r q))

prefixed-take : (n : ℕ) (p : WillowPath) → prefixed (take n p) p ≡ true
unfolding prefixed
prefixed-take zero p = refl
prefixed-take (suc n) [] = refl
prefixed-take (suc n) (a ∷ p) = ground (arith, equal_self a, prefixed-take n p)

take_front : (q p : WillowPath) → prefixed q p ≡ true → take (length q) p ≡ q
unfolding prefixed
take_front [] p h = refl
take_front (b ∷ q) [] h = cc
take_front (b ∷ q) (a ∷ p) h = ground (arith, eq_of_cmp_list b a, take_front q p)

prefixed-length : (q p : WillowPath) → prefixed q p ≡ true → length q ≤ length p
unfolding prefixed
prefixed-length [] p h = omega arith
prefixed-length (b ∷ q) [] h = cc
prefixed-length (b ∷ q) (a ∷ p) h = ground (arith, prefixed-length q p)

-- `create_prefix` returns the prefix of the given length, and nothing where the path is shorter.
pub create_prefix_iff :
    (p q : WillowPath) (n : ℕ)
    → (create_prefix p n ≡ some q) ↔ ((is_prefix_of q p ≡ true) × (length q ≡ n))
unfolding create_prefix
create_prefix_iff p q n = rw is_prefix_of-prefixed (
  λ h. ground (arith, length-take n p, prefixed-take n p),
  λ h. ground (arith, prefixed-length q p h.0, take_front q p h.0, ap (λ m. take m p) h.1),
)

get_elem?-snoc :
    (xs : List WillowPath) (x : WillowPath) (n : ℕ)
    → get_elem? (xs ++ (x ∷ [])) n ≡ (if n == length xs then some x else get_elem? xs n)
get_elem?-snoc [] x zero = refl
get_elem?-snoc [] x (suc n) = ground arith
get_elem?-snoc (y ∷ xs) x zero = ground arith
get_elem?-snoc (y ∷ xs) x (suc n) = ground (arith, get_elem?-snoc xs x n)

prefixes_below_lem :
    (p : WillowPath) (m n : ℕ)
    → (length (prefixes_below p m) ≡ m)
      × (get_elem? (prefixes_below p m) n ≡ (if ltb n m then some (take n p) else none))
unfolding prefixes_below
prefixes_below_lem p zero n = ground arith
prefixes_below_lem p (suc m) n = ground (
  arith,
  length-append (prefixes_below p m) (take m p ∷ []),
  prefixes_below_lem p m n,
  get_elem?-snoc (prefixes_below p m) (take m p) n,
)

-- `all_prefixes` lists the results of `create_prefix` for 0, 1, … up to the number of components,
-- in this order, and nothing else.
pub get_elem?-all_prefixes :
    (p : WillowPath) (n : ℕ) → get_elem? (all_prefixes p) n ≡ create_prefix p n
unfolding all_prefixes create_prefix
get_elem?-all_prefixes p n = ground (arith, prefixes_below_lem p (suc (length p)) n)

pub is_prefix_of_empty : (p : WillowPath) → is_prefix_of [] p ≡ true
unfolding is_prefix_of
is_prefix_of_empty p = ground arith
