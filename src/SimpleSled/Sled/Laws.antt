-- ===== src/SimpleSled/Sled/Laws.antt =====
-- Laws of the interface of sled: batches, and what a scan finds in terms of single keys.
use willow_rs.Prelude.{
  ◌≡◌, refl, Bool, true, false, ◌&&◌, ◌||◌, Option, none, some, List, [], ◌∷◌, arith, if◌then◌else◌,
  All, Bool-cases, inl, inr,
}
use willow_rs.Prelude.Order.{less, equal, cmp_list_self, eq_of_cmp_list, list_ord, nat_ord}
use willow_rs.Prelude.Least.{prefixed}
use willow_rs.Prelude.HashMap
use willow_rs.SimpleSled.Sled.{Bytes, Binding, select, Ascending, Sled, remove_all}

pub equal_refl : (k : Bytes) → equal k k ≡ true
equal_refl k = ground (arith, cmp_list_self k)

unfoldable pub contains : Bytes → List Bytes → Bool
contains j [] = false
contains j (k ∷ ks) = equal k j || contains j ks

-- Some binding for the key has a value that passes the test.
unfoldable pub finds : Bytes → (Bytes → Bool) → List Binding → Bool
finds k f [] = false
finds k f ((j, v) ∷ bs) = (equal j k && f v) || finds k f bs

abbrev pub holds_value : (Bytes → Bool) → Option Bytes → Bool
holds_value f none = false
holds_value f (some v) = f v

finds-above :
    (k : Bytes) (f : Bytes → Bool) (bs : List Binding)
    → All (λ (b : Binding). less k b.0 ≡ true) bs
    → finds k f bs ≡ false
unfolding finds
finds-above k f [] h = refl
finds-above k f ((j, v) ∷ bs) h =
    ground (arith, finds-above k f bs h.1, eq_of_cmp_list j k, cmp_list_self k, h.0)

finds-get :
    (k : Bytes) (f : Bytes → Bool) (bs : List Binding)
    → Ascending bs
    → finds k f bs ≡ holds_value f (HashMap.get k bs)
unfolding finds HashMap.get
finds-get k f [] h = refl
finds-get k f ((j, v) ∷ bs) h = elim (Bool-cases (equal j k)) [
  | inl e ↦
      let same : j ≡ k = eq_of_cmp_list j k (ground arith) in
      rw (e, finds-above k f bs (rw (← same) h.0)) (ground arith)
  | inr e ↦ rw (e, finds-get k f bs h.1)
]

finds-select :
    (k : Bytes) (f : Bytes → Bool) (p : Bytes → Bool) (bs : List Binding)
    → finds k f (select (λ (b : Binding). p b.0) bs) ≡ p k && finds k f bs
unfolding finds
finds-select k f p [] = ground arith
finds-select k f p ((j, v) ∷ bs) = elim (Bool-cases (equal j k)) [
  | inl e ↦
      let same : j ≡ k = eq_of_cmp_list j k (ground arith) in
      rw same (elim (Bool-cases (p k)) [
        | inl q ↦ rw (q, finds) (ground (arith, finds-select k f p bs))
        | inr q ↦ rw q (ground (arith, finds-select k f p bs))
      ])
  | inr e ↦ elim (Bool-cases (p j)) [
    | inl q ↦ rw (q, e) (finds-select k f p bs)
    | inr q ↦ rw (q, e) (finds-select k f p bs)
  ]
]

-- What is found among the selected bindings has passed both tests.
pub finds-selected :
    (k : Bytes) (f : Bytes → Bool) (p : Binding → Bool) (bs : List Binding)
    → finds k f (select p bs) ≡ finds k (λ v. p (k, v) && f v) bs
unfolding finds
finds-selected k f p [] = refl
finds-selected k f p ((j, v) ∷ bs) = elim (Bool-cases (equal j k)) [
  | inl e ↦
      let same : j ≡ k = eq_of_cmp_list j k (ground arith) in
      rw same (elim (Bool-cases (p (k, v))) [
        | inl q ↦ rw (q, finds, finds-selected k f p bs)
        | inr q ↦ ground (arith, finds-selected k f p bs, q)
      ])
  | inr e ↦ elim (Bool-cases (p (j, v))) [
    | inl q ↦ rw (q, e) (finds-selected k f p bs)
    | inr q ↦ rw (q, e) (finds-selected k f p bs)
  ]
]

module _ (sled : Sled) where
  pub get-remove_all :
      (ks : List Bytes) (j : Bytes) (t : sled.Tree)
      → sled.get j (remove_all sled ks t) ≡ (if contains j ks then none else sled.get j t)
  unfolding remove_all contains
  get-remove_all [] j t = refl
  get-remove_all (k ∷ ks) j t =
      ground (arith, get-remove_all ks j (sled.remove k t), sled.get-remove k j t)

  -- A scan finds a value for a key if the key has the prefix and the tree has such a value.
  pub finds-scan_prefix :
      (k : Bytes) (f : Bytes → Bool) (p : Bytes) (t : sled.Tree)
      → finds k f (sled.scan_prefix p t) ≡ prefixed p k && holds_value f (sled.get k t)
  finds-scan_prefix k f p t = rw (
    sled.scan_prefix-iter p t,
    finds-select k f (prefixed p) (sled.iter t),
    finds-get k f (sled.iter t) (sled.ascending t),
    sled.get-iter k t,
  )

  pub finds-iter :
      (k : Bytes) (f : Bytes → Bool) (t : sled.Tree)
      → finds k f (sled.iter t) ≡ holds_value f (sled.get k t)
  finds-iter k f t = rw (finds-get k f (sled.iter t) (sled.ascending t), sled.get-iter k t)
