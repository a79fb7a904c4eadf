-- ===== src/Grouping/AreaMap/Laws.antt =====
-- A query of an area map returns the values that were inserted with an intersecting area.
use mathlib.Core.List.{Perm, perm_append_comm}
use mathlib.Core.List.Perm
use willow_rs.Prelude.{
  ℕ, ◌≡◌, refl, sym, ◌∙◌, true, Option, none, some, List, [], ◌∷◌, ◌++◌, arith, if◌then◌else◌,
  append-nil, append_assoc, Bool-cases, inl, inr, ◌⊎◌,
}
use mathlib.Core.Path.{subst}
use willow_rs.Prelude.Order.{Ord, equal, list_ord, nat_ord}
use willow_rs.Prelude.HashMap.{get, updated, get-update}
use willow_rs.Prelude.Collect.{collect, collect-update}
use willow_rs.Path.{is_related}
use willow_rs.Path.Prefix.{is_related_lem}
use willow_rs.Grouping.Range
use willow_rs.Grouping.Range.{Range}
use willow_rs.Grouping.Area
use willow_rs.Grouping.Area.{Area, AreaSubspace, any, id, subspace_intersection, path_intersection}
use willow_rs.Grouping.Area.Laws.{subspace_intersection-meets, path_intersection-related, meets}
use willow_rs.Grouping.AreaMap.{
  AreaMap, default, insert, insert_path, PathMap, times_values, path_values, related_values,
  found_values, intersecting_values, subspace_ord,
}

pub perm_of_eq {ℓ} : {A : Type ℓ} (xs ys : List A) → xs ≡ ys → Perm xs ys
perm_of_eq xs ys e = subst (λ t. Perm xs t) e (Perm.refl xs)

shuffle {ℓ} :
    {A : Type ℓ} (x y a b g h : List A)
    → Perm x (a ++ g)
    → Perm y (b ++ h)
    → Perm (x ++ y) ((a ++ b) ++ (g ++ h))
shuffle x y a b g h p q = Perm.trans (Perm.append_right y p) (
    Perm.trans (Perm.append_left (a ++ g) q) (
      rw (append_assoc a g (b ++ h), append_assoc a b (g ++ h))
        (Perm.append_left a (
          rw (sym (append_assoc g b h), sym (append_assoc b g h))
            (Perm.append_right h (perm_append_comm g b))))))

module _ {ℓ} {S : Type ℓ} ⦃o : Ord S⦄ where
  meets_any : (x : AreaSubspace S) → meets x any ≡ true
  meets_any any = refl
  meets_any (id s) = refl

  subspace-cases : (x : AreaSubspace S) → (x ≡ any) ⊎ ((s : S) × (x ≡ id s))
  subspace-cases any = inl refl
  subspace-cases (id s) = inr (s, refl)

module _ {ℓ κ} {S : Type ℓ} {T : Type κ} ⦃o : Ord S⦄ where
  -- The value, if it was inserted with an area that intersects the one that is asked for.
  abbrev pub hit : Area S → Area S × T → List T
  hit q (a, value) = elim (Area.intersection a q) [ none ↦ [] | some _ ↦ value ∷ [] ]

  -- The same, without regard to subspaces.
  abbrev time_hit : Area S → Range ℕ → T → List T
  time_hit q times value = elim (Range.intersection times q.times) [
    | none ↦ []
    | some _ ↦ value ∷ []
  ]

  abbrev place_hit : Area S → Area S → T → List T
  place_hit q a value = if is_related q.path a.path then time_hit q a.times value else []

  hit-place_hit :
      (q a : Area S) (value : T)
      → hit q (a, value) ≡ (if meets a.subspace q.subspace then place_hit q a value else [])
  unfolding Area.intersection
  hit-place_hit q a value = ground (
    arith,
    subspace_intersection-meets a.subspace q.subspace,
    path_intersection-related a.path q.path,
    is_related_lem q.path a.path,
  )

  times_values-append :
      (q : Area S) (xs : List (Range ℕ × T)) (times : Range ℕ) (value : T)
      → times_values q (xs ++ ((times, value) ∷ [])) ≡ times_values q xs ++ time_hit q times value
  unfolding times_values
  times_values-append q [] times value = ground arith
  times_values-append q ((t, v) ∷ xs) times value =
      ground (arith, times_values-append q xs times value)

  path_values-append :
      (q a : Area S) (xs : List (Range ℕ × T)) (value : T)
      → path_values q (a.path, xs ++ ((a.times, value) ∷ []))
        ≡ path_values q (a.path, xs) ++ place_hit q a value
  unfolding path_values
  path_values-append q a xs value = elim (Bool-cases (is_related q.path a.path)) [
    | inl e ↦ rw e (times_values-append q xs a.times value)
    | inr e ↦ rw e
  ]

  path_values_one :
      (q a : Area S) (value : T)
      → path_values q (a.path, (a.times, value) ∷ []) ≡ place_hit q a value
  unfolding path_values
  path_values_one q a value = elim (Bool-cases (is_related q.path a.path)) [
    | inl e ↦ rw e (times_values-append q [] a.times value)
    | inr e ↦ rw e
  ]

  related_values-insert_path :
      (q a : Area S) (value : T) (m : PathMap T)
      → Perm (related_values q (insert_path a value m)) (related_values q m ++ place_hit q a value)
  unfolding related_values insert_path
  related_values-insert_path q a value m =
      collect-update (path_values q) a.path _ _ (place_hit q a value)
        (perm_of_eq _ _ (path_values_one q a value))
        (λ w. perm_of_eq _ _ (path_values-append q a w value)) m

  related_values_one :
      (q a : Area S) (value : T)
      → related_values q ((a.path, (a.times, value) ∷ []) ∷ []) ≡ place_hit q a value
  unfolding related_values collect
  related_values_one q a value = append-nil _ ∙ path_values_one q a value

  -- The values found at a key of the map after the insertion, if the key is the one inserted at.
  found_values-updated :
      (q a : Area S) (value : T) (old : Option (PathMap T))
      → Perm
          (found_values q
            (some (updated (insert_path a value) ((a.path, (a.times, value) ∷ []) ∷ []) old)))
          (found_values q old ++ place_hit q a value)
  unfolding found_values
  found_values-updated q a value none = perm_of_eq _ _ (related_values_one q a value)
  found_values-updated q a value (some m) = related_values-insert_path q a value m

  found_values-insert :
      (q a : Area S) (value : T) (x : AreaSubspace S) (m : AreaMap S T)
      → Perm (found_values q (get x (insert a value m).subspaces)) (
          found_values q (get x m.subspaces)
          ++ (if equal a.subspace x then place_hit q a value else []))
  unfolding insert
  found_values-insert q a value x m =
      rw
        (get-update a.subspace x (insert_path a value) ((a.path, (a.times, value) ∷ []) ∷ [])
          m.subspaces)
        (elim (Bool-cases (equal a.subspace x)) [
          | inl e ↦ rw e (
              subst
                (λ y.
                  Perm
                    (found_values q (
                      some (
                        updated (insert_path a value) ((a.path, (a.times, value) ∷ []) ∷ [])
                          (get a.subspace m.subspaces))))
                    (found_values q (get y m.subspaces) ++ place_hit q a value))
                (subspace_ord.eq_of_cmp a.subspace x (ground arith))
                (found_values-updated q a value (get a.subspace m.subspaces)))
          | inr e ↦ rw e (perm_of_eq _ _ (sym (append-nil _)))
        ])

  hits :
      (x : AreaSubspace S) (s : S) (ph : List T)
      → ((if equal x any then ph else []) ++ (if equal x (id s) then ph else []))
        ≡ (if meets x (id s) then ph else [])
  hits any s ph = append-nil ph
  hits (id t) s ph = refl

  pub intersecting_values-insert :
      (q a : Area S) (value : T) (m : AreaMap S T)
      → Perm
          (intersecting_values (insert a value m) q)
          (intersecting_values m q ++ hit q (a, value))
  unfolding intersecting_values insert
  intersecting_values-insert q a value m = elim (subspace-cases q.subspace) [
    | inl e ↦
        rw (hit-place_hit q a value, e, intersecting_values, meets_any a.subspace)
          (collect-update (λ (s, paths). related_values q paths) a.subspace (insert_path a value)
            ((a.path, (a.times, value) ∷ []) ∷ []) (place_hit q a value)
            (perm_of_eq _ _ (related_values_one q a value)) (related_values-insert_path q a value)
            m.subspaces)
    | inr (s, e) ↦
        rw
          (
            hit-place_hit q a value,
            e,
            intersecting_values,
            sym (hits a.subspace s (place_hit q a value)),
          )
          (shuffle (found_values q (get any (insert a value m).subspaces))
            (found_values q (get (id s) (insert a value m).subspaces))
            (found_values q (get any m.subspaces)) (found_values q (get (id s) m.subspaces))
            (if equal a.subspace any then place_hit q a value else [])
            (if equal a.subspace (id s) then place_hit q a value else [])
            (found_values-insert q a value any m) (found_values-insert q a value (id s) m))
  ]

  pub intersecting_values-default : (q : Area S) → intersecting_values (default {T = T}) q ≡ []
  unfolding intersecting_values default collect found_values get
  intersecting_values-default q = elim (subspace-cases q.subspace) [
    | inl e ↦ rw (e, intersecting_values) refl
    | inr (s, e) ↦ rw (e, intersecting_values) refl
  ]

  -- The map that results from insertions, the last one first.
  abbrev pub inserted : List (Area S × T) → AreaMap S T
  inserted [] = default
  inserted ((a, value) ∷ rest) = insert a value (inserted rest)

  -- A query finds, up to order and with repetitions, the values inserted with intersecting areas.
  pub intersecting_values-inserted :
      (q : Area S) (xs : List (Area S × T))
      → Perm (intersecting_values (inserted xs) q) (collect (hit q) xs)
  unfolding collect
  intersecting_values-inserted q [] = perm_of_eq _ _ (intersecting_values-default q)
  intersecting_values-inserted q ((a, value) ∷ xs) =
      Perm.trans (intersecting_values-insert q a value (inserted xs)) (
        Perm.trans (perm_append_comm (intersecting_values (inserted xs) q) (hit q (a, value)))
          (Perm.append_left (hit q (a, value)) (intersecting_values-inserted q xs)))
