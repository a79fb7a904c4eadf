-- ===== src/Grouping/NamespacedAreaMap/Laws.antt =====
-- A query of a namespaced area map returns the values of that namespace with intersecting areas.
use mathlib.Core.List.{Perm}
use willow_rs.Prelude.{
  ◌≡◌, refl, sym, Option, none, some, [], ◌++◌, arith, if◌then◌else◌, append-nil, Bool-cases, inl,
  inr,
}
use mathlib.Core.Path.{subst}
use willow_rs.Prelude.Order.{Ord, equal}
use willow_rs.Prelude.HashMap.{get, updated, get-update}
use willow_rs.Grouping.Area.{Area}
use willow_rs.Grouping.AreaMap
use willow_rs.Grouping.AreaMap.{AreaMap}
use willow_rs.Grouping.AreaMap.Laws.{
  hit, perm_of_eq, intersecting_values-insert, intersecting_values-default,
}
use willow_rs.Grouping.NamespacedAreaMap.{
  NamespacedAreaMap, default, insert, found, intersecting_values,
}

module _ {ℓ κ} {S : Type ℓ} {T : Type κ} ⦃o : Ord S⦄ where
  found-updated :
      (q a : Area S) (value : T) (old : Option (AreaMap S T))
      → Perm
          (found q
            (some (updated (AreaMap.insert a value) (AreaMap.insert a value AreaMap.default) old)))
          (found q old ++ hit q (a, value))
  unfolding found
  found-updated q a value none =
      subst
        (λ t.
          Perm (AreaMap.intersecting_values (AreaMap.insert a value AreaMap.default) q)
            (t ++ hit q (a, value)))
        (intersecting_values-default q) (intersecting_values-insert q a value AreaMap.default)
  found-updated q a value (some m) = intersecting_values-insert q a value m

module _ {ℓ κ μ} {N : Type μ} {S : Type ℓ} {T : Type κ} ⦃n : Ord N⦄ ⦃o : Ord S⦄ where
  -- An insertion adds the value to the results, up to their order, exactly if the namespace is the one
  -- asked for and the areas intersect.
  pub namespaced-insert :
      (x y : N) (q a : Area S) (value : T) (m : NamespacedAreaMap N S T)
      → Perm
          (intersecting_values (insert x a value m) y q)
          (intersecting_values m y q ++ (if equal x y then hit q (a, value) else []))
  unfolding insert intersecting_values
  namespaced-insert x y q a value m =
      rw
        (get-update x y (AreaMap.insert a value) (AreaMap.insert a value AreaMap.default)
          m.namespaces)
        (elim (Bool-cases (equal x y)) [
          | inl e ↦ rw e (
              subst
                (λ z.
                  Perm
                    (found q (
                      some (
                        updated (AreaMap.insert a value) (AreaMap.insert a value AreaMap.default)
                          (get x m.namespaces))))
                    (found q (get z m.namespaces) ++ hit q (a, value)))
                (n.eq_of_cmp x y (ground arith)) (found-updated q a value (get x m.namespaces)))
          | inr e ↦ rw e (perm_of_eq _ _ (sym (append-nil _)))
        ])

  pub namespaced-default : (x : N) (q : Area S) → intersecting_values (default {T = T}) x q ≡ []
  unfolding intersecting_values default get found
  namespaced-default x q = refl
