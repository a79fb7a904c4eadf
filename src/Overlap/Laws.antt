-- ===== src/Overlap/Laws.antt =====
-- What the overlap finder reports, against the list of all that was added to it.
use mathlib.Core.List.{Perm, perm_append_comm}
use mathlib.Core.List.Perm
use willow_rs.Prelude.{Bool, true, false, not, List, [], ◌∷◌, ◌++◌, if◌then◌else◌}
use willow_rs.Prelude.Order.{Ord, equal}
use willow_rs.Prelude.Collect.{collect}
use willow_rs.Grouping.AreaMap.Laws.{hit, perm_of_eq}
use willow_rs.Grouping.NamespacedAreaMap.Laws.{namespaced-insert, namespaced-default}
use willow_rs.Overlap.{
  NamespacedAoIWithMaxPayloadPower, OverlapFinder, CaoiMap, new_finder, add, overlapping,
  insert_caoi,
}

-- One addition: on whose side, and what.
abbrev pub Addition {ℓ μ} : Type μ → Type ℓ → Type (ℓ ⊔ μ)
Addition N S = Bool × NamespacedAoIWithMaxPayloadPower N S

module _ {ℓ μ} {N : Type μ} {S : Type ℓ} ⦃n : Ord N⦄ ⦃o : Ord S⦄ where
  -- The finder after some additions to a new one, the last one first.
  abbrev pub finder_after : List (Addition N S) → OverlapFinder N S
  finder_after [] = new_finder
  finder_after ((is_mine, x) ∷ rest) = (add x is_mine (finder_after rest)).1

  -- What was added on a side, if it is of the namespace of `x` and its area intersects that of `x`.
  abbrev pub overlap :
      NamespacedAoIWithMaxPayloadPower N S
      → Bool
      → Addition N S
      → List (NamespacedAoIWithMaxPayloadPower N S)
  overlap x true (true, y) =
      if equal y.namespace x.namespace then hit x.aoi.area (y.aoi.area, y) else []
  overlap x true (false, y) = []
  overlap x false (true, y) = []
  overlap x false (false, y) =
      if equal y.namespace x.namespace then hit x.aoi.area (y.aoi.area, y) else []

  abbrev pub side : Bool → OverlapFinder N S → CaoiMap N S
  side true finder = finder.my_caois
  side false finder = finder.their_caois

  prepend :
      (x y : NamespacedAoIWithMaxPayloadPower N S) (m : CaoiMap N S)
      (rest : List (NamespacedAoIWithMaxPayloadPower N S))
      → Perm (overlapping x m) rest
      → Perm
          (overlapping x (insert_caoi y m))
          ((if equal y.namespace x.namespace then hit x.aoi.area (y.aoi.area, y) else []) ++ rest)
  prepend x y m rest h =
      Perm.trans (namespaced-insert y.namespace x.namespace x.aoi.area y.aoi.area y m) (
        Perm.trans
          (perm_append_comm (overlapping x m)
            (if equal y.namespace x.namespace then hit x.aoi.area (y.aoi.area, y) else []))
          (Perm.append_left
            (if equal y.namespace x.namespace then hit x.aoi.area (y.aoi.area, y) else []) h))

  overlapping-side :
      (x : NamespacedAoIWithMaxPayloadPower N S) (mine : Bool) (xs : List (Addition N S))
      → Perm (overlapping x (side mine (finder_after xs))) (collect (overlap x mine) xs)
  unfolding new_finder add collect
  overlapping-side x true [] = perm_of_eq _ _ (namespaced-default x.namespace x.aoi.area)
  overlapping-side x false [] = perm_of_eq _ _ (namespaced-default x.namespace x.aoi.area)
  overlapping-side x true ((true, y) ∷ xs) =
      prepend x y (finder_after xs).my_caois (collect (overlap x true) xs)
        (overlapping-side x true xs)
  overlapping-side x true ((false, y) ∷ xs) = overlapping-side x true xs
  overlapping-side x false ((true, y) ∷ xs) = overlapping-side x false xs
  overlapping-side x false ((false, y) ∷ xs) =
      prepend x y (finder_after xs).their_caois (collect (overlap x false) xs)
        (overlapping-side x false xs)

  -- Whatever was added before, an addition reports, up to their order, what the other peer has added
  -- for the same namespace with an intersecting area.
  pub add_lem :
      (x : NamespacedAoIWithMaxPayloadPower N S) (is_mine : Bool) (xs : List (Addition N S))
      → Perm (add x is_mine (finder_after xs)).0 (collect (overlap x (not is_mine)) xs)
  unfolding add
  add_lem x true xs = overlapping-side x false xs
  add_lem x false xs = overlapping-side x true xs
