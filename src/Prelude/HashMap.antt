-- ===== src/Prelude/HashMap.antt =====
-- `std::collections::HashMap` as an association list. The order in which a real table is iterated is
-- unspecified: no theorem speaks of the order of the entries.
use mathlib.Core.Path.{◌≡◌, refl}
use mathlib.Core.Option.{Option, none, some}
use mathlib.Core.List.{List, [], ◌∷◌}
use native.Mathlib.Omega.{arith}
use willow_rs.Prelude.Tests.{if◌then◌else◌}
use willow_rs.Prelude.Order.{Ord, equal}

abbrev pub HashMap {ℓ κ} : Type ℓ → Type κ → Type (ℓ ⊔ κ)
HashMap K V = List (K × V)

-- What `update` leaves at its key.
abbrev pub updated {ℓ} : {V : Type ℓ} → (V → V) → V → Option V → V
updated f d none = d
updated f d (some v) = f v

module _ {ℓ κ} {K : Type ℓ} {V : Type κ} ⦃o : Ord K⦄ where
  unfoldable pub get : K → HashMap K V → Option V
  get k [] = none
  get k ((j, v) ∷ m) = if equal j k then some v else get k m

  unfoldable pub insert : K → V → HashMap K V → HashMap K V
  insert k v [] = (k, v) ∷ []
  insert k v ((j, w) ∷ m) = if equal j k then (j, v) ∷ m else (j, w) ∷ insert k v m

  unfoldable pub remove : K → HashMap K V → HashMap K V
  remove k [] = []
  remove k ((j, w) ∷ m) = if equal j k then remove k m else (j, w) ∷ remove k m

  -- `match map.get_mut(k) { Some(v) => *v = f(v), None => map.insert(k, v) }`.
  unfoldable pub update : K → (V → V) → V → HashMap K V → HashMap K V
  update k f d [] = (k, d) ∷ []
  update k f d ((j, w) ∷ m) = if equal j k then (j, f w) ∷ m else (j, w) ∷ update k f d m

  pub get-insert :
      (k j : K) (v : V) (m : HashMap K V)
      → get j (insert k v m) ≡ (if equal k j then some v else get j m)
  unfolding get insert
  get-insert k j v [] = refl
  get-insert k j v ((i, w) ∷ m) = ground (
    arith,
    o.eq_of_cmp i k,
    o.eq_of_cmp i j,
    o.eq_of_cmp k j,
    o.cmp_self k,
    o.cmp_swap i k,
    get-insert k j v m,
  )

  pub get-remove :
      (k j : K) (m : HashMap K V) → get j (remove k m) ≡ (if equal k j then none else get j m)
  unfolding get remove
  get-remove k j [] = ground arith
  get-remove k j ((i, w) ∷ m) =
      ground
        (arith, o.eq_of_cmp i k, o.eq_of_cmp i j, o.eq_of_cmp k j, o.cmp_self k, get-remove k j m)

  pub get-update :
      (k j : K) (f : V → V) (d : V) (m : HashMap K V)
      → get j (update k f d m) ≡ (if equal k j then some (updated f d (get k m)) else get j m)
  unfolding get update
  get-update k j f d [] = ground arith
  get-update k j f d ((i, w) ∷ m) =
      ground (
        arith,
        o.eq_of_cmp i k,
        o.eq_of_cmp i j,
        o.eq_of_cmp k j,
        o.cmp_self k,
        get-update k j f d m,
      )
