-- ===== src/Meadowcap/Chain.antt =====
-- Chains of delegations: what communal_capability.rs and owned_capability.rs share in meadowcap/src.
use willow_rs.Prelude.{
  ℕ, ◌≡◌, refl, sym, Bool, true, ◌&&◌, List, [], ◌∷◌, ◌++◌, append_assoc, arith, append-nil,
}
use mathlib.Core.Path.{subst}
use willow_rs.Prelude.Order.{Ord}
use willow_rs.Path.{WillowPath}
use willow_rs.Grouping.Area.{Area, includes_area, includes_triplet}
use willow_rs.Grouping.Area.Laws.{includes_area-includes}
use willow_rs.Meadowcap.Keys.{Delegation}

module _ {ℓ} {U : Type ℓ} {US : Type ℓ} where
  -- `delegations.last()`, its user and its area; the user and the area of the root if there is none.
  abbrev pub last_user : U → List (Delegation U US) → U
  last_user root [] = root
  last_user root (d ∷ ds) = last_user d.user ds

  abbrev pub last_area : Area U → List (Delegation U US) → Area U
  last_area root [] = root
  last_area root (d ∷ ds) = last_area d.area ds

  last_area-snoc :
      (root : Area U) (ds : List (Delegation U US)) (d : Delegation U US)
      → last_area root (ds ++ (d ∷ [])) ≡ d.area
  last_area-snoc root [] d = refl
  last_area-snoc root (e ∷ ds) d = last_area-snoc e.area ds d

  -- Each delegation passes the check against those before it.
  abbrev pub chain_from :
      (List (Delegation U US) → Delegation U US → Bool)
      → List (Delegation U US)
      → List (Delegation U US)
      → Bool
  chain_from check done [] = true
  chain_from check done (d ∷ ds) = check done d && chain_from check (done ++ (d ∷ [])) ds

  pub chain_from-snoc :
      (check : List (Delegation U US) → Delegation U US → Bool) (done ds : List (Delegation U US))
      (d : Delegation U US)
      → chain_from check done (ds ++ (d ∷ [])) ≡ (chain_from check done ds && check (done ++ ds) d)
  chain_from-snoc check done [] d = rw (append-nil done) (ground arith)
  chain_from-snoc check done (e ∷ ds) d =
      ground (arith, chain_from-snoc check (done ++ (e ∷ [])) ds d, append_assoc done (e ∷ []) ds)

  pub chain_from-append :
      (check : List (Delegation U US) → Delegation U US → Bool)
      (done ds rest : List (Delegation U US))
      → chain_from check done (ds ++ rest)
        ≡ (chain_from check done ds && chain_from check (done ++ ds) rest)
  chain_from-append check done [] rest = rw (append-nil done) refl
  chain_from-append check done (e ∷ ds) rest =
      ground
        (arith, chain_from-append check (done ++ (e ∷ [])) ds rest, append_assoc done (e ∷ []) ds)

module _ {ℓ} {U : Type ℓ} {US : Type ℓ} ⦃u : Ord U⦄ where
  -- Where every delegation is checked for its area, what the last area includes, all before include.
  pub chain-includes :
      (root : Area U) (check : List (Delegation U US) → Delegation U US → Bool)
      (narrows : (done : List (Delegation U US)) (d : Delegation U US)
        → check done d ≡ true
        → includes_area (last_area root done) d.area ≡ true)
      (done ds : List (Delegation U US)) (s : U) (p : WillowPath) (t : ℕ)
      → chain_from check done ds ≡ true
      → includes_triplet (last_area root (done ++ ds)) s p t ≡ true
      → includes_triplet (last_area root done) s p t ≡ true
  chain-includes root check narrows done [] s p t h k =
      subst (λ x. includes_triplet (last_area root x) s p t ≡ true) (append-nil done) k
  chain-includes root check narrows done (d ∷ ds) s p t h k =
      includes_area-includes (last_area root done) d.area s p t (narrows done d (ground arith)) (
        subst (λ x. includes_triplet x s p t ≡ true) (last_area-snoc root done d)
          (chain-includes root check narrows (done ++ (d ∷ [])) ds s p t (ground arith) (
            subst (λ x. includes_triplet (last_area root x) s p t ≡ true)
              (sym (append_assoc done (d ∷ []) ds)) k)))
