-- ===== src/Meadowcap/Communal/Laws.antt =====
-- Communal capabilities: the operations build exactly the valid ones, and a valid one grants access to
-- the subspace of the user it was issued to, and to nothing else.
use willow_rs.Prelude.{ℕ, ◌≡◌, Bool, true, ◌&&◌, List, [], arith, ◌↔◌, ◌⊎◌}
use willow_rs.Prelude.Order.{Ord}
use willow_rs.Prelude.Outcome.{ok, done}
use willow_rs.Path.{WillowPath}
use willow_rs.Grouping.Area.{Area, new_subspace, includes_area, includes_triplet}
use willow_rs.Grouping.Area.Whole.{new_subspace_iff}
use willow_rs.Meadowcap.Keys.{AccessMode, Delegation, CommunalCapability, communal_handover, Keys}
use willow_rs.Meadowcap.Chain.{chain_from, chain_from-snoc, chain-includes}
use willow_rs.Meadowcap.Communal.{
  new, receiver, granted_area, delegate, append_existing_delegation, push,
}

abbrev pub with_delegations {ℓ} :
    {K U US : Type ℓ}
    → CommunalCapability K U US
    → List (Delegation U US)
    → CommunalCapability K U US
with_delegations cap ds = record {
  access_mode = cap.access_mode;
  namespace_key = cap.namespace_key;
  user_key = cap.user_key;
  delegations = ds;
}

module _ {ℓ} {K KS U US PD KSec USec : Type ℓ} ⦃u : Ord U⦄
    (keys : Keys K KS U US PD KSec USec) where
  -- A delegation narrows the area granted so far, and the receiver so far has signed it.
  abbrev pub is_delegated :
      CommunalCapability K U US → List (Delegation U US) → Delegation U US → Bool
  is_delegated cap ds d =
      includes_area (granted_area (with_delegations cap ds)) d.area
      && keys.verify_user (receiver (with_delegations cap ds))
          (communal_handover (with_delegations cap ds) d.area d.user) d.signature

  -- The namespace is communal, and every delegation stands on those before it.
  abbrev pub is_valid : CommunalCapability K U US → Bool
  is_valid cap =
      keys.is_communal cap.namespace_key && chain_from (is_delegated cap) [] cap.delegations

  -- `new` succeeds exactly for a communal namespace, and its capability is valid.
  pub new-is_valid :
      (namespace_key : K) (user_key : U) (mode : AccessMode) (cap : CommunalCapability K U US)
      → new keys namespace_key user_key mode ≡ ok cap
      → (is_valid cap ≡ true)
        × (granted_area cap ≡ new_subspace user_key)
        × (receiver cap ≡ user_key)
  unfolding new granted_area receiver
  new-is_valid namespace_key user_key mode cap h = ground arith

  -- To a valid capability a delegation is appended exactly if the result is valid; otherwise the
  -- capability stays as it was.
  pub append_existing_delegation_iff :
      (d : Delegation U US) (cap : CommunalCapability K U US)
      → is_valid cap ≡ true
      → ((append_existing_delegation keys d cap ≡ (ok done, push d cap))
          ↔ (is_valid (push d cap) ≡ true))
        × ((append_existing_delegation keys d cap ≡ (ok done, push d cap))
            ⊎ ((append_existing_delegation keys d cap).1 ≡ cap))
  unfolding append_existing_delegation
  append_existing_delegation_iff d cap h =
      ground (arith, chain_from-snoc (is_delegated cap) [] cap.delegations d)

  -- To delegate is to append what the secret signs: both succeed in the same cases, with the same
  -- capability.
  delegate_iff :
      (secret : USec) (user : U) (area : Area U) (cap c : CommunalCapability K U US)
      → (delegate keys secret user area cap ≡ ok c) ↔ (
          append_existing_delegation keys
            (record {
              area = area;
              user = user;
              signature = keys.sign_user secret (communal_handover cap area user);
            })
            cap
          ≡ (ok done, c))
  unfolding delegate append_existing_delegation
  delegate_iff secret user area cap c = ground arith

  -- A valid capability grants access to nothing outside of the subspace of its first user, however
  -- often it was delegated.
  pub granted_area-subspace :
      (cap : CommunalCapability K U US) (s : U) (p : WillowPath) (t : ℕ)
      → is_valid cap ≡ true
      → includes_triplet (granted_area cap) s p t ≡ true
      → s ≡ cap.user_key
  unfolding granted_area
  granted_area-subspace cap s p t h k = (new_subspace_iff cap.user_key s p t).0 (
      chain-includes (new_subspace cap.user_key) (is_delegated cap) (λ ds d e. ground arith) []
        cap.delegations s p t (ground arith) k)
