-- ===== src/Meadowcap/Owned/Laws.antt =====
-- Owned capabilities: the operations build exactly the valid ones, and what a valid one grants, each of
-- its delegations grants.
use willow_rs.Prelude.{ℕ, ◌≡◌, ◌≢◌, Bool, true, false, ◌&&◌, List, [], ◌++◌, arith, ◌↔◌, ◌⊎◌}
use willow_rs.Prelude.Order.{Ord}
use willow_rs.Prelude.Outcome.{ok, done}
use willow_rs.Path.{WillowPath}
use willow_rs.Path.Prefix.{path_eq_iff}
use willow_rs.Grouping.Area.{Area, any, new_full, includes_area, includes_triplet}
use willow_rs.Meadowcap.Keys.{
  AccessMode, read, Delegation, OwnedCapability, owned_handover, owned_initial_authorisation_msg,
  Keys,
}
use willow_rs.Meadowcap.Chain.{chain_from, chain_from-snoc, chain_from-append, chain-includes}
use willow_rs.Meadowcap.Owned.{
  new, from_existing, receiver, granted_area, delegate, append_existing_delegation, push,
  needs_subspace_cap,
}

abbrev pub with_delegations {ℓ} :
    {K KS U US : Type ℓ}
    → OwnedCapability K KS U US
    → List (Delegation U US)
    → OwnedCapability K KS U US
with_delegations cap ds = record {
  access_mode = cap.access_mode;
  namespace_key = cap.namespace_key;
  user_key = cap.user_key;
  initial_authorisation = cap.initial_authorisation;
  delegations = ds;
}

module _ {ℓ} {K KS U US PD KSec USec : Type ℓ} ⦃u : Ord U⦄
    (keys : Keys K KS U US PD KSec USec) where
  -- A delegation narrows the area granted so far, and the receiver so far has signed it.
  abbrev pub is_delegated :
      OwnedCapability K KS U US → List (Delegation U US) → Delegation U US → Bool
  is_delegated cap ds d =
      includes_area (granted_area (with_delegations cap ds)) d.area
      && keys.verify_user (receiver (with_delegations cap ds))
          (owned_handover (with_delegations cap ds) d.area d.user) d.signature

  -- The namespace key has signed the access of the first user, and every delegation stands on those
  -- before it.
  abbrev pub is_signed : OwnedCapability K KS U US → Bool
  is_signed cap =
      keys.verify_namespace cap.namespace_key
        (owned_initial_authorisation_msg cap.access_mode cap.user_key) cap.initial_authorisation
      && chain_from (is_delegated cap) [] cap.delegations

  -- What `new` returns is signed, of a namespace that is not communal, and grants the full area.
  pub new-is_signed :
      (namespace_key : K) (secret : KSec) (user_key : U) (mode : AccessMode)
      (cap : OwnedCapability K KS U US)
      → new keys namespace_key secret user_key mode ≡ ok cap
      → (is_signed cap ≡ true)
        × (keys.is_communal cap.namespace_key ≡ false)
        × (granted_area cap ≡ new_full)
        × (receiver cap ≡ user_key)
  unfolding new from_existing granted_area receiver
  new-is_signed namespace_key secret user_key mode cap h = ground arith

  -- An existing authorisation is accepted exactly if the namespace key has signed it; that the
  -- namespace is not communal is not required.
  pub from_existing_iff :
      (namespace_key : K) (user_key : U) (authorisation : KS) (mode : AccessMode)
      → (keys.verify_namespace namespace_key
            (owned_initial_authorisation_msg mode user_key)
            authorisation
          ≡ true)
        ↔ (from_existing keys namespace_key user_key authorisation mode
            ≡ ok (record {
              access_mode = mode;
              namespace_key = namespace_key;
              user_key = user_key;
              initial_authorisation = authorisation;
              delegations = [];
            }))
  unfolding from_existing
  from_existing_iff namespace_key user_key authorisation mode = ground arith

  -- To a signed capability a delegation is appended exactly if the result is signed; otherwise
  -- the capability stays as it was.
  owned_append_iff :
      (d : Delegation U US) (cap : OwnedCapability K KS U US)
      → is_signed cap ≡ true
      → ((append_existing_delegation keys d cap ≡ (ok done, push d cap))
          ↔ (is_signed (push d cap) ≡ true))
        × ((append_existing_delegation keys d cap ≡ (ok done, push d cap))
            ⊎ ((append_existing_delegation keys d cap).1 ≡ cap))
  unfolding append_existing_delegation
  owned_append_iff d cap h = ground (arith, chain_from-snoc (is_delegated cap) [] cap.delegations d)

  -- To delegate is to append what the secret signs: both succeed in the same cases, with the same
  -- capability.
  pub owned_delegate_iff :
      (secret : USec) (user : U) (area : Area U) (cap c : OwnedCapability K KS U US)
      → (delegate keys secret user area cap ≡ ok c) ↔ (
          append_existing_delegation keys
            (record {
              area = area;
              user = user;
              signature = keys.sign_user secret (owned_handover cap area user);
            })
            cap
          ≡ (ok done, c))
  unfolding delegate append_existing_delegation
  owned_delegate_iff secret user area cap c = ground arith

  -- What a signed capability grants, it granted before its later delegations: `ds` are the first of
  -- them, `rest` the later ones.
  pub owned_granted_area-narrows :
      (cap : OwnedCapability K KS U US) (ds rest : List (Delegation U US)) (s : U) (p : WillowPath)
      (t : ℕ)
      → is_signed (with_delegations cap (ds ++ rest)) ≡ true
      → includes_triplet (granted_area (with_delegations cap (ds ++ rest))) s p t ≡ true
      → includes_triplet (granted_area (with_delegations cap ds)) s p t ≡ true
  unfolding granted_area
  owned_granted_area-narrows cap ds rest s p t h k =
      chain-includes new_full (is_delegated cap) (λ es d e. ground arith) ds rest s p t
        (ground (arith, chain_from-append (is_delegated cap) [] ds rest)) k

  -- A subspace capability is needed exactly for reading a part of the paths of all subspaces.
  pub needs_subspace_cap_iff :
      (cap : OwnedCapability K KS U US)
      → (needs_subspace_cap cap ≡ true) ↔ (
          (cap.access_mode ≡ read)
          × ((granted_area cap).subspace ≡ any)
          × ((granted_area cap).path ≢ []))
  unfolding needs_subspace_cap
  needs_subspace_cap_iff cap = ground (arith, path_eq_iff (granted_area cap).path [])
