-- ===== src/Meadowcap/Owned.antt =====
-- meadowcap/src/owned_capability.rs: `OwnedCapability`, less its encodings.
pub mod Laws
use willow_rs.Prelude.{
  Bool, true, false, Option, none, some, List, [], ◌∷◌, ◌++◌, if◌then◌else◌, not,
}
use willow_rs.Prelude.Order.{Ord}
use willow_rs.Prelude.Outcome.{Outcome, ok, err, Done, done}
use willow_rs.Path.{path_eq}
use willow_rs.Grouping.Area.{Area, AreaSubspace, any, id, new_full, includes_area}
use willow_rs.Meadowcap.Keys.{
  AccessMode, read, write, Delegation, FailedDelegationError, failed_not_included,
  wrong_secret_for_user, InvalidDelegationError, area_not_included, invalid_signature,
  OwnedCapability, owned_handover, owned_initial_authorisation_msg, Keys,
}
use willow_rs.Meadowcap.Chain.{last_user, last_area}

pub data OwnedCapabilityCreationError {ℓ} (K : Type ℓ) : Type ℓ where
  namespace_is_communal : K → OwnedCapabilityCreationError K
  invalid_initial_authorisation : OwnedCapabilityCreationError K

-- The tests of `needs_subspace_cap`.
abbrev pub is_any {ℓ} : {U : Type ℓ} → AreaSubspace U → Bool
is_any any = true
is_any (id s) = false

abbrev pub is_write : AccessMode → Bool
is_write read = false
is_write write = true

module _ {ℓ} {K KS U US : Type ℓ} where
  unfoldable pub receiver : OwnedCapability K KS U US → U
  receiver cap = last_user cap.user_key cap.delegations

  unfoldable pub granted_area : OwnedCapability K KS U US → Area U
  granted_area cap = last_area new_full cap.delegations

  pub needs_subspace_cap : OwnedCapability K KS U US → Bool
  unfolding granted_area
  needs_subspace_cap cap =
      if is_write cap.access_mode
      then false
      else if not (is_any (granted_area cap).subspace)
      then false
      else if path_eq (granted_area cap).path []
      then false
      else true

  abbrev pub push : Delegation U US → OwnedCapability K KS U US → OwnedCapability K KS U US
  push delegation cap = record {
    access_mode = cap.access_mode;
    namespace_key = cap.namespace_key;
    user_key = cap.user_key;
    initial_authorisation = cap.initial_authorisation;
    delegations = cap.delegations ++ (delegation ∷ []);
  }

module _ {ℓ} {K KS U US PD KSec USec : Type ℓ} ⦃u : Ord U⦄
    (keys : Keys K KS U US PD KSec USec) where
  unfoldable pub from_existing :
      K → U → KS → AccessMode → Outcome (OwnedCapabilityCreationError K) (OwnedCapability K KS U US)
  from_existing namespace_key user_key initial_authorisation access_mode =
      if keys.verify_namespace namespace_key (owned_initial_authorisation_msg access_mode user_key)
        initial_authorisation
      then ok (record {
        access_mode = access_mode;
        namespace_key = namespace_key;
        user_key = user_key;
        initial_authorisation = initial_authorisation;
        delegations = [];
      })
      else err invalid_initial_authorisation

  -- After its test of the namespace, `new` does with the new signature what `from_existing` does with
  -- one that is given.
  unfoldable pub new :
      K
      → KSec
      → U
      → AccessMode
      → Outcome (OwnedCapabilityCreationError K) (OwnedCapability K KS U US)
  unfolding from_existing
  new namespace_key namespace_secret user_key access_mode =
      if keys.is_communal namespace_key
      then err (namespace_is_communal namespace_key)
      else from_existing namespace_key user_key
          (keys.sign_namespace namespace_secret
            (owned_initial_authorisation_msg access_mode user_key))
          access_mode

  unfoldable pub delegate :
      USec
      → U
      → Area U
      → OwnedCapability K KS U US
      → Outcome (FailedDelegationError U) (OwnedCapability K KS U US)
  unfolding receiver granted_area
  delegate secret_key new_user new_area cap =
      let handover = owned_handover cap new_area new_user in
      let signature = keys.sign_user secret_key handover in
      if not (includes_area (granted_area cap) new_area)
      then err (failed_not_included new_area new_user)
      else if keys.verify_user (receiver cap) handover signature
      then ok (push (record { area = new_area; user = new_user; signature = signature }) cap)
      else err (wrong_secret_for_user (receiver cap))

  unfoldable pub append_existing_delegation :
      Delegation U US
      → OwnedCapability K KS U US
      → Outcome (InvalidDelegationError U US) Done × OwnedCapability K KS U US
  unfolding receiver granted_area
  append_existing_delegation delegation cap =
      if not (includes_area (granted_area cap) delegation.area)
      then (err (area_not_included delegation.area delegation.user), cap)
      else if keys.verify_user (receiver cap) (owned_handover cap delegation.area delegation.user)
          delegation.signature
      then (ok done, push delegation cap)
      else (err (invalid_signature (receiver cap) delegation.user delegation.signature), cap)
