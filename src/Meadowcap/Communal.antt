-- ===== src/Meadowcap/Communal.antt =====
-- meadowcap/src/communal_capability.rs: `CommunalCapability`, less its encodings.
pub mod Laws
use willow_rs.Prelude.{Bool, Option, none, some, List, [], ◌∷◌, ◌++◌, if◌then◌else◌, not}
use willow_rs.Prelude.Order.{Ord}
use willow_rs.Prelude.Outcome.{Outcome, ok, err, Done, done}
use willow_rs.Grouping.Area.{Area, new_subspace, includes_area}
use willow_rs.Meadowcap.Keys.{
  AccessMode, Delegation, FailedDelegationError, failed_not_included, wrong_secret_for_user,
  InvalidDelegationError, area_not_included, invalid_signature, CommunalCapability,
  communal_handover, Keys,
}
use willow_rs.Meadowcap.Chain.{last_user, last_area}

pub data NamespaceIsNotCommunalError {ℓ} (K : Type ℓ) : Type ℓ where
  namespace_is_not_communal : K → NamespaceIsNotCommunalError K

module _ {ℓ} {K U US : Type ℓ} where
  unfoldable pub receiver : CommunalCapability K U US → U
  receiver cap = last_user cap.user_key cap.delegations

  unfoldable pub granted_area : CommunalCapability K U US → Area U
  granted_area cap = last_area (new_subspace cap.user_key) cap.delegations

  abbrev pub push : Delegation U US → CommunalCapability K U US → CommunalCapability K U US
  push delegation cap = record {
    access_mode = cap.access_mode;
    namespace_key = cap.namespace_key;
    user_key = cap.user_key;
    delegations = cap.delegations ++ (delegation ∷ []);
  }

module _ {ℓ} {K KS U US PD KSec USec : Type ℓ} ⦃u : Ord U⦄
    (keys : Keys K KS U US PD KSec USec) where
  unfoldable pub new :
      K → U → AccessMode → Outcome (NamespaceIsNotCommunalError K) (CommunalCapability K U US)
  new namespace_key user_key access_mode =
      if not (keys.is_communal namespace_key)
      then err (namespace_is_not_communal namespace_key)
      else ok (record {
        access_mode = access_mode;
        namespace_key = namespace_key;
        user_key = user_key;
        delegations = [];
      })

  unfoldable pub delegate :
      USec
      → U
      → Area U
      → CommunalCapability K U US
      → Outcome (FailedDelegationError U) (CommunalCapability K U US)
  unfolding receiver granted_area
  delegate secret_key new_user new_area cap =
      let handover = communal_handover cap new_area new_user in
      let signature = keys.sign_user secret_key handover in
      if not (includes_area (granted_area cap) new_area)
      then err (failed_not_included new_area new_user)
      else if keys.verify_user (receiver cap) handover signature
      then ok (push (record { area = new_area; user = new_user; signature = signature }) cap)
      else err (wrong_secret_for_user (receiver cap))

  unfoldable pub append_existing_delegation :
      Delegation U US
      → CommunalCapability K U US
      → Outcome (InvalidDelegationError U US) Done × CommunalCapability K U US
  unfolding receiver granted_area
  append_existing_delegation delegation cap =
      if not (includes_area (granted_area cap) delegation.area)
      then (err (area_not_included delegation.area delegation.user), cap)
      else if keys.verify_user (receiver cap)
          (communal_handover cap delegation.area delegation.user) delegation.signature
      then (ok done, push delegation cap)
      else (err (invalid_signature (receiver cap) delegation.user delegation.signature), cap)
