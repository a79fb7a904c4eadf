-- ===== src/Meadowcap/Capability.antt =====
-- `McCapability` of meadowcap/src/mc_capability.rs and the tokens of mc_authorisation_token.rs, less
-- their encodings.
pub mod Laws
use willow_rs.Prelude.{Bool, true, false, Option, none, some, List, if◌then◌else◌, not, ℕ, length}
use willow_rs.Prelude.Order.{Ord, equal}
use willow_rs.Prelude.Outcome.{Outcome, ok, err, panic, Done, done}
use willow_rs.Entry.{Entry}
use willow_rs.Grouping.Area.{Area, includes_entry}
use willow_rs.Meadowcap.Keys.{
  AccessMode, read, write, Delegation, FailedDelegationError, InvalidDelegationError,
  CommunalCapability, OwnedCapability, entry_message, Keys,
}
use willow_rs.Meadowcap.Communal
use willow_rs.Meadowcap.Owned

pub data TokenCreationError : Type 0 where
  not_a_write_capability : TokenCreationError
  wrong_namespace : TokenCreationError
  outside_granted_area : TokenCreationError
  signing_error : TokenCreationError

pub data NotAWriteCapabilityError : Type 0 where
  not_a_write_capability_error : NotAWriteCapabilityError

pub data McCapability {ℓ} (K KS U US : Type ℓ) : Type ℓ where
  communal : CommunalCapability K U US → McCapability K KS U US
  owned : OwnedCapability K KS U US → McCapability K KS U US

pub record McAuthorisationToken {ℓ} (K KS U US : Type ℓ) : Type ℓ where
  pub capability : McCapability K KS U US
  pub signature : US

module _ {ℓ} {K KS U US : Type ℓ} where
  abbrev pub access_mode : McCapability K KS U US → AccessMode
  access_mode (communal cap) = cap.access_mode
  access_mode (owned cap) = cap.access_mode

  abbrev pub receiver : McCapability K KS U US → U
  receiver (communal cap) = Communal.receiver cap
  receiver (owned cap) = Owned.receiver cap

  abbrev pub granted_namespace : McCapability K KS U US → K
  granted_namespace (communal cap) = cap.namespace_key
  granted_namespace (owned cap) = cap.namespace_key

  abbrev pub granted_area : McCapability K KS U US → Area U
  granted_area (communal cap) = Communal.granted_area cap
  granted_area (owned cap) = Owned.granted_area cap

  abbrev pub progenitor : McCapability K KS U US → U
  progenitor (communal cap) = cap.user_key
  progenitor (owned cap) = cap.user_key

module _ {ℓ} {K KS U US PD KSec USec : Type ℓ} ⦃u : Ord U⦄
    (keys : Keys K KS U US PD KSec USec) where
  -- `?` and the constructor of the arm.
  abbrev wrap {κ} :
      {C : Type κ} {E : Type κ}
      → (C → McCapability K KS U US)
      → Outcome E C
      → Outcome E (McCapability K KS U US)
  wrap make (ok cap) = ok (make cap)
  wrap make (err e) = err e
  wrap make panic = panic

  unfoldable pub delegate :
      USec
      → U
      → Area U
      → McCapability K KS U US
      → Outcome (FailedDelegationError U) (McCapability K KS U US)
  delegate secret_key new_user new_area (communal cap) =
      wrap communal (Communal.delegate keys secret_key new_user new_area cap)
  delegate secret_key new_user new_area (owned cap) =
      wrap owned (Owned.delegate keys secret_key new_user new_area cap)

  unfoldable pub append_existing_delegation :
      Delegation U US
      → McCapability K KS U US
      → Outcome (InvalidDelegationError U US) Done × McCapability K KS U US
  append_existing_delegation delegation (communal cap) =
      let result = Communal.append_existing_delegation keys delegation cap in
      (result.0, communal result.1)
  append_existing_delegation delegation (owned cap) =
      let result = Owned.append_existing_delegation keys delegation cap in
      (result.0, owned result.1)

  unfoldable pub authorisation_token_unchecked :
      Entry K U PD
      → USec
      → McCapability K KS U US
      → Outcome NotAWriteCapabilityError (McAuthorisationToken K KS U US)
  authorisation_token_unchecked entry secret cap = elim (access_mode cap) [
    | read ↦ err not_a_write_capability_error
    | write ↦
        ok (record { capability = cap; signature = keys.sign_user secret (entry_message entry) })
  ]

  unfoldable pub authorisation_token :
      ⦃n : Ord K⦄
      → Entry K U PD
      → USec
      → McCapability K KS U US
      → Outcome TokenCreationError (McAuthorisationToken K KS U US)
  authorisation_token entry secret cap =
      let signature = keys.sign_user secret (entry_message entry) in
      if not (equal entry.namespace_id (granted_namespace cap))
      then err wrong_namespace
      else if not (includes_entry (granted_area cap) entry)
      then err outside_granted_area
      else elim (access_mode cap) [
        | read ↦ err not_a_write_capability
        | write ↦
            if keys.verify_user (receiver cap) (entry_message entry) signature
            then ok (record { capability = cap; signature = signature })
            else err signing_error
      ]

  unfoldable pub is_authorised_write : McAuthorisationToken K KS U US → Entry K U PD → Bool
  is_authorised_write token entry = elim (access_mode token.capability) [
    | read ↦ false
    | write ↦
        if not (includes_entry (granted_area token.capability) entry)
        then false
        else if not
            (keys.verify_user (receiver token.capability) (entry_message entry) token.signature)
        then false
        else true
  ]
