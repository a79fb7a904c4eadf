-- ===== src/Meadowcap/Keys.antt =====
-- meadowcap/src/lib.rs and the data types of communal_capability.rs and owned_capability.rs, with what
-- is signed and the keys as an interface.
use willow_rs.Prelude.{Bool, List}
use willow_rs.Grouping.Area.{Area}
use willow_rs.Entry.{Entry}

pub data AccessMode : Type 0 where
  read : AccessMode
  write : AccessMode

pub record Delegation {ℓ} (U US : Type ℓ) : Type ℓ where
  pub area : Area U
  pub user : U
  pub signature : US

pub data FailedDelegationError {ℓ} (U : Type ℓ) : Type ℓ where
  failed_not_included : Area U → U → FailedDelegationError U
  wrong_secret_for_user : U → FailedDelegationError U

pub data InvalidDelegationError {ℓ} (U US : Type ℓ) : Type ℓ where
  area_not_included : Area U → U → InvalidDelegationError U US
  -- The expected signatory, the claimed receiver and the signature.
  invalid_signature : U → U → US → InvalidDelegationError U US

pub record CommunalCapability {ℓ} (K U US : Type ℓ) : Type ℓ where
  pub access_mode : AccessMode
  pub namespace_key : K
  pub user_key : U
  pub delegations : List (Delegation U US)

pub record OwnedCapability {ℓ} (K KS U US : Type ℓ) : Type ℓ where
  pub access_mode : AccessMode
  pub namespace_key : K
  pub user_key : U
  pub initial_authorisation : KS
  pub delegations : List (Delegation U US)

-- What is signed. The source signs the encoding of these values.
pub data Message {ℓ} (K KS U US PD : Type ℓ) : Type ℓ where
  owned_initial_authorisation_msg : AccessMode → U → Message K KS U US PD
  communal_handover : CommunalCapability K U US → Area U → U → Message K KS U US PD
  owned_handover : OwnedCapability K KS U US → Area U → U → Message K KS U US PD
  entry_message : Entry K U PD → Message K KS U US PD

-- The keys' `is_communal`, and the crate `signature` applied to the encoding of a message; `verify` is
-- true where the crate's returns `Ok`. `KSec` and `USec` are the secrets.
pub record Keys {ℓ} (K KS U US PD KSec USec : Type ℓ) : Type ℓ where
  pub is_communal : K → Bool
  pub verify_namespace : K → Message K KS U US PD → KS → Bool
  pub sign_namespace : KSec → Message K KS U US PD → KS
  pub verify_user : U → Message K KS U US PD → US → Bool
  pub sign_user : USec → Message K KS U US PD → US
