-- ===== src/Store.antt =====
-- data-model/src/store.rs, with the authorised entries of entry.rs and lengthy_entry.rs: what a
-- store is asked and answers, and which entries a query ignores.
pub mod Events
mod Tests
use willow_rs.Prelude.{ℕ, Bool, true, false, ◌&&◌, ◌||◌, not, Option, ◌==◌, if◌then◌else◌}
use willow_rs.Entry.{Entry}
use willow_rs.Grouping.Area.{Area}

-- The parameters of the data model: the types of namespaces, subspaces, payload digests and
-- authorisation tokens, with `is_authorised_write` of the trait `AuthorisationToken`.
pub record AuthorisedEntry {ℓ} (N S PD AT : Type ℓ) : Type ℓ where
  pub entry : Entry N S PD
  pub token : AT

pub record LengthyAuthorisedEntry {ℓ} (N S PD AT : Type ℓ) : Type ℓ where
  pub entry : AuthorisedEntry N S PD AT
  pub available : ℕ

-- `AuthorisedEntry::new`; `none` is its error.
unfoldable pub authorised_entry_new {ℓ} :
    {N S PD AT : Type ℓ}
    → (AT → Entry N S PD → Bool)
    → Entry N S PD
    → AT
    → Option (AuthorisedEntry N S PD AT)
authorised_entry_new is_authorised_write e token =
    if is_authorised_write token e
    then Option.some (record { entry = e; token = token })
    else Option.none

pub data EntryOrigin : Type 0 where
  local : EntryOrigin
  remote : ℕ → EntryOrigin

pub data EntryIngestionSuccess {ℓ} (N S PD AT : Type ℓ) : Type ℓ where
  success : EntryIngestionSuccess N S PD AT
  obsolete : AuthorisedEntry N S PD AT → AuthorisedEntry N S PD AT → EntryIngestionSuccess N S PD AT

pub data EntryIngestionError {ℓ} (E : Type ℓ) : Type ℓ where
  pruning_prevented : EntryIngestionError E
  operations_error : E → EntryIngestionError E

pub data PayloadAppendSuccess : Type 0 where
  appended completed : PayloadAppendSuccess

pub data PayloadAppendError {ℓ} (P E : Type ℓ) : Type ℓ where
  no_such_entry wrong_entry incorrect_available_length too_many_bytes digest_mismatch :
      PayloadAppendError P E
  source_error : P → ℕ → PayloadAppendError P E
  operation_error : E → PayloadAppendError P E

pub data ForgetEntryError {ℓ} (E : Type ℓ) : Type ℓ where
  wrong_entry : ForgetEntryError E
  operation_error : E → ForgetEntryError E

pub data ForgetPayloadError {ℓ} (E : Type ℓ) : Type ℓ where
  no_such_entry wrong_entry : ForgetPayloadError E
  operation_error : E → ForgetPayloadError E

pub data PayloadError {ℓ} (E : Type ℓ) : Type ℓ where
  no_such_entry out_of_bounds wrong_entry : PayloadError E
  operation_error : E → PayloadError E

pub data StoreEvent {ℓ} (N S PD AT : Type ℓ) : Type ℓ where
  ingested : AuthorisedEntry N S PD AT → EntryOrigin → StoreEvent N S PD AT
  prune_alert : AuthorisedEntry N S PD AT → StoreEvent N S PD AT
  appended : AuthorisedEntry N S PD AT → ℕ → ℕ → StoreEvent N S PD AT
  entry_forgotten : AuthorisedEntry N S PD AT → StoreEvent N S PD AT
  area_forgotten : Area S → Option (Area S) → StoreEvent N S PD AT
  payload_forgotten : AuthorisedEntry N S PD AT → StoreEvent N S PD AT
  area_payloads_forgotten : Area S → Option (Area S) → StoreEvent N S PD AT

pub record QueryIgnoreParams : Type 0 where
  pub ignore_incomplete_payloads : Bool
  pub ignore_empty_payloads : Bool

-- The default: nothing is ignored.
abbrev pub ignore_nothing : QueryIgnoreParams
ignore_nothing = record { ignore_incomplete_payloads = false; ignore_empty_payloads = false }

module _ {ℓ} {N S PD : Type ℓ} where
  unfoldable pub ignores_fresh_entry : QueryIgnoreParams → Entry N S PD → Bool
  ignores_fresh_entry ignore e =
      if ignore.ignore_empty_payloads && (e.payload_length == 0)
      then true
      else (if ignore.ignore_incomplete_payloads && not (e.payload_length == 0)
          then true
          else false)

  unfoldable pub ignores_lengthy_authorised_entry :
      {AT : Type ℓ} → QueryIgnoreParams → AuthorisedEntry N S PD AT → ℕ → Bool
  ignores_lengthy_authorised_entry ignore e available =
      if ignore.ignore_empty_payloads && (e.entry.payload_length == 0)
      then true
      else (if ignore.ignore_incomplete_payloads && not (e.entry.payload_length == available)
          then true
          else false)
