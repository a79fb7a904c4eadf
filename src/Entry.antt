-- ===== src/Entry.antt =====
-- data-model/src/entry.rs: entries, which of two is newer, and prefix pruning.
pub mod Newer
use willow_rs.Prelude.{ℕ, Bool, true, false, ◌&&◌, ◌||◌, ◌==◌, ltb, if◌then◌else◌}
use willow_rs.Prelude.Order.{Ord, less, equal}
use willow_rs.Path.{WillowPath, is_prefixed_by}

pub record Entry {ℓ κ μ} (N : Type ℓ) (S : Type κ) (PD : Type μ) : Type (ℓ ⊔ κ ⊔ μ) where
  pub namespace_id : N
  pub subspace_id : S
  pub path : WillowPath
  pub timestamp : ℕ
  pub payload_digest : PD
  pub payload_length : ℕ

module _ {ℓ κ μ} {N : Type ℓ} {S : Type κ} {PD : Type μ} ⦃pd : Ord PD⦄ where
  unfoldable pub is_newer_than : Entry N S PD → Entry N S PD → Bool
  is_newer_than e other =
      ltb other.timestamp e.timestamp
      || (other.timestamp == e.timestamp && less other.payload_digest e.payload_digest)
      || (other.timestamp == e.timestamp
          && equal other.payload_digest e.payload_digest
          && ltb other.payload_length e.payload_length)

  module _ ⦃n : Ord N⦄ ⦃s : Ord S⦄ where
    unfoldable pub is_pruned_by : Entry N S PD → Entry N S PD → Bool
    unfolding is_newer_than
    is_pruned_by e other =
        if equal e.namespace_id other.namespace_id
          && equal e.subspace_id other.subspace_id
          && is_newer_than other e
          && is_prefixed_by e.path other.path
        then true
        else false

    unfoldable pub prunes : Entry N S PD → Entry N S PD → Bool
    unfolding is_pruned_by
    prunes e other = is_pruned_by other e
