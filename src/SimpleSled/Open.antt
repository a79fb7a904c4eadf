-- ===== src/SimpleSled/Open.antt =====
-- store_simple_sled/src/lib.rs: a store in a new and in an existing database.
pub mod Reopen
use willow_rs.Prelude.{ℕ, ◌≡◌, Bool, true, false, Option, none, some, List, [], ◌∷◌, if◌then◌else◌}
use willow_rs.Prelude.Outcome.{Outcome, ok, err, ◌>>=◌, Done, done}
use willow_rs.Prelude.Order.{nat_ord}
use willow_rs.Store.Events.{event_system_new}
use willow_rs.SimpleSled.Codec.{Codec}
use willow_rs.SimpleSled.Sled.{Bytes}
use willow_rs.SimpleSled.State.{Setting, Store, checked}

-- The trees of a database, as `open_tree` finds them by their names.
pub record Db {N S PD AT : Type 0} (cfg : Setting N S PD AT) : Type 0 where
  pub spt : cfg.sled.Tree
  pub tsp : cfg.sled.Tree
  pub payloads : cfg.sled.Tree
  pub misc : cfg.sled.Tree

pub data NewStoreSimpleSledError (E : Type 0) : Type 0 where
  db_not_clean : NewStoreSimpleSledError E
  store_error : E → NewStoreSimpleSledError E

pub data ExistingStoreSimpleSledError (E : Type 0) : Type 0 where
  malformed_db : ExistingStoreSimpleSledError E
  store_error : E → ExistingStoreSimpleSledError E

-- `sync_encode_into_vec` and `sync_decode_from_slice` of the namespace ids: parameters, of which the
-- latter decodes what the former encodes.
pub record NamespaceCodec (N : Type 0) : Type 0 where
  pub encode : N → Bytes
  pub decode : Bytes → Option N
  pub decode_encode : (n : N) → decode (encode n) ≡ some n

-- What sled answers, if by an error: to opening the tree of the namespace id and to the access to it.
pub record OpenFaults (E : Type 0) : Type 0 where
  pub open_misc : Option E
  pub access : Option E

-- `Tree::is_empty`.
abbrev pub is_empty : {A : Type 0} → List A → Bool
is_empty [] = true
is_empty (x ∷ xs) = false

-- `NAMESPACE_ID_KEY`.
abbrev pub namespace_id_key : Bytes
namespace_id_key = 0 ∷ []

module _ {N S PD AT E : Type 0} (cfg : Setting N S PD AT) where
  abbrev pub store_of : N → Db cfg → ℕ → Store cfg E
  store_of namespace db capacity = record {
    namespace_id = namespace;
    spt = db.spt;
    tsp = db.tsp;
    payloads = db.payloads;
    events = event_system_new capacity;
  }

  -- The store, with the database as it is then.
  unfoldable pub new_with_event_queue_capacity :
      NamespaceCodec N
      → OpenFaults E
      → N
      → Db cfg
      → ℕ
      → Outcome (NewStoreSimpleSledError E) (Store cfg E × Db cfg)
  new_with_event_queue_capacity codec faults namespace db capacity = do
    _ ← checked faults.open_misc NewStoreSimpleSledError.store_error
    _ ← if is_empty (cfg.sled.iter db.misc) then ok done else err db_not_clean
    _ ← checked faults.access NewStoreSimpleSledError.store_error
    let db' : Db cfg = record db {
      misc = cfg.sled.insert namespace_id_key (codec.encode namespace) db.misc;
    }
    ok (store_of namespace db' capacity, db')

  pub from_existing_with_event_queue_capacity :
      NamespaceCodec N
      → OpenFaults E
      → Db cfg
      → ℕ
      → Outcome (ExistingStoreSimpleSledError E) (Store cfg E)
  from_existing_with_event_queue_capacity codec faults db capacity = do
    _ ← checked faults.open_misc ExistingStoreSimpleSledError.store_error
    _ ← checked faults.access ExistingStoreSimpleSledError.store_error
    elim (cfg.sled.get namespace_id_key db.misc) [
      | none ↦ err malformed_db
      | some encoded ↦ elim (codec.decode encoded) [
        | none ↦ err malformed_db
        | some namespace ↦ ok (store_of namespace db capacity)
      ]
    ]
