-- ===== src/SimpleSled/Open/Reopen.antt =====
-- Creation of a store of store_simple_sled/src/lib.rs, and what its database is good for then.
use willow_rs.Prelude.{ℕ, ◌≡◌, refl, sym, ap, ◌∙◌, false, none, some, List, [], ◌∷◌, if◌then◌else◌}
use willow_rs.Prelude.HashMap
use willow_rs.Prelude.Order.{nat_ord, list_ord}
use willow_rs.Prelude.Outcome.{ok, err, bind_ok, ok_inj, done}
use willow_rs.SimpleSled.Sled.{Bytes, Binding}
use willow_rs.SimpleSled.Sled.Laws.{equal_refl}
use willow_rs.SimpleSled.State.{Setting, Store, checked}
use willow_rs.SimpleSled.Open.{
  Db, NamespaceCodec, OpenFaults, is_empty, namespace_id_key, store_of, store_error, db_not_clean,
  new_with_event_queue_capacity, from_existing_with_event_queue_capacity,
}

abbrev pub no_open_faults : {E : Type 0} → OpenFaults E
no_open_faults = record { open_misc = none; access = none }

nonempty_of_get :
    (bs : List Binding) (k v : Bytes) → HashMap.get k bs ≡ some v → is_empty bs ≡ false
unfolding HashMap.get
nonempty_of_get [] k v h = cc
nonempty_of_get (b ∷ bs) k v h = refl

module _ {N S PD AT : Type 0} (cfg : Setting N S PD AT) (codec : NamespaceCodec N) where
  abbrev pub initialised : N → Db cfg → Db cfg
  initialised namespace db = record db {
    misc = cfg.sled.insert namespace_id_key (codec.encode namespace) db.misc;
  }

  get-initialised :
      (namespace : N) (db : Db cfg)
      → cfg.sled.get namespace_id_key (initialised namespace db).misc
        ≡ some (codec.encode namespace)
  get-initialised namespace db =
      rw
        (
          cfg.sled.get-insert namespace_id_key namespace_id_key (codec.encode namespace) db.misc,
          equal_refl namespace_id_key,
        )
        refl

  module _ {E : Type 0} where
    new-ok :
        (faults : OpenFaults E) (namespace : N) (db db' : Db cfg) (capacity : ℕ) (s : Store cfg E)
        → new_with_event_queue_capacity cfg codec faults namespace db capacity ≡ ok (s, db')
        → (db' ≡ initialised namespace db) × (s ≡ store_of cfg namespace db' capacity)
    unfolding new_with_event_queue_capacity
    new-ok faults namespace db db' capacity s h =
        let (_, _, h1) = bind_ok (checked faults.open_misc store_error) _ h in
        let (_, _, h2) =
          bind_ok (if is_empty (cfg.sled.iter db.misc) then ok done else err db_not_clean) _ h1 in
        let (_, _, h3) = bind_ok (checked faults.access store_error) _ h2 in
        let e = ok_inj h3 in
        let db-e = sym (ap (λ r. r.1) e) in
        (db-e, sym (ap (λ r. r.0) e) ∙ ap (λ t. store_of cfg namespace t capacity) (sym db-e))

    -- A store that was created is found again in its database by `from_existing`, with its namespace
    -- and an event system of the new capacity, and no other store can be created in that database.
    pub from_existing-new :
        (faults : OpenFaults E) (namespace other : N) (db db' : Db cfg) (capacity capacity' : ℕ)
        (s : Store cfg E)
        → new_with_event_queue_capacity cfg codec faults namespace db capacity ≡ ok (s, db')
        → (from_existing_with_event_queue_capacity cfg codec no_open_faults db' capacity ≡ ok s)
          × (new_with_event_queue_capacity {E = E} cfg codec no_open_faults other db' capacity'
              ≡ err db_not_clean)
    unfolding new_with_event_queue_capacity from_existing_with_event_queue_capacity
    from_existing-new faults namespace other db db' capacity capacity' s h =
        let (db-e, s-e) = new-ok faults namespace db db' capacity s h in
        let found =
          ap (λ t. cfg.sled.get namespace_id_key t.misc) db-e ∙ get-initialised namespace db in
        (
          rw (found, codec.decode_encode namespace) (ap ok (sym s-e)),
          rw
              (nonempty_of_get (cfg.sled.iter db'.misc) namespace_id_key (codec.encode namespace)
                (sym (cfg.sled.get-iter namespace_id_key db'.misc) ∙ found))
              refl,
        )
