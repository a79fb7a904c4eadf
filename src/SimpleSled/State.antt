-- ===== src/SimpleSled/State.antt =====
-- The state of `StoreSimpleSled` (store_simple_sled/src/lib.rs), what it takes from its parameters,
-- and the values of its trees.
pub mod Values
pub mod Seen
use willow_rs.Prelude.{
  ℕ, ◌≡◌, refl, ap, Bool, true, false, Option, none, some, List, [], ◌++◌, ◌>>=◌, arith,
}
use willow_rs.Prelude.Outcome.{Outcome, ok, err, panic, Done, done}
use willow_rs.Path.{Limits, WillowPath}
use willow_rs.Entry.{Entry}
use willow_rs.Store.{AuthorisedEntry}
use willow_rs.Store.Events.{EventSystem, enqueue_op, QueuedOp}
use willow_rs.SimpleSled.Codec.{Codec, U64Codec}
use willow_rs.SimpleSled.Sled.{Sled, Bytes, Binding, select}
use willow_rs.SimpleSled.Keys

-- The parameters of the store: sled, the limits of paths, the codecs, the hasher of the payload
-- digests and `is_authorised_write` of the tokens.
pub record Setting (N S PD AT : Type 0) : Type 1 where
  pub sled : Sled
  pub limits : Limits
  pub subspaces : Codec S
  pub digests : Codec PD
  pub tokens : Codec AT
  pub u64_be : U64Codec
  pub Hasher : Type 0
  pub hasher : Hasher
  pub write : Hasher → Bytes → Hasher
  pub finish : Hasher → PD
  pub is_authorised_write : AT → Entry N S PD → Bool

-- What sled answers in the course of one call, if it answers by an error: to opening each tree, to
-- reading a payload, to yielding each binding of a scan, and to the transaction.
pub record Faults (E : Type 0) : Type 0 where
  pub open_spt : Option E
  pub open_tsp : Option E
  pub open_payload : Option E
  pub read : Option E
  pub item : Binding → Option E
  pub commit : Option E

abbrev pub no_faults : {E : Type 0} → Faults E
no_faults = record {
  open_spt = none;
  open_tsp = none;
  open_payload = none;
  read = none;
  item = λ b. none;
  commit = none;
}

-- `flatten()` of a scan: the items that are errors are skipped.
abbrev pub is_read : {E : Type 0} → Option E → Bool
is_read none = true
is_read (some e) = false

abbrev pub flatten : {E : Type 0} → Faults E → List Binding → List Binding
flatten faults bs = select (λ b. is_read (faults.item b)) bs

-- The operator `?` on a call of sled, with the conversion of its error.
abbrev pub checked : {E R : Type 0} → Option E → (E → R) → Outcome R Done
checked none convert = ok done
checked (some e) convert = err (convert e)

module _ {N S PD AT : Type 0} (cfg : Setting N S PD AT) (E : Type 0) where
  pub record Store : Type 0 where
    pub namespace_id : N
    pub spt : cfg.sled.Tree
    pub tsp : cfg.sled.Tree
    pub payloads : cfg.sled.Tree
    pub events : EventSystem N S PD AT E

module _ {N S PD AT E : Type 0} (cfg : Setting N S PD AT) where
  -- The result of a call, and the store after it: the one before, unless the call comes as far as
  -- its transaction.
  abbrev pub settle :
      {R A : Type 0}
      → Store cfg E
      → Outcome R (Outcome R A × Store cfg E)
      → Outcome R A × Store cfg E
  settle s (ok (result, s')) = (result, s')
  settle s (err e) = (err e, s)
  settle s panic = (panic, s)

  pub settle_ok :
      {R A : Type 0} (s : Store cfg E) (m : Outcome R (Outcome R A × Store cfg E)) {x : A}
      → (settle s m).0 ≡ ok x
      → (s' : Store cfg E) × (m ≡ ok (ok x, s')) × ((settle s m).1 ≡ s')
  settle_ok s (ok (result, s')) h = (s', ap (λ r. ok (r, s')) h, refl)
  settle_ok s (err e) h = cc
  settle_ok s panic h = cc

  pub settled-inj :
      {R A : Type 0} {x y : A} {s s' : Store cfg E}
      → ◌≡◌ {A = Outcome R (Outcome R A × Store cfg E)} (ok (ok x, s)) (ok (ok y, s'))
      → (x ≡ y) × (s ≡ s')
  settled-inj h = ground arith

  -- A call of the event system.
  abbrev pub notify_event : QueuedOp N S PD AT → Store cfg E → Store cfg E
  notify_event op s = record s { events = enqueue_op op s.events }

-- The decoded value of the entry trees.
pub record EntryValues (PD AT : Type 0) : Type 0 where
  pub length : ℕ
  pub digest : PD
  pub token : AT
  pub local_length : ℕ

module _ {N S PD AT : Type 0} (cfg : Setting N S PD AT) where
  unfoldable pub encode_entry_values : ℕ → PD → AT → ℕ → Bytes
  encode_entry_values payload_length payload_digest auth_token local_length =
      cfg.u64_be.encode payload_length
      ++ (cfg.digests.encode payload_digest
          ++ (cfg.tokens.encode auth_token ++ cfg.u64_be.encode local_length))

  unfoldable pub decode_entry_values : Bytes → Option (EntryValues PD AT)
  decode_entry_values encoded = do
    (payload_length, input) ← cfg.u64_be.decode encoded
    (payload_digest, input') ← cfg.digests.decode input
    (auth_token, input'') ← cfg.tokens.decode input'
    (local_length, _) ← cfg.u64_be.decode input''
    some (record {
      length = payload_length;
      digest = payload_digest;
      token = auth_token;
      local_length = local_length;
    })

  -- The keys, with the codecs of the store.
  abbrev pub path_key : S → WillowPath → Bool → Bytes
  path_key = Keys.encode_subspace_path_key cfg.subspaces

  abbrev pub spt_key : S → WillowPath → ℕ → Bytes
  spt_key = Keys.encode_spt_entry_key cfg.subspaces cfg.u64_be

  abbrev pub tsp_key : S → WillowPath → ℕ → Bytes
  tsp_key = Keys.encode_tsp_entry_key cfg.subspaces cfg.u64_be

  abbrev pub decode_key : Bytes → Option (S × WillowPath × ℕ)
  decode_key = Keys.decode_spt_entry_key cfg.subspaces cfg.u64_be cfg.limits

  -- The entry of a binding, as the loops over the tree make it: `Entry::new`.
  abbrev pub entry_of : N → S → WillowPath → ℕ → EntryValues PD AT → Entry N S PD
  entry_of namespace subspace path timestamp v = record {
    namespace_id = namespace;
    subspace_id = subspace;
    path = path;
    timestamp = timestamp;
    payload_digest = v.digest;
    payload_length = v.length;
  }

  -- A binding of an entry tree, decoded; `none` is a panic of an `unwrap`.
  unfoldable pub decode_binding : N → Binding → Option (Entry N S PD × EntryValues PD AT)
  unfolding decode_entry_values
  decode_binding namespace (key, value) = do
    (subspace, path, timestamp) ← decode_key key
    v ← decode_entry_values value
    some (entry_of namespace subspace path timestamp v, v)
