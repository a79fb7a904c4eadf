-- ===== src/SimpleSled/Tests/Setting.antt =====
-- A store whose ids, digests and tokens are numbers, on sorted lists of bindings.
use willow_rs.Prelude.{ℕ, ◌+◌, ◌≡◌, refl, true, Option, none, some, List, [], ◌∷◌, ◌++◌, length}
use willow_rs.Prelude.Order.{cmp_list, nat_ord}
use willow_rs.Path.{Limits, WillowPath}
use willow_rs.Store.{AuthorisedEntry}
use willow_rs.Store.Events.{event_system_new}
use willow_rs.SimpleSled.Codec.{Codec, IsOrdered}
use willow_rs.SimpleSled.State.{
  Setting, Store, Faults, no_faults, path_key, spt_key, tsp_key, encode_entry_values,
}
use willow_rs.SimpleSled.Tests.BigEndian.{u64_be}
use willow_rs.SimpleSled.Tests.ListSled.{list_sled, empty_tree}

unfoldable pub byte_decode : List ℕ → Option (ℕ × List ℕ)
byte_decode [] = none
byte_decode (b ∷ bs) = some (b, bs)

pub byte_decode-encode : (n : ℕ) (rest : List ℕ) → byte_decode ((n ∷ []) ++ rest) ≡ some (n, rest)
unfolding byte_decode
byte_decode-encode n rest = refl

abbrev pub bytes : Codec ℕ
bytes = record { encode = λ n. n ∷ []; decode = byte_decode; decode_encode = byte_decode-encode }

pub bytes-IsOrdered : IsOrdered bytes
unfolding cmp_list
bytes-IsOrdered = record { cmp-encode = λ a b x y. refl }

abbrev pub small : Limits
small = record { max_component_length = 2; max_component_count = 2; max_path_length = 3 }

-- The digest of a payload is its length.
abbrev pub setting : Setting ℕ ℕ ℕ ℕ
setting = record {
  sled = list_sled;
  limits = small;
  subspaces = bytes;
  digests = bytes;
  tokens = bytes;
  u64_be = u64_be;
  Hasher = ℕ;
  hasher = 0;
  write = λ h bs. h + length bs;
  finish = λ h. h;
  is_authorised_write = λ token e. true;
}

abbrev pub empty_store : Store setting ℕ
empty_store = record {
  namespace_id = 7;
  spt = empty_tree;
  tsp = empty_tree;
  payloads = empty_tree;
  events = event_system_new 4;
}

abbrev pub no_fault : Faults ℕ
no_fault = no_faults

abbrev pub path : WillowPath
path = (0 ∷ 1 ∷ []) ∷ []

-- A store that holds an entry whose path the new entry's path extends, and a byte of its payload.
abbrev pub below : WillowPath
below = (0 ∷ 1 ∷ []) ∷ (2 ∷ []) ∷ []

abbrev pub one_entry : Store setting ℕ
one_entry = record {
  namespace_id = 7;
  spt = ((spt_key setting 3 below 4, encode_entry_values setting 2 2 9 1) ∷ [], (tt, tt));
  tsp = ((tsp_key setting 3 below 4, encode_entry_values setting 2 2 9 1) ∷ [], (tt, tt));
  payloads = ((path_key setting 3 below true, 6 ∷ []) ∷ [], (tt, tt));
  events = event_system_new 4;
}

abbrev pub authorised : AuthorisedEntry ℕ ℕ ℕ ℕ
authorised = record {
  entry = record {
    namespace_id = 7;
    subspace_id = 3;
    path = path;
    timestamp = 5;
    payload_digest = 2;
    payload_length = 2;
  };
  token = 9;
}
