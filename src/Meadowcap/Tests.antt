-- ===== src/Meadowcap/Tests.antt =====
-- Capabilities: the theorems at concrete inputs, with numbers for all keys: a signature is valid if it
-- is the number of the key.
use willow_rs.Prelude.{ℕ, ◌≡◌, ◌≢◌, refl, ◌↔◌, ◌⊎◌, true, [], ◌∷◌, arith, ◌==◌}
use willow_rs.Prelude.Order.{nat_ord, cmp_list}
use willow_rs.Prelude.Outcome.{ok, err, done}
use willow_rs.Path.{is_prefix_of}
use willow_rs.Entry.{Entry}
use willow_rs.Grouping.Range.{open_end, includes, includes_range, new_open}
use willow_rs.Grouping.Area.{
  Area, id, includes_area, includes_area_at, includes_entry, includes_triplet, subspace_includes,
  new_subspace,
}
use willow_rs.Meadowcap.Keys.{write, Delegation, CommunalCapability, entry_message, Keys}
use willow_rs.Meadowcap.Communal
use willow_rs.Meadowcap.Communal.Laws.{
  is_valid, append_existing_delegation_iff, granted_area-subspace,
}
use willow_rs.Meadowcap.Capability.{
  McCapability, communal, McAuthorisationToken, authorisation_token, authorisation_token_unchecked,
  is_authorised_write, granted_area, granted_namespace, receiver, wrong_namespace,
}
use willow_rs.Meadowcap.Capability.Laws.{
  unchecked-is_authorised_write, is_authorised_write-subspace, signed_token,
}

abbrev number_keys : Keys ℕ ℕ ℕ ℕ ℕ ℕ ℕ
number_keys = record {
  is_communal = λ k. k == 0;
  verify_namespace = λ k m signature. signature == k;
  sign_namespace = λ secret m. secret;
  verify_user = λ user m signature. signature == user;
  sign_user = λ secret m. secret;
}

abbrev notes : Area ℕ
notes = record {
  subspace = id 4;
  path = (7 ∷ []) ∷ [];
  times = record { start = 0; end = open_end };
}

-- User 4 has given user 5 the notes.
abbrev given : CommunalCapability ℕ ℕ ℕ
given = record {
  access_mode = write;
  namespace_key = 0;
  user_key = 4;
  delegations = record { area = notes; user = 5; signature = 4 } ∷ [];
}

given-is_valid : is_valid number_keys given ≡ true
unfolding Communal.granted_area Communal.receiver new_subspace includes_area includes_area_at
    is_prefix_of cmp_list new_open includes_range
given-is_valid = refl

abbrev further : Delegation ℕ ℕ
further = record { area = notes; user = 6; signature = 5 }

append_existing_delegation_iff_example :
    ((Communal.append_existing_delegation number_keys further given
        ≡ (ok done, Communal.push further given))
      ↔ (is_valid number_keys (Communal.push further given) ≡ true))
    × ((Communal.append_existing_delegation number_keys further given
          ≡ (ok done, Communal.push further given))
        ⊎ ((Communal.append_existing_delegation number_keys further given).1 ≡ given))
append_existing_delegation_iff_example =
    append_existing_delegation_iff number_keys further given given-is_valid

abbrev note : ℕ → Entry ℕ ℕ ℕ
note namespace = record {
  namespace_id = namespace;
  subspace_id = 4;
  path = (7 ∷ []) ∷ [];
  timestamp = 3;
  payload_digest = 0;
  payload_length = 0;
}

abbrev given_cap : McCapability ℕ ℕ ℕ ℕ
given_cap = communal given

-- The capability with the signature of user 5.
abbrev token : McAuthorisationToken ℕ ℕ ℕ ℕ
token = record { capability = given_cap; signature = 5 }

note-included : (n : ℕ) → includes_entry (granted_area given_cap) (note n) ≡ true
unfolding Communal.granted_area includes_entry includes_triplet subspace_includes is_prefix_of
    includes cmp_list
note-included n = refl

note-authorised : is_authorised_write number_keys token (note 0) ≡ true
unfolding is_authorised_write Communal.granted_area Communal.receiver includes_entry
    includes_triplet subspace_includes is_prefix_of includes cmp_list
note-authorised = refl

signed_by_5 : number_keys.verify_user (receiver given_cap) (entry_message (note 9)) 5 ≡ true
unfolding Communal.receiver
signed_by_5 = refl

nine-ne-zero : (note 9).namespace_id ≢ granted_namespace given_cap
nine-ne-zero h = omega arith

unchecked-is_authorised_write_example :
    (authorisation_token number_keys (note 9) 5 given_cap ≡ err wrong_namespace)
    × (authorisation_token_unchecked number_keys (note 9) 5 given_cap
        ≡ ok (signed_token number_keys (note 9) 5 given_cap))
    × (is_authorised_write number_keys (signed_token number_keys (note 9) 5 given_cap) (note 9)
        ≡ true)
unchecked-is_authorised_write_example =
    unchecked-is_authorised_write number_keys (note 9) 5 given_cap refl nine-ne-zero
      (note-included 9) signed_by_5

is_authorised_write-subspace_example : (note 0).subspace_id ≡ given.user_key
is_authorised_write-subspace_example =
    is_authorised_write-subspace number_keys given 5 (note 0) given-is_valid note-authorised

given-includes : includes_triplet (Communal.granted_area given) 4 ((7 ∷ []) ∷ []) 3 ≡ true
unfolding Communal.granted_area includes_triplet subspace_includes is_prefix_of includes cmp_list
given-includes = refl

granted_area-subspace_example : 4 ≡ given.user_key
granted_area-subspace_example =
    granted_area-subspace number_keys given 4 ((7 ∷ []) ∷ []) 3 given-is_valid given-includes
