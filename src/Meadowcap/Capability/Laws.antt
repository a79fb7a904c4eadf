-- ===== src/Meadowcap/Capability/Laws.antt =====
-- Which entries the tokens authorise.
use willow_rs.Prelude.{◌≡◌, ◌≢◌, true, arith, ◌↔◌}
use willow_rs.Prelude.Order.{Ord}
use willow_rs.Prelude.Outcome.{ok, err}
use willow_rs.Entry.{Entry}
use willow_rs.Grouping.Area.{includes_entry}
use willow_rs.Grouping.Area.Whole.{includes_entry_lem}
use willow_rs.Meadowcap.Keys.{write, CommunalCapability, entry_message, Keys}
use willow_rs.Meadowcap.Communal.Laws.{is_valid, granted_area-subspace}
use willow_rs.Meadowcap.Communal
use willow_rs.Meadowcap.Capability.{
  McCapability, communal, McAuthorisationToken, access_mode, receiver, granted_namespace,
  granted_area, authorisation_token, authorisation_token_unchecked, is_authorised_write,
  wrong_namespace,
}

-- The capability with the secret's signature of the entry.
abbrev pub signed_token {ℓ} :
    {K KS U US PD KSec USec : Type ℓ}
    → Keys K KS U US PD KSec USec
    → Entry K U PD
    → USec
    → McCapability K KS U US
    → McAuthorisationToken K KS U US
signed_token keys entry secret cap = record {
  capability = cap;
  signature = keys.sign_user secret (entry_message entry);
}

module _ {ℓ} {K KS U US PD KSec USec : Type ℓ} ⦃n : Ord K⦄ ⦃u : Ord U⦄
    (keys : Keys K KS U US PD KSec USec) where
  -- A token authorises an entry exactly if its capability is for writing, the granted area includes
  -- the entry, and the receiver has signed it; the namespace of the entry does not matter.
  is_authorised_write_iff :
      (token : McAuthorisationToken K KS U US) (entry : Entry K U PD)
      → (is_authorised_write keys token entry ≡ true) ↔ (
          (access_mode token.capability ≡ write)
          × (includes_entry (granted_area token.capability) entry ≡ true)
          × (keys.verify_user (receiver token.capability) (entry_message entry) token.signature
              ≡ true))
  unfolding is_authorised_write
  is_authorised_write_iff token entry = ground arith

  authorised-includes :
      (token : McAuthorisationToken K KS U US) (entry : Entry K U PD)
      → is_authorised_write keys token entry ≡ true
      → includes_entry (granted_area token.capability) entry ≡ true
  authorised-includes token entry h = ground (arith, is_authorised_write_iff token entry)

  -- A token that is returned for an entry carries the capability, is of the entry's namespace, and
  -- authorises the entry.
  authorisation_token-is_authorised_write :
      (entry : Entry K U PD) (secret : USec) (cap : McCapability K KS U US)
      (token : McAuthorisationToken K KS U US)
      → authorisation_token keys entry secret cap ≡ ok token
      → (token.capability ≡ cap)
        × (entry.namespace_id ≡ granted_namespace cap)
        × (is_authorised_write keys token entry ≡ true)
  unfolding authorisation_token is_authorised_write
  authorisation_token-is_authorised_write entry secret cap token h =
      ground (arith, n.eq_of_cmp entry.namespace_id (granted_namespace cap))

  -- An entry of another namespace is refused by `authorisation_token`, but the token without that check
  -- is accepted for it, where the granted area includes it and the signature is the receiver's.
  pub unchecked-is_authorised_write :
      (entry : Entry K U PD) (secret : USec) (cap : McCapability K KS U US)
      → access_mode cap ≡ write
      → entry.namespace_id ≢ granted_namespace cap
      → includes_entry (granted_area cap) entry ≡ true
      → keys.verify_user
          (receiver cap)
          (entry_message entry)
          (keys.sign_user secret (entry_message entry))
        ≡ true
      → (authorisation_token keys entry secret cap ≡ err wrong_namespace)
        × (authorisation_token_unchecked keys entry secret cap
            ≡ ok (signed_token keys entry secret cap))
        × (is_authorised_write keys (signed_token keys entry secret cap) entry ≡ true)
  unfolding authorisation_token authorisation_token_unchecked is_authorised_write
  unchecked-is_authorised_write entry secret cap m ns inc ver =
      ground (arith, n.eq_of_cmp entry.namespace_id (granted_namespace cap))

  -- By a token with a valid communal capability, only entries in the subspace of the capability's first
  -- user are authorised.
  pub is_authorised_write-subspace :
      (cap : CommunalCapability K U US) (signature : US) (entry : Entry K U PD)
      → is_valid keys cap ≡ true
      → is_authorised_write keys (record { capability = communal cap; signature = signature }) entry
        ≡ true
      → entry.subspace_id ≡ cap.user_key
  is_authorised_write-subspace cap signature entry h k =
      granted_area-subspace keys cap entry.subspace_id entry.path entry.timestamp h (
        includes_entry_lem (Communal.granted_area cap) entry (
          authorised-includes (record { capability = communal cap; signature = signature }) entry
            k))
