-- ===== src/SimpleSled/State/Values.antt =====
-- The values of the entry trees of store_simple_sled/src/lib.rs decode to what they were made of.
use willow_rs.Prelude.{ℕ, ◌^◌, ◌<◌, ◌≡◌, some, ◌++◌, append-nil}
use willow_rs.SimpleSled.State.{Setting, encode_entry_values, decode_entry_values}

module _ {N S PD AT : Type 0} (cfg : Setting N S PD AT) where
  pub decode-encode_entry_values :
      (length : ℕ) (digest : PD) (token : AT) (local_length : ℕ)
      → length < 2 ^ 64
      → local_length < 2 ^ 64
      → decode_entry_values cfg (encode_entry_values cfg length digest token local_length)
        ≡ some (record {
          length = length;
          digest = digest;
          token = token;
          local_length = local_length;
        })
  unfolding decode_entry_values encode_entry_values
  decode-encode_entry_values length digest token local h k = rw (
    cfg.u64_be.decode_encode length
        (cfg.digests.encode digest ++ (cfg.tokens.encode token ++ cfg.u64_be.encode local)) h,
    cfg.digests.decode_encode digest (cfg.tokens.encode token ++ cfg.u64_be.encode local),
    cfg.tokens.decode_encode token (cfg.u64_be.encode local),
    ← append-nil (cfg.u64_be.encode local),
    cfg.u64_be.decode_encode local _ k,
  )
