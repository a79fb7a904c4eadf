-- ===== src/SimpleSled/Held.antt =====
-- The entries that a store of store_simple_sled/src/lib.rs holds: the decoded values of its first
-- tree, by subspace, path and timestamp.
use willow_rs.Prelude.{
  ℕ, ◌^◌, ◌<◌, ◌≡◌, refl, sym, ◌∙◌, Bool, true, ◌&&◌, Option, some, arith, ◌==◌, ◌>>=◌, Bool-cases,
  inl, inr,
}
use willow_rs.Prelude.Order.{Ord, equal, cmp_list_self, eq_of_cmp_list, list_ord, nat_ord}
use willow_rs.Path.{WillowPath, IsPath}
use willow_rs.SimpleSled.Keys.RoundTrip.{decode-encode_spt_entry_key}
use willow_rs.SimpleSled.Sled.{Bytes}
use willow_rs.SimpleSled.State.{
  Setting, EntryValues, decode_entry_values, spt_key, entry_of, decode_binding,
}

module _ {N S PD AT : Type 0} (cfg : Setting N S PD AT) where
  unfoldable pub held_in : cfg.sled.Tree → S → WillowPath → ℕ → Option (EntryValues PD AT)
  held_in tree subspace path timestamp =
      cfg.sled.get (spt_key cfg subspace path timestamp) tree >>= decode_entry_values cfg

  -- The coordinates of an entry that the key can hold.
  abbrev pub Fits : WillowPath → ℕ → Type 0
  Fits path timestamp = IsPath cfg.limits path × (timestamp < 2 ^ 64)

  pub decode_binding-spt_key :
      (namespace : N) (s : S) (p : WillowPath) (t : ℕ) (value : Bytes)
      → Fits p t
      → decode_binding cfg namespace (spt_key cfg s p t, value)
        ≡ (decode_entry_values cfg value >>= λ v. some (entry_of cfg namespace s p t v, v))
  unfolding decode_binding
  decode_binding-spt_key namespace s p t value f =
      rw (decode-encode_spt_entry_key cfg.subspaces cfg.u64_be cfg.limits s p t f.0 f.1) refl

  module _ ⦃o : Ord S⦄ where
    -- The same coordinates.
    abbrev pub same_place : S → WillowPath → ℕ → S → WillowPath → ℕ → Bool
    same_place s p m t q n = equal s t && equal p q && (m == n)

    spt_key_injective :
        (s t : S) (p q : WillowPath) (m n : ℕ)
        → Fits p m
        → Fits q n
        → spt_key cfg s p m ≡ spt_key cfg t q n
        → same_place s p m t q n ≡ true
    spt_key_injective s t p q m n f g e = ground (
      arith,
      decode-encode_spt_entry_key cfg.subspaces cfg.u64_be cfg.limits s p m f.0 f.1,
      decode-encode_spt_entry_key cfg.subspaces cfg.u64_be cfg.limits t q n g.0 g.1,
      o.cmp_self t,
      cmp_list_self q,
    )

    -- Two keys are equal where the coordinates are.
    pub equal-spt_key :
        (s t : S) (p q : WillowPath) (m n : ℕ)
        → Fits p m
        → Fits q n
        → equal (spt_key cfg s p m) (spt_key cfg t q n) ≡ same_place s p m t q n
    equal-spt_key s t p q m n f g =
        elim (Bool-cases (equal (spt_key cfg s p m) (spt_key cfg t q n))) [
          | inl e ↦
              e
              ∙ sym (
                  spt_key_injective s t p q m n f g
                    (eq_of_cmp_list (spt_key cfg s p m) (spt_key cfg t q n) (ground arith)))
          | inr e ↦ elim (Bool-cases (same_place s p m t q n)) [
            | inr c ↦ e ∙ sym c
            | inl c ↦
                ground
                  (arith, o.eq_of_cmp s t, eq_of_cmp_list p q, cmp_list_self (spt_key cfg s p m))
          ]
        ]
