-- ===== src/SimpleSled/Keys/RoundTrip.antt =====
-- The keys of store_simple_sled/src/lib.rs decode to what they were made of.
use willow_rs.Prelude.{
  ℕ, zero, suc, ◌≤◌, ◌<◌, ◌^◌, ◌≡◌, refl, true, false, none, some, List, [], ◌∷◌, ◌++◌, arith,
  length, length-append, All, append_assoc, append-nil,
}
use willow_rs.Path.{Limits, WillowPath, IsPath, IsComponent, path_length}
use willow_rs.Path.Construct.{new_from_iter_lem, component_new_fits}
use willow_rs.SimpleSled.Codec.{Codec, U64Codec}
use willow_rs.SimpleSled.Keys.{
  continue, escape, encode_components, component_step, component_loop, component_bytes,
  components_loop, components_of, path_of, decode_path, encode_spt_entry_key, encode_tsp_entry_key,
  decode_spt_entry_key, decode_tsp_entry_key, spt_to_tps_key, tps_to_spt_key,
}

escape-suc : (b : ℕ) (c : List ℕ) → escape (suc b ∷ c) ≡ suc b ∷ escape c
unfolding escape
escape-suc b c = ground arith

component_step-suc :
    (vec : List ℕ) (b : ℕ) → component_step vec false (suc b) ≡ continue (vec ++ (suc b ∷ [])) false
unfolding component_step
component_step-suc vec b = ground arith

escape_zero : (c : List ℕ) → escape (0 ∷ c) ≡ 0 ∷ 2 ∷ escape c
unfolding escape
escape_zero c = refl

component_step_zero : (vec : List ℕ) → component_step vec false 0 ≡ continue vec true
unfolding component_step
component_step_zero vec = refl

component_step_two : (vec : List ℕ) → component_step vec true 2 ≡ continue (vec ++ (0 ∷ [])) false
unfolding component_step
component_step_two vec = refl

-- An escaped component and its end are read back, and what follows is left.
component_loop-escape :
    (vec c rest : List ℕ)
    → component_loop vec false (escape c ++ (0 ∷ 1 ∷ rest)) ≡ some (some (vec ++ c), rest)
unfolding component_loop
component_loop-escape vec [] rest = unfold escape component_step in rw append-nil
component_loop-escape vec (zero ∷ c) rest = ground (
  arith,
  escape_zero c,
  component_step_zero vec,
  component_step_two vec,
  component_loop-escape (vec ++ (0 ∷ [])) c rest,
  append_assoc vec (0 ∷ []) c,
)
component_loop-escape vec (suc b ∷ c) rest = ground (
  arith,
  escape-suc b c,
  component_step-suc vec b,
  component_loop-escape (vec ++ (suc b ∷ [])) c rest,
  append_assoc vec (suc b ∷ []) c,
)

component_bytes-escape :
    (c rest : List ℕ) → component_bytes (escape c ++ (0 ∷ 1 ∷ rest)) ≡ some (some c, rest)
unfolding component_bytes
component_bytes-escape c rest = component_loop-escape [] c rest

component_bytes-end : (rest : List ℕ) → component_bytes (0 ∷ 0 ∷ rest) ≡ some (none, rest)
unfolding component_bytes
component_bytes-end rest = refl

-- One round for each component, and one for the end of the path.
components_loop-encode :
    (fuel : ℕ) (p : WillowPath) (rest : List ℕ)
    → length p < fuel
    → components_loop fuel (encode_components p ++ (0 ∷ 0 ∷ rest)) ≡ some (p, rest)
unfolding components_loop encode_components
components_loop-encode zero p rest h = elim h [ ]
components_loop-encode (suc fuel) [] rest h = ground (arith, component_bytes-end rest)
components_loop-encode (suc fuel) (c ∷ p) rest h = ground (
  arith,
  append_assoc (escape c) (0 ∷ 1 ∷ encode_components p) (0 ∷ 0 ∷ rest),
  component_bytes-escape c (encode_components p ++ (0 ∷ 0 ∷ rest)),
  components_loop-encode fuel p rest,
)

length-encode_components : (p : WillowPath) → length p ≤ length (encode_components p)
unfolding encode_components
length-encode_components [] = omega arith
length-encode_components (c ∷ p) =
    omega
      (arith, length-append (escape c) (0 ∷ 1 ∷ encode_components p), length-encode_components p)

module _ (k : Limits) where
  components_of_self : (cs : WillowPath) → All (IsComponent k) cs → components_of k cs ≡ some cs
  unfolding components_of
  components_of_self [] h = refl
  components_of_self (c ∷ cs) h =
      ground (arith, h.0.length_fits, components_of_self cs h.1, component_new_fits k c)

  path_of_self : (p : WillowPath) → IsPath k p → path_of k p ≡ some p
  unfolding path_of
  path_of_self p h = ground (
    arith,
    components_of_self p h.components,
    new_from_iter_lem k (path_length p) p,
    h.count_fits,
    h.length_fits,
  )

  pub decode_path-encode :
      (p : WillowPath) (rest : List ℕ)
      → IsPath k p
      → decode_path k (encode_components p ++ (0 ∷ 0 ∷ rest)) ≡ some (p, rest)
  unfolding decode_path
  decode_path-encode p rest h = rw (
    components_loop-encode (suc (length (encode_components p ++ (0 ∷ 0 ∷ rest)))) p rest (
        omega
          (arith, length-append (encode_components p) (0 ∷ 0 ∷ rest), length-encode_components p)),
    path_of_self p h,
  )

u64_be_alone : (u : U64Codec) (t : ℕ) → t < 2 ^ 64 → u.decode (u.encode t) ≡ some (t, [])
u64_be_alone u t h = rw (← append-nil (u.encode t)) (u.decode_encode t [] h)

module _ {ℓ} {S : Type ℓ} (subspaces : Codec S) (u64_be : U64Codec) (k : Limits) where
  -- Both keys of an entry decode to its subspace, path and timestamp.
  pub decode-encode_spt_entry_key :
      (s : S) (p : WillowPath) (t : ℕ)
      → IsPath k p
      → t < 2 ^ 64
      → decode_spt_entry_key subspaces u64_be k (encode_spt_entry_key subspaces u64_be s p t)
        ≡ some (s, p, t)
  unfolding decode_spt_entry_key encode_spt_entry_key
  decode-encode_spt_entry_key s p t h b = rw (
    subspaces.decode_encode s (encode_components p ++ (0 ∷ 0 ∷ u64_be.encode t)),
    decode_path-encode k p (u64_be.encode t) h,
    u64_be_alone u64_be t b,
  )

  pub decode-encode_tsp_entry_key :
      (s : S) (p : WillowPath) (t : ℕ)
      → IsPath k p
      → t < 2 ^ 64
      → decode_tsp_entry_key subspaces u64_be k (encode_tsp_entry_key subspaces u64_be s p t)
        ≡ some (t, s, p)
  unfolding decode_tsp_entry_key encode_tsp_entry_key
  decode-encode_tsp_entry_key s p t h b = rw (
    u64_be.decode_encode t (subspaces.encode s ++ (encode_components p ++ (0 ∷ 0 ∷ []))) b,
    subspaces.decode_encode s (encode_components p ++ (0 ∷ 0 ∷ [])),
    decode_path-encode k p [] h,
  )

  -- For a path within the limits and a timestamp below 2^64, the two keys of an entry are made from
  -- each other: no panic, and the other tree's key.
  pub spt_to_tps_key_lem :
      (s : S) (p : WillowPath) (t : ℕ)
      → IsPath k p
      → t < 2 ^ 64
      → (spt_to_tps_key subspaces u64_be k (encode_spt_entry_key subspaces u64_be s p t)
          ≡ some (encode_tsp_entry_key subspaces u64_be s p t))
        × (tps_to_spt_key subspaces u64_be k (encode_tsp_entry_key subspaces u64_be s p t)
            ≡ some (encode_spt_entry_key subspaces u64_be s p t))
  unfolding spt_to_tps_key tps_to_spt_key
  spt_to_tps_key_lem s p t h b =
      (rw (decode-encode_spt_entry_key s p t h b), rw (decode-encode_tsp_entry_key s p t h b))
