-- ===== src/SimpleSled/Keys.antt =====
-- The keys of the trees of store_simple_sled/src/lib.rs. In a key the bytes of a component are
-- escaped (0 becomes 0 2), a component ends by 0 1, and a path by 0 0.
pub mod RoundTrip
pub mod Scan
pub mod Order
pub mod Apart
use mathlib.Core.Option
use willow_rs.Prelude.{
  ℕ, zero, suc, ◌+◌, ◌≡◌, Bool, true, false, ◌&&◌, not, Option, none, some, List, [], ◌∷◌, ◌++◌,
  ◌==◌, if◌then◌else◌, ◌>>=◌, length,
}
use willow_rs.Prelude.Outcome.{Outcome, ok, err, panic}
use willow_rs.Path.{Limits, Component, WillowPath, component_new, path_length, new_from_iter}
use willow_rs.SimpleSled.Codec.{Codec, U64Codec}

-- `for byte in component.as_ref() { … }`.
unfoldable pub escape : List ℕ → List ℕ
escape [] = []
escape (byte ∷ rest) = if byte == 0 then 0 ∷ 2 ∷ escape rest else byte ∷ escape rest

-- `for component in path.components() { … }`.
unfoldable pub encode_components : WillowPath → List ℕ
unfolding escape
encode_components [] = []
encode_components (component ∷ path) = escape component ++ (0 ∷ 1 ∷ encode_components path)

-- What `component_bytes` does with one byte: go on, with the bytes of the component so far and
-- whether the last byte was an unescaped zero, or return.
pub data Control : Type 0 where
  continue : List ℕ → Bool → Control
  return : Option (List ℕ) → Control

unfoldable pub component_step : List ℕ → Bool → ℕ → Control
component_step vec previous_was_zero byte =
    if not previous_was_zero && (byte == 0)
    then continue vec true
    else (if previous_was_zero && (byte == 2)
        then continue (vec ++ (0 ∷ [])) false
        else (if previous_was_zero && (byte == 1)
            then return (some vec)
            else (if previous_was_zero && (byte == 0)
                then return none
                else continue (vec ++ (byte ∷ [])) false)))

-- The loop of `component_bytes`, with what it leaves of the input; the outer `none` is a panic.
unfoldable pub component_loop : List ℕ → Bool → List ℕ → Option (Option (List ℕ) × List ℕ)
component_loop vec previous_was_zero [] = if previous_was_zero then none else some (none, [])
component_loop vec previous_was_zero (byte ∷ rest) =
    elim (component_step vec previous_was_zero byte) [
      | continue vec' zero' ↦ component_loop vec' zero' rest
      | return result ↦ some (result, rest)
    ]

unfoldable pub component_bytes : List ℕ → Option (Option (List ℕ) × List ℕ)
unfolding component_loop component_step
component_bytes input = component_loop [] false input

-- `while let Some(bytes) = component_bytes(&mut producer).await { components_vecs.push(bytes) }`.
-- Each round reads a byte or is the last, so `suc (length input)` rounds are enough.
unfoldable pub components_loop : ℕ → List ℕ → Option (List (List ℕ) × List ℕ)
components_loop zero input = none
components_loop (suc fuel) input = elim (component_bytes input) [
  | none ↦ none
  | some (none, rest) ↦ some ([], rest)
  | some (some bytes, rest) ↦
      Option.map (λ (r : List (List ℕ) × List ℕ). (bytes ∷ r.0, r.1)) (components_loop fuel rest)
]

module _ (k : Limits) where
  -- `.map(|bytes| Component::new(bytes).expect(…))`.
  unfoldable pub components_of : List (List ℕ) → Option (List Component)
  components_of [] = some []
  components_of (bytes ∷ vecs) = do
    c ← component_new k bytes
    cs ← components_of vecs
    some (c ∷ cs)

  unfoldable pub path_of : List (List ℕ) → Option WillowPath
  unfolding components_of
  path_of vecs = do
    components ← components_of vecs
    elim (new_from_iter k (path_length components) components) [
      | ok path ↦ some path
      | err e ↦ none
      | panic ↦ none
    ]

  -- The part that `decode_spt_entry_key` and `decode_tsp_entry_key` share.
  unfoldable pub decode_path : List ℕ → Option (WillowPath × List ℕ)
  unfolding path_of components_loop
  decode_path input = do
    (vecs, rest) ← components_loop (suc (length input)) input
    path ← path_of vecs
    some (path, rest)

module _ {ℓ} {S : Type ℓ} (subspaces : Codec S) where
  unfoldable pub encode_subspace_path_key : S → WillowPath → Bool → List ℕ
  unfolding encode_components
  encode_subspace_path_key subspace path with_path_end =
      subspaces.encode subspace
      ++ (encode_components path ++ (if with_path_end then 0 ∷ 0 ∷ [] else []))

  module _ (u64_be : U64Codec) where
    unfoldable pub encode_spt_entry_key : S → WillowPath → ℕ → List ℕ
    unfolding encode_components
    encode_spt_entry_key subspace path timestamp =
        subspaces.encode subspace ++ (encode_components path ++ (0 ∷ 0 ∷ u64_be.encode timestamp))

    unfoldable pub encode_tsp_entry_key : S → WillowPath → ℕ → List ℕ
    unfolding encode_components
    encode_tsp_entry_key subspace path timestamp =
        u64_be.encode timestamp
        ++ (subspaces.encode subspace ++ (encode_components path ++ (0 ∷ 0 ∷ [])))

    module _ (k : Limits) where
      unfoldable pub decode_spt_entry_key : List ℕ → Option (S × WillowPath × ℕ)
      unfolding decode_path
      decode_spt_entry_key encoded = do
        (subspace, input) ← subspaces.decode encoded
        (path, rest) ← decode_path k input
        (timestamp, _) ← u64_be.decode rest
        some (subspace, path, timestamp)

      unfoldable pub decode_tsp_entry_key : List ℕ → Option (ℕ × S × WillowPath)
      unfolding decode_path
      decode_tsp_entry_key encoded = do
        (timestamp, input) ← u64_be.decode encoded
        (subspace, rest) ← subspaces.decode input
        (path, _) ← decode_path k rest
        some (timestamp, subspace, path)

      unfoldable pub spt_to_tps_key : List ℕ → Option (List ℕ)
      unfolding decode_spt_entry_key encode_tsp_entry_key
      spt_to_tps_key key = do
        (subspace, path, timestamp) ← decode_spt_entry_key key
        some (encode_tsp_entry_key subspace path timestamp)

      pub tps_to_spt_key : List ℕ → Option (List ℕ)
      unfolding decode_tsp_entry_key encode_spt_entry_key
      tps_to_spt_key key = do
        (timestamp, subspace, path) ← decode_tsp_entry_key key
        some (encode_spt_entry_key subspace path timestamp)
