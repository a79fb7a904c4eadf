-- ===== src/Path/Representation/Builder.antt =====
-- data-model/src/path/builder.rs over the buffer: `PathBuilder` with its bytes.
pub mod Overwrite
pub mod Fill
pub mod Laws
use willow_rs.Prelude.{
  ℕ, zero, suc, ◌+◌, ◌-◌, ◌*◌, Option, none, some, List, [], ◌∷◌, ◌++◌, if◌then◌else◌, ltb, ◌==◌,
  ◌&&◌, length, take, ◌>>=◌,
}
use willow_rs.Prelude.Outcome.{Outcome, ok, err, panic, unwrap}
use willow_rs.Path.{Limits, Component, InvalidPathError, path_too_long, too_many_components}
use willow_rs.Path.Representation.{
  Usize, drop, sum_of_lengths, start_offset_of_sum, total_length, buf_component_count,
}

pub record ByteBuilder : Type 0 where
  pub bytes : List ℕ
  pub initialised_components : ℕ
  pub target_length : ℕ

-- `data` and `component_count` of `Path`.
pub record BytePath : Type 0 where
  pub buffer : List ℕ
  pub component_count : ℕ

pub put_zeros : ℕ → List ℕ
put_zeros zero = []
put_zeros (suc n) = 0 ∷ put_zeros n

-- `buf[start..end].copy_from_slice(new)`; `none` is the panic out of range.
abbrev pub overwrite : List ℕ → ℕ → ℕ → List ℕ → Option (List ℕ)
overwrite buf start end new =
    if ltb (length buf) end then none else some (take start buf ++ (new ++ drop end buf))

module _ (word : Usize) where
  unfoldable pub byte_new : Limits → ℕ → ℕ → Outcome InvalidPathError ByteBuilder
  unfolding put_zeros
  byte_new k total_length component_count =
      if ltb k.max_path_length total_length
      then err path_too_long
      else if ltb k.max_component_count component_count
      then err too_many_components
      else ok (record {
        bytes = word.to_ne_bytes component_count ++ put_zeros (word.size * component_count);
        initialised_components = 0;
        target_length = total_length;
      })

  unfoldable pub byte_append : ByteBuilder → Component → Option ByteBuilder
  byte_append b component = do
    total_length_so_far ← total_length word b.bytes b.initialised_components
    let start = start_offset_of_sum word b.initialised_components
    bytes ←
        overwrite b.bytes start (start + word.size)
          (word.to_ne_bytes (length component + total_length_so_far))
    some (record {
      bytes = bytes ++ component;
      initialised_components = b.initialised_components + 1;
      target_length = b.target_length;
    })

  unfoldable pub byte_append_all : ByteBuilder → List Component → Option ByteBuilder
  unfolding byte_append
  byte_append_all b [] = some b
  byte_append_all b (c ∷ cs) = do next ← byte_append b c; byte_append_all next cs

  unfoldable pub byte_build : ByteBuilder → Option BytePath
  byte_build b = do
    count ← buf_component_count word b.bytes
    total ← total_length word b.bytes b.initialised_components
    if (b.initialised_components == count) && (b.target_length == total)
        then some (record { buffer = b.bytes; component_count = b.initialised_components })
        else none

  -- `Path::new_from_iter`.
  pub byte_from_iter : Limits → ℕ → List Component → Outcome InvalidPathError BytePath
  unfolding byte_new byte_append_all byte_build
  byte_from_iter k total_length cs = elim (byte_new k total_length (length cs)) [
    | ok b ↦ unwrap (byte_append_all b cs >>= byte_build)
    | err e ↦ err e
    | panic ↦ panic
  ]
