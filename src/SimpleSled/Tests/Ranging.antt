-- ===== src/SimpleSled/Tests/Ranging.antt =====
-- Summaries, splits and the creation of stores at concrete inputs.
use willow_rs.Prelude.{ℕ, ◌+◌, ◌≡◌, refl, Option, some, none, inl, List, [], ◌∷◌}
use willow_rs.Prelude.Order.{nat_ord, list_ord, cmp_list}
use willow_rs.Prelude.Outcome.{ok, err}
use willow_rs.Path.{
  component_new, new_from_iter, builder_new, append_components, append_component, build,
}
use willow_rs.Path.NewMax.{new_max, full_components, empty_components, num_comps, bytes_255}
use willow_rs.Grouping.Range.{open_end}
use willow_rs.Grouping.Range
use willow_rs.Grouping.Range3d
use willow_rs.Grouping.Range3d.{Range3d}
use willow_rs.Store.{LengthyAuthorisedEntry, ignore_nothing}
use willow_rs.SimpleSled.Keys.{
  decode_spt_entry_key, decode_path, components_loop, component_bytes, component_loop,
  component_step, path_of, components_of, encode_spt_entry_key, encode_components, escape,
}
use willow_rs.SimpleSled.State.{encode_entry_values, decode_entry_values, decode_binding}
use willow_rs.SimpleSled.Query.{started, range_scan, produce_entry, entry_loop, is_ignored}
use willow_rs.SimpleSled.Ranges.{Fingerprint, summarise, summarise_loop}
use willow_rs.SimpleSled.Split.{
  SplitProducer, send_entries, split_of, make_split, split_at, split_loop, produce_split,
  time_upper_bound,
}
use willow_rs.SimpleSled.Ranges.Summary.{visible, summarise-visible}
use willow_rs.SimpleSled.Split.Parts.{NextPart, produce_split-NextPart}
use willow_rs.SimpleSled.Open.{
  Db, NamespaceCodec, db_not_clean, new_with_event_queue_capacity,
  from_existing_with_event_queue_capacity, store_of,
}
use willow_rs.SimpleSled.Open.Reopen.{no_open_faults, initialised, from_existing-new}
use willow_rs.SimpleSled.Tests.BigEndian.{digits, undigits}
use willow_rs.SimpleSled.Tests.ListSled.{empty_tree}
use willow_rs.SimpleSled.Tests.Setting.{byte_decode, setting, one_entry, no_fault, below}

abbrev whole : Range3d ℕ
whole = record {
  subspaces = record { start = 0; end = open_end };
  paths = record { start = []; end = open_end };
  times = record { start = 1; end = open_end };
}

-- The fingerprint of an entry is the number of bytes that are there.
abbrev available : Fingerprint ℕ ℕ ℕ ℕ ℕ
available = record { neutral = 0; singleton = λ x. x.available; combine = λ m n. m + n }

abbrev held : LengthyAuthorisedEntry ℕ ℕ ℕ ℕ
held = record {
  entry = record {
    entry = record {
      namespace_id = 7;
      subspace_id = 3;
      path = below;
      timestamp = 4;
      payload_digest = 2;
      payload_length = 2;
    };
    token = 9;
  };
  available = 1;
}

started_run :
    started setting 255 no_fault one_entry
      (record { iter = none; ignore = ignore_nothing; range = whole })
    ≡ ok one_entry.spt.0
unfolding Range.get_end started range_scan new_max full_components empty_components num_comps
    bytes_255 builder_new append_components append_component build encode_spt_entry_key
    encode_components escape digits cmp_list
started_run = refl

visible_run : visible setting no_fault 7 ignore_nothing whole one_entry.spt.0 ≡ some (held ∷ [])
unfolding visible is_ignored decode_binding decode_spt_entry_key decode_path components_loop
    component_bytes component_loop component_step path_of components_of decode_entry_values
    encode_entry_values encode_spt_entry_key encode_components escape digits undigits byte_decode
    component_new new_from_iter builder_new append_components append_component build cmp_list
    Range3d.includes_entry Range3d.includes_triplet Range.includes Range.get_end
visible_run = refl

summarise-visible_example : summarise setting 255 no_fault one_entry available whole ≡ ok (1, 1)
summarise-visible_example =
    summarise-visible setting 255 no_fault one_entry available whole one_entry.spt.0 (held ∷ [])
      started_run visible_run

abbrev splits : SplitProducer ℕ
splits = record {
  iter = one_entry.tsp.0;
  index = 0;
  range = whole;
  options = record { min_range_size = 3; target_split_count = 2 };
  current_size = 0;
  target_size = 0;
  total_count = 1;
  current_lower_bound_timestamp = 1;
}

abbrev split : SplitProducer ℕ
split = record splits { iter = []; index = 1; current_size = 1 }

split_run :
    produce_split setting 255 no_fault one_entry available splits
    ≡ (ok (inl (whole, send_entries 1)), split)
unfolding produce_split split_loop split_at time_upper_bound make_split split_of summarise
    summarise_loop produce_entry entry_loop started range_scan new_max full_components
    empty_components num_comps bytes_255 is_ignored decode_binding decode_spt_entry_key decode_path
    components_loop component_bytes component_loop component_step path_of components_of
    decode_entry_values encode_entry_values encode_spt_entry_key encode_components escape digits
    undigits byte_decode component_new new_from_iter builder_new append_components append_component
    build cmp_list Range3d.includes_entry Range3d.includes_triplet Range.includes Range.get_end
split_run = refl

produce_split-NextPart_example : NextPart splits whole split
produce_split-NextPart_example =
    produce_split-NextPart setting 255 no_fault one_entry available splits split whole
      (send_entries 1) split_run

abbrev first_byte : List ℕ → Option ℕ
first_byte [] = none
first_byte (n ∷ ns) = some n

abbrev namespaces : NamespaceCodec ℕ
namespaces = record { encode = λ n. n ∷ []; decode = first_byte; decode_encode = λ n. refl }

abbrev clean : Db setting
clean = record { spt = empty_tree; tsp = empty_tree; payloads = empty_tree; misc = empty_tree }

abbrev found : Db setting
found = initialised setting namespaces 7 clean

new_run :
    new_with_event_queue_capacity {E = ℕ} setting namespaces no_open_faults 7 clean 4
    ≡ ok (store_of setting 7 found 4, found)
unfolding new_with_event_queue_capacity
new_run = refl

from_existing-new_example :
    (from_existing_with_event_queue_capacity {E = ℕ} setting namespaces no_open_faults found 4
      ≡ ok (store_of setting 7 found 4))
    × (new_with_event_queue_capacity {E = ℕ} setting namespaces no_open_faults 8 found 4
        ≡ err db_not_clean)
from_existing-new_example =
    from_existing-new setting namespaces no_open_faults 7 8 clean found 4 4
      (store_of setting 7 found 4) new_run
