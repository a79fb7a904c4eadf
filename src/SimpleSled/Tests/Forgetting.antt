-- ===== src/SimpleSled/Tests/Forgetting.antt =====
-- `forget_area` and `append_payload` at concrete inputs.
use willow_rs.Prelude.{ℕ, ◌≡◌, refl, none, some, arith, true, List, [], ◌∷◌}
use willow_rs.Prelude.Order.{nat_ord, list_ord, cmp_list}
use willow_rs.Prelude.Least.{prefixed}
use willow_rs.Prelude.HashMap
use willow_rs.Prelude.Outcome.{ok}
use willow_rs.Path.{
  IsPath, component_new, new_from_iter, builder_new, append_components, append_component, build,
  is_prefix_of,
}
use willow_rs.Grouping.Range.{open_end}
use willow_rs.Grouping.Range
use willow_rs.Grouping.Area.{Area, id}
use willow_rs.Grouping.Area
use willow_rs.Store.{PayloadAppendSuccess}
use willow_rs.Store.{authorised_entry_new}
use willow_rs.SimpleSled.Sled.{remove_all, insert_all}
use willow_rs.SimpleSled.Keys.{
  decode_spt_entry_key, decode_path, components_loop, component_bytes, component_loop,
  component_step, path_of, components_of, encode_subspace_path_key, encode_spt_entry_key,
  encode_tsp_entry_key, encode_components, escape, spt_to_tps_key,
}
use willow_rs.SimpleSled.State.{encode_entry_values, decode_entry_values, decode_binding, path_key}
use willow_rs.SimpleSled.Held.{held_in}
use willow_rs.SimpleSled.Forget.{
  prefix_gt, unexpected, is_protected, is_forgotten, prefix_matches, area_scan, forget_area_loop,
  forgot_area, forget_area_body, forget_area,
}
use willow_rs.SimpleSled.Forget.Areas.{held-forget_area}
use willow_rs.SimpleSled.Append.{
  Source, other_length, receive, write_payload, store_payload, store_received, append_found,
  append_at, append_body, append_payload,
}
use willow_rs.SimpleSled.Append.Completed.{CompletedAt, append_payload-completed}
use willow_rs.SimpleSled.Tests.BigEndian.{digits, undigits}
use willow_rs.SimpleSled.Tests.ListSled.{insert_sorted, remove_sorted}
use willow_rs.SimpleSled.Tests.Setting.{byte_decode, setting, one_entry, no_fault, path, below}

below-IsPath : IsPath setting.limits below
below-IsPath = ground arith

abbrev area : Area ℕ
area = record { subspace = id 3; path = path; times = record { start = 2; end = open_end } }

forget_run : (forget_area setting no_fault one_entry area none).0 ≡ ok 1
unfolding forget_area forget_area_body forget_area_loop area_scan is_forgotten is_protected
    prefix_matches forgot_area remove_all decode_binding decode_spt_entry_key decode_path
    components_loop component_bytes component_loop component_step path_of components_of
    decode_entry_values encode_entry_values encode_subspace_path_key encode_spt_entry_key
    encode_tsp_entry_key encode_components escape spt_to_tps_key prefixed cmp_list digits undigits
    byte_decode component_new new_from_iter builder_new append_components append_component build
    is_prefix_of remove_sorted Area.includes_triplet Range.includes
forget_run = refl

held-forget_area_example :
    held_in setting (forget_area setting no_fault one_entry area none).1.spt 3 below 4 ≡ none
unfolding is_protected cmp_list is_prefix_of Area.includes_triplet Range.includes HashMap.get
    encode_spt_entry_key digits
held-forget_area_example =
    held-forget_area setting no_fault one_entry area none 3 below 4 (below-IsPath, omega arith)
      forget_run

abbrev source : Source ℕ
source = record { bytes = 5 ∷ []; failure = none }

append_run :
    (append_payload setting no_fault one_entry 3 below none (some 1) source).0
    ≡ ok PayloadAppendSuccess.completed
unfolding append_payload append_body append_at append_found store_received store_payload
    write_payload receive other_length unexpected authorised_entry_new decode_binding
    decode_spt_entry_key decode_path components_loop component_bytes component_loop component_step
    path_of components_of decode_entry_values encode_entry_values encode_subspace_path_key
    encode_spt_entry_key encode_tsp_entry_key encode_components escape spt_to_tps_key prefixed
    cmp_list digits undigits byte_decode component_new new_from_iter builder_new append_components
    append_component build HashMap.get insert_sorted insert_all
append_run = refl

append_payload-completed_example :
    (key : List ℕ) × (value : List ℕ) × (prefix_gt setting no_fault
        (path_key setting 3 below true)
        one_entry.spt
      ≡ some (key, value))
    × CompletedAt setting no_fault one_entry key value source
        (path_key setting 3 below true)
        (append_payload setting no_fault one_entry 3 below none (some 1) source).1
append_payload-completed_example =
    append_payload-completed setting no_fault one_entry 3 below none (some 1) source
      (path_key setting 3 below true) append_run
