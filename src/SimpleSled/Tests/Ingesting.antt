-- ===== src/SimpleSled/Tests/Ingesting.antt =====
-- `ingest_entry` at concrete inputs.
use willow_rs.Prelude.{[], ◌∷◌, ℕ, ◌≡◌, refl, sym, none, some, arith, true, false, inl}
use willow_rs.Prelude.Order.{nat_ord, list_ord, cmp_list, eq_of_cmp_list}
use willow_rs.Prelude.Least.{prefixed}
use willow_rs.Prelude.HashMap
use willow_rs.Prelude.Outcome.{ok, err}
use willow_rs.Path.{
  IsPath, component_new, new_from_iter, builder_new, append_components, append_component, build,
  is_prefix_of, is_prefixed_by,
}
use willow_rs.Entry.{is_newer_than, prunes}
use willow_rs.Store.{local, success, authorised_entry_new, operations_error}
use willow_rs.Store.Events.{insertion, next_op_id}
use willow_rs.Store.Events.Unread.{Unread, caught_up}
use willow_rs.SimpleSled.Ingest.Notify.{ingest_entry-Unread}
use willow_rs.SimpleSled.Sled.{remove_all}
use willow_rs.SimpleSled.Keys.{
  decode_spt_entry_key, decode_path, components_loop, component_bytes, component_loop,
  component_step, path_of, components_of, encode_subspace_path_key, encode_spt_entry_key,
  encode_tsp_entry_key, encode_components, escape, spt_to_tps_key,
}
use willow_rs.SimpleSled.State.{
  encode_entry_values, decode_entry_values, decode_binding, path_key, spt_key, entry_of, Faults,
  EntryValues, Store,
}
use willow_rs.SimpleSled.State.Seen.{Yields}
use willow_rs.SimpleSled.Held.{held_in}
use willow_rs.SimpleSled.Ingest.{
  ingest_entry, is_prefixed_by_newer, ingest_fresh, newer_loop, prune_loop, tsp_keys, ingested,
}
use willow_rs.SimpleSled.Ingest.Ends.{ingest_entry_failed}
use willow_rs.SimpleSled.Ingest.Invariant.{held-ingest_entry}
use willow_rs.SimpleSled.Ingest.Consistent.{Consistent, ingest_entry-Consistent}
use willow_rs.SimpleSled.Forget.Payloads.{Canonical, ingest_entry-payloads}
use willow_rs.SimpleSled.Tests.BigEndian.{digits, undigits}
use willow_rs.SimpleSled.Tests.ListSled.{insert_sorted, remove_sorted}
use willow_rs.SimpleSled.Tests.Setting.{
  byte_decode, setting, empty_store, one_entry, no_fault, path, below, authorised,
}

path-IsPath : IsPath setting.limits path
path-IsPath = ground arith

below-IsPath : IsPath setting.limits below
below-IsPath = ground arith

ingest_run : (ingest_entry setting no_fault one_entry authorised false local).0 ≡ ok success
unfolding ingest_entry is_prefixed_by_newer ingest_fresh newer_loop decode_binding
    decode_spt_entry_key decode_path components_loop component_bytes component_loop component_step
    path_of components_of decode_entry_values encode_entry_values encode_subspace_path_key
    encode_spt_entry_key encode_tsp_entry_key encode_components escape prune_loop tsp_keys
    spt_to_tps_key ingested remove_all authorised_entry_new prefixed cmp_list digits undigits
    byte_decode component_new new_from_iter builder_new append_components append_component build
    is_prefixed_by is_newer_than insert_sorted remove_sorted
ingest_run = refl

-- The entry that was held is pruned.
held-ingest_entry_example :
    held_in setting (ingest_entry setting no_fault one_entry authorised false local).1.spt 3 below 4
    ≡ none
unfolding cmp_list is_prefix_of is_newer_than held_in decode_entry_values encode_entry_values
    encode_spt_entry_key encode_components escape digits undigits byte_decode HashMap.get
held-ingest_entry_example =
    held-ingest_entry setting no_fault one_entry authorised false local 3 below 4
      ((path-IsPath, ground arith), ground arith) (below-IsPath, ground arith) ingest_run

empty_run : (ingest_entry setting no_fault empty_store authorised false local).0 ≡ ok success
unfolding ingest_entry is_prefixed_by_newer ingest_fresh newer_loop prune_loop tsp_keys ingested
    authorised_entry_new
empty_run = refl

empty-Consistent : Consistent setting 7 empty_store.spt
unfolding held_in HashMap.get
empty-Consistent u t p q l m v w f g h k = cc h

empty-Yields : Yields no_fault setting.sled empty_store.spt
empty-Yields key value h = refl

one_entry-Canonical : Canonical setting one_entry.spt
unfolding HashMap.get
one_entry-Canonical key value h =
    (3, below, 4, sym (eq_of_cmp_list (spt_key setting 3 below 4) key (ground arith)))

new_values : EntryValues ℕ ℕ
new_values = record { length = 2; digest = 2; token = 9; local_length = 0 }

held_run :
    held_in setting
      (ingest_entry setting no_fault empty_store authorised false local).1.spt
      3
      path
      5
    ≡ some new_values
unfolding new_values ingest_entry is_prefixed_by_newer ingest_fresh newer_loop prune_loop tsp_keys
    ingested authorised_entry_new remove_all held_in decode_entry_values encode_entry_values
    encode_spt_entry_key encode_tsp_entry_key encode_components escape digits undigits byte_decode
    HashMap.get insert_sorted cmp_list
held_run = refl

ingest_entry-Consistent_example :
    prunes (entry_of setting 7 3 path 5 new_values) (entry_of setting 7 3 path 5 new_values) ≡ false
ingest_entry-Consistent_example =
    ingest_entry-Consistent setting no_fault empty_store authorised false local empty_run
      ((path-IsPath, ground arith), ground arith) empty-Yields 3 3 path path 5 5 new_values
      new_values empty-Consistent (path-IsPath, ground arith) (path-IsPath, ground arith) held_run
      held_run

-- The entry at `below` is pruned, and its payload stays.
ingest_entry-payloads_example :
    setting.sled.get
      (path_key setting 3 below true)
      (ingest_entry setting no_fault one_entry authorised false local).1.payloads
    ≡ setting.sled.get (path_key setting 3 below true) one_entry.payloads
ingest_entry-payloads_example =
    ingest_entry-payloads setting no_fault one_entry authorised false local 3 below
      one_entry-Canonical ingest_run

-- Where the scan answers the entry at `below` by an error, the call succeeds and does not prune it.
abbrev unread : Faults ℕ
unread = record no_fault { item = λ b. some 8 }

unread_run :
    ((ingest_entry setting unread one_entry authorised false local).0 ≡ ok success)
    × (held_in setting
          (ingest_entry setting unread one_entry authorised false local).1.spt
          3
          below
          4
        ≡ held_in setting one_entry.spt 3 below 4)
unfolding ingest_entry is_prefixed_by_newer ingest_fresh newer_loop prune_loop tsp_keys ingested
    authorised_entry_new remove_all held_in decode_entry_values encode_entry_values
    encode_spt_entry_key encode_tsp_entry_key encode_components escape digits undigits byte_decode
    HashMap.get insert_sorted cmp_list encode_subspace_path_key prefixed
unread_run = (refl, refl)

abbrev fault : Faults ℕ
fault = record no_fault { open_tsp = some 8 }

fault_run :
    (ingest_entry setting fault one_entry authorised false local).0 ≡ err (operations_error 8)
unfolding ingest_entry is_prefixed_by_newer ingest_fresh newer_loop decode_binding
    decode_spt_entry_key decode_path components_loop component_bytes component_loop component_step
    path_of components_of decode_entry_values encode_entry_values encode_subspace_path_key
    encode_spt_entry_key encode_tsp_entry_key encode_components escape prune_loop tsp_keys
    spt_to_tps_key ingested remove_all authorised_entry_new prefixed cmp_list digits undigits
    byte_decode component_new new_from_iter builder_new append_components append_component build
    is_prefixed_by is_newer_than insert_sorted remove_sorted
fault_run = refl

ingest_entry_failed_example :
    (ingest_entry setting fault one_entry authorised false local).1 ≡ one_entry
ingest_entry_failed_example =
    ingest_entry_failed setting fault one_entry authorised false local
      (inl (operations_error 8, fault_run))

-- The same store with a subscriber that is up to date.
abbrev watched : Store setting ℕ
watched = record one_entry {
  events = record {
    op_queue = [];
    max_queue_capacity = 4;
    popped_count = 0;
    subscribers = (0, none) ∷ [];
  };
}

watched_run : (ingest_entry setting no_fault watched authorised false local).0 ≡ ok success
unfolding ingest_entry is_prefixed_by_newer ingest_fresh newer_loop decode_binding
    decode_spt_entry_key decode_path components_loop component_bytes component_loop component_step
    path_of components_of decode_entry_values encode_entry_values encode_subspace_path_key
    encode_spt_entry_key encode_tsp_entry_key encode_components escape prune_loop tsp_keys
    spt_to_tps_key ingested remove_all authorised_entry_new prefixed cmp_list digits undigits
    byte_decode component_new new_from_iter builder_new append_components append_component build
    is_prefixed_by is_newer_than insert_sorted remove_sorted
watched_run = refl

watched-Unread : Unread watched.events 0 []
unfolding next_op_id
watched-Unread = caught_up refl refl

ingest_entry-Unread_example :
    (setting.is_authorised_write authorised.token authorised.entry ≡ true)
    × Unread
        (ingest_entry setting no_fault watched authorised false local).1.events
        0
        (insertion authorised local ∷ [])
ingest_entry-Unread_example =
    ingest_entry-Unread setting no_fault watched authorised false local 0 [] (omega arith)
      (omega arith) watched-Unread watched_run
