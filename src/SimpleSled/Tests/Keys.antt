-- ===== src/SimpleSled/Tests/Keys.antt =====
-- The keys of the trees at concrete inputs.
use willow_rs.Prelude.{◌≡◌, true, false, some, arith}
use Prim.Native.Nat.Ordering.{lt}
use willow_rs.Prelude.Order.{cmp_list, nat_ord}
use willow_rs.Prelude.Least.{prefixed}
use willow_rs.Path.{IsPath, is_prefix_of}
use willow_rs.SimpleSled.Keys.{
  encode_subspace_path_key, encode_spt_entry_key, encode_tsp_entry_key, spt_to_tps_key,
  tps_to_spt_key,
}
use willow_rs.SimpleSled.Keys.RoundTrip.{spt_to_tps_key_lem}
use willow_rs.SimpleSled.Keys.Scan.{prefixed-encode_spt_entry_key}
use willow_rs.SimpleSled.Keys.Order.{cmp-encode_spt_entry_key}
use willow_rs.SimpleSled.Tests.BigEndian.{u64_be}
use willow_rs.SimpleSled.Tests.Setting.{bytes, bytes-IsOrdered, small, path, below}

below-IsPath : IsPath small below
below-IsPath = ground arith

spt_to_tps_key_lem_example :
    (spt_to_tps_key bytes u64_be small (encode_spt_entry_key bytes u64_be 3 below 4)
      ≡ some (encode_tsp_entry_key bytes u64_be 3 below 4))
    × (tps_to_spt_key bytes u64_be small (encode_tsp_entry_key bytes u64_be 3 below 4)
        ≡ some (encode_spt_entry_key bytes u64_be 3 below 4))
spt_to_tps_key_lem_example =
    spt_to_tps_key_lem bytes u64_be small 3 below 4 below-IsPath (omega arith)

prefixed-encode_spt_entry_key_example :
    prefixed
      (encode_subspace_path_key bytes 3 path false)
      (encode_spt_entry_key bytes u64_be 3 below 4)
    ≡ true
unfolding is_prefix_of cmp_list
prefixed-encode_spt_entry_key_example = prefixed-encode_spt_entry_key bytes u64_be 3 3 path below 4

cmp-encode_spt_entry_key_example :
    cmp_list
      (encode_spt_entry_key bytes u64_be 3 path 5)
      (encode_spt_entry_key bytes u64_be 3 below 4)
    ≡ lt
unfolding cmp_list
cmp-encode_spt_entry_key_example =
    cmp-encode_spt_entry_key bytes u64_be bytes-IsOrdered 3 3 path below 5 4 (omega arith)
      (omega arith)
