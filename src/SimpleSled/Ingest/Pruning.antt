-- ===== src/SimpleSled/Ingest/Pruning.antt =====
-- What `ingest_entry` of store_simple_sled/src/lib.rs leaves in the store, key by key.
use willow_rs.Prelude.{
  ◌≡◌, refl, Bool, false, ◌&&◌, not, none, some, List, [], ◌∷◌, arith, Option-cases, Bool-cases,
  inl, inr,
}
use willow_rs.Prelude.Order.{Ord, eq_of_cmp_list, list_ord, nat_ord}
use willow_rs.Prelude.Outcome.{ok, bind_ok}
use willow_rs.Path.{is_prefixed_by}
use willow_rs.Entry.{Entry, is_newer_than}
use willow_rs.SimpleSled.Sled.{Bytes, Binding}
use willow_rs.SimpleSled.Sled.Laws.{contains, finds}
use willow_rs.SimpleSled.State.{Setting, decode_binding}
use willow_rs.SimpleSled.Ingest.{newer_loop, prune_loop}

module _ {N S PD AT : Type 0} (cfg : Setting N S PD AT) ⦃pd : Ord PD⦄ where
  -- The decoded binding is an entry that makes `e` obsolete.
  unfoldable pub obsoletes : N → Entry N S PD → Bytes → Bytes → Bool
  obsoletes namespace e key value = elim (decode_binding cfg namespace (key, value)) [
    | none ↦ false
    | some (other, v) ↦ is_prefixed_by e.path other.path && is_newer_than other e
  ]

  -- The decoded binding is an entry that is not newer than `e`.
  unfoldable pub falls_to : N → Entry N S PD → Bytes → Bytes → Bool
  falls_to namespace e key value = elim (decode_binding cfg namespace (key, value)) [
    | none ↦ false
    | some (other, v) ↦ not (is_newer_than other e)
  ]

  pub newer_loop-none :
      (namespace : N) (e : Entry N S PD) (bs : List Binding) (key : Bytes)
      → newer_loop cfg namespace e bs ≡ some none
      → finds key (obsoletes namespace e key) bs ≡ false
  unfolding newer_loop finds obsoletes
  newer_loop-none namespace e [] key h = refl
  newer_loop-none namespace e ((k, v) ∷ bs) key h =
      ground (arith, eq_of_cmp_list k key, newer_loop-none namespace e bs key)

  module _ {E : Type 0} where
    pub prune_loop-ok :
        (namespace : N) (prevent : Bool) (e : Entry N S PD) (bs : List Binding) (keys : List Bytes)
        (key : Bytes)
        → prune_loop {E = E} cfg namespace prevent e bs ≡ ok keys
        → contains key keys ≡ finds key (falls_to namespace e key) bs
    unfolding prune_loop contains finds falls_to
    prune_loop-ok namespace prevent e [] keys key h = ground arith
    prune_loop-ok namespace prevent e ((k, v) ∷ bs) keys key h =
        elim (Option-cases (decode_binding cfg namespace (k, v))) [
          | inl d ↦ ground arith
          | inr ((other, w), d) ↦ elim (Bool-cases (is_newer_than other e)) [
            | inl t ↦
                ground (arith, eq_of_cmp_list k key, prune_loop-ok namespace prevent e bs keys key)
            | inr t ↦ elim (Bool-cases prevent) [
              | inl q ↦ ground (arith, q)
              | inr q ↦
                  let (ks, r, m) =
                    bind_ok (prune_loop {E = E} cfg namespace prevent e bs) (λ ks. ok (k ∷ ks))
                      {b = keys} (ground (arith, q)) in
                  ground
                    (arith, eq_of_cmp_list k key, prune_loop-ok namespace prevent e bs ks key r)
            ]
          ]
        ]
