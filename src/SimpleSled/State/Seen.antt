-- ===== src/SimpleSled/State/Seen.antt =====
-- What a loop over a scan finds in store_simple_sled/src/lib.rs, where sled yields some bindings of
-- the scan as errors, which `flatten()` skips.
use willow_rs.Prelude.{
  ◌≡◌, ap, ◌∙◌, Bool, false, ◌&&◌, Option, none, some, arith, Option-cases, inl, inr,
}
use willow_rs.Prelude.Order.{list_ord, nat_ord}
use willow_rs.Prelude.Least.{prefixed}
use willow_rs.SimpleSled.Sled.{Bytes, Sled}
use willow_rs.SimpleSled.Sled.Laws.{
  finds, finds-selected, holds_value, finds-scan_prefix, finds-iter,
}
use willow_rs.SimpleSled.State.{Faults, is_read, flatten}

module _ {E : Type 0} (faults : Faults E) where
  -- A scan yields the binding of the key, if there is one, and not an error.
  abbrev pub is_seen : Bytes → Option Bytes → Bool
  is_seen key none = false
  is_seen key (some value) = is_read (faults.item (key, value))

  holds_value-seen :
      (key : Bytes) (f : Bytes → Bool) (o : Option Bytes)
      → holds_value (λ v. is_read (faults.item (key, v)) && f v) o
        ≡ holds_value f o && is_seen key o
  holds_value-seen key f none = ground arith
  holds_value-seen key f (some v) = ground arith

  module _ (sled : Sled) where
    -- Sled yields every binding of the tree.
    abbrev pub Yields : sled.Tree → Type 0
    Yields tree =
        (key value : Bytes) → sled.get key tree ≡ some value → faults.item (key, value) ≡ none

    pub holds_value-Yields :
        (key : Bytes) (f : Bytes → Bool) (tree : sled.Tree)
        → Yields tree
        → (holds_value f (sled.get key tree) && is_seen key (sled.get key tree))
          ≡ holds_value f (sled.get key tree)
    holds_value-Yields key f tree y = elim (Option-cases (sled.get key tree)) [
      | inl e ↦ rw e
      | inr (value, e) ↦ rw (e, y key value e) (ground arith)
    ]

    pub finds-flatten-scan_prefix :
        (key : Bytes) (f : Bytes → Bool) (p : Bytes) (tree : sled.Tree)
        → finds key f (flatten faults (sled.scan_prefix p tree))
          ≡ prefixed p key && (holds_value f (sled.get key tree) && is_seen key (sled.get key tree))
    finds-flatten-scan_prefix key f p tree =
        finds-selected key f (λ b. is_read (faults.item b)) (sled.scan_prefix p tree)
        ∙ finds-scan_prefix sled key (λ v. is_read (faults.item (key, v)) && f v) p tree
        ∙ ap (λ b. prefixed p key && b) (holds_value-seen key f (sled.get key tree))

    pub finds-flatten-iter :
        (key : Bytes) (f : Bytes → Bool) (tree : sled.Tree)
        → finds key f (flatten faults (sled.iter tree))
          ≡ holds_value f (sled.get key tree) && is_seen key (sled.get key tree)
    finds-flatten-iter key f tree =
        finds-selected key f (λ b. is_read (faults.item b)) (sled.iter tree)
        ∙ finds-iter sled key (λ v. is_read (faults.item (key, v)) && f v) tree
        ∙ holds_value-seen key f (sled.get key tree)
