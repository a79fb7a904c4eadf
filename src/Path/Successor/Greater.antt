-- ===== src/Path/Successor/Greater.antt =====
-- `greater_but_not_prefixed` returns the least path that is greater and not prefixed.
use Prim.Native.Nat.Ordering.{lt}
use willow_rs.Prelude.{◌≡◌, sym, ◌∙◌, true, false, none, some, [], arith}
use willow_rs.Prelude.Order.{is_le, list_ord, nat_ord}
use willow_rs.Prelude.Backward.{replace_last}
use willow_rs.Prelude.Least.{
  prefixed, replace_last-gt, replace_last-none, replace_last-least, replace_last-Fits,
}
use willow_rs.Path.{Limits, WillowPath, IsPath, is_prefix_of, path_cmp}
use willow_rs.Path.Prefix.{is_prefix_of-prefixed}
use willow_rs.Path.Successor.{greater_but_not_prefixed}
use willow_rs.Path.Successor.Step.{Admissible, greater_step, backward-greater_body}
use willow_rs.Path.Successor.Admissible.{
  greater_step-gt, greater_step_keeps, greater_step-none, greater_step-least, Fits-path,
  IsPath-of_Fits, All-unit, length-replace_last,
}

pub greater-replace_last :
    (k : Limits) (p : WillowPath)
    → greater_but_not_prefixed k p ≡ replace_last (greater_step k) [] p
unfolding greater_but_not_prefixed
greater-replace_last k p = backward-greater_body k p

pub greater_but_not_prefixed_lem :
    (k : Limits) (p r : WillowPath)
    → IsPath k p
    → greater_but_not_prefixed k p ≡ some r
    → IsPath k r
      × (path_cmp p r ≡ lt)
      × (is_prefix_of p r ≡ false)
      × ((q : WillowPath)
          → IsPath k q
          → path_cmp p q ≡ lt
          → is_prefix_of p q ≡ false
          → is_le (path_cmp r q) ≡ true)
greater_but_not_prefixed_lem k p r v h = (
  IsPath-of_Fits k r
      (replace_last-Fits (greater_step k) (Admissible k) (greater_step_keeps k) [] p r e
        (Fits-path k p v))
      (omega (arith, length-replace_last (greater_step k) [] p r e, v.count_fits)),
  greater.0,
  is_prefix_of-prefixed p r ∙ greater.1,
  λ q w l n.
      replace_last-least (greater_step k) (Admissible k) (greater_step-none k) (λ _. Unit {0})
        (greater_step-least k) [] p r q (All-unit p) e (Fits-path k q w) l
        (sym (is_prefix_of-prefixed p q) ∙ n),
)
  where
    e : replace_last (greater_step k) [] p ≡ some r
    e = sym (greater-replace_last k p) ∙ h

    greater : (path_cmp p r ≡ lt) × (prefixed p r ≡ false)
    greater =
        replace_last-gt (greater_step k) (λ _. Unit {0}) (greater_step-gt k) [] p r (All-unit p) e

-- A path that `greater_but_not_prefixed` returns for a valid path is valid, greater, and not prefixed
-- by the path.
pub greater_but_not_prefixed-gt :
    (k : Limits) (p r : WillowPath)
    → IsPath k p
    → greater_but_not_prefixed k p ≡ some r
    → IsPath k r × (path_cmp p r ≡ lt) × (is_prefix_of p r ≡ false)
greater_but_not_prefixed-gt k p r v h =
    let (valid, above, apart, _) = greater_but_not_prefixed_lem k p r v h in (valid, above, apart)

-- A path that `greater_but_not_prefixed` returns for a valid path is at most every valid path that is
-- greater than that path and not prefixed by it.
pub greater_but_not_prefixed-least :
    (k : Limits) (p r q : WillowPath)
    → IsPath k p
    → greater_but_not_prefixed k p ≡ some r
    → IsPath k q
    → path_cmp p q ≡ lt
    → is_prefix_of p q ≡ false
    → is_le (path_cmp r q) ≡ true
greater_but_not_prefixed-least k p r q v h w l n =
    let (_, _, _, least) = greater_but_not_prefixed_lem k p r v h in least q w l n

-- Where `greater_but_not_prefixed` finds nothing, every valid path that is greater is prefixed by
-- the path.
pub greater_but_not_prefixed-none :
    (k : Limits) (p q : WillowPath)
    → greater_but_not_prefixed k p ≡ none
    → IsPath k q
    → path_cmp p q ≡ lt
    → is_prefix_of p q ≡ true
greater_but_not_prefixed-none k p q h w l =
    is_prefix_of-prefixed p q
    ∙ replace_last-none (greater_step k) (Admissible k) (greater_step-none k) [] p q
        (sym (greater-replace_last k p) ∙ h) (Fits-path k q w) l
