-- ===== src/HandleStore/Tests.antt =====
-- Handle stores: the theorems at concrete inputs.
use willow_rs.Prelude.{ℕ, ◌≡◌, refl, true, false, none, some, List, [], ◌∷◌, arith}
use willow_rs.Prelude.Order.{nat_ord}
use willow_rs.Prelude.Outcome.{ok, err}
use willow_rs.HandleStore.{
  new, get, bind, mark_for_freeing, confirm_freed, mark, confirm, handle_not_marked_for_freeing,
  me_freed,
}
use willow_rs.Prelude.HashMap
use willow_rs.HandleStore.Laws.{
  Call, bind_call, mark_call, confirm_call, run, bind-run, confirm_freed-mark_for_freeing,
}

abbrev calls : List (Call ℕ)
calls = bind_call 7 ∷ mark_call 0 true ∷ bind_call 8 ∷ confirm_call 1 ∷ []

third_bind : (bind 9 (run calls (new 5))).0 ≡ ok 2
unfolding bind mark_for_freeing confirm_freed new mark confirm HashMap.get HashMap.insert
    HashMap.remove
third_bind = refl

bind-run_example :
    (get (run calls (new 5)) 2 ≡ ok none)
    × (get (bind 9 (run calls (new 5))).1 0 ≡ get (run calls (new 5)) 0)
bind-run_example = bind-run 5 calls 9 2 0 (omega arith) third_bind

marked_run : HashMap.get 0 (run calls (new 5)).data_of ≡ some (7, me_freed)
unfolding bind mark_for_freeing confirm_freed new mark confirm HashMap.get HashMap.insert
    HashMap.remove
marked_run = refl

-- The handle 0 was marked by this side, and is marked by the other one.
confirm_freed-mark_for_freeing_example :
    confirm_freed 0 (mark_for_freeing 0 false (run calls (new 5))).1
    ≡ (err handle_not_marked_for_freeing, (mark_for_freeing 0 false (run calls (new 5))).1)
confirm_freed-mark_for_freeing_example =
    confirm_freed-mark_for_freeing 0 false (run calls (new 5)) (7, me_freed) marked_run
