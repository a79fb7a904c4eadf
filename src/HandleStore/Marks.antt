-- ===== src/HandleStore/Marks.antt =====
-- Marking handles for freeing: the order and the number of the marks do not matter.
use willow_rs.Prelude.{
  ℕ, ◌≡◌, Bool, true, false, ◌||◌, not, some, List, [], ◌∷◌, if◌then◌else◌, ◌==◌, arith,
}
use willow_rs.Prelude.Order.{nat_ord}
use willow_rs.Prelude.HashMap
use willow_rs.Prelude.HashMap.{get-insert}
use willow_rs.HandleStore.{
  HashMapHandleStore, DataHandleState, fully_bound, me_freed, you_freed, waiting, mark,
  mark_for_freeing,
}

-- The state that the two sides' marks amount to.
abbrev pub state_of : Bool → Bool → DataHandleState
state_of false false = fully_bound
state_of true false = me_freed
state_of false true = you_freed
state_of true true = waiting

abbrev pub by_me : List Bool → Bool
by_me [] = false
by_me (me ∷ marks) = me || by_me marks

abbrev pub by_you : List Bool → Bool
by_you [] = false
by_you (me ∷ marks) = not me || by_you marks

or_assoc : (a b c : Bool) → ((a || b) || c) ≡ (a || (b || c))
or_assoc a b c = ground arith

mark-state_of : (me a b : Bool) → mark me (state_of a b) ≡ state_of (a || me) (b || not me)
unfolding mark
mark-state_of me a b = ground arith

module _ {ℓ} {D : Type ℓ} where
  -- `mark_for_freeing` of one handle for each of the marks, in their order.
  abbrev pub mark_each : ℕ → List Bool → HashMapHandleStore D → HashMapHandleStore D
  mark_each h [] store = store
  mark_each h (me ∷ marks) store = mark_each h marks (mark_for_freeing h me store).1

  mark_for_freeing-get :
      (h j : ℕ) (me a b : Bool) (store : HashMapHandleStore D) (value : D)
      → HashMap.get h store.data_of ≡ some (value, state_of a b)
      → HashMap.get j (mark_for_freeing h me store).1.data_of ≡ (
          if h == j
          then some (value, state_of (a || me) (b || not me))
          else HashMap.get j store.data_of)
  unfolding mark_for_freeing
  mark_for_freeing-get h j me a b store value e =
      rw (e, mark_for_freeing)
        (ground (
          arith,
          get-insert h j (value, mark me (state_of a b)) store.data_of,
          mark-state_of me a b,
        ))

  -- After any marks the state of the handle says which sides have marked it, and nothing else, and
  -- the entries of the other handles are as before.
  mark_each-get :
      (h j : ℕ) (marks : List Bool) (a b : Bool) (store : HashMapHandleStore D) (value : D)
      → HashMap.get h store.data_of ≡ some (value, state_of a b)
      → HashMap.get j (mark_each h marks store).data_of ≡ (
          if h == j
          then some (value, state_of (a || by_me marks) (b || by_you marks))
          else HashMap.get j store.data_of)
  mark_each-get h j [] a b store value e = ground (arith, nat_ord.eq_of_cmp h j)
  mark_each-get h j (me ∷ marks) a b store value e = ground (
    arith,
    mark_each-get h j marks (a || me) (b || not me) (mark_for_freeing h me store).1 value
        (ground (arith, mark_for_freeing-get h h me a b store value e)),
    mark_for_freeing-get h j me a b store value e,
    or_assoc a me (by_me marks),
    or_assoc b (not me) (by_you marks),
  )
