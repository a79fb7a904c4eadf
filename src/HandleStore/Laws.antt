-- ===== src/HandleStore/Laws.antt =====
-- Handles: which of them are bound, and what the operations leave behind at each.
use willow_rs.Prelude.{
  List, [], ◌∷◌, length, ℕ, ◌+◌, ◌^◌, ◌<◌, ◌≤◌, ◌≡◌, refl, Bool, true, false, none, some,
  if◌then◌else◌, ◌==◌, arith, ◌↔◌, Option-cases, inl, inr,
}
use willow_rs.Prelude.Order.{nat_ord}
use willow_rs.Prelude.HashMap
use willow_rs.Prelude.HashMap.{get-insert, get-remove}
use willow_rs.Prelude.Outcome.{ok, err}
use willow_rs.HandleStore.{
  HashMapHandleStore, DataHandleState, fully_bound, me_freed, you_freed, waiting, new, get, bind,
  mark_for_freeing, confirm, confirm_freed, mark, handle_not_marked_for_freeing,
}

-- A call that changes the store.
pub data Call {ℓ} (D : Type ℓ) : Type ℓ where
  bind_call : D → Call D
  mark_call : ℕ → Bool → Call D
  confirm_call : ℕ → Call D

module _ {ℓ} {D : Type ℓ} where
  -- Every bound handle was given out by the counter.
  abbrev pub IsCounted : HashMapHandleStore D → Type ℓ
  IsCounted store =
      (handle : ℕ) (entry : D × DataHandleState)
      → HashMap.get handle store.data_of ≡ some entry
      → handle < store.least_unassigned_handle

  new-IsCounted : (limit : ℕ) → IsCounted (new limit)
  unfolding new HashMap.get
  new-IsCounted limit handle entry h = ground arith

  bind-IsCounted :
      (value : D) (store : HashMapHandleStore D)
      → store.least_unassigned_handle + 1 < 2 ^ 64
      → IsCounted store
      → IsCounted (bind value store).1
  unfolding bind
  bind-IsCounted value store bound w handle entry = ground (
    arith,
    get-insert store.least_unassigned_handle handle (value, fully_bound) store.data_of,
    w handle entry,
  )

  mark_for_freeing-IsCounted :
      (h : ℕ) (me : Bool) (store : HashMapHandleStore D)
      → IsCounted store
      → IsCounted (mark_for_freeing h me store).1
  unfolding mark_for_freeing
  mark_for_freeing-IsCounted h me store w handle entry =
      elim (Option-cases (HashMap.get h store.data_of)) [
        | inl e ↦ rw (e, mark_for_freeing) (w handle entry)
        | inr (x, e) ↦
            rw (e, mark_for_freeing)
              (ground (
                arith,
                get-insert h handle (x.0, mark me x.1) store.data_of,
                w h x e,
                w handle entry,
              ))
      ]

  confirm-IsCounted :
      (h : ℕ) (store : HashMapHandleStore D) (x : D × DataHandleState)
      → IsCounted store
      → IsCounted (confirm h store x).1
  unfolding confirm
  confirm-IsCounted h store (x, fully_bound) w handle entry =
      ground (arith, get-remove h handle store.data_of, w handle entry)
  confirm-IsCounted h store (x, me_freed) w handle entry = w handle entry
  confirm-IsCounted h store (x, you_freed) w handle entry = w handle entry
  confirm-IsCounted h store (x, waiting) w handle entry = w handle entry

  confirm_freed-IsCounted :
      (h : ℕ) (store : HashMapHandleStore D) → IsCounted store → IsCounted (confirm_freed h store).1
  unfolding confirm_freed
  confirm_freed-IsCounted h store w handle entry =
      elim (Option-cases (HashMap.get h store.data_of)) [
        | inl e ↦ rw (e, confirm_freed) (w handle entry)
        | inr (x, e) ↦ rw (e, confirm_freed) (confirm-IsCounted h store x w handle entry)
      ]

  abbrev pub step : Call D → HashMapHandleStore D → HashMapHandleStore D
  step (bind_call value) store = (bind value store).1
  step (mark_call h me) store = (mark_for_freeing h me store).1
  step (confirm_call h) store = (confirm_freed h store).1

  abbrev pub run : List (Call D) → HashMapHandleStore D → HashMapHandleStore D
  run [] store = store
  run (call ∷ calls) store = run calls (step call store)

  confirm-counter :
      (h : ℕ) (store : HashMapHandleStore D) (x : D × DataHandleState)
      → (confirm h store x).1.least_unassigned_handle ≡ store.least_unassigned_handle
  unfolding confirm
  confirm-counter h store (x, fully_bound) = refl
  confirm-counter h store (x, me_freed) = refl
  confirm-counter h store (x, you_freed) = refl
  confirm-counter h store (x, waiting) = refl

  step-counter :
      (call : Call D) (store : HashMapHandleStore D)
      → store.least_unassigned_handle + 1 < 2 ^ 64
      → (step call store).least_unassigned_handle ≤ store.least_unassigned_handle + 1
  unfolding bind mark_for_freeing confirm_freed confirm
  step-counter (bind_call value) store h = ground arith
  step-counter (mark_call k me) store h = ground arith
  step-counter (confirm_call k) store h = elim (Option-cases (HashMap.get k store.data_of)) [
    | inl e ↦ rw (e, step, confirm_freed) (ground arith)
    | inr (x, e) ↦ rw (e, step, confirm_freed, confirm-counter k store x) (ground arith)
  ]

  step-IsCounted :
      (call : Call D) (store : HashMapHandleStore D)
      → store.least_unassigned_handle + 1 < 2 ^ 64
      → IsCounted store
      → IsCounted (step call store)
  step-IsCounted (bind_call value) store h w = bind-IsCounted value store h w
  step-IsCounted (mark_call k me) store h w = mark_for_freeing-IsCounted k me store w
  step-IsCounted (confirm_call k) store h w = confirm_freed-IsCounted k store w

  run-IsCounted :
      (calls : List (Call D)) (store : HashMapHandleStore D)
      → store.least_unassigned_handle + length calls < 2 ^ 64
      → IsCounted store
      → IsCounted (run calls store)
  run-IsCounted [] store h w = w
  run-IsCounted (call ∷ calls) store h w =
      run-IsCounted calls (step call store) (ground (arith, step-counter call store))
        (step-IsCounted call store (ground arith) w)

  get-IsCounted :
      (store : HashMapHandleStore D)
      → IsCounted store
      → get store store.least_unassigned_handle ≡ ok none
  unfolding get
  get-IsCounted store w =
      elim (Option-cases (HashMap.get store.least_unassigned_handle store.data_of)) [
        | inl e ↦ rw (e, get) refl
        | inr (x, e) ↦ ground (arith, w store.least_unassigned_handle x e)
      ]

  -- After fewer than 2^64 calls nothing is bound to the handle at the counter.
  run-unassigned :
      (limit : ℕ) (calls : List (Call D))
      → length calls < 2 ^ 64
      → get (run calls (new limit)) (run calls (new limit)).least_unassigned_handle ≡ ok none
  unfolding new
  run-unassigned limit calls h =
      get-IsCounted (run calls (new limit))
        (run-IsCounted calls (new limit) (ground arith) (new-IsCounted limit))

  -- Whatever `bind` returns, the value is bound to the handle the counter stood at, and no other
  -- handle changes.
  get-bind :
      (value : D) (store : HashMapHandleStore D) (h : ℕ)
      → get (bind value store).1 h
        ≡ (if store.least_unassigned_handle == h then ok (some value) else get store h)
  unfolding get bind
  get-bind value store h =
      ground (arith, get-insert store.least_unassigned_handle h (value, fully_bound) store.data_of)

  -- `bind` answers by the handle at the counter, if it gives one out.
  bind-counter :
      (value : D) (store : HashMapHandleStore D) (h : ℕ)
      → (bind value store).0 ≡ ok h
      → store.least_unassigned_handle ≡ h
  unfolding bind
  bind-counter value store h e = ground arith

  -- After fewer than 2^64 calls on a new store, a handle that `bind` returns is one that nothing was
  -- bound to; afterwards `get` finds the value at that handle, and at every other what it found before.
  pub bind-run :
      (limit : ℕ) (calls : List (Call D)) (value : D) (h j : ℕ)
      → length calls < 2 ^ 64
      → (bind value (run calls (new limit))).0 ≡ ok h
      → (get (run calls (new limit)) h ≡ ok none)
        × (get (bind value (run calls (new limit))).1 j
            ≡ (if h == j then ok (some value) else get (run calls (new limit)) j))
  bind-run limit calls value h j l e =
      let counter = bind-counter value (run calls (new limit)) h e in
      rw (← counter) (run-unassigned limit calls l, get-bind value (run calls (new limit)) j)

  -- `bind` succeeds exactly if the counter stays within the limit afterwards.
  pub bind_iff :
      (value : D) (store : HashMapHandleStore D)
      → store.least_unassigned_handle + 1 < 2 ^ 64
      → ((bind value store).0 ≡ ok store.least_unassigned_handle)
        ↔ (store.least_unassigned_handle < store.handle_limit)
  unfolding bind
  bind_iff value store h = ground arith

  confirm-mark :
      (h : ℕ) (me : Bool) (store : HashMapHandleStore D) (value : D) (state : DataHandleState)
      → confirm h store (value, mark me state) ≡ (err handle_not_marked_for_freeing, store)
  unfolding confirm mark
  confirm-mark h true store value fully_bound = refl
  confirm-mark h true store value me_freed = refl
  confirm-mark h true store value you_freed = refl
  confirm-mark h true store value waiting = refl
  confirm-mark h false store value fully_bound = refl
  confirm-mark h false store value me_freed = refl
  confirm-mark h false store value you_freed = refl
  confirm-mark h false store value waiting = refl

  confirm_freed_marked :
      (h : ℕ) (me : Bool) (store : HashMapHandleStore D) (value : D) (state : DataHandleState)
      → HashMap.get h store.data_of ≡ some (value, mark me state)
      → confirm_freed h store ≡ (err handle_not_marked_for_freeing, store)
  unfolding confirm_freed
  confirm_freed_marked h me store value state e =
      rw (e, confirm_freed) (confirm-mark h me store value state)

  mark_for_freeing-marked :
      (h : ℕ) (me : Bool) (store : HashMapHandleStore D) (value : D) (state : DataHandleState)
      → HashMap.get h store.data_of ≡ some (value, state)
      → HashMap.get h (mark_for_freeing h me store).1.data_of ≡ some (value, mark me state)
  unfolding mark_for_freeing
  mark_for_freeing-marked h me store value state e =
      rw (e, mark_for_freeing)
        (ground (arith, get-insert h h (value, mark me state) store.data_of, nat_ord.cmp_self h))

  -- A handle that was marked for freeing, by whichever side, is not freed: `confirm_freed` returns
  -- the error that it is not marked, and leaves the store as it was.
  pub confirm_freed-mark_for_freeing :
      (h : ℕ) (me : Bool) (store : HashMapHandleStore D) (x : D × DataHandleState)
      → HashMap.get h store.data_of ≡ some x
      → confirm_freed h (mark_for_freeing h me store).1
        ≡ (err handle_not_marked_for_freeing, (mark_for_freeing h me store).1)
  confirm_freed-mark_for_freeing h me store (value, state) e =
      confirm_freed_marked h me (mark_for_freeing h me store).1 value state
        (mark_for_freeing-marked h me store value state e)
