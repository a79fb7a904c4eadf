-- ===== src/Prelude/Collect.antt =====
-- Collecting values out of the entries of a map, up to the order of the results.
use mathlib.Core.Path.{◌≡◌, refl, sym, subst}
use mathlib.Core.List.{List, [], ◌∷◌, ◌++◌, Perm, append-nil, append_assoc, perm_append_comm}
use mathlib.Core.List.Perm
use mathlib.Core.Logic.{inl, inr}
use native.Mathlib.Omega.{arith}
use willow_rs.Prelude.Tests.{Bool-cases}
use willow_rs.Prelude.Order.{Ord, equal}
use willow_rs.Prelude.HashMap.{HashMap, update}

-- `for x in xs { out.extend(f(x)) }`.
unfoldable pub collect {ℓ κ} : {A : Type ℓ} {B : Type κ} → (A → List B) → List A → List B
collect f [] = []
collect f (x ∷ xs) = f x ++ collect f xs

pub collect-append {ℓ κ} :
    {A : Type ℓ} {B : Type κ} (f : A → List B) (xs ys : List A)
    → collect f (xs ++ ys) ≡ collect f xs ++ collect f ys
unfolding collect
collect-append f [] ys = refl
collect-append f (x ∷ xs) ys =
    rw (collect-append f xs ys, append_assoc (f x) (collect f xs) (collect f ys))

module _ {ℓ κ μ} {K : Type ℓ} {V : Type κ} {B : Type μ} ⦃o : Ord K⦄ where
  -- Where an update adds the results `new` to those of the entry it changes, it adds them to all.
  pub collect-update :
      (g : K × V → List B) (k : K) (f : V → V) (d : V) (new : List B)
      → Perm (g (k, d)) new
      → ((w : V) → Perm (g (k, f w)) (g (k, w) ++ new))
      → (m : HashMap K V) → Perm (collect g (update k f d m)) (collect g m ++ new)
  unfolding collect update
  collect-update g k f d new h s [] = rw append-nil h
  collect-update g k f d new h s ((j, w) ∷ m) = elim (Bool-cases (equal j k)) [
    | inl e ↦
        rw (e, update)
          (subst (λ t. Perm (collect g ((t, f w) ∷ m)) (collect g ((t, w) ∷ m) ++ new))
            (sym (o.eq_of_cmp j k (ground arith)))
            (move (g (k, f w)) (g (k, w)) (collect g m) (s w)))
    | inr e ↦
        rw (e, update, append_assoc (g (j, w)) (collect g m) new)
          (Perm.append_left (g (j, w)) (collect-update g k f d new h s m))
  ]
    where
      move : (a b c : List B) → Perm a (b ++ new) → Perm (a ++ c) ((b ++ c) ++ new)
      move a b c p = Perm.trans (Perm.append_right c p) (
          rw (append_assoc b new c, append_assoc b c new)
            (Perm.append_left b (perm_append_comm new c)))
