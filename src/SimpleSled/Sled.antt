-- ===== src/SimpleSled/Sled.antt =====
-- The crate `sled`, as store_simple_sled/src/lib.rs uses it: an interface, with what its
-- documentation says of trees. A tree maps byte strings to byte strings, and is iterated in the
-- order of its keys.
pub mod Laws
use willow_rs.Prelude.{
  ℕ, ◌≡◌, Bool, true, false, ◌&&◌, Option, none, some, List, [], ◌∷◌, if◌then◌else◌, All,
}
use willow_rs.Prelude.Order.{Ord, less, less_eq, equal, list_ord, nat_ord}
use willow_rs.Prelude.Least.{prefixed}
use willow_rs.Prelude.HashMap

-- `IVec`, and any other vector of bytes.
abbrev pub Bytes : Type 0
Bytes = List ℕ

abbrev pub Binding : Type 0
Binding = Bytes × Bytes

abbrev pub select {ℓ} : {A : Type ℓ} → (A → Bool) → List A → List A
select p [] = []
select p (x ∷ xs) = let rest = select p xs in if p x then x ∷ rest else rest

-- Strictly ascending keys.
abbrev pub Ascending : List Binding → Type 0
Ascending [] = Unit {0}
Ascending ((k, v) ∷ bs) = All (λ b. less k b.0 ≡ true) bs × Ascending bs

pub record Sled : Type 1 where
  pub Tree : Type 0
  -- The bindings that `iter()`, `scan_prefix(…)` and `range(lo..=hi)` come to. For each of them the
  -- scan yields it or an error; that is `item` of `Faults`.
  pub iter : Tree → List Binding
  pub scan_prefix : Bytes → Tree → List Binding
  pub range : Bytes → Bytes → Tree → List Binding
  pub get : Bytes → Tree → Option Bytes
  pub insert : Bytes → Bytes → Tree → Tree
  pub remove : Bytes → Tree → Tree
  pub ascending : (t : Tree) → Ascending (iter t)
  pub get-iter : (k : Bytes) (t : Tree) → get k t ≡ HashMap.get k (iter t)
  pub scan_prefix-iter :
      (p : Bytes) (t : Tree) → scan_prefix p t ≡ select (λ b. prefixed p b.0) (iter t)
  pub range-iter :
      (lo hi : Bytes) (t : Tree)
      → range lo hi t ≡ select (λ b. less_eq lo b.0 && less_eq b.0 hi) (iter t)
  pub get-insert :
      (k j v : Bytes) (t : Tree) → get j (insert k v t) ≡ (if equal k j then some v else get j t)
  pub get-remove :
      (k j : Bytes) (t : Tree) → get j (remove k t) ≡ (if equal k j then none else get j t)

-- `apply_batch` of a batch that removes keys.
module _ (sled : Sled) where
  unfoldable pub remove_all : List Bytes → sled.Tree → sled.Tree
  remove_all [] t = t
  remove_all (k ∷ ks) t = remove_all ks (sled.remove k t)

  -- `apply_batch` of a batch that inserts bindings.
  unfoldable pub insert_all : List Binding → sled.Tree → sled.Tree
  insert_all [] t = t
  insert_all ((k, v) ∷ bs) t = insert_all bs (sled.insert k v t)

-- `prefix_gt`: the first binding whose key has the prefix.
abbrev pub first {ℓ} : {A : Type ℓ} → List A → Option A
first [] = none
first (x ∷ xs) = some x
