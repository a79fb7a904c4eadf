-- ===== src/SimpleSled/Tests/ListSled.antt =====
-- The interface of sled, implemented by a sorted list of bindings.
use willow_rs.Prelude.{
  ◌≡◌, refl, true, ◌&&◌, none, some, List, [], ◌∷◌, arith, if◌then◌else◌, All, Bool-cases, inl, inr,
}
use willow_rs.Prelude.Order.{
  less, less_eq, equal, cmp_list_self, cmp_list_swap, cmp_list_trans, eq_of_cmp_list, list_ord,
  nat_ord,
}
use willow_rs.Prelude.Least.{prefixed}
use willow_rs.Prelude.HashMap
use willow_rs.SimpleSled.Sled.{Bytes, Binding, select, Ascending, Sled}

Above : Bytes → List Binding → Type 0
Above k bs = All (λ (b : Binding). less k b.0 ≡ true) bs

unfoldable pub insert_sorted : Bytes → Bytes → List Binding → List Binding
insert_sorted k v [] = (k, v) ∷ []
insert_sorted k v ((j, w) ∷ bs) =
    let rest = insert_sorted k v bs in
    if less k j then (k, v) ∷ (j, w) ∷ bs else (if equal k j then (k, v) ∷ bs else (j, w) ∷ rest)

unfoldable pub remove_sorted : Bytes → List Binding → List Binding
remove_sorted k [] = []
remove_sorted k ((j, w) ∷ bs) =
    let rest = remove_sorted k bs in if equal j k then rest else (j, w) ∷ rest

insert_sorted-Above :
    (i k v : Bytes) (bs : List Binding)
    → less i k ≡ true
    → Above i bs
    → Above i (insert_sorted k v bs)
unfolding insert_sorted Above
insert_sorted-Above i k v [] h a = (h, tt)
insert_sorted-Above i k v ((j, w) ∷ bs) h a =
    let rest = insert_sorted-Above i k v bs h a.1 in ground arith

remove_sorted-Above : (i k : Bytes) (bs : List Binding) → Above i bs → Above i (remove_sorted k bs)
unfolding remove_sorted Above
remove_sorted-Above i k [] a = tt
remove_sorted-Above i k ((j, w) ∷ bs) a = let rest = remove_sorted-Above i k bs a.1 in ground arith

below-Above : (i j : Bytes) (bs : List Binding) → less i j ≡ true → Above j bs → Above i bs
unfolding Above
below-Above i j [] h a = tt
below-Above i j ((k, w) ∷ bs) h a = (ground (arith, cmp_list_trans i j k), below-Above i j bs h a.1)

pub insert_sorted-Ascending :
    (k v : Bytes) (bs : List Binding) → Ascending bs → Ascending (insert_sorted k v bs)
unfolding insert_sorted Above
insert_sorted-Ascending k v [] a = (tt, tt)
insert_sorted-Ascending k v ((j, w) ∷ bs) a = elim (Bool-cases (less k j)) [
  | inl l ↦ rw l ((l, below-Above k j bs l a.0), a)
  | inr l ↦ elim (Bool-cases (equal k j)) [
    | inl e ↦ let same : k ≡ j = eq_of_cmp_list k j (ground arith) in rw (l, e) (rw same a.0, a.1)
    | inr e ↦
        rw (l, e)
          (
            insert_sorted-Above j k v bs (ground (arith, cmp_list_swap k j)) a.0,
            insert_sorted-Ascending k v bs a.1,
          )
  ]
]

pub remove_sorted-Ascending :
    (k : Bytes) (bs : List Binding) → Ascending bs → Ascending (remove_sorted k bs)
unfolding remove_sorted Above
remove_sorted-Ascending k [] a = tt
remove_sorted-Ascending k ((j, w) ∷ bs) a = elim (Bool-cases (equal j k)) [
  | inl e ↦ rw e (remove_sorted-Ascending k bs a.1)
  | inr e ↦ rw e (remove_sorted-Above j k bs a.0, remove_sorted-Ascending k bs a.1)
]

get-Above : (k : Bytes) (bs : List Binding) → Above k bs → HashMap.get k bs ≡ none
unfolding HashMap.get Above
get-Above k [] a = refl
get-Above k ((j, w) ∷ bs) a =
    ground (arith, get-Above k bs a.1, eq_of_cmp_list j k, cmp_list_self k)

pub get-insert_sorted :
    (k j v : Bytes) (bs : List Binding)
    → HashMap.get j (insert_sorted k v bs) ≡ (if equal k j then some v else HashMap.get j bs)
unfolding insert_sorted HashMap.get
get-insert_sorted k j v [] = refl
get-insert_sorted k j v ((i, w) ∷ bs) = ground (
  arith,
  eq_of_cmp_list i k,
  eq_of_cmp_list i j,
  eq_of_cmp_list k j,
  cmp_list_self k,
  cmp_list_swap i k,
  get-insert_sorted k j v bs,
)

pub get-remove_sorted :
    (k j : Bytes) (bs : List Binding)
    → HashMap.get j (remove_sorted k bs) ≡ (if equal k j then none else HashMap.get j bs)
unfolding remove_sorted HashMap.get
get-remove_sorted k j [] = ground arith
get-remove_sorted k j ((i, w) ∷ bs) = ground (
  arith,
  eq_of_cmp_list i k,
  eq_of_cmp_list i j,
  eq_of_cmp_list k j,
  cmp_list_self k,
  get-remove_sorted k j bs,
)

abbrev pub SortedList : Type 0
SortedList = (bs : List Binding) × Ascending bs

abbrev pub list_sled : Sled
list_sled = record {
  Tree = SortedList;
  iter = λ t. t.0;
  scan_prefix = λ p t. select (λ b. prefixed p b.0) t.0;
  range = λ lo hi t. select (λ b. less_eq lo b.0 && less_eq b.0 hi) t.0;
  get = λ k t. HashMap.get k t.0;
  insert = λ k v t. (insert_sorted k v t.0, insert_sorted-Ascending k v t.0 t.1);
  remove = λ k t. (remove_sorted k t.0, remove_sorted-Ascending k t.0 t.1);
  ascending = λ t. t.1;
  get-iter = λ k t. refl;
  scan_prefix-iter = λ p t. refl;
  range-iter = λ lo hi t. refl;
  get-insert = λ k j v t. get-insert_sorted k j v t.0;
  get-remove = λ k j t. get-remove_sorted k j t.0;
}

abbrev pub empty_tree : list_sled.Tree
empty_tree = ([], tt)
