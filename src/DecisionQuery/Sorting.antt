-- ===== src/DecisionQuery/Sorting.antt =====
-- `uniqSorted` and the sort of `rank`: they keep the members and put them in order.
use l4_ide.Prelude.{
  ℕ, suc, ◌<◌, Bool, true, false, ◌||◌, Option, none, some, List, [], ◌∷◌, ◌≡◌, refl, sym, ◌∙◌, inl,
  inr, ap, arith, ◌==◌, ==_true, ==_refl, Bool-cases, Option-cases, length,
}
use l4_ide.Robdd.{has, add}
use l4_ide.Robdd.Support.{has-add}
use l4_ide.DecisionQuery.{nth, insert_sorted, sort, to_set, uniq_sorted, uniques_at}
use l4_ide.DecisionQuery.Order.{NoRepeats}
use l4_ide.DecisionQuery.Collect.{add-NoRepeats}
use l4_ide.DecisionQuery.Query.{insert_ranked, sort_ranked}

-- Each member is less than the next.
abbrev pub IsAscending : List ℕ → Type 0
IsAscending [] = Unit
IsAscending (x ∷ []) = Unit
IsAscending (x ∷ y ∷ zs) = (x < y) × IsAscending (y ∷ zs)

has-insert_sorted : (u x : ℕ) (ys : List ℕ) → has u (insert_sorted x ys) ≡ (u == x) || has u ys
unfolding insert_sorted
has-insert_sorted u x [] = refl
has-insert_sorted u x (y ∷ ys) = ground (arith, has-insert_sorted u x ys)

pub has-sort : (u : ℕ) (xs : List ℕ) → has u (sort xs) ≡ has u xs
unfolding sort
has-sort u [] = refl
has-sort u (x ∷ xs) = ground (arith, has-insert_sorted u x (sort xs), has-sort u xs)

pub has-to_set : (u : ℕ) (xs out : List ℕ) → has u (to_set out xs) ≡ has u out || has u xs
unfolding to_set
has-to_set u [] out = ground arith
has-to_set u (x ∷ xs) out = ground (arith, has-to_set u xs (add x out), has-add u x out)

pub has-uniq_sorted : (u : ℕ) (xs : List ℕ) → has u (uniq_sorted xs) ≡ has u xs
unfolding uniq_sorted
has-uniq_sorted u xs = has-sort u (to_set [] xs) ∙ has-to_set u xs []

to_set-NoRepeats : (xs out : List ℕ) → NoRepeats out → NoRepeats (to_set out xs)
unfolding to_set
to_set-NoRepeats [] out n = n
to_set-NoRepeats (x ∷ xs) out n = to_set-NoRepeats xs (add x out) (add-NoRepeats x out n)

-- Inserting a new number keeps the order.
insert_sorted-IsAscending :
    (x : ℕ) (ys : List ℕ) → has x ys ≡ false → IsAscending ys → IsAscending (insert_sorted x ys)
unfolding insert_sorted
insert_sorted-IsAscending x [] h a = tt
insert_sorted-IsAscending x (y ∷ []) h a = ground arith
insert_sorted-IsAscending x (y ∷ z ∷ zs) h a =
    let ih = insert_sorted-IsAscending x (z ∷ zs) (ground arith) a.1 in ground arith

sort-IsAscending : (xs : List ℕ) → NoRepeats xs → IsAscending (sort xs)
unfolding sort
sort-IsAscending [] n = tt
sort-IsAscending (x ∷ xs) n =
    insert_sorted-IsAscending x (sort xs) (has-sort x xs ∙ n.0) (sort-IsAscending xs n.1)

pub uniq_sorted-IsAscending : (xs : List ℕ) → IsAscending (uniq_sorted xs)
unfolding uniq_sorted
uniq_sorted-IsAscending xs = sort-IsAscending (to_set [] xs) (to_set-NoRepeats xs [] tt)

-- The uniques at some indices.
pub has-uniques_at :
    (u i : ℕ) (order is : List ℕ)
    → has i is ≡ true
    → nth order i ≡ some u
    → has u (uniques_at order is) ≡ true
unfolding uniques_at
has-uniques_at u i order [] h at = cc
has-uniques_at u i order (j ∷ is) h at = elim (Bool-cases (i == j)) [
  | inl hit ↦ first (nth order j) (rw (← ==_true i j hit) at)
  | inr miss ↦ later (nth order j) (has-uniques_at u i order is (ground arith) at)
]
  where
    first :
        (o : Option ℕ)
        → o ≡ some u
        → has u (elim o [ some w ↦ w ∷ uniques_at order is | none ↦ uniques_at order is ]) ≡ true
    first none e = cc
    first (some w) e = ground (arith, ==_refl u)

    later :
        (o : Option ℕ)
        → has u (uniques_at order is) ≡ true
        → has u (elim o [ some w ↦ w ∷ uniques_at order is | none ↦ uniques_at order is ]) ≡ true
    later none h = h
    later (some w) h = ground arith

pub uniques_at-has :
    (u : ℕ) (order is : List ℕ)
    → has u (uniques_at order is) ≡ true
    → (i : ℕ) × (has i is ≡ true) × (nth order i ≡ some u)
unfolding uniques_at
uniques_at-has u order [] h = absurd (cc)
uniques_at-has u order (j ∷ is) h = elim (Option-cases (nth order j)) [
  | inl e ↦
      let (i, p, q) = uniques_at-has u order is (rw (e, uniques_at) at h) in (i, ground arith, q)
  | inr (w, e) ↦
      let h' : has u (w ∷ uniques_at order is) ≡ true = rw (e, uniques_at) at h in
      elim (Bool-cases (u == w)) [
        | inl hit ↦ (j, ground (arith, ==_refl j), e ∙ ap some (sym (==_true u w hit)))
        | inr miss ↦
            let (i, p, q) = uniques_at-has u order is (ground arith) in (i, ground arith, q)
      ]
]

-- Neighbours stand in the order of a comparison.
abbrev pub IsRanked : (ℕ → ℕ → Bool) → List ℕ → Type 0
IsRanked before [] = Unit
IsRanked before (x ∷ []) = Unit
IsRanked before (x ∷ y ∷ zs) = (before x y ≡ true) × IsRanked before (y ∷ zs)

module _ (before : ℕ → ℕ → Bool) where
  has-insert_ranked :
      (u x : ℕ) (ys : List ℕ) → has u (insert_ranked before x ys) ≡ (u == x) || has u ys
  unfolding insert_ranked
  has-insert_ranked u x [] = refl
  has-insert_ranked u x (y ∷ ys) = ground (arith, has-insert_ranked u x ys)

  pub has-sort_ranked : (u : ℕ) (xs : List ℕ) → has u (sort_ranked before xs) ≡ has u xs
  unfolding sort_ranked
  has-sort_ranked u [] = refl
  has-sort_ranked u (x ∷ xs) =
      ground (arith, has-insert_ranked u x (sort_ranked before xs), has-sort_ranked u xs)

  length-insert_ranked :
      (x : ℕ) (ys : List ℕ) → length (insert_ranked before x ys) ≡ suc (length ys)
  unfolding insert_ranked
  length-insert_ranked x [] = refl
  length-insert_ranked x (y ∷ ys) = ground (arith, length-insert_ranked x ys)

  pub length-sort_ranked : (xs : List ℕ) → length (sort_ranked before xs) ≡ length xs
  unfolding sort_ranked
  length-sort_ranked [] = refl
  length-sort_ranked (x ∷ xs) =
      length-insert_ranked x (sort_ranked before xs) ∙ ap suc (length-sort_ranked xs)

  module _ (total : (x y : ℕ) → before x y ≡ false → before y x ≡ true) where
    insert_ranked-IsRanked :
        (x : ℕ) (ys : List ℕ) → IsRanked before ys → IsRanked before (insert_ranked before x ys)
    unfolding insert_ranked
    insert_ranked-IsRanked x [] r = tt
    insert_ranked-IsRanked x (y ∷ []) r = ground (arith, total x y)
    insert_ranked-IsRanked x (y ∷ z ∷ zs) r =
        let ih = insert_ranked-IsRanked x (z ∷ zs) r.1 in ground (arith, total x y)

    pub sort_ranked-IsRanked : (xs : List ℕ) → IsRanked before (sort_ranked before xs)
    unfolding sort_ranked
    sort_ranked-IsRanked [] = tt
    sort_ranked-IsRanked (x ∷ xs) =
        insert_ranked-IsRanked x (sort_ranked before xs) (sort_ranked-IsRanked xs)
