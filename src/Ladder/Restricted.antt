-- ===== src/Ladder/Restricted.antt =====
-- `restrictExpr`: what is left means the same, and no answered variable is left in it.
use l4_ide.Prelude.{
  ℕ, Bool, true, false, not, Option, none, some, ◌≡◌, refl, sym, ◌∙◌, arith, Bool-cases, inl, inr,
  ◌⊎◌, if◌then◌else◌,
}
use l4_ide.Expr.{
  Expr, Exprs, and_e, or_e, not_e, ubool_var, true_e, false_e, app, inert_e, nil, cons, UBoolVar,
  UBoolValue, true_v, false_v, unknown_v, truth, all_true, any_true, HasVar, SomeHasVar,
}
use l4_ide.Ladder.Assignment.{Assignment, lookup}
use l4_ide.Ladder.Sound.{Says, Completes}
use l4_ide.Ladder.Analyzer.{is_open}
use l4_ide.Ladder.Partial.{
  is_true_e, is_false_e, some_e, drop_e, restrict_var, restrict_not, pack_and, pack_or,
  restrict_and, restrict_or, restrict_expr, restrict_all,
}

module _ (σ calls : ℕ → Bool) where
  all_true-some_false : (xs : Exprs) → some_e is_false_e xs ≡ true → all_true σ calls xs ≡ false
  unfolding truth
  all_true-some_false nil h = cc
  all_true-some_false (cons (false_e i n) xs) h = refl
  all_true-some_false (cons x xs) h = ground (arith, all_true-some_false xs)

  all_true-drop : (xs : Exprs) → all_true σ calls (drop_e is_true_e xs) ≡ all_true σ calls xs
  unfolding truth
  all_true-drop nil = refl
  all_true-drop (cons (true_e i n) xs) = all_true-drop xs
  all_true-drop (cons x xs) = ground (arith, all_true-drop xs)

  truth-pack_and : (id : ℕ) (xs : Exprs) → truth σ calls (pack_and id xs) ≡ all_true σ calls xs
  unfolding truth
  truth-pack_and id nil = refl
  truth-pack_and id (cons x nil) = ground arith
  truth-pack_and id (cons x (cons y zs)) = refl

  truth-restrict_and :
      (id : ℕ) (xs : Exprs) → truth σ calls (restrict_and id xs) ≡ all_true σ calls xs
  unfolding restrict_and truth
  truth-restrict_and id xs = elim (Bool-cases (some_e is_false_e xs)) [
    | inl e ↦ rw e (sym (all_true-some_false xs e))
    | inr e ↦ rw e (truth-pack_and id (drop_e is_true_e xs) ∙ all_true-drop xs)
  ]

  any_true-some_true : (xs : Exprs) → some_e is_true_e xs ≡ true → any_true σ calls xs ≡ true
  unfolding truth
  any_true-some_true nil h = cc
  any_true-some_true (cons (true_e i n) xs) h = refl
  any_true-some_true (cons x xs) h = ground (arith, any_true-some_true xs)

  any_true-drop : (xs : Exprs) → any_true σ calls (drop_e is_false_e xs) ≡ any_true σ calls xs
  unfolding truth
  any_true-drop nil = refl
  any_true-drop (cons (false_e i n) xs) = any_true-drop xs
  any_true-drop (cons x xs) = ground (arith, any_true-drop xs)

  truth-pack_or : (id : ℕ) (xs : Exprs) → truth σ calls (pack_or id xs) ≡ any_true σ calls xs
  unfolding truth
  truth-pack_or id nil = refl
  truth-pack_or id (cons x nil) = ground arith
  truth-pack_or id (cons x (cons y zs)) = refl

  truth-restrict_or :
      (id : ℕ) (xs : Exprs) → truth σ calls (restrict_or id xs) ≡ any_true σ calls xs
  unfolding restrict_or truth
  truth-restrict_or id xs = elim (Bool-cases (some_e is_true_e xs)) [
    | inl e ↦ rw e (sym (any_true-some_true xs e))
    | inr e ↦ rw e (truth-pack_or id (drop_e is_false_e xs) ∙ any_true-drop xs)
  ]

  truth-restrict_not :
      (id : ℕ) (x : Expr) → truth σ calls (restrict_not id x) ≡ not (truth σ calls x)
  unfolding truth
  truth-restrict_not id (not_e i x) = ground arith
  truth-restrict_not id (true_e i n) = refl
  truth-restrict_not id (false_e i n) = refl
  truth-restrict_not id (and_e i xs) = refl
  truth-restrict_not id (or_e i xs) = refl
  truth-restrict_not id (ubool_var v) = refl
  truth-restrict_not id (app f xs) = refl
  truth-restrict_not id (inert_e i) = refl

  truth-restrict_var :
      (o : Option UBoolValue) (v : UBoolVar)
      → ((w : UBoolValue) → o ≡ some w → Says w (σ v.name.unique))
      → truth σ calls (restrict_var o v) ≡ σ v.name.unique
  unfolding truth
  truth-restrict_var none v h = refl
  truth-restrict_var (some true_v) v h = sym (h true_v refl)
  truth-restrict_var (some false_v) v h = sym (h false_v refl)
  truth-restrict_var (some unknown_v) v h = refl

  module _ (a : Assignment) (completes : Completes a σ) where
    mutual
      unfolding truth restrict_expr

      truth-left : (e : Expr) → truth σ calls (restrict_expr a e) ≡ truth σ calls e
      truth-left (ubool_var v) =
          truth-restrict_var (lookup v.name.unique a) v (completes v.name.unique)
      truth-left (true_e id n) = refl
      truth-left (false_e id n) = refl
      truth-left (not_e id x) =
          let ih = truth-left x in truth-restrict_not id (restrict_expr a x) ∙ rw ih refl
      truth-left (and_e id xs) =
          truth-restrict_and id (restrict_all a xs) ∙ (truth-restrict_all xs).0
      truth-left (or_e id xs) = truth-restrict_or id (restrict_all a xs) ∙ (truth-restrict_all xs).1
      truth-left (app f xs) = refl
      truth-left (inert_e i) = refl

      truth-restrict_all :
          (xs : Exprs)
          → (all_true σ calls (restrict_all a xs) ≡ all_true σ calls xs)
            × (any_true σ calls (restrict_all a xs) ≡ any_true σ calls xs)
      truth-restrict_all nil = (refl, refl)
      truth-restrict_all (cons x xs) =
          let ih = truth-left x in
          let (every, one) = truth-restrict_all xs in (rw (ih, every) refl, rw (ih, one) refl)

-- Under every completion of the assignment, the expression that is left has the truth value of the
-- whole expression.
pub truth-restrict_expr :
    (σ calls : ℕ → Bool) (a : Assignment) (e : Expr)
    → Completes a σ
    → truth σ calls (restrict_expr a e) ≡ truth σ calls e
truth-restrict_expr σ calls a e completes = truth-left σ calls a completes e

SomeHasVar-drop :
    (u : ℕ) (p : Expr → Bool) (xs : Exprs) → SomeHasVar u (drop_e p xs) → SomeHasVar u xs
unfolding HasVar
SomeHasVar-drop u p nil h = h
SomeHasVar-drop u p (cons x xs) h = kept_or_dropped (p x) (SomeHasVar-drop u p xs) h
  where
    kept_or_dropped :
        (b : Bool)
        → (SomeHasVar u (drop_e p xs) → SomeHasVar u xs)
        → SomeHasVar u (if b then drop_e p xs else cons x (drop_e p xs))
        → HasVar u x ⊎ SomeHasVar u xs
    kept_or_dropped true ih k = inr (ih k)
    kept_or_dropped false ih (inl k) = inl k
    kept_or_dropped false ih (inr k) = inr (ih k)

HasVar-pack_and : (u id : ℕ) (xs : Exprs) → HasVar u (pack_and id xs) → SomeHasVar u xs
unfolding HasVar
HasVar-pack_and u id nil h = h
HasVar-pack_and u id (cons x nil) h = inl h
HasVar-pack_and u id (cons x (cons y zs)) h = h

HasVar-pack_or : (u id : ℕ) (xs : Exprs) → HasVar u (pack_or id xs) → SomeHasVar u xs
unfolding HasVar
HasVar-pack_or u id nil h = h
HasVar-pack_or u id (cons x nil) h = inl h
HasVar-pack_or u id (cons x (cons y zs)) h = h

HasVar-restrict_and : (u id : ℕ) (xs : Exprs) → HasVar u (restrict_and id xs) → SomeHasVar u xs
unfolding restrict_and HasVar
HasVar-restrict_and u id xs h = some_false (some_e is_false_e xs) h
  where
    some_false :
        (b : Bool)
        → HasVar u (if b then false_e id none else pack_and id (drop_e is_true_e xs))
        → SomeHasVar u xs
    some_false true k = absurd k
    some_false false k =
        SomeHasVar-drop u is_true_e xs (HasVar-pack_and u id (drop_e is_true_e xs) k)

HasVar-restrict_or : (u id : ℕ) (xs : Exprs) → HasVar u (restrict_or id xs) → SomeHasVar u xs
unfolding restrict_or HasVar
HasVar-restrict_or u id xs h = some_true (some_e is_true_e xs) h
  where
    some_true :
        (b : Bool)
        → HasVar u (if b then true_e id none else pack_or id (drop_e is_false_e xs))
        → SomeHasVar u xs
    some_true true k = absurd k
    some_true false k =
        SomeHasVar-drop u is_false_e xs (HasVar-pack_or u id (drop_e is_false_e xs) k)

HasVar-restrict_not : (u id : ℕ) (x : Expr) → HasVar u (restrict_not id x) → HasVar u x
unfolding HasVar
HasVar-restrict_not u id (not_e i x) h = h
HasVar-restrict_not u id (true_e i n) h = h
HasVar-restrict_not u id (false_e i n) h = h
HasVar-restrict_not u id (and_e i xs) h = h
HasVar-restrict_not u id (or_e i xs) h = h
HasVar-restrict_not u id (ubool_var v) h = h
HasVar-restrict_not u id (app f xs) h = h
HasVar-restrict_not u id (inert_e i) h = h

HasVar-restrict_var :
    (u : ℕ) (o : Option UBoolValue) (v : UBoolVar)
    → HasVar u (restrict_var o v)
    → (v.name.unique ≡ u) × (is_open o ≡ true)
unfolding HasVar
HasVar-restrict_var u none v h = (h, refl)
HasVar-restrict_var u (some true_v) v h = absurd h
HasVar-restrict_var u (some false_v) v h = absurd h
HasVar-restrict_var u (some unknown_v) v h = (h, refl)

mutual
  unfolding HasVar restrict_expr

  HasVar-left :
      (a : Assignment) (u : ℕ) (e : Expr)
      → HasVar u (restrict_expr a e)
      → HasVar u e × (is_open (lookup u a) ≡ true)
  HasVar-left a u (ubool_var v) h =
      let (same, unanswered) = HasVar-restrict_var u (lookup v.name.unique a) v h in
      (same, rw (← same) unanswered)
  HasVar-left a u (not_e id x) h =
      HasVar-left a u x (HasVar-restrict_not u id (restrict_expr a x) h)
  HasVar-left a u (and_e id xs) h =
      SomeHasVar-restrict_all a u xs (HasVar-restrict_and u id (restrict_all a xs) h)
  HasVar-left a u (or_e id xs) h =
      SomeHasVar-restrict_all a u xs (HasVar-restrict_or u id (restrict_all a xs) h)
  HasVar-left a u (true_e id n) h = absurd h
  HasVar-left a u (false_e id n) h = absurd h
  HasVar-left a u (app f xs) h = absurd h
  HasVar-left a u (inert_e i) h = absurd h

  SomeHasVar-restrict_all :
      (a : Assignment) (u : ℕ) (xs : Exprs)
      → SomeHasVar u (restrict_all a xs)
      → SomeHasVar u xs × (is_open (lookup u a) ≡ true)
  SomeHasVar-restrict_all a u nil h = absurd h
  SomeHasVar-restrict_all a u (cons x xs) (inl h) =
      let (k, unanswered) = HasVar-left a u x h in (inl k, unanswered)
  SomeHasVar-restrict_all a u (cons x xs) (inr h) =
      let (k, unanswered) = SomeHasVar-restrict_all a u xs h in (inr k, unanswered)

-- A variable that is left outside function calls stands in the expression, and its value in the
-- assignment is neither true nor false.
pub HasVar-restrict_expr :
    (a : Assignment) (u : ℕ) (e : Expr)
    → HasVar u (restrict_expr a e)
    → HasVar u e × (is_open (lookup u a) ≡ true)
HasVar-restrict_expr = HasVar-left
