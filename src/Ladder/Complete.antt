-- ===== src/Ladder/Complete.antt =====
-- The evaluator as a whole: what it gives is right, and known inputs give the two-valued meaning.
use l4_ide.Prelude.{
  ℕ, Bool, true, false, not, some, List, [], ◌∷◌, ◌≡◌, refl, arith, Returns, ok, any, Map,
}
use l4_ide.Expr.{
  Expr, Exprs, and_e, or_e, not_e, ubool_var, true_e, false_e, app, inert_e, nil, cons, UBoolValue,
  true_v, false_v, truth, all_true, any_true, inert_and, inert_or, InertContext, inert_value,
}
use l4_ide.Ladder.Assignment.{Assignment, lookup, is_unknown_val}
use l4_ide.Ladder.Eval.{
  Reply, answer, EvalResult, eval, eval_args, eval_call, eval_and_chain, eval_or_chain, results,
  inert_val, neg_value, evaluate, ◌>>=◌, ids_of,
}
use l4_ide.Ladder.Verdict.{
  HasValues, Responds, Fits, eval-Fits, not-run, and-run, or-run, app-run, cons-run, eval_var_lem,
}

evaluate-run :
    (eval_app : ℕ → List UBoolValue → Reply) (a : Assignment) (e : Expr)
    (p : EvalResult × Map ℕ UBoolValue)
    → eval eval_app a e [] ≡ ok p
    → Returns (evaluate eval_app a e) (λ r. r.result ≡ p.0.result)
unfolding evaluate
evaluate-run eval_app a e p run = rw (run, ◌>>=◌) (_, refl, refl)

-- If the language server always gives an answer or refuses, and each variable has a value, then the
-- evaluation returns, and a true or false result is the truth value of the expression under every
-- completion of the unknown values.
pub evaluate-Fits :
    (eval_app : ℕ → List UBoolValue → Reply) (a : Assignment) (e : Expr)
    → Responds eval_app
    → HasValues a e
    → Returns (evaluate eval_app a e) (λ r. Fits eval_app a e r.result)
evaluate-Fits eval_app a e responds h =
    let (p, run, k) = eval-Fits eval_app a responds e [] h in
    let (r, run', same) = evaluate-run eval_app a e p run in (r, run', rw same k)

abbrev pub of_bool : Bool → UBoolValue
of_bool true = true_v
of_bool false = false_v

abbrev pub truths : (ℕ → Bool) → (ℕ → Bool) → Exprs → List UBoolValue
truths σ calls nil = []
truths σ calls (cons x xs) = of_bool (truth σ calls x) ∷ truths σ calls xs

module _ (eval_app : ℕ → List UBoolValue → Reply) (a : Assignment) (σ calls : ℕ → Bool) where
  -- Each variable has the value that `σ` gives it, and each call is answered by what `calls` gives.
  unfoldable mutual
    pub IsKnown : Expr → Type 0
    IsKnown (and_e id xs) = AllKnown xs
    IsKnown (or_e id xs) = AllKnown xs
    IsKnown (not_e id x) = IsKnown x
    IsKnown (ubool_var v) = lookup v.name.unique a ≡ some (of_bool (σ v.name.unique))
    IsKnown (app f xs) =
        AllKnown xs × (eval_app f.id (truths σ calls xs) ≡ answer (of_bool (calls f.id)))
    IsKnown _ = Unit

    pub AllKnown : Exprs → Type 0
    AllKnown nil = Unit
    AllKnown (cons x xs) = IsKnown x × AllKnown xs

  truths_known : (xs : Exprs) → any is_unknown_val (truths σ calls xs) ≡ false
  truths_known nil = refl
  truths_known (cons x xs) = ground (arith, truths_known xs)

  and_chain_truths :
      (xs : Exprs) (ids : List ℕ)
      → (eval_and_chain (truths σ calls xs) ids).result ≡ of_bool (all_true σ calls xs)
  unfolding eval_and_chain truth
  and_chain_truths nil ids = refl
  and_chain_truths (cons x xs) ids = ground (arith, and_chain_truths xs ids)

  or_chain_truths :
      (xs : Exprs) (ids : List ℕ)
      → (eval_or_chain (truths σ calls xs) ids).result ≡ of_bool (any_true σ calls xs)
  unfolding eval_or_chain truth
  or_chain_truths nil ids = refl
  or_chain_truths (cons x xs) ids = ground (arith, or_chain_truths xs ids)

  eval_call_known :
      (f : ℕ) (rs : List EvalResult) (sh : Map ℕ UBoolValue) (xs : Exprs)
      → results rs ≡ truths σ calls xs
      → eval_app f (truths σ calls xs) ≡ answer (of_bool (calls f))
      → Returns (eval_call (eval_app f) f rs sh) (λ p. p.0.result ≡ of_bool (calls f))
  unfolding eval_call
  eval_call_known f rs sh xs same at =
      let known = truths_known xs in rw (same, known, at, ◌>>=◌) (_, refl, refl)

  neg_of_bool : (b : Bool) → neg_value (of_bool b) ≡ of_bool (not b)
  neg_of_bool true = refl
  neg_of_bool false = refl

  inert_of_bool : (c : InertContext) → inert_val c ≡ of_bool (inert_value c)
  inert_of_bool inert_and = refl
  inert_of_bool inert_or = refl

  mutual
    unfolding eval truth IsKnown

    eval_known :
        (e : Expr) (sh : Map ℕ UBoolValue)
        → IsKnown e
        → Returns (eval eval_app a e sh) (λ p. p.0.result ≡ of_bool (truth σ calls e))
    eval_known (true_e id n) sh h = (_, refl, refl)
    eval_known (false_e id n) sh h = (_, refl, refl)
    eval_known (ubool_var v) sh h = eval_var_lem (lookup v.name.unique a) _ v.id v.name.unique sh h
    eval_known (not_e id x) sh h =
        let (p, run, k) = eval_known x sh h in
        (_, not-run eval_app a id x sh run, rw k (neg_of_bool (truth σ calls x)))
    eval_known (and_e id xs) sh h =
        let (p, run, k) = eval_args_known xs sh h in
        (_, and-run eval_app a id xs sh run, rw k (and_chain_truths xs (ids_of xs)))
    eval_known (or_e id xs) sh h =
        let (p, run, k) = eval_args_known xs sh h in
        (_, or-run eval_app a id xs sh run, rw k (or_chain_truths xs (ids_of xs)))
    eval_known (app f xs) sh h =
        let (p, run1, k) = eval_args_known xs sh h.0 in
        let (q, run2, l) = eval_call_known f.id p.0 p.1 xs k h.1 in
        (q, app-run eval_app a f xs sh run1 run2, l)
    eval_known (inert_e i) sh h = (_, refl, inert_of_bool i.context)

    eval_args_known :
        (xs : Exprs) (sh : Map ℕ UBoolValue)
        → AllKnown xs
        → Returns (eval_args eval_app a xs sh) (λ p. results p.0 ≡ truths σ calls xs)
    eval_args_known nil sh h = (_, refl, refl)
    eval_args_known (cons x xs) sh h =
        let (p, run1, k) = eval_known x sh h.0 in
        let (q, run2, l) = eval_args_known xs p.1 h.1 in
        (_, cons-run eval_app a x xs sh run1 run2, rw (k, l) refl)

  -- If each variable has the truth value that `σ` gives it, and the language server answers each
  -- call with the truth value that `calls` gives it, then the evaluation returns the two-valued
  -- meaning of the expression.
  pub evaluate_known :
      (e : Expr)
      → IsKnown e
      → Returns (evaluate eval_app a e) (λ r. r.result ≡ of_bool (truth σ calls e))
  evaluate_known e h =
      let (p, run, k) = eval_known e [] h in
      let (r, run', same) = evaluate-run eval_app a e p run in (r, run', rw same k)
