-- ===== src/Ladder/Ready.antt =====
-- A new analyzer is ready: its diagram, if it has one, stands for its expression.
use l4_ide.Prelude.{
  ℕ, true, false, Option, none, some, List, ◌≡◌, refl, ◌∙◌, arith, Returns, ok, err, Result,
  Bool-cases, inl, inr,
}
use l4_ide.Expr.{
  Expr, Exprs, and_e, or_e, not_e, ubool_var, true_e, false_e, app, inert_e, nil, cons,
}
use l4_ide.Robdd.{Bdd, new_bdd, Fault}
use l4_ide.Robdd.Correct.{new_bdd-IsValid}
use l4_ide.DecisionQuery.{Compiled, collect_vars, collect_all, collect_var_order}
use l4_ide.DecisionQuery.Meaning.{IsCompiled, compile_decision_query-IsCompiled}
use l4_ide.DecisionQuery.Collect.{collect_var_order_lem}
use l4_ide.Ladder.Partial.{contains_app, some_contains_app, order_from, order_all, var_order_of}
use l4_ide.Ladder.Analyzer.{Analyzer, new_analyzer}

chain_run :
    {A B : Type 0} (r : Result Fault A) (f : A → Result Fault B) {a : A}
    → r ≡ ok a
    → (elim r [ ok a ↦ f a | err e ↦ err e ]) ≡ f a
chain_run r f e = rw e refl

mutual
  unfolding contains_app order_from collect_vars

  -- Without function calls both collections are the same.
  collect_vars-order_from :
      (e : Expr) (out : List ℕ)
      → contains_app e ≡ false
      → collect_vars e out ≡ ok (order_from e out)
  collect_vars-order_from (ubool_var v) out h = refl
  collect_vars-order_from (not_e id x) out h = collect_vars-order_from x out h
  collect_vars-order_from (and_e id xs) out h = collect_all-order_all xs out h
  collect_vars-order_from (or_e id xs) out h = collect_all-order_all xs out h
  collect_vars-order_from (app f xs) out h = absurd (cc)
  collect_vars-order_from (true_e id n) out h = refl
  collect_vars-order_from (false_e id n) out h = refl
  collect_vars-order_from (inert_e i) out h = refl

  collect_all-order_all :
      (xs : Exprs) (out : List ℕ)
      → some_contains_app xs ≡ false
      → collect_all xs out ≡ ok (order_all xs out)
  collect_all-order_all nil out h = refl
  collect_all-order_all (cons x xs) out h =
      chain_run (collect_vars x out) (collect_all xs) (collect_vars-order_from x out (ground arith))
      ∙ collect_all-order_all xs (order_from x out) (ground arith)

collected : (e : Expr) → contains_app e ≡ false → collect_var_order e ≡ ok (var_order_of e)
unfolding collect_var_order var_order_of
collected e h = collect_vars-order_from e _ h

-- The diagram stands for the expression, which has no function call; or there is a call.
abbrev pub IsReadyWith : Analyzer → Option (Compiled × Bdd) → Type 0
IsReadyWith z none = contains_app z.expr ≡ true
IsReadyWith z (some (c, t)) =
    (contains_app z.expr ≡ false) × IsCompiled z.expr c t × (c.var_order ≡ z.all_vars_in_order)

abbrev pub IsReady : Analyzer → Type 0
IsReady z = IsReadyWith z z.compiled

-- A new analyzer over the expression's own variable order is built, with or without a diagram. It
-- keeps the expression and the order, and it is ready: without a function call in the expression its
-- diagram stands for the expression, and with one there is no diagram.
pub new_analyzer-IsReady :
    (e : Expr)
    → Returns
        (new_analyzer e (var_order_of e))
        (λ z. (z.expr ≡ e) × (z.all_vars_in_order ≡ var_order_of e) × IsReady z)
unfolding new_analyzer
new_analyzer-IsReady e = elim (Bool-cases (contains_app e)) [
  | inl calls ↦ rw calls (_, refl, (refl, refl, calls))
  | inr pure ↦
      let (once, covered, _) = collect_var_order_lem e (var_order_of e) (collected e pure) in
      let (p, run, (_, k, same)) =
        compile_decision_query-IsCompiled e (var_order_of e) new_bdd once covered new_bdd-IsValid in
      rw (pure, run) (_, refl, (refl, refl, (pure, k, same)))
]
