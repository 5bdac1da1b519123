-- ===== src/Ladder/Correct.antt =====
-- The analyzer as a whole, and the analyzer fed by the evaluator.
use l4_ide.Prelude.{
  ℕ, Bool, true, false, Option, none, some, List, [], ◌∷◌, ◌≡◌, refl, sym, ap, ◌∙◌, arith, Returns,
  ok, ==_refl,
}
use l4_ide.Expr.{
  Expr, Exprs, and_e, or_e, not_e, ubool_var, true_e, false_e, app, inert_e, nil, cons, UBoolValue,
  true_v, false_v, unknown_v,
}
use l4_ide.Robdd.{has, Bdd}
use l4_ide.DecisionQuery.{Compiled, DecisionQueryResult}
use l4_ide.DecisionQuery.Query.{query}
use l4_ide.DecisionQuery.Correct.{query-Answers}
use l4_ide.Ladder.Assignment.{Assignment}
use l4_ide.Ladder.Eval.{Evaluation, Reply, evaluate}
use l4_ide.Ladder.Sound.{Says}
use l4_ide.Ladder.Verdict.{HasValues, Responds, Agrees, AllAgree}
use l4_ide.Ladder.Complete.{evaluate-Fits}
use l4_ide.Ladder.Partial.{restrict_expr, contains_app, some_contains_app}
use l4_ide.Ladder.Analyzer.{
  Analyzer, Needed, analyze, report, needed_of, bindings_of, is_determined_value,
}
use l4_ide.Ladder.Bindings.{bindings_of-IsMap, answered-Completes}
use l4_ide.Ladder.Ready.{IsReady, IsReadyWith}
use l4_ide.Ladder.Analysis.{left, IsAnalysis, report-IsAnalysis}

needed_of-run :
    (a : Assignment) (x : Expr) (c : Compiled) (s : Bdd) {q : DecisionQueryResult} {t : Bdd}
    → query c (bindings_of a) s ≡ ok (q, t)
    → needed_of (some (c, s)) a x
      ≡ ok (record {
        support = q.support;
        ranked = q.ranked;
        bdd_stats = some (q.stats_nodes, q.stats_support);
        compiled = some (c, t);
      })
unfolding needed_of
needed_of-run a x c s run = rw (run, needed_of) refl

analyze-run :
    (z : Analyzer) (a : Assignment) (v : Evaluation) {n : Needed}
    → needed_of z.compiled a (restrict_expr a z.expr) ≡ ok n
    → analyze z a v
      ≡ ok (report z a v (restrict_expr a z.expr) n, record z { compiled = n.compiled })
unfolding analyze
analyze-run z a v run = rw (run, analyze) refl

call_or_not : {P : Type 0} (e : Expr) → contains_app e ≡ true → contains_app e ≡ false → P
call_or_not e p q = absurd (cc)

-- For an analyzer that is ready and whose expression has no function call, `analyze` returns. The
-- inputs still needed are exactly those on whose value the truth value still depends in some completion
-- of the assignment; the open inputs that it calls moot are exactly those on which it never depends.
-- The ranking holds the inputs still needed and the next one to ask is the first of it. The analyzer
-- is ready afterwards, over the same expression and order.
pub analyze-IsAnalysis :
    (z : Analyzer) (a : Assignment) (v : Evaluation) (calls : ℕ → Bool)
    → IsReady z
    → contains_app z.expr ≡ false
    → Returns (analyze z a v) (λ p.
      IsAnalysis a z.expr calls z.all_vars_in_order p.0
      × IsReady p.1
      × (p.1.expr ≡ z.expr)
      × (p.0.overall_result ≡ v.result)
      × (p.0.is_determined ≡ is_determined_value v.result))
unfolding report
analyze-IsAnalysis z a v calls ready pure = with_diagram z.compiled refl ready
  where
    with_diagram :
        (o : Option (Compiled × Bdd))
        → z.compiled ≡ o
        → IsReadyWith z o
        → Returns (analyze z a v) (λ p.
          IsAnalysis a z.expr calls z.all_vars_in_order p.0
          × IsReady p.1
          × (p.1.expr ≡ z.expr)
          × (p.0.overall_result ≡ v.result)
          × (p.0.is_determined ≡ is_determined_value v.result))
    with_diagram none built ready = call_or_not z.expr ready pure
    with_diagram (some (c, s)) built (_, k, same) =
        let ((q, t), run, (k', ans)) =
          query-Answers z.expr calls c (bindings_of a) s k (bindings_of-IsMap a) in
        (
          _,
          analyze-run z a v (
              ap (λ o. needed_of o a (restrict_expr a z.expr)) built
              ∙ needed_of-run a (restrict_expr a z.expr) c s run),
          (
            report-IsAnalysis a z.expr calls z v c s t q built same ans,
            (pure, k', same),
            refl,
            refl,
            refl,
          ),
        )

mutual
  unfolding contains_app Agrees

  no_calls-Agrees :
      (eval_app : ℕ → List UBoolValue → Reply) (σ calls : ℕ → Bool) (e : Expr)
      → contains_app e ≡ false
      → Agrees eval_app σ calls e
  no_calls-Agrees eval_app σ calls (and_e id xs) h = no_calls-AllAgree eval_app σ calls xs h
  no_calls-Agrees eval_app σ calls (or_e id xs) h = no_calls-AllAgree eval_app σ calls xs h
  no_calls-Agrees eval_app σ calls (not_e id x) h = no_calls-Agrees eval_app σ calls x h
  no_calls-Agrees eval_app σ calls (ubool_var v) h = tt
  no_calls-Agrees eval_app σ calls (true_e id n) h = tt
  no_calls-Agrees eval_app σ calls (false_e id n) h = tt
  no_calls-Agrees eval_app σ calls (app f xs) h = absurd (cc)
  no_calls-Agrees eval_app σ calls (inert_e i) h = tt

  no_calls-AllAgree :
      (eval_app : ℕ → List UBoolValue → Reply) (σ calls : ℕ → Bool) (xs : Exprs)
      → some_contains_app xs ≡ false
      → AllAgree eval_app σ calls xs
  no_calls-AllAgree eval_app σ calls nil h = tt
  no_calls-AllAgree eval_app σ calls (cons x xs) h = (
    no_calls-Agrees eval_app σ calls x (ground arith),
    no_calls-AllAgree eval_app σ calls xs (ground arith),
  )

has_none : (us : List ℕ) → ((u : ℕ) → has u us ≡ true → ⊥) → us ≡ []
has_none [] h = refl
has_none (u ∷ us) h = absurd (h u (ground (arith, ==_refl u)))

true_v-Says :
    (w : UBoolValue) (b c : Bool) → is_determined_value w ≡ true → Says w b → Says w c → b ≡ c
true_v-Says true_v b c h p q = p ∙ sym q
true_v-Says false_v b c h p q = p ∙ sym q
true_v-Says unknown_v b c h p q = cc

-- Without function calls, where each variable has a value, unknown ones included: the evaluation and the
-- analysis of its result both return; and if the result is true or false, then it is the truth value in
-- every completion, and nothing is still needed, ranked or next to ask.
pub analyze-evaluate :
    (z : Analyzer) (a : Assignment) (eval_app : ℕ → List UBoolValue → Reply) (calls : ℕ → Bool)
    → IsReady z
    → contains_app z.expr ≡ false
    → Responds eval_app
    → HasValues a z.expr
    → Returns (evaluate eval_app a z.expr) (λ v. Returns (analyze z a v) (λ p.
      p.0.is_determined ≡ true
      → ((σ : ℕ → Bool) → Says v.result (left a z.expr calls σ))
        × (p.0.still_needed ≡ [])
        × (p.0.ranked ≡ [])
        × (p.0.next ≡ [])))
analyze-evaluate z a eval_app calls ready pure responds values =
    let (v, run, fits) = evaluate-Fits eval_app a z.expr responds values in
    let (p, ran, (k, _, _, _, same)) = analyze-IsAnalysis z a v calls ready pure in
    let says : (σ : ℕ → Bool) → Says v.result (left a z.expr calls σ) =
      λ σ. fits _ calls (answered-Completes a σ) (no_calls-Agrees eval_app _ calls z.expr pure) in
    (
      v,
      run,
      (
        p,
        ran,
        λ settled.
            let fixed : is_determined_value v.result ≡ true = sym same ∙ settled in
            let stuck : (u : ℕ) → has u p.0.still_needed ≡ true → ⊥ = λ u h.
              let (σ, d) = (k.still_needed u).0 h in
              d (true_v-Says v.result _ _ fixed (says _) (says _)) in
            let unranked : p.0.ranked ≡ [] =
              has_none p.0.ranked (λ u h. stuck u (sym (k.ranked u) ∙ h)) in
            (says, has_none p.0.still_needed stuck, unranked, k.next ∙ rw unranked refl),
      ),
    )
