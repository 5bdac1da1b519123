-- ===== src/DecisionQuery/Determined.antt =====
-- From an expression to an answer: the order is collected, the expression compiled, and queried.
use l4_ide.Prelude.{ℕ, Bool, List, some, ◌≡◌, ◌≢◌, ◌↔◌, Returns, ok, Map, true, false}
use l4_ide.Expr.{Expr}
use l4_ide.Robdd.{Bdd, M, ◌>>=◌, has, new_bdd}
use l4_ide.Robdd.Correct.{new_bdd-IsValid}
use l4_ide.DecisionQuery.{Compiled, DecisionQueryResult, collect_var_order, compile_decision_query}
use l4_ide.DecisionQuery.Collect.{collect_var_order_lem}
use l4_ide.DecisionQuery.Meaning.{put, IsMap, compile_decision_query-IsCompiled}
use l4_ide.DecisionQuery.Query.{query}
use l4_ide.DecisionQuery.Correct.{residue, query-Answers}

-- A new diagram, the expression compiled in it, and one query.
unfoldable pub ask : Expr → List ℕ → Map ℕ Bool → M DecisionQueryResult
ask e order bindings = compile_decision_query e order >>= λ c. query c bindings

pub ask_run :
    (e : Expr) (order : List ℕ) (bindings : Map ℕ Bool) (s : Bdd) {c : Compiled} {t : Bdd}
    {p : DecisionQueryResult × Bdd}
    → compile_decision_query e order s ≡ ok (c, t)
    → query c bindings t ≡ ok p
    → ask e order bindings s ≡ ok p
unfolding ask
ask_run e order bindings s run1 run2 = rw (run1, ◌>>=◌) run2

-- If the variable order of an expression can be collected, then compiling the expression in a new
-- diagram and querying it with any distinct answers returns; the answer is determined to be `b`
-- exactly if every assignment that extends the answers gives `b`; and the support holds exactly the
-- variables of which, in some assignment that extends the answers, the value depends.
pub ask_exact :
    (e : Expr) (order : List ℕ) (bindings : Map ℕ Bool) (calls : ℕ → Bool)
    → collect_var_order e ≡ ok order
    → IsMap bindings
    → Returns (ask e order bindings new_bdd) (λ p.
      ((b : Bool) → (p.0.determined ≡ some b) ↔ ((σ : ℕ → Bool) → residue e calls bindings σ ≡ b))
      × ((u : ℕ)
          → (has u p.0.support ≡ true) ↔ (
              (σ : ℕ → Bool) × (residue e calls bindings (put u true σ)
                ≢ residue e calls bindings (put u false σ)))))
ask_exact e order bindings calls collected m =
    let (once, covered, _) = collect_var_order_lem e order collected in
    let ((c, t), run1, (_, k, _)) =
      compile_decision_query-IsCompiled e order new_bdd once covered new_bdd-IsValid in
    let (p, run2, (_, a)) = query-Answers e calls c bindings t k m in
    (p, ask_run e order bindings new_bdd run1 run2, (a.outcome.settled, a.outcome.needed))
