-- ===== src/Examples/Ladder.antt =====
-- The theorems on the evaluator and the analyzer, at the rule (7 and not 3) or 5, with 3 known false.
use l4_ide.Prelude.{
  ℕ, Bool, true, false, List, [], ◌∷◌, none, some, ◌≡◌, ◌≢◌, refl, Returns, Result, ok, err, ◌<◌,
  take, drop, inl, ◌==◌,
}
use l4_ide.Expr.{UBoolValue, true_v, false_v, unknown_v, truth, HasVar}
use l4_ide.Robdd.{Fault}
use l4_ide.DecisionQuery.Meaning.{answered}
use l4_ide.Ladder.Assignment.{Assignment, lookup}
use l4_ide.Ladder.Eval.{Reply, refusal, evaluate, Evaluation, eval_and_chain}
use l4_ide.Ladder.Sound.{Says}
use l4_ide.Ladder.Verdict.{HasValues, Responds, Fits}
use l4_ide.Ladder.Complete.{evaluate-Fits, evaluate_known, IsKnown, of_bool}
use l4_ide.Ladder.Partial.{restrict_expr, contains_app, var_order_of}
use l4_ide.Ladder.Restricted.{truth-restrict_expr, HasVar-restrict_expr}
use l4_ide.Ladder.Bindings.{answered-Completes}
use l4_ide.Ladder.Analyzer.{
  Analyzer, new_analyzer, bindings_of, is_open, analyze, is_determined_value,
}
use l4_ide.Ladder.Ready.{IsReady, new_analyzer-IsReady}
use l4_ide.Ladder.Analysis.{IsAnalysis, left}
use l4_ide.Ladder.Correct.{analyze-IsAnalysis, analyze-evaluate}
use l4_ide.Ladder.ShortCircuit.{and_chain_short}
use l4_ide.Examples.Decision.{rule, no_calls}

abbrev refusing : ℕ → List UBoolValue → Reply
refusing id vs = refusal

refusing-Responds : Responds refusing
refusing-Responds id vs = (unknown_v, refl)

abbrev three_false : Assignment
three_false = none ∷ none ∷ none ∷ some false_v ∷ none ∷ some unknown_v ∷ none ∷ some unknown_v ∷ []

rule_values : HasValues three_false rule
unfolding HasValues lookup
rule_values = (((unknown_v, refl), ((false_v, refl), tt)), ((unknown_v, refl), tt))

evaluate_example :
    Returns (evaluate refusing three_false rule) (λ r. Fits refusing three_false rule r.result)
evaluate_example = evaluate-Fits refusing three_false rule refusing-Responds rule_values

abbrev all_known : Assignment
all_known = none ∷ none ∷ none ∷ some false_v ∷ none ∷ some false_v ∷ none ∷ some true_v ∷ []

abbrev only_seven : ℕ → Bool
only_seven u = u == 7

rule-IsKnown : IsKnown refusing all_known only_seven no_calls rule
unfolding IsKnown lookup
rule-IsKnown = ((refl, (refl, tt)), (refl, tt))

evaluate_known_example :
    Returns
      (evaluate refusing all_known rule)
      (λ r. r.result ≡ of_bool (truth only_seven no_calls rule))
evaluate_known_example = evaluate_known refusing all_known only_seven no_calls rule rule-IsKnown

restrict_example_truth :
    truth (answered (bindings_of three_false) only_seven) no_calls (restrict_expr three_false rule)
    ≡ truth (answered (bindings_of three_false) only_seven) no_calls rule
restrict_example_truth =
    truth-restrict_expr (answered (bindings_of three_false) only_seven) no_calls three_false rule
      (answered-Completes three_false only_seven)

seven_left : HasVar 7 (restrict_expr three_false rule)
unfolding restrict_expr HasVar lookup
seven_left = inl refl

restrict_example_vars : HasVar 7 rule × (is_open (lookup 7 three_false) ≡ true)
restrict_example_vars = HasVar-restrict_expr three_false 7 rule seven_left

new_analyzer_example :
    Returns
      (new_analyzer rule (var_order_of rule))
      (λ z. (z.expr ≡ rule) × (z.all_vars_in_order ≡ var_order_of rule) × IsReady z)
new_analyzer_example = new_analyzer-IsReady rule

-- An analyzer for the rule: what the constructor returns.
abbrev from_ok : Result Fault Analyzer → Analyzer
from_ok (ok z) = z
from_ok (err x) = record {
  expr = rule;
  all_vars_in_order = [];
  subtree_vars = [];
  subtree_ids = [];
  parent_map = [];
  compiled = none;
}

from_ok-IsReady :
    (r : Result Fault Analyzer) {z : Analyzer}
    → r ≡ ok z
    → (z.expr ≡ rule) × IsReady z
    → ((from_ok r).expr ≡ rule) × IsReady (from_ok r)
from_ok-IsReady r e k = rw e k

analyzer : Analyzer
analyzer = from_ok (new_analyzer rule (var_order_of rule))

analyzer-IsReady : (analyzer.expr ≡ rule) × IsReady analyzer
unfolding analyzer
analyzer-IsReady =
    let (z, run, (e, _, k)) = new_analyzer-IsReady rule in
    from_ok-IsReady (new_analyzer rule (var_order_of rule)) run (e, k)

rule_pure : contains_app analyzer.expr ≡ false
unfolding contains_app
rule_pure = let e = analyzer-IsReady.0 in rw e refl

analyzer_values : HasValues three_false analyzer.expr
analyzer_values = let e = analyzer-IsReady.0 in rw e rule_values

abbrev unknown_yet : Evaluation
unknown_yet = record { result = unknown_v; intermediate = []; consulted = []; short_circuited = [] }

analyze_example : Returns (analyze analyzer three_false unknown_yet) (λ p.
    IsAnalysis three_false analyzer.expr no_calls analyzer.all_vars_in_order p.0
    × IsReady p.1
    × (p.1.expr ≡ analyzer.expr)
    × (p.0.overall_result ≡ unknown_v)
    × (p.0.is_determined ≡ is_determined_value unknown_v))
analyze_example =
    analyze-IsAnalysis analyzer three_false unknown_yet no_calls analyzer-IsReady.1 rule_pure

nothing_asked_example : Returns (evaluate refusing three_false analyzer.expr) (λ v.
    Returns (analyze analyzer three_false v) (λ p.
      p.0.is_determined ≡ true
      → ((σ : ℕ → Bool) → Says v.result (left three_false analyzer.expr no_calls σ))
        × (p.0.still_needed ≡ [])
        × (p.0.ranked ≡ [])
        × (p.0.next ≡ [])))
nothing_asked_example =
    analyze-evaluate analyzer three_false refusing no_calls analyzer-IsReady.1 rule_pure
      refusing-Responds analyzer_values

abbrev chain_values : List UBoolValue
chain_values = true_v ∷ false_v ∷ unknown_v ∷ []

chain_false : (eval_and_chain chain_values (11 ∷ 12 ∷ 13 ∷ [])).result ≡ false_v
unfolding eval_and_chain
chain_false = refl

and_chain_example :
    (k : ℕ) × ((eval_and_chain chain_values (11 ∷ 12 ∷ 13 ∷ [])).short_circuited
      ≡ drop k (11 ∷ 12 ∷ 13 ∷ []))
    × ((eval_and_chain (take k chain_values) (take k (11 ∷ 12 ∷ 13 ∷ []))).result ≡ false_v)
    × ((j : ℕ)
        → j < k
        → (eval_and_chain (take j chain_values) (take j (11 ∷ 12 ∷ 13 ∷ []))).result ≢ false_v)
and_chain_example = and_chain_short chain_values (11 ∷ 12 ∷ 13 ∷ []) refl chain_false
