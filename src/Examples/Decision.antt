-- ===== src/Examples/Decision.antt =====
-- The theorems on decision diagrams and decision queries, at the rule (7 and not 3) or 5.
use l4_ide.Prelude.{
  ℕ, Bool, true, false, List, [], ◌∷◌, Result, ok, err, ◌≡◌, ◌≢◌, ◌↔◌, refl, Returns, arith, length,
  Map, get, set, some, ◌<◌,
}
use l4_ide.Expr.{Expr, and_e, or_e, not_e, ubool_var, cons, nil, unknown_v, HasVar}
use l4_ide.Robdd.{
  Bdd, Fault, new_bdd, neg, apply, restrict, support, var, mk, get_node, node_at, conj, has,
  insert_binding,
}
use l4_ide.Robdd.Store.{Env, eval}
use l4_ide.Robdd.Validity.{Steps}
use l4_ide.Robdd.Neg.{NegYields}
use l4_ide.Robdd.Apply.{ApplyYields}
use l4_ide.Robdd.Restrict.{RestrictYields}
use l4_ide.Robdd.Occurs.{DependsOn}
use l4_ide.Robdd.Correct.{
  new_bdd-IsValid, neg-Yields, apply-Yields, restrict-Yields, canonical_ids, support-DependsOn,
}
use l4_ide.DecisionQuery.{Compiled, collect_var_order, compile_decision_query}
use l4_ide.DecisionQuery.Order.{NoRepeats, IsCovered}
use l4_ide.DecisionQuery.Collect.{collect_var_order_lem}
use l4_ide.DecisionQuery.Query.{query}
use l4_ide.DecisionQuery.Meaning.{put, IsCompiled, compile_decision_query-IsCompiled}
use l4_ide.DecisionQuery.Correct.{residue, Answers, query-Answers}
use l4_ide.DecisionQuery.Determined.{ask, ask_exact}

abbrev pub variable : ℕ → Expr
variable u = ubool_var (record {
  value = unknown_v;
  id = u;
  name = record { unique = u; label = "x" };
  can_inline = false;
  atom_id = "";
})

abbrev pub rule : Expr
rule = or_e 100 (
    cons (and_e 101 (cons (variable 7) (cons (not_e 102 (variable 3)) nil)))
      (cons (variable 5) nil))

abbrev rule_order : List ℕ
rule_order = 7 ∷ 3 ∷ 5 ∷ []

abbrev answers : Map ℕ Bool
answers = (3, true) ∷ []

abbrev pub no_calls : ℕ → Bool
no_calls _ = false

rule_order_collected : collect_var_order rule ≡ ok rule_order
unfolding collect_var_order
rule_order_collected = refl

rule_order_once : NoRepeats rule_order
rule_order_once = (refl, (refl, (refl, tt)))

rule-IsCovered : IsCovered rule_order rule
rule-IsCovered = (collect_var_order_lem rule rule_order rule_order_collected).1

abbrev state_of : Result Fault (Compiled × Bdd) → Bdd × Compiled
state_of (ok (c, t)) = (t, c)
state_of (err _) = (new_bdd, record { var_order = []; index_of = []; root = 0 })

state_of-IsCompiled :
    (r : Result Fault (Compiled × Bdd)) {p : Compiled × Bdd}
    → r ≡ ok p
    → IsCompiled rule p.0 p.1
    → IsCompiled rule (state_of r).1 (state_of r).0
state_of-IsCompiled r e k = rw e k

built : Bdd × Compiled
built = state_of (compile_decision_query rule rule_order new_bdd)

built-IsCompiled : IsCompiled rule built.1 built.0
unfolding built
built-IsCompiled =
    let (p, run, (_, k, _)) =
      compile_decision_query-IsCompiled rule rule_order new_bdd rule_order_once rule-IsCovered
        new_bdd-IsValid in
    state_of-IsCompiled (compile_decision_query rule rule_order new_bdd) run k

runs : Unit {0}
unfolding built compile_decision_query new_bdd var neg apply restrict support get set get_node
    node_at mk insert_binding
runs = tt

six_nodes : 5 < length built.0.nodes
unfolding runs
six_nodes = omega arith

collect_var_order_example :
    NoRepeats rule_order
    × IsCovered rule_order rule
    × ((u : ℕ) → has u rule_order ≡ true → HasVar u rule)
collect_var_order_example = collect_var_order_lem rule rule_order rule_order_collected

compile_example :
    Returns
      (compile_decision_query rule rule_order new_bdd)
      (λ p. Steps new_bdd p.1 × IsCompiled rule p.0 p.1 × (p.0.var_order ≡ rule_order))
compile_example =
    compile_decision_query-IsCompiled rule rule_order new_bdd rule_order_once rule-IsCovered
      new_bdd-IsValid

neg_example : Returns (neg 5 built.0) (NegYields 5 built.0)
neg_example = neg-Yields 5 built.0 built-IsCompiled.valid six_nodes

apply_example : Returns (apply conj 5 2 built.0) (ApplyYields conj 5 2 built.0)
apply_example =
    apply-Yields conj 5 2 built.0 built-IsCompiled.valid six_nodes (omega (arith, six_nodes))

restrict_example :
    Returns (restrict ((1, true) ∷ []) 5 built.0) (RestrictYields ((1, true) ∷ []) 5 built.0)
restrict_example = restrict-Yields ((1, true) ∷ []) 5 built.0 built-IsCompiled.valid six_nodes

support_example :
    Returns
      (support 5 built.0)
      (λ p. (p.1 ≡ built.0) × ((v : ℕ) → (has v p.0 ≡ true) ↔ DependsOn built.0.nodes v 5))
support_example = support-DependsOn 5 built.0 built-IsCompiled.valid six_nodes

canonical_example :
    (◌≡◌ {A = ℕ} 5 4) ↔ ((ρ : Env) → eval ρ 5 built.0.nodes ≡ eval ρ 4 built.0.nodes)
canonical_example =
    canonical_ids built.0 5 4 built-IsCompiled.valid six_nodes (omega (arith, six_nodes))

query_example :
    Returns
      (query built.1 answers built.0)
      (λ p. IsCompiled rule built.1 p.1 × Answers built.1 (residue rule no_calls answers) p.0)
query_example =
    query-Answers rule no_calls built.1 answers built.0 built-IsCompiled (unfold get in (refl, tt))

ask_example : Returns (ask rule rule_order answers new_bdd) (λ p.
    ((b : Bool)
      → (p.0.determined ≡ some b) ↔ ((σ : ℕ → Bool) → residue rule no_calls answers σ ≡ b))
    × ((u : ℕ)
        → (has u p.0.support ≡ true) ↔ (
            (σ : ℕ → Bool) × (residue rule no_calls answers (put u true σ)
              ≢ residue rule no_calls answers (put u false σ)))))
ask_example =
    ask_exact rule rule_order answers no_calls rule_order_collected (unfold get in (refl, tt))
