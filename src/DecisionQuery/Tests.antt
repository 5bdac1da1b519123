-- ===== src/DecisionQuery/Tests.antt =====
-- A compiled rule and a query of it.
use l4_ide.Prelude.{
  ℕ, Bool, true, false, Option, none, some, List, [], ◌∷◌, ok, err, ◌≡◌, refl, get, set, Map,
}
use l4_ide.Expr.{Expr, cons, nil, and_e, or_e, not_e, ubool_var, unknown_v}
use l4_ide.Robdd.{◌>>=◌, new_bdd, var, neg, apply, restrict, support, get_node, node_at, mk}
use l4_ide.DecisionQuery.{compile_decision_query}
use l4_ide.DecisionQuery.Query.{query}

abbrev v : ℕ → Expr
v u = ubool_var (record {
  value = unknown_v;
  id = u;
  name = record { unique = u; label = "x" };
  can_inline = false;
  atom_id = "";
})

-- (7 and not 3) or 5
abbrev rule : Expr
rule = or_e 100 (cons (and_e 101 (cons (v 7) (cons (not_e 102 (v 3)) nil))) (cons (v 5) nil))

run : Map ℕ Bool → Option (List ℕ × List ℕ × Option Bool)
run bs = elim ((compile_decision_query rule (7 ∷ 3 ∷ 5 ∷ []) >>= λ c. query c bs) new_bdd) [
  | ok (r, s) ↦ some (r.support, r.ranked, r.determined)
  | err _ ↦ none
]

run_open : run [] ≡ some (3 ∷ 5 ∷ 7 ∷ [], 5 ∷ 7 ∷ 3 ∷ [], none)
unfolding run compile_decision_query query new_bdd var neg apply restrict support get set get_node
    node_at mk
run_open = refl

run_bound : run ((3, true) ∷ []) ≡ some (5 ∷ [], 5 ∷ [], none)
unfolding run compile_decision_query query new_bdd var neg apply restrict support get set get_node
    node_at mk
run_bound = refl
