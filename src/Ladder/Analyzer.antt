-- ===== src/Ladder/Analyzer.antt =====
-- `PartialEvalAnalyzer` of partial-eval.ts. The diagram that the queries extend is the analyzer's state.
use l4_ide.Prelude.{
  ℕ, Bool, true, false, ◌&&◌, Option, none, some, List, [], ◌∷◌, Map, get, set, nat_key, not,
  if◌then◌else◌, Result, ok, err, filter,
}
use l4_ide.Expr.{Expr, UBoolValue, true_v, false_v, unknown_v}
use l4_ide.Robdd.{has, add, Bdd, Fault, new_bdd}
use l4_ide.DecisionQuery.{Compiled, compile_decision_query, uniq_sorted}
use l4_ide.DecisionQuery.Query.{query}
use l4_ide.Ladder.Assignment.{Assignment, lookup, entries_from}
use l4_ide.Ladder.Eval.{union, Evaluation}
use l4_ide.Ladder.Partial.{
  Memo, Parents, restrict_expr, var_order_of, contains_app, subtree_vars, subtree_ids, parent_map,
}

pub data RelevanceStatus : Type 0 where
  unknown determined relevant irrelevant short_circuited : RelevanceStatus

pub record Analyzer : Type 0 where
  pub expr : Expr
  pub all_vars_in_order : List ℕ
  pub subtree_vars : Memo
  pub subtree_ids : Memo
  pub parent_map : Parents
  pub compiled : Option (Compiled × Bdd)

-- The constructor; the diagram is built if the expression has no function call.
unfoldable pub new_analyzer : Expr → List ℕ → Result Fault Analyzer
new_analyzer e order =
    if contains_app e
    then ok (base none)
    else elim (compile_decision_query e order new_bdd) [ err x ↦ err x | ok p ↦ ok (base (some p)) ]
  where
    base : Option (Compiled × Bdd) → Analyzer
    base c = record {
      expr = e;
      all_vars_in_order = order;
      subtree_vars = (subtree_vars e []).1;
      subtree_ids = (subtree_ids e []).1;
      parent_map = parent_map e none [];
      compiled = c;
    }

-- The answers that a query takes: the entries that are true or false.
abbrev pub add_binding : ℕ × UBoolValue → Map ℕ Bool → Map ℕ Bool
add_binding (u, true_v) m = set u true m
add_binding (u, false_v) m = set u false m
add_binding (u, unknown_v) m = m

unfoldable pub bindings_from : List (ℕ × UBoolValue) → Map ℕ Bool → Map ℕ Bool
bindings_from [] m = m
bindings_from (p ∷ ps) m = bindings_from ps (add_binding p m)

unfoldable pub bindings_of : Assignment → Map ℕ Bool
unfolding bindings_from entries_from
bindings_of a = bindings_from (entries_from 0 a) []

abbrev pub is_open : Option UBoolValue → Bool
is_open none = true
is_open (some unknown_v) = true
is_open (some true_v) = false
is_open (some false_v) = false

abbrev pub is_determined_value : UBoolValue → Bool
is_determined_value unknown_v = false
is_determined_value true_v = true
is_determined_value false_v = true

unfoldable pub not_asked_of : Assignment → List ℕ → List ℕ
not_asked_of a order = filter (λ u. is_open (lookup u a)) order

-- The support, the ranking, the statistics, and the analyzer's state after the query.
pub record Needed : Type 0 where
  pub support : List ℕ
  pub ranked : List ℕ
  pub bdd_stats : Option (ℕ × ℕ)
  pub compiled : Option (Compiled × Bdd)

unfoldable pub needed_of : Option (Compiled × Bdd) → Assignment → Expr → Result Fault Needed
unfolding query bindings_of var_order_of
needed_of none a restricted =
    let vars = var_order_of restricted in
    ok (record { support = vars; ranked = vars; bdd_stats = none; compiled = none })
needed_of (some (c, bdd)) a restricted = elim (query c (bindings_of a) bdd) [
  | err x ↦ err x
  | ok (q, t) ↦ ok (record {
    support = q.support;
    ranked = q.ranked;
    bdd_stats = some (q.stats_nodes, q.stats_support);
    compiled = some (c, t);
  })
]

unfoldable pub expand_roots : Memo → List ℕ → List ℕ → List ℕ
expand_roots ids [] out = out
expand_roots ids (r ∷ rs) out =
    expand_roots ids rs (elim (get r ids) [ none ↦ out | some below ↦ union out below ])

unfoldable pub set_intersect_empty : List ℕ → List ℕ → Bool
set_intersect_empty [] bs = true
set_intersect_empty (x ∷ xs) bs = if has x bs then false else set_intersect_empty xs bs

-- The status of one node.
unfoldable pub status_of : List ℕ → Map ℕ UBoolValue → List ℕ → ℕ → List ℕ → RelevanceStatus
unfolding set_intersect_empty
status_of short values support id vars =
    if has id short
    then short_circuited
    else if is_settled (get id values)
    then determined
    else if set_intersect_empty vars support
    then irrelevant
    else relevant
  where
    is_settled : Option UBoolValue → Bool
    is_settled none = false
    is_settled (some v) = is_determined_value v

unfoldable pub relevance_from :
    List ℕ → Map ℕ UBoolValue → List ℕ → Memo → Map ℕ RelevanceStatus → Map ℕ RelevanceStatus
unfolding status_of
relevance_from short values support [] out = out
relevance_from short values support ((id, vars) ∷ rest) out =
    relevance_from short values support rest (set id (status_of short values support id vars) out)

abbrev pub is_irrelevant : RelevanceStatus → Bool
is_irrelevant irrelevant = true
is_irrelevant _ = false

abbrev pub parent_irrelevant : Map ℕ RelevanceStatus → Option (Option ℕ) → Bool
parent_irrelevant rel (some (some p)) = elim (get p rel) [
  | some st ↦ is_irrelevant st
  | none ↦ false
]
parent_irrelevant rel _ = false

-- The highest nodes that are irrelevant.
unfoldable pub irrelevant_roots :
    Parents → Map ℕ RelevanceStatus → Map ℕ RelevanceStatus → List ℕ → List ℕ
irrelevant_roots parents rel [] out = out
irrelevant_roots parents rel ((id, st) ∷ rest) out =
    irrelevant_roots parents rel rest
      (if is_irrelevant st && not (parent_irrelevant rel (get id parents)) then add id out else out)

pub record PartialEvalAnalysis : Type 0 where
  pub overall_result : UBoolValue
  pub is_determined : Bool
  pub not_asked : List ℕ
  pub next : List ℕ
  pub still_needed : List ℕ
  pub dont_care : List ℕ
  pub ranked : List ℕ
  pub node_relevance : Map ℕ RelevanceStatus
  pub irrelevant_root_ids : List ℕ
  pub consulted_uniques : List ℕ
  pub short_circuited_roots : List ℕ
  pub short_circuited_node_ids : List ℕ
  pub restricted_expr : Expr
  pub bdd_stats : Option (ℕ × ℕ)
  pub used_bdd : Bool

abbrev pub first_only : List ℕ → List ℕ
first_only [] = []
first_only (u ∷ us) = u ∷ []

abbrev pub is_some : Option (Compiled × Bdd) → Bool
is_some none = false
is_some (some p) = true

-- What `analyze` puts together once the query has answered.
unfoldable pub report : Analyzer → Assignment → Evaluation → Expr → Needed → PartialEvalAnalysis
unfolding not_asked_of expand_roots relevance_from irrelevant_roots
report z a r restricted n =
    let not_asked = not_asked_of a z.all_vars_in_order in
    let still = filter (λ u. has u n.support) not_asked in
    let ranked = filter (λ u. has u n.support && has u not_asked) n.ranked in
    let short = expand_roots z.subtree_ids r.short_circuited [] in
    let rel = relevance_from short r.intermediate n.support z.subtree_vars [] in
    record {
      overall_result = r.result;
      is_determined = is_determined_value r.result;
      not_asked = uniq_sorted not_asked;
      next = first_only ranked;
      still_needed = uniq_sorted still;
      dont_care = uniq_sorted (filter (λ u. not (has u n.support)) not_asked);
      ranked = ranked;
      node_relevance = rel;
      irrelevant_root_ids = irrelevant_roots z.parent_map rel rel [];
      consulted_uniques = r.consulted;
      short_circuited_roots = r.short_circuited;
      short_circuited_node_ids = short;
      restricted_expr = restricted;
      bdd_stats = n.bdd_stats;
      used_bdd = is_some z.compiled;
    }

unfoldable pub analyze :
    Analyzer → Assignment → Evaluation → Result Fault (PartialEvalAnalysis × Analyzer)
unfolding needed_of report restrict_expr
analyze z a r =
    let restricted = restrict_expr a z.expr in
    elim (needed_of z.compiled a restricted) [
      | err x ↦ err x
      | ok n ↦ ok (report z a r restricted n, record z { compiled = n.compiled })
    ]
