-- ===== src/DecisionQuery.antt =====
-- ts-shared/boolean-analysis/src/decision-query.ts: expressions compiled to a decision diagram, and
-- queries about what is determined and which variables still matter.
pub mod Query
pub mod Compile
pub mod Order
pub mod Collect
pub mod Meaning
pub mod Sorting
pub mod Outcome
pub mod Correct
pub mod Determined
mod Tests
use l4_ide.Prelude.{
  ℕ, zero, suc, ◌+◌, ◌-◌, Bool, true, false, ◌&&◌, ◌||◌, Option, none, some, List, [], ◌∷◌, ◌++◌,
  ◌==◌, if◌then◌else◌, leb, ltb, length, Map, get, set, nat_key, Result, ok, err, filter,
}
use l4_ide.Expr.{
  Expr, Exprs, and_e, or_e, not_e, ubool_var, true_e, false_e, app, inert_e, nil, cons, inert_value,
}
use l4_ide.Robdd.{
  Bdd, M, ◌>>=◌, return, throw, Fault, missing_var_index, unsupported_app, Op, conj, disj, new_bdd,
  var, neg, apply, restrict, support, node_count, has, add, true_id, false_id, Bindings,
}

pub record QueryOutcome : Type 0 where
  pub determined : Option Bool
  pub support : List ℕ

pub record VarImpact : Type 0 where
  pub if_true : QueryOutcome
  pub if_false : QueryOutcome

pub record DecisionQueryResult : Type 0 where
  pub determined : Option Bool
  pub support : List ℕ
  pub ranked : List ℕ
  pub impact : Map ℕ VarImpact
  pub stats_nodes : ℕ
  pub stats_support : ℕ

-- `collectVarOrder`: `seen` and `out` hold the same uniques, and one list stands for both.
unfoldable mutual
  pub collect_vars : Expr → List ℕ → Result Fault (List ℕ)
  collect_vars (ubool_var v) out = ok (add v.name.unique out)
  collect_vars (not_e id x) out = collect_vars x out
  collect_vars (and_e id xs) out = collect_all xs out
  collect_vars (or_e id xs) out = collect_all xs out
  collect_vars (app f xs) out = err unsupported_app
  collect_vars (true_e id n) out = ok out
  collect_vars (false_e id n) out = ok out
  collect_vars (inert_e i) out = ok out

  pub collect_all : Exprs → List ℕ → Result Fault (List ℕ)
  collect_all nil out = ok out
  collect_all (cons x xs) out = elim (collect_vars x out) [
    | ok out' ↦ collect_all xs out'
    | err e ↦ err e
  ]

unfoldable pub collect_var_order : Expr → Result Fault (List ℕ)
unfolding collect_vars
collect_var_order e = collect_vars e []

abbrev pub is_determined_id : ℕ → Option Bool
is_determined_id id =
    if id == true_id then some true else if id == false_id then some false else none

-- `varOrder.forEach((u, i) => uniqueToVarIndex.set(u, i))`, from index `i` on.
unfoldable pub index_from : ℕ → List ℕ → Map ℕ ℕ → Map ℕ ℕ
index_from i [] m = m
index_from i (u ∷ us) m = index_from (i + 1) us (set u i m)

unfoldable pub compile_var : Map ℕ ℕ → ℕ → M ℕ
compile_var idx u = elim (get u idx) [ none ↦ throw missing_var_index | some i ↦ var i ]

-- The local function `compile`, over `uniqueToVarIndex`.
unfoldable mutual
  unfolding compile_var

  pub compile : Map ℕ ℕ → Expr → M ℕ
  compile idx (true_e id n) = return true_id
  compile idx (false_e id n) = return false_id
  compile idx (ubool_var v) = compile_var idx v.name.unique
  compile idx (not_e id x) = compile idx x >>= neg
  compile idx (and_e id xs) = compile_all idx conj true_id xs
  compile idx (or_e id xs) = compile_all idx disj false_id xs
  compile idx (app f xs) = throw unsupported_app
  compile idx (inert_e i) = return (if inert_value i.context then true_id else false_id)

  pub compile_all : Map ℕ ℕ → Op → ℕ → Exprs → M ℕ
  compile_all idx op acc nil = return acc
  compile_all idx op acc (cons x xs) =
      compile idx x >>= λ c. apply op acc c >>= λ acc'. compile_all idx op acc' xs

-- What `compileDecisionQuery` keeps for its queries; the diagram is state that they extend.
pub record Compiled : Type 0 where
  pub var_order : List ℕ
  pub index_of : Map ℕ ℕ
  pub root : ℕ

unfoldable pub compile_decision_query : Expr → List ℕ → M Compiled
unfolding compile index_from
compile_decision_query e var_order s =
    let idx = index_from 0 var_order [] in
    elim (compile idx e s) [
      | ok (root, t) ↦ ok (record { var_order = var_order; index_of = idx; root = root }, t)
      | err e ↦ err e
    ]

-- `varOrder[i]`
unfoldable pub nth : List ℕ → ℕ → Option ℕ
nth [] i = none
nth (u ∷ us) zero = some u
nth (u ∷ us) (suc i) = nth us i

-- `Array.from(new Set(nums)).sort((a, b) => a - b)`: duplicates go, and the rest ascends.
unfoldable pub insert_sorted : ℕ → List ℕ → List ℕ
insert_sorted x [] = x ∷ []
insert_sorted x (y ∷ ys) = if leb x y then x ∷ y ∷ ys else y ∷ insert_sorted x ys

unfoldable pub to_set : List ℕ → List ℕ → List ℕ
to_set out [] = out
to_set out (x ∷ xs) = to_set (add x out) xs

unfoldable pub sort : List ℕ → List ℕ
unfolding insert_sorted
sort [] = []
sort (x ∷ xs) = insert_sorted x (sort xs)

unfoldable pub uniq_sorted : List ℕ → List ℕ
unfolding sort to_set
uniq_sorted xs = sort (to_set [] xs)

-- `.map((i) => varOrder[i]).filter((u) => u !== undefined)`
unfoldable pub uniques_at : List ℕ → List ℕ → List ℕ
unfolding nth
uniques_at order [] = []
uniques_at order (i ∷ is) = elim (nth order i) [
  | some u ↦ u ∷ uniques_at order is
  | none ↦ uniques_at order is
]

unfoldable pub support_from_restricted : Compiled → ℕ → M (List ℕ)
unfolding uniq_sorted uniques_at
support_from_restricted c restricted =
    support restricted >>= λ idxs. return (uniq_sorted (uniques_at c.var_order idxs))

unfoldable pub outcome_from_restricted : Compiled → ℕ → M QueryOutcome
unfolding support_from_restricted
outcome_from_restricted c restricted = support_from_restricted c restricted >>= λ us.
    return (record { determined = is_determined_id restricted; support = us })
