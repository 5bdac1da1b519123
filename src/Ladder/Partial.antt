-- ===== src/Ladder/Partial.antt =====
-- ts-shared/l4-ladder-visualizer/src/lib/eval/partial-eval.ts: the expression that is left, and the
-- sets that an analyzer keeps of an expression.
use l4_ide.Prelude.{
  ℕ, Bool, true, false, ◌||◌, Option, none, some, List, [], ◌∷◌, Map, get, set, nat_key,
  if◌then◌else◌,
}
use l4_ide.Expr.{
  Expr, Exprs, and_e, or_e, not_e, ubool_var, true_e, false_e, app, inert_e, nil, cons, UBoolVar,
  UBoolValue, true_v, false_v, unknown_v,
}
use l4_ide.Robdd.{add}
use l4_ide.Ladder.Assignment.{Assignment, lookup}
use l4_ide.Ladder.Eval.{union}

abbrev pub is_true_e : Expr → Bool
is_true_e (true_e id n) = true
is_true_e _ = false

abbrev pub is_false_e : Expr → Bool
is_false_e (false_e id n) = true
is_false_e _ = false

abbrev pub some_e : (Expr → Bool) → Exprs → Bool
some_e p nil = false
some_e p (cons x xs) = p x || some_e p xs

abbrev pub drop_e : (Expr → Bool) → Exprs → Exprs
drop_e p nil = nil
drop_e p (cons x xs) = if p x then drop_e p xs else cons x (drop_e p xs)

abbrev pub restrict_var : Option UBoolValue → UBoolVar → Expr
restrict_var none v = ubool_var v
restrict_var (some true_v) v = true_e v.id none
restrict_var (some false_v) v = false_e v.id none
restrict_var (some unknown_v) v = ubool_var v

abbrev pub restrict_not : ℕ → Expr → Expr
restrict_not id (true_e i n) = false_e id none
restrict_not id (false_e i n) = true_e id none
restrict_not id (not_e i x) = x
restrict_not id x = not_e id x

abbrev pub pack_and : ℕ → Exprs → Expr
pack_and id nil = true_e id none
pack_and id (cons x nil) = x
pack_and id (cons x (cons y zs)) = and_e id (cons x (cons y zs))

abbrev pub pack_or : ℕ → Exprs → Expr
pack_or id nil = false_e id none
pack_or id (cons x nil) = x
pack_or id (cons x (cons y zs)) = or_e id (cons x (cons y zs))

unfoldable pub restrict_and : ℕ → Exprs → Expr
restrict_and id args =
    if some_e is_false_e args then false_e id none else pack_and id (drop_e is_true_e args)

unfoldable pub restrict_or : ℕ → Exprs → Expr
restrict_or id args =
    if some_e is_true_e args then true_e id none else pack_or id (drop_e is_false_e args)

unfoldable mutual
  unfolding restrict_and restrict_or

  pub restrict_expr : Assignment → Expr → Expr
  restrict_expr a (ubool_var v) = restrict_var (lookup v.name.unique a) v
  restrict_expr a (true_e id n) = true_e id n
  restrict_expr a (false_e id n) = false_e id n
  restrict_expr a (not_e id x) = restrict_not id (restrict_expr a x)
  restrict_expr a (and_e id xs) = restrict_and id (restrict_all a xs)
  restrict_expr a (or_e id xs) = restrict_or id (restrict_all a xs)
  restrict_expr a (app f xs) = app f (restrict_all a xs)
  restrict_expr a (inert_e i) = inert_e i

  pub restrict_all : Assignment → Exprs → Exprs
  restrict_all a nil = nil
  restrict_all a (cons x xs) = cons (restrict_expr a x) (restrict_all a xs)

-- `collectVarOrder`: here the arguments of a call count.
unfoldable mutual
  pub order_from : Expr → List ℕ → List ℕ
  order_from (ubool_var v) out = add v.name.unique out
  order_from (not_e id x) out = order_from x out
  order_from (and_e id xs) out = order_all xs out
  order_from (or_e id xs) out = order_all xs out
  order_from (app f xs) out = order_all xs out
  order_from _ out = out

  pub order_all : Exprs → List ℕ → List ℕ
  order_all nil out = out
  order_all (cons x xs) out = order_all xs (order_from x out)

unfoldable pub var_order_of : Expr → List ℕ
unfolding order_from
var_order_of e = order_from e []

unfoldable mutual
  pub contains_app : Expr → Bool
  contains_app (app f xs) = true
  contains_app (not_e id x) = contains_app x
  contains_app (and_e id xs) = some_contains_app xs
  contains_app (or_e id xs) = some_contains_app xs
  contains_app _ = false

  pub some_contains_app : Exprs → Bool
  some_contains_app nil = false
  some_contains_app (cons x xs) = contains_app x || some_contains_app xs

-- A map from ids to sets, which the visits fill.
abbrev pub Memo : Type 0
Memo = Map ℕ (List ℕ)

abbrev pub remember : ℕ → List ℕ × Memo → List ℕ × Memo
remember id (out, memo) = (out, set id out memo)

-- A visit finds what an earlier visit of the same id left, or computes the set and keeps it.
abbrev pub visit : ℕ → Memo → List ℕ × Memo → List ℕ × Memo
visit id memo computed = elim (get id memo) [
  | some existing ↦ (existing, memo)
  | none ↦ remember id computed
]

-- `collectSubtreeVars`
unfoldable mutual
  pub subtree_vars : Expr → Memo → List ℕ × Memo
  subtree_vars (ubool_var v) memo = visit v.id memo (v.name.unique ∷ [], memo)
  subtree_vars (not_e id x) memo = visit id memo (subtree_vars x memo)
  subtree_vars (and_e id xs) memo = visit id memo (vars_union xs [] memo)
  subtree_vars (or_e id xs) memo = visit id memo (vars_union xs [] memo)
  subtree_vars (app f xs) memo = visit f.id memo (vars_union xs [] memo)
  subtree_vars (true_e id n) memo = visit id memo ([], memo)
  subtree_vars (false_e id n) memo = visit id memo ([], memo)
  subtree_vars (inert_e i) memo = visit i.id memo ([], memo)

  pub vars_union : Exprs → List ℕ → Memo → List ℕ × Memo
  vars_union nil out memo = (out, memo)
  vars_union (cons x xs) out memo =
      let sub = subtree_vars x memo in vars_union xs (union out sub.0) sub.1

-- `collectSubtreeIds`
unfoldable mutual
  pub subtree_ids : Expr → Memo → List ℕ × Memo
  subtree_ids (not_e id x) memo =
      visit id memo (let sub = subtree_ids x memo in (union (id ∷ []) sub.0, sub.1))
  subtree_ids (and_e id xs) memo = visit id memo (ids_union xs (id ∷ []) memo)
  subtree_ids (or_e id xs) memo = visit id memo (ids_union xs (id ∷ []) memo)
  subtree_ids (app f xs) memo = visit f.id memo (ids_union xs (f.id ∷ []) memo)
  subtree_ids (ubool_var v) memo = visit v.id memo (v.id ∷ [], memo)
  subtree_ids (true_e id n) memo = visit id memo (id ∷ [], memo)
  subtree_ids (false_e id n) memo = visit id memo (id ∷ [], memo)
  subtree_ids (inert_e i) memo = visit i.id memo (i.id ∷ [], memo)

  pub ids_union : Exprs → List ℕ → Memo → List ℕ × Memo
  ids_union nil out memo = (out, memo)
  ids_union (cons x xs) out memo =
      let sub = subtree_ids x memo in ids_union xs (union out sub.0) sub.1

-- A node's parent, or `none` at the root.
abbrev pub Parents : Type 0
Parents = Map ℕ (Option ℕ)

abbrev pub note_parent : ℕ → Option ℕ → Parents → Parents
note_parent id p parents = elim (get id parents) [ some q ↦ parents | none ↦ set id p parents ]

-- `collectParentMap`
unfoldable mutual
  pub parent_map : Expr → Option ℕ → Parents → Parents
  parent_map (not_e id x) p m = parent_map x (some id) (note_parent id p m)
  parent_map (and_e id xs) p m = parents_of xs id (note_parent id p m)
  parent_map (or_e id xs) p m = parents_of xs id (note_parent id p m)
  parent_map (app f xs) p m = parents_of xs f.id (note_parent f.id p m)
  parent_map (ubool_var v) p m = note_parent v.id p m
  parent_map (true_e id n) p m = note_parent id p m
  parent_map (false_e id n) p m = note_parent id p m
  parent_map (inert_e i) p m = note_parent i.id p m

  pub parents_of : Exprs → ℕ → Parents → Parents
  parents_of nil id m = m
  parents_of (cons x xs) id m = parents_of xs id (parent_map x (some id) m)
