-- ===== src/Ladder/Eval.antt =====
-- ts-shared/l4-ladder-visualizer/src/lib/eval/eval.ts: the three-valued evaluator. The language
-- server's answer to `evalApp` is a parameter. All leaves write to one map object, which is passed
-- on as `shared`; a result holds a reference to it or a map of its own.
use l4_ide.Prelude.{
  ℕ, Bool, true, Option, none, some, List, [], ◌∷◌, ◌++◌, if◌then◌else◌, any, Map, set, nat_key,
  Result, ok, err, ◌&&◌,
}
use l4_ide.Expr.{
  Expr, Exprs, and_e, or_e, not_e, ubool_var, true_e, false_e, app, inert_e, nil, cons, UBoolValue,
  true_v, false_v, unknown_v, InertContext, inert_and, inert_or,
}
use l4_ide.Robdd.{add}
use l4_ide.Ladder.Assignment.{Assignment, lookup, is_true_val, is_false_val, is_unknown_val}

-- What the language server answers about a function call: a value, a refusal, nothing, or an error.
pub data Reply : Type 0 where
  answer : UBoolValue → Reply
  refusal no_response failure : Reply

-- `undefined_value`: the code goes on with `undefined` for a variable that has no value, and throws at the
-- first test of it; the model stops at the variable. The ladder gives each variable a value.
pub data EvalError : Type 0 where
  undefined_value call_failed : EvalError

-- A result's map: the map object that all leaves share, or one of its own.
pub data Intermediate : Type 0 where
  shared_map : Intermediate
  own_map : Map ℕ UBoolValue → Intermediate

pub record EvalResult : Type 0 where
  pub result : UBoolValue
  pub intermediate : Intermediate
  pub consulted : List ℕ
  pub short_circuited : List ℕ

abbrev pub contents : Map ℕ UBoolValue → Intermediate → Map ℕ UBoolValue
contents shared shared_map = shared
contents shared (own_map m) = m

-- The function that reads an expression's id.
abbrev pub id_of : Expr → ℕ
id_of (and_e id xs) = id
id_of (or_e id xs) = id
id_of (not_e id x) = id
id_of (ubool_var v) = v.id
id_of (true_e id n) = id
id_of (false_e id n) = id
id_of (app f xs) = f.id
id_of (inert_e i) = i.id

unfoldable pub ids_of : Exprs → List ℕ
ids_of nil = []
ids_of (cons x xs) = id_of x ∷ ids_of xs

abbrev pub every : (UBoolValue → Bool) → List UBoolValue → Bool
every p [] = true
every p (v ∷ vs) = p v && every p vs

-- `findIndex` and `ids.slice(first + 1)`: the ids behind the first value that satisfies `p`.
unfoldable pub after_first : (UBoolValue → Bool) → List UBoolValue → List ℕ → List ℕ
after_first p [] ids = []
after_first p (v ∷ vs) [] = []
after_first p (v ∷ vs) (i ∷ ids) = if p v then ids else after_first p vs ids

pub record Chain : Type 0 where
  pub result : UBoolValue
  pub short_circuited : List ℕ

unfoldable pub eval_and_chain : List UBoolValue → List ℕ → Chain
unfolding after_first
eval_and_chain vs ids =
    if any is_false_val vs
    then record { result = false_v; short_circuited = after_first is_false_val vs ids }
    else if every is_true_val vs
    then record { result = true_v; short_circuited = [] }
    else record { result = unknown_v; short_circuited = [] }

unfoldable pub eval_or_chain : List UBoolValue → List ℕ → Chain
unfolding after_first
eval_or_chain vs ids =
    if any is_true_val vs
    then record { result = true_v; short_circuited = after_first is_true_val vs ids }
    else if every is_false_val vs
    then record { result = false_v; short_circuited = [] }
    else record { result = unknown_v; short_circuited = [] }

abbrev pub results : List EvalResult → List UBoolValue
results [] = []
results (r ∷ rs) = r.result ∷ results rs

-- `new Map(entries)`: a later entry replaces an earlier one.
unfoldable pub set_all : List (ℕ × UBoolValue) → Map ℕ UBoolValue → Map ℕ UBoolValue
set_all [] m = m
set_all ((k, v) ∷ es) m = set_all es (set k v m)

unfoldable pub combine_intermediates : Map ℕ UBoolValue → List EvalResult → Map ℕ UBoolValue
unfolding set_all
combine_intermediates shared rs = set_all (all_entries rs) []
  where
    all_entries : List EvalResult → List (ℕ × UBoolValue)
    all_entries [] = []
    all_entries (r ∷ rs) = contents shared r.intermediate ++ all_entries rs

abbrev pub union : List ℕ → List ℕ → List ℕ
union out [] = out
union out (x ∷ xs) = union (add x out) xs

unfoldable pub union_consulted : List ℕ → List EvalResult → List ℕ
union_consulted out [] = out
union_consulted out (r ∷ rs) = union_consulted (union out r.consulted) rs

unfoldable pub union_roots : List ℕ → List EvalResult → List ℕ
union_roots out [] = out
union_roots out (r ∷ rs) = union_roots (union out r.short_circuited) rs

abbrev pub neg_value : UBoolValue → UBoolValue
neg_value true_v = false_v
neg_value false_v = true_v
neg_value unknown_v = unknown_v

abbrev pub inert_val : InertContext → UBoolValue
inert_val inert_and = true_v
inert_val inert_or = false_v

-- The value of a call whose arguments are all known. A refusal leaves it unknown.
abbrev pub call_value : Reply → Result EvalError UBoolValue
call_value (answer v) = ok v
call_value refusal = ok unknown_v
call_value no_response = err call_failed
call_value failure = err call_failed

-- A leaf writes to the shared map and hands on a reference to it.
abbrev pub leaf : ℕ → UBoolValue → List ℕ → Map ℕ UBoolValue → EvalResult × Map ℕ UBoolValue
leaf id v consulted shared = (
  record { result = v; intermediate = shared_map; consulted = consulted; short_circuited = [] },
  set id v shared,
)

-- An inner node joins what its children give, and adds its own value.
abbrev pub joined :
    ℕ → UBoolValue → List ℕ → List EvalResult → Map ℕ UBoolValue → EvalResult × Map ℕ UBoolValue
joined id v roots rs shared = (
  record {
    result = v;
    intermediate = own_map (set id v (combine_intermediates shared rs));
    consulted = union_consulted [] rs;
    short_circuited = union_roots (union [] roots) rs;
  },
  shared,
)

-- A node with one child copies the child's map.
abbrev pub negated : ℕ → EvalResult → Map ℕ UBoolValue → EvalResult × Map ℕ UBoolValue
negated id c shared =
    let v = neg_value c.result in
    (
      record {
        result = v;
        intermediate = own_map (set id v (contents shared c.intermediate));
        consulted = c.consulted;
        short_circuited = c.short_circuited;
      },
      shared,
    )

-- What an evaluation returns, with the shared map after it.
abbrev pub Evaluated : Type 0 → Type 0
Evaluated A = Result EvalError (A × Map ℕ UBoolValue)

infixl 5 ◌>>=◌
abbrev pub ◌>>=◌ :
    {A B : Type 0} → Result EvalError A → (A → Result EvalError B) → Result EvalError B
ok a >>= f = f a
err e >>= f = err e

-- A variable reads the assignment.
unfoldable pub eval_var : Option UBoolValue → ℕ → ℕ → Map ℕ UBoolValue → Evaluated EvalResult
eval_var none id u shared = err undefined_value
eval_var (some v) id u shared = ok (leaf id v (u ∷ []) shared)

-- A call with an unknown argument is unknown, without asking the language server.
unfoldable pub eval_call :
    (List UBoolValue → Reply) → ℕ → List EvalResult → Map ℕ UBoolValue → Evaluated EvalResult
eval_call ask id rs shared =
    if any is_unknown_val (results rs)
    then ok (joined id unknown_v [] rs shared)
    else call_value (ask (results rs)) >>= λ v. ok (joined id v [] rs shared)

module _ (eval_app : ℕ → List UBoolValue → Reply) (a : Assignment) where
  unfoldable mutual
    unfolding eval_and_chain eval_or_chain eval_var eval_call

    pub eval : Expr → Map ℕ UBoolValue → Evaluated EvalResult
    eval (true_e id n) shared = ok (leaf id true_v [] shared)
    eval (false_e id n) shared = ok (leaf id false_v [] shared)
    eval (ubool_var v) shared = eval_var (lookup v.name.unique a) v.id v.name.unique shared
    eval (not_e id x) shared = eval x shared >>= λ (r, sh). ok (negated id r sh)
    eval (and_e id xs) shared = eval_args xs shared >>= λ (rs, sh).
        let chain = eval_and_chain (results rs) (ids_of xs) in
        ok (joined id chain.result chain.short_circuited rs sh)
    eval (or_e id xs) shared = eval_args xs shared >>= λ (rs, sh).
        let chain = eval_or_chain (results rs) (ids_of xs) in
        ok (joined id chain.result chain.short_circuited rs sh)
    eval (app f xs) shared =
        eval_args xs shared >>= λ (rs, sh). eval_call (eval_app f.id) f.id rs sh
    eval (inert_e i) shared = ok (leaf i.id (inert_val i.context) [] shared)

    pub eval_args : Exprs → Map ℕ UBoolValue → Evaluated (List EvalResult)
    eval_args nil shared = ok ([], shared)
    eval_args (cons x xs) shared =
        eval x shared >>= λ (r, sh). eval_args xs sh >>= λ (rs, sh'). ok (r ∷ rs, sh')

-- `Evaluator.eval`: the evaluation starts with a new map, which is read at the end.
pub record Evaluation : Type 0 where
  pub result : UBoolValue
  pub intermediate : Map ℕ UBoolValue
  pub consulted : List ℕ
  pub short_circuited : List ℕ

unfoldable pub evaluate :
    (ℕ → List UBoolValue → Reply) → Assignment → Expr → Result EvalError Evaluation
unfolding eval
evaluate eval_app a e = eval eval_app a e [] >>= λ (r, sh). ok (record {
  result = r.result;
  intermediate = contents sh r.intermediate;
  consulted = r.consulted;
  short_circuited = r.short_circuited;
})
