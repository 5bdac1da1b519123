-- ===== src/Robdd.antt =====
-- ts-shared/boolean-analysis/src/robdd.ts: the class `ROBDD`, its tables and its operations.
-- `nodes` is `#nodes` with the node pushed last in front: `id` is the place counted from the end.
-- A recursive method takes fuel, and its public form starts it with enough for the ids it is given.
pub mod Store
pub mod Validity
pub mod Mk
pub mod Yield
pub mod Neg
pub mod Apply
pub mod Restrict
pub mod Canonical
pub mod Occurs
pub mod Support
pub mod Correct
mod Tests
use l4_ide.Prelude.{
  ℕ, zero, suc, ◌+◌, Bool, true, false, ◌&&◌, ◌||◌, Option, none, some, List, [], ◌∷◌, ◌==◌,
  if◌then◌else◌, leb, length, Map, get, set, nat_key, bool_key, pair_key, list_key, Result, ok, err,
  any, not, ◌≡◌, refl, ◌++◌,
}

pub data Op : Type 0 where
  conj disj : Op

pub data Node : Type 0 where
  terminal : Bool → Node
  node : ℕ → ℕ → ℕ → Node

abbrev pub Bindings : Type 0
Bindings = Map ℕ Bool

-- The template-string keys, as the values that they spell.
abbrev pub NodeKey : Type 0
NodeKey = ℕ × (ℕ × ℕ)

abbrev pub ApplyKey : Type 0
ApplyKey = Bool × (ℕ × ℕ)

abbrev pub RestrictKey : Type 0
RestrictKey = ℕ × List (ℕ × Bool)

pub record Bdd : Type 0 where
  pub nodes : List Node
  pub unique_table : Map NodeKey ℕ
  pub apply_memo : Map ApplyKey ℕ
  pub neg_memo : Map ℕ ℕ
  pub restrict_memo : Map RestrictKey ℕ

-- `missing_node` is the error that `getNode` throws. `infinite_var` stands for a node made at
-- variable `Infinity`. The last two are thrown by decision-query.ts, which works in this monad.
pub data Fault : Type 0 where
  missing_node infinite_var out_of_fuel : Fault
  missing_var_index unsupported_app : Fault

-- A method reads and changes the tables, and returns a value or throws.
abbrev pub M : Type 0 → Type 0
M A = Bdd → Result Fault (A × Bdd)

infixl 5 ◌>>=◌ ◌>>◌
abbrev pub ◌>>=◌ : {A B : Type 0} → M A → (A → M B) → M B
◌>>=◌ m f s = elim (m s) [ ok (a, t) ↦ f a t | err e ↦ err e ]

abbrev pub ◌>>◌ : {A B : Type 0} → M A → M B → M B
m >> k = m >>= λ _. k

abbrev pub return : {A : Type 0} → A → M A
return a s = ok (a, s)

abbrev pub throw : {A : Type 0} → Fault → M A
throw e s = err e

abbrev pub false_id : ℕ
false_id = 0

abbrev pub true_id : ℕ
true_id = 1

unfoldable pub new_bdd : Bdd
new_bdd = record {
  nodes = terminal true ∷ terminal false ∷ [];
  unique_table = [];
  apply_memo = [];
  neg_memo = [];
  restrict_memo = [];
}

abbrev pub op_eval : Op → Bool → Bool → Bool
op_eval conj a b = a && b
op_eval disj a b = a || b

abbrev pub op_tag : Op → Bool
op_tag conj = true
op_tag disj = false

abbrev pub terminal_id : Bool → ℕ
terminal_id true = true_id
terminal_id false = false_id

-- `#nodes[id]`
unfoldable pub node_at : ℕ → List Node → Option Node
node_at id [] = none
node_at id (n ∷ older) = if id == length older then some n else node_at id older

unfoldable pub get_node : ℕ → M Node
get_node id s = elim (node_at id s.nodes) [ some n ↦ ok (n, s) | none ↦ err missing_node ]

unfoldable pub mk : ℕ → ℕ → ℕ → M ℕ
mk v low high s = if low == high then ok (low, s) else elim (get (v, (low, high)) s.unique_table) [
  | some id ↦ ok (id, s)
  | none ↦ ok (
    length s.nodes,
    record s {
      nodes = node v low high ∷ s.nodes;
      unique_table = set (v, (low, high)) (length s.nodes) s.unique_table;
    },
  )
]

unfoldable pub var : ℕ → M ℕ
unfolding mk
var v = mk v false_id true_id

abbrev pub is_terminal : ℕ → Bool
is_terminal id = id == false_id || id == true_id

unfoldable pub node_count : Bdd → ℕ
node_count s = length s.nodes

-- The writes to the memo tables.
abbrev pub remember_neg : ℕ → ℕ → M (Unit {0})
remember_neg id res s = ok (tt, record s { neg_memo = set id res s.neg_memo })

abbrev pub remember_apply : ApplyKey → ℕ → M (Unit {0})
remember_apply key res s = ok (tt, record s { apply_memo = set key res s.apply_memo })

abbrev pub remember_restrict : RestrictKey → ℕ → M (Unit {0})
remember_restrict key res s = ok (tt, record s { restrict_memo = set key res s.restrict_memo })

-- `neg` behind its memo lookup. `rec` is the recursive call.
unfoldable pub neg_node : (ℕ → M ℕ) → ℕ → Node → M ℕ
neg_node rec id (terminal value) = do
  let res = terminal_id (not value)
  remember_neg id res
  return res
neg_node rec id (node v low high) = do
  l ← rec low
  h ← rec high
  res ← mk v l h
  remember_neg id res
  return res

unfoldable pub neg_fuel : ℕ → ℕ → M ℕ
neg_fuel zero id s = err out_of_fuel
neg_fuel (suc fuel) id s = elim (get id s.neg_memo) [
  | some res ↦ ok (res, s)
  | none ↦ (get_node id >>= neg_node (neg_fuel fuel) id) s
]

unfoldable pub neg : ℕ → M ℕ
unfolding neg_fuel neg_node
neg id = neg_fuel (suc id) id

-- `none` is `Number.POSITIVE_INFINITY`.
abbrev pub var_of : Node → Option ℕ
var_of (terminal _) = none
var_of (node v _ _) = some v

-- `Math.min`
abbrev pub min_var : Option ℕ → Option ℕ → Option ℕ
min_var none w = w
min_var (some v) none = some v
min_var (some v) (some w) = if leb v w then some v else some w

-- `[an.low, an.high]` at the top variable, `[a, a]` elsewhere.
abbrev pub cofactors : Node → ℕ → ℕ → ℕ × ℕ
cofactors (terminal _) top id = (id, id)
cofactors (node v low high) top id = if v == top then (low, high) else (id, id)

abbrev pub finite : Option ℕ → M ℕ
finite none = throw infinite_var
finite (some v) = return v

unfoldable pub apply_nodes : (ℕ → ℕ → M ℕ) → Op → ℕ → ℕ → Node → Node → M ℕ
apply_nodes rec op a b an bn = do
  top ← finite (min_var (var_of an) (var_of bn))
  let (al, ah) = cofactors an top a
  let (bl, bh) = cofactors bn top b
  low ← rec al bl
  high ← rec ah bh
  res ← mk top low high
  remember_apply (op_tag op, (a, b)) res
  return res

unfoldable pub apply_fuel : ℕ → Op → ℕ → ℕ → M ℕ
apply_fuel zero op a b s = err out_of_fuel
apply_fuel (suc fuel) op a b s = elim (a == b) [
  | true ↦ ok (a, s)
  | false ↦ elim (is_terminal a && is_terminal b) [
    | true ↦ ok (terminal_id (op_eval op (a == true_id) (b == true_id)), s)
    | false ↦ elim (get (op_tag op, (a, b)) s.apply_memo) [
      | some res ↦ ok (res, s)
      | none ↦
          (get_node a >>= λ an. get_node b >>= λ bn. apply_nodes (apply_fuel fuel op) op a b an bn)
            s
    ]
  ]
]

unfoldable pub apply : Op → ℕ → ℕ → M ℕ
unfolding apply_fuel apply_nodes
apply op a b = apply_fuel (suc (a + b)) op a b

-- `bindingsKey`: the bindings sorted by variable. The sort of the library is stable.
unfoldable pub insert_binding : ℕ × Bool → Bindings → Bindings
insert_binding p [] = p ∷ []
insert_binding p (q ∷ qs) = if leb p.0 q.0 then p ∷ q ∷ qs else q ∷ insert_binding p qs

unfoldable pub bindings_key : Bindings → List (ℕ × Bool)
unfolding insert_binding
bindings_key [] = []
bindings_key (p ∷ ps) = insert_binding p (bindings_key ps)

abbrev pub is_empty {ℓ} : {A : Type ℓ} → List A → Bool
is_empty [] = true
is_empty (_ ∷ _) = false

unfoldable pub restrict_node : (ℕ → M ℕ) → Bindings → ℕ → Node → M ℕ
restrict_node rec bindings id (terminal _) = return id
restrict_node rec bindings id (node v low high) = elim (get v bindings) [
  | some bound ↦ do
    res ← rec (if bound then high else low)
    remember_restrict (id, bindings_key bindings) res
    return res
  | none ↦ do
    l ← rec low
    h ← rec high
    res ← mk v l h
    remember_restrict (id, bindings_key bindings) res
    return res
]

unfoldable pub restrict_fuel : ℕ → Bindings → ℕ → M ℕ
restrict_fuel zero bindings id s = err out_of_fuel
restrict_fuel (suc fuel) bindings id s = elim (is_terminal id || is_empty bindings) [
  | true ↦ ok (id, s)
  | false ↦ elim (get (id, bindings_key bindings) s.restrict_memo) [
    | some res ↦ ok (res, s)
    | none ↦ (get_node id >>= restrict_node (restrict_fuel fuel bindings) bindings id) s
  ]
]

unfoldable pub restrict : Bindings → ℕ → M ℕ
unfolding restrict_fuel restrict_node bindings_key
restrict bindings id = restrict_fuel (suc id) bindings id

-- `Set` as a list in insertion order.
abbrev pub has : ℕ → List ℕ → Bool
has x = any (λ y. x == y)

abbrev pub add : ℕ → List ℕ → List ℕ
add x xs = if has x xs then xs else xs ++ (x ∷ [])

pub record Found : Type 0 where
  pub vars : List ℕ
  pub visited : List ℕ

-- The local function `go` of `support`; its two sets are passed on.
unfoldable pub support_fuel : ℕ → ℕ → Found → List Node → Result Fault Found
support_fuel zero id f nodes = err out_of_fuel
support_fuel (suc fuel) id f nodes = elim (is_terminal id || has id f.visited) [
  | true ↦ ok f
  | false ↦ elim (node_at id nodes) [
    | none ↦ err missing_node
    | some (terminal _) ↦ ok (record f { visited = add id f.visited })
    | some (node v low high) ↦
        elim (support_fuel fuel low (record { vars = add v f.vars; visited = add id f.visited })
          nodes) [ err e ↦ err e | ok g ↦ support_fuel fuel high g nodes ]
  ]
]

unfoldable pub support : ℕ → M (List ℕ)
unfolding support_fuel
support id s = elim (support_fuel (suc id) id (record { vars = []; visited = [] }) s.nodes) [
  | ok f ↦ ok (f.vars, s)
  | err e ↦ err e
]
