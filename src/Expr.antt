-- ===== src/Expr.antt =====
-- ts-shared/viz-expr/viz-expr.ts: the boolean expressions of a ladder diagram, and what they mean.
-- An `IRId` is a number that stands for the object, since the maps of the code compare these objects by
-- identity. A `Unique` is a number.
use Prim.Native.String.{String}
use l4_ide.Prelude.{ℕ, Bool, true, false, not, ◌&&◌, ◌||◌, Option, ◌≡◌, ◌⊎◌}

pub record Name : Type 0 where
  pub unique : ℕ
  pub label : String

pub data UBoolValue : Type 0 where
  false_v true_v unknown_v : UBoolValue

pub data InertContext : Type 0 where
  inert_and inert_or : InertContext

pub record UBoolVar : Type 0 where
  pub value : UBoolValue
  pub id : ℕ
  pub name : Name
  pub can_inline : Bool
  pub atom_id : String

pub record AppHead : Type 0 where
  pub id : ℕ
  pub fn_name : Name
  pub atom_id : String

pub record InertE : Type 0 where
  pub id : ℕ
  pub text : String
  pub context : InertContext

-- A `TrueE` or `FalseE` that the program builds has no name.
mutual
  pub data Expr : Type 0 where
    and_e or_e : ℕ → Exprs → Expr
    not_e : ℕ → Expr → Expr
    ubool_var : UBoolVar → Expr
    true_e false_e : ℕ → Option Name → Expr
    app : AppHead → Exprs → Expr
    inert_e : InertE → Expr

  pub data Exprs : Type 0 where
    nil : Exprs
    cons : Expr → Exprs → Exprs

-- An inert element stands for the unit of the operator around it.
abbrev pub inert_value : InertContext → Bool
inert_value inert_and = true
inert_value inert_or = false

-- The two-valued meaning, for a value of each variable and of each function call.
unfoldable mutual
  pub truth : (ℕ → Bool) → (ℕ → Bool) → Expr → Bool
  truth σ calls (and_e id xs) = all_true σ calls xs
  truth σ calls (or_e id xs) = any_true σ calls xs
  truth σ calls (not_e id x) = not (truth σ calls x)
  truth σ calls (ubool_var v) = σ v.name.unique
  truth σ calls (true_e id n) = true
  truth σ calls (false_e id n) = false
  truth σ calls (app f xs) = calls f.id
  truth σ calls (inert_e i) = inert_value i.context

  pub all_true : (ℕ → Bool) → (ℕ → Bool) → Exprs → Bool
  all_true σ calls nil = true
  all_true σ calls (cons x xs) = truth σ calls x && all_true σ calls xs

  pub any_true : (ℕ → Bool) → (ℕ → Bool) → Exprs → Bool
  any_true σ calls nil = false
  any_true σ calls (cons x xs) = truth σ calls x || any_true σ calls xs

-- A variable with the unique stands in the expression, outside function calls.
unfoldable mutual
  pub HasVar : ℕ → Expr → Type 0
  HasVar u (and_e id xs) = SomeHasVar u xs
  HasVar u (or_e id xs) = SomeHasVar u xs
  HasVar u (not_e id x) = HasVar u x
  HasVar u (ubool_var v) = v.name.unique ≡ u
  HasVar u _ = ⊥

  pub SomeHasVar : ℕ → Exprs → Type 0
  SomeHasVar u nil = ⊥
  SomeHasVar u (cons x xs) = HasVar u x ⊎ SomeHasVar u xs
