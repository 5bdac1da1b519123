-- ===== src/DecisionQuery/Compile.antt =====
-- `compile` returns, and the node that it returns computes the two-valued meaning.
use l4_ide.Prelude.{
  ℕ, ◌<◌, Bool, true, false, not, none, some, ◌≡◌, refl, ◌∙◌, ap, Map, get, nat_key, Returns, ok,
  length, arith, if◌then◌else◌,
}
use l4_ide.Expr.{
  Expr, Exprs, and_e, or_e, not_e, ubool_var, true_e, false_e, app, inert_e, nil, cons, inert_value,
  inert_and, inert_or, truth, all_true, any_true, InertContext,
}
use l4_ide.Robdd.{
  Bdd, M, ◌>>=◌, Op, conj, disj, op_eval, true_id, false_id, apply, neg, terminal_id, node_at, var,
}
use l4_ide.Robdd.Store.{Env, eval, eval-Grows, length-Grows, eval-terminal, node_at-lt, Above}
use l4_ide.Robdd.Validity.{IsValid, Steps-refl, terminal_at}
use l4_ide.Robdd.Yield.{Yields, Yields-change, Yields-after}
use l4_ide.Robdd.Correct.{neg-Yields, apply-Yields, var-Yields}
use l4_ide.DecisionQuery.{compile, compile_all, compile_var}

-- No function call, and an index for every variable.
unfoldable mutual
  pub IsCompilable : Map ℕ ℕ → Expr → Type 0
  IsCompilable idx (and_e id xs) = AreCompilable idx xs
  IsCompilable idx (or_e id xs) = AreCompilable idx xs
  IsCompilable idx (not_e id x) = IsCompilable idx x
  IsCompilable idx (ubool_var v) = (i : ℕ) × (get v.name.unique idx ≡ some i)
  IsCompilable idx (true_e id n) = Unit
  IsCompilable idx (false_e id n) = Unit
  IsCompilable idx (app f xs) = ⊥
  IsCompilable idx (inert_e i) = Unit

  pub AreCompilable : Map ℕ ℕ → Exprs → Type 0
  AreCompilable idx nil = Unit
  AreCompilable idx (cons x xs) = IsCompilable idx x × AreCompilable idx xs

-- The value of each unique, when the diagram is read at the values of the indices.
abbrev pub from_index : Map ℕ ℕ → Env → ℕ → Bool
from_index idx ρ u = elim (get u idx) [ some i ↦ ρ i | none ↦ false ]

abbrev pub ExprYields : Map ℕ ℕ → (ℕ → Bool) → Expr → Bdd → ℕ × Bdd → Type 0
ExprYields idx calls e s = Yields s (λ _. ⊥) (λ ρ. truth (from_index idx ρ) calls e)

abbrev all_of : Op → (ℕ → Bool) → (ℕ → Bool) → Exprs → Bool
all_of conj = all_true
all_of disj = any_true

all_of-nil : (op : Op) (σ calls : ℕ → Bool) (b : Bool) → b ≡ op_eval op b (all_of op σ calls nil)
unfolding truth
all_of-nil conj σ calls b = ground arith
all_of-nil disj σ calls b = ground arith

all_of-cons :
    (op : Op) (σ calls : ℕ → Bool) (x : Expr) (xs : Exprs) (a : Bool)
    → op_eval op (op_eval op a (truth σ calls x)) (all_of op σ calls xs)
      ≡ op_eval op a (all_of op σ calls (cons x xs))
unfolding truth
all_of-cons conj σ calls x xs a = ground arith
all_of-cons disj σ calls x xs a = ground arith

terminal-Yields : (b : Bool) (s : Bdd) → IsValid s → Yields s (λ _. ⊥) (λ _. b) (terminal_id b, s)
terminal-Yields b s valid =
    let at = terminal_at valid.store b in
    record {
      steps = Steps-refl valid;
      computes = record {
        inside = node_at-lt _ s.nodes at;
        value = λ ρ. eval-terminal ρ (terminal_id b) s.nodes at;
        above = λ v h. absurd h;
      };
    }

inert-Yields :
    (c : InertContext) (s : Bdd)
    → IsValid s
    → Yields s (λ _. ⊥) (λ _. inert_value c) (if inert_value c then true_id else false_id, s)
inert-Yields inert_and s valid = terminal-Yields true s valid
inert-Yields inert_or s valid = terminal-Yields false s valid

-- A call that is followed by another: both results are in the last tables.
bind_run :
    {A B : Type 0} (m : M A) (f : A → M B) {a : A} {s t : Bdd}
    → m s ≡ ok (a, t)
    → (m >>= f) s ≡ f a t
bind_run m f e = rw (e, ◌>>=◌)

compile_var-run :
    (idx : Map ℕ ℕ) (u : ℕ) {i : ℕ} (s : Bdd) → get u idx ≡ some i → compile_var idx u s ≡ var i s
unfolding compile_var
compile_var-run idx u s e = rw (e, compile_var)

module _ (idx : Map ℕ ℕ) (calls : ℕ → Bool) where
  -- One round of `reduce`: the argument is compiled, and then joined to the accumulator.
  round-Yields :
      (op : Op) (x : Expr) {acc c a : ℕ} {s t u : Bdd}
      → acc < length s.nodes
      → ExprYields idx calls x s (c, t)
      → Yields t
          (λ v. Above v (node_at acc t.nodes) × Above v (node_at c t.nodes))
          (λ ρ. op_eval op (eval ρ acc t.nodes) (eval ρ c t.nodes))
          (a, u)
      → Yields s
          (λ _. ⊥)
          (λ ρ. op_eval op (eval ρ acc s.nodes) (truth (from_index idx ρ) calls x))
          (a, u)
  round-Yields op x inside y z =
      Yields-change (Yields-after y.steps z)
        (λ ρ. rw (eval-Grows ρ y.steps.grows inside, y.computes.value ρ)) (λ v h. absurd h)

  mutual
    unfolding compile IsCompilable truth

    pub compile-Yields :
        (e : Expr) (s : Bdd)
        → IsCompilable idx e
        → IsValid s
        → Returns (compile idx e s) (ExprYields idx calls e s)
    compile-Yields (true_e id n) s h valid = (_, refl, terminal-Yields true s valid)
    compile-Yields (false_e id n) s h valid = (_, refl, terminal-Yields false s valid)
    compile-Yields (inert_e i) s h valid = (_, refl, inert-Yields i.context s valid)
    compile-Yields (app f xs) s h valid = absurd h
    compile-Yields (ubool_var v) s (i, at) valid =
        let (p, run, y) = var-Yields i s valid in
        (
          p,
          compile_var-run idx v.name.unique s at ∙ run,
          Yields-change y (λ ρ. rw (at, from_index)) (λ v h. absurd h),
        )
    compile-Yields (not_e id x) s h valid =
        let ((c, t), run_x, y) = compile-Yields x s h valid in
        let (p, run, z) = neg-Yields c t y.steps.valid y.computes.inside in
        (
          p,
          bind_run (compile idx x) neg run_x ∙ run,
          Yields-change (Yields-after y.steps z) (λ ρ. ap not (y.computes.value ρ))
              (λ v h. absurd h),
        )
    compile-Yields (and_e id xs) s h valid =
        let start = terminal-Yields true s valid in
        let (p, run, y) = compile_all-Yields xs conj true_id s h valid start.computes.inside in
        (p, run, Yields-change y (λ ρ. rw (start.computes.value ρ)) (λ v h. absurd h))
    compile-Yields (or_e id xs) s h valid =
        let start = terminal-Yields false s valid in
        let (p, run, y) = compile_all-Yields xs disj false_id s h valid start.computes.inside in
        (p, run, Yields-change y (λ ρ. rw (start.computes.value ρ)) (λ v h. absurd h))

    pub compile_all-Yields :
        (xs : Exprs) (op : Op) (acc : ℕ) (s : Bdd)
        → AreCompilable idx xs
        → IsValid s
        → acc < length s.nodes
        → Returns (compile_all idx op acc xs s) (
            Yields s
              (λ _. ⊥)
              (λ ρ. op_eval op (eval ρ acc s.nodes) (all_of op (from_index idx ρ) calls xs)))
    compile_all-Yields nil op acc s h valid inside = (
      (acc, s),
      refl,
      record {
        steps = Steps-refl valid;
        computes = record {
          inside = inside;
          value = λ ρ. all_of-nil op (from_index idx ρ) calls (eval ρ acc s.nodes);
          above = λ v h. absurd h;
        };
      },
    )
    compile_all-Yields (cons x xs) op acc s (hx, hxs) valid inside =
        let ((c, t), run_x, y) = compile-Yields x s hx valid in
        let in_acc : acc < length t.nodes = omega (arith, length-Grows y.steps.grows) in
        let ((a, u), run_a, z) = apply-Yields op acc c t y.steps.valid in_acc y.computes.inside in
        let w = round-Yields op x inside y z in
        let (p, run, r) = compile_all-Yields xs op a u hxs w.steps.valid w.computes.inside in
        (
          p,
          bind_run (compile idx x) _ run_x ∙ (bind_run (apply op acc c) _ run_a ∙ run),
          Yields-change (Yields-after w.steps r)
              (λ ρ.
                rw (w.computes.value ρ)
                  (all_of-cons op (from_index idx ρ) calls x xs (eval ρ acc s.nodes)))
              (λ v h. absurd h),
        )
