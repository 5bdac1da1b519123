-- ===== src/Robdd/Correct.antt =====
-- The public operations of `ROBDD`: they return, keep the tables valid and compute what they say.
use l4_ide.Prelude.{
  ℕ, suc, ◌<◌, ◌+◌, length, ◌≡◌, refl, sym, ◌∙◌, ◌↔◌, Returns, Bool, true, false, arith, get,
  nat_key, bool_key, pair_key, list_key, some, Bool-cases, inl, inr, if◌then◌else◌,
}
use l4_ide.Robdd.{
  Bdd, Op, new_bdd, var, neg, apply, restrict, support, node_at, has, Bindings, terminal_id, node,
  terminal,
}
use l4_ide.Robdd.Store.{Env, eval, eval-terminal, node_at-lt}
use l4_ide.Robdd.Validity.{IsValid}
use l4_ide.Robdd.Yield.{Yields}
use l4_ide.Robdd.Mk.{mk-Makes}
use l4_ide.Robdd.Neg.{NegYields, neg_fuel-Yields}
use l4_ide.Robdd.Apply.{ApplyYields, apply_fuel-Yields}
use l4_ide.Robdd.Restrict.{RestrictYields, restrict_fuel-Yields}
use l4_ide.Robdd.Canonical.{canonical}
use l4_ide.Robdd.Occurs.{DependsOn, Occurs-DependsOn, absent}
use l4_ide.Robdd.Support.{support_fuel-Occurs}

new_node_at : (id v l h : ℕ) → node_at id new_bdd.nodes ≡ some (node v l h) → ⊥
unfolding new_bdd node_at
new_node_at id v l h e = ground arith

new_only_two :
    (id : ℕ) (b : Bool) → node_at id new_bdd.nodes ≡ some (terminal b) → id ≡ terminal_id b
unfolding new_bdd node_at
new_only_two id b e = ground arith

pub new_bdd-IsValid : IsValid new_bdd
unfolding new_bdd node_at get
new_bdd-IsValid = record {
  store = record {
    false_at = refl;
    true_at = refl;
    only_two = new_only_two;
    shaped = λ id v l h e. absurd (new_node_at id v l h e);
    listed = λ id v l h e. absurd (new_node_at id v l h e);
    filed = λ id v l h e. cc;
  };
  negs = λ id r e. cc;
  applies = λ op a b r e. cc;
  restricts = λ bs id r e. cc;
}

-- In valid tables, `neg` at an id that is there returns, for every content of the memo tables; the
-- tables stay valid and keep every node; and the node returned computes the negation of the function
-- of the id, with no variable before those of the id.
pub neg-Yields :
    (id : ℕ) (s : Bdd) → IsValid s → id < length s.nodes → Returns (neg id s) (NegYields id s)
unfolding neg
neg-Yields id s valid inside = neg_fuel-Yields (suc id) id s (omega arith) valid inside

-- In valid tables, `apply` at two ids that are there returns; the tables stay valid and keep every
-- node; and the node returned computes the conjunction or disjunction of the two functions, with no
-- variable before those of both ids.
pub apply-Yields :
    (op : Op) (a b : ℕ) (s : Bdd)
    → IsValid s
    → a < length s.nodes
    → b < length s.nodes
    → Returns (apply op a b s) (ApplyYields op a b s)
unfolding apply
apply-Yields op a b s valid in_a in_b =
    apply_fuel-Yields (suc (a + b)) op a b s (omega arith) valid in_a in_b

-- In valid tables, `restrict` at an id that is there returns; the tables stay valid and keep every
-- node; and the node returned computes the function of the id with the bound variables set to their
-- bindings, with no variable before those of the id.
pub restrict-Yields :
    (bs : Bindings) (id : ℕ) (s : Bdd)
    → IsValid s
    → id < length s.nodes
    → Returns (restrict bs id s) (RestrictYields bs id s)
unfolding restrict
restrict-Yields bs id s valid inside =
    restrict_fuel-Yields (suc id) bs id s (omega arith) valid inside

-- `v` is not under a node whose variables come after it, so the node of a variable is ordered.
pub var-Yields :
    (v : ℕ) (s : Bdd) → IsValid s → Returns (var v s) (Yields s (λ w. w < v) (λ ρ. ρ v))
unfolding var
var-Yields v s valid =
    let at0 = valid.store.false_at in
    let at1 = valid.store.true_at in
    let (p, run, m) =
      mk-Makes s valid v 0 1 (node_at-lt 0 s.nodes at0) (node_at-lt 1 s.nodes at1) (rw at0 tt)
        (rw at1 tt) in
    let t0 = m.steps.valid.store.false_at in
    let t1 = m.steps.valid.store.true_at in
    (
      p,
      run,
      record {
        steps = m.steps;
        computes = record {
          inside = m.computes.inside;
          value = λ ρ.
              m.computes.value ρ
              ∙ rw (eval-terminal ρ 0 p.1.nodes t0, eval-terminal ρ 1 p.1.nodes t1) (if_self (ρ v));
          above = m.computes.above;
        };
      },
    )
  where
    if_self : (b : Bool) → (if b then true else false) ≡ b
    if_self true = refl
    if_self false = refl

-- In valid tables, two ids that are there are equal exactly if they stand for the same function.
pub canonical_ids :
    (s : Bdd) (a b : ℕ)
    → IsValid s
    → a < length s.nodes
    → b < length s.nodes
    → (a ≡ b) ↔ ((ρ : Env) → eval ρ a s.nodes ≡ eval ρ b s.nodes)
canonical_ids s a b valid in_a in_b = (λ e ρ. rw e, canonical valid.store a b in_a in_b)

-- In valid tables, `support` at an id that is there returns, changes no table, and gives exactly the
-- variables on which the function of the id depends.
pub support-DependsOn :
    (id : ℕ) (s : Bdd)
    → IsValid s
    → id < length s.nodes
    → Returns
        (support id s)
        (λ p. (p.1 ≡ s) × ((v : ℕ) → (has v p.0 ≡ true) ↔ DependsOn s.nodes v id))
unfolding support
support-DependsOn id s valid inside =
    let (f, run, same) = support_fuel-Occurs valid.store id inside in
    (
      (f.vars, s),
      rw (run, support),
      (
        refl,
        λ v. (
          λ e. Occurs-DependsOn valid.store ((same v).0 e),
          λ d. elim (Bool-cases (has v f.vars)) [
            | inl e ↦ e
            | inr e ↦
                absurd (absent valid.store id v inside (λ o. false_true (sym e ∙ (same v).1 o)) d)
          ],
        ),
      ),
    )
  where
    false_true : {P : Type 0} → false ≡ true → P
    false_true e = cc
