-- ===== src/Robdd/Neg.antt =====
-- `neg` returns, and the node that it returns computes the negation.
use l4_ide.Prelude.{
  ℕ, suc, zero, ◌<◌, if◌then◌else◌, length, ◌≡◌, refl, Returns, Bool, true, false, not, arith, get,
  set, get-set_cases, nat_key, some, inl, inr, Option-cases, ok,
}
use l4_ide.Robdd.{Bdd, Node, terminal, node, terminal_id, node_at, mk, M, ◌>>=◌, neg_fuel, neg_node}
use l4_ide.Robdd.Store.{
  eval, Above, node_at-total, node_at-Grows, eval-Grows, length-Grows, eval-node, eval-terminal,
  node_at-lt, get_node_run,
}
use l4_ide.Robdd.Validity.{terminal_at, IsValid, Steps-refl, Computes-change}
use l4_ide.Robdd.Yield.{Yields, Yields-change, join-Yields}

-- What `neg` promises, in terms of the tables that it started from.
abbrev pub NegYields : ℕ → Bdd → ℕ × Bdd → Type 0
NegYields id s = Yields s (λ v. Above v (node_at id s.nodes)) (λ ρ. not (eval ρ id s.nodes))

remember_neg-Yields :
    (s t : Bdd) (id r : ℕ)
    → id < length s.nodes
    → NegYields id s (r, t)
    → NegYields id s (r, record t { neg_memo = set id r t.neg_memo })
remember_neg-Yields s t id r inside y =
    let v = y.steps.valid in
    let g = y.steps.grows in
    record {
      steps = record {
        valid = record {
          store = v.store;
          negs = λ id' r' e. elim (get-set_cases id' id r r' t.neg_memo e) [
            | inl (same, here) ↦
                rw (same, ← here)
                  (
                    omega (arith, length-Grows g),
                    Computes-change y.computes (λ ρ. rw (eval-Grows ρ g inside))
                        (λ w a. rw (node_at-Grows g inside) at a),
                  )
            | inr before ↦ v.negs id' r' before
          ];
          applies = v.applies;
          restricts = v.restricts;
        };
        grows = g;
      };
      computes = y.computes;
    }

not_if : (b x y : Bool) → (if b then not x else not y) ≡ not (if b then x else y)
not_if true x y = refl
not_if false x y = refl

neg_node-run :
    (rec : ℕ → M ℕ) (id v : ℕ) {low high l h r : ℕ} {s t u w : Bdd}
    → rec low s ≡ ok (l, t)
    → rec high t ≡ ok (h, u)
    → mk v l h u ≡ ok (r, w)
    → neg_node rec id (node v low high) s ≡ ok (r, record w { neg_memo = set id r w.neg_memo })
unfolding neg_node
neg_node-run rec id v p q m = rw (p, ◌>>=◌, q, m)

-- One call, with the promise of the recursive calls on smaller ids.
module _ (rec : ℕ → M ℕ) (id : ℕ)
    (ih : (i : ℕ) (s : Bdd)
      → i < id
      → IsValid s
      → i < length s.nodes
      → Returns (rec i s) (NegYields i s))
    (s : Bdd) (valid : IsValid s) where
  neg_node-Yields :
      (n : Node) → node_at id s.nodes ≡ some n → Returns (neg_node rec id n s) (NegYields id s)
  unfolding neg_node
  neg_node-Yields (terminal b) e =
      let at = terminal_at valid.store (not b) in
      (
        _,
        refl,
        remember_neg-Yields s s id (terminal_id (not b)) (node_at-lt id s.nodes e) (record {
          steps = Steps-refl valid;
          computes = record {
            inside = node_at-lt _ s.nodes at;
            value = λ ρ.
                rw (eval-terminal ρ id s.nodes e)
                  (eval-terminal ρ (terminal_id (not b)) s.nodes at);
            above = λ v _. rw at tt;
          };
        }),
      )
  neg_node-Yields (node v low high) e =
      let p = valid.store.shaped id v low high e in
      let inside = node_at-lt id s.nodes e in
      let in_low : low < length s.nodes = omega (arith, p.low_below) in
      let in_high : high < length s.nodes = omega (arith, p.high_below) in
      let ((l, t), run_l, yl) = ih low s p.low_below valid in_low in
      let gl = yl.steps.grows in
      let ((h, u), run_h, yh) =
        ih high t p.high_below yl.steps.valid (omega (arith, length-Grows gl)) in
      let ((r, w), run_m, ym) =
        join-Yields v yl yh p.low_after (rw (node_at-Grows gl in_high) p.high_after) in
      (
        (r, _),
        neg_node-run rec id v run_l run_h run_m,
        remember_neg-Yields s w id r inside (
            Yields-change ym
              (λ ρ.
                rw (eval-node ρ id s.nodes e p.low_below p.high_below, eval-Grows ρ gl in_high)
                  (not_if (ρ v) (eval ρ high s.nodes) (eval ρ low s.nodes)))
              (λ x a. rw e at a)),
      )

pub neg_fuel-Yields :
    (fuel id : ℕ) (s : Bdd)
    → id < fuel
    → IsValid s
    → id < length s.nodes
    → Returns (neg_fuel fuel id s) (NegYields id s)
unfolding neg_fuel
neg_fuel-Yields zero id s h valid inside = absurd (omega arith)
neg_fuel-Yields (suc fuel) id s h valid inside = elim (Option-cases (get id s.neg_memo)) [
  | inr (r, found) ↦ (
    (r, s),
    rw (found, neg_fuel),
    record { steps = Steps-refl valid; computes = (valid.negs id r found).1 },
  )
  | inl missing ↦
      let (n, at) = node_at-total id s.nodes inside in
      let (p, run, y) =
        neg_node-Yields (neg_fuel fuel) id
          (λ i t lt v q. neg_fuel-Yields fuel i t (omega (arith, lt)) v q) s valid n at in
      (p, rw (missing, neg_fuel, ◌>>=◌, get_node_run id s at) run, y)
]
