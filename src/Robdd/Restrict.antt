-- ===== src/Robdd/Restrict.antt =====
-- `restrict` returns, and the node that it returns computes the function with the variables bound.
use l4_ide.Prelude.{
  ℕ, suc, zero, ◌<◌, if◌then◌else◌, length, ◌≡◌, refl, sym, ◌∙◌, Returns, Bool, true, false, arith,
  get, set, get-set_cases, nat_key, bool_key, pair_key, list_key, some, none, inl, inr, ◌==◌, ◌||◌,
  Bool-cases, Option-cases, ok, Option, ap, fun_ext, [], ◌∷◌,
}
use l4_ide.Robdd.{
  Bdd, Node, terminal, node, node_at, mk, M, ◌>>=◌, restrict_fuel, restrict_node, Bindings,
  bindings_key, insert_binding, is_terminal, is_empty,
}
use l4_ide.Robdd.Store.{
  Env, eval, Above, Above-weaken, node_at-total, node_at-Grows, eval-Grows, length-Grows, eval-node,
  eval-terminal, node_at-lt, get_node_run,
}
use l4_ide.Robdd.Validity.{IsValid, Steps-refl, Computes-change, override, terminal_value}
use l4_ide.Robdd.Yield.{Yields, Yields-change, join-Yields}

get-insert_binding :
    (v : ℕ) (p : ℕ × Bool) (qs : Bindings) → get v (insert_binding p qs) ≡ get v (p ∷ qs)
unfolding insert_binding get
get-insert_binding v (k, x) [] = refl
get-insert_binding v (k, x) ((j, y) ∷ qs) = ground (arith, get-insert_binding v (k, x) qs)

-- The sorted bindings bind as the bindings do.
get-bindings_key : (v : ℕ) (bs : Bindings) → get v (bindings_key bs) ≡ get v bs
unfolding bindings_key get
get-bindings_key v [] = refl
get-bindings_key v ((k, x) ∷ bs) =
    get-insert_binding v (k, x) (bindings_key bs)
    ∙ ap (λ (o : Option Bool). if v == k then some x else o) (get-bindings_key v bs)

-- Bindings with one key override alike.
override_congr :
    (bs cs : Bindings)
    → bindings_key bs ≡ bindings_key cs
    → (ρ : Env) → override bs ρ ≡ override cs ρ
override_congr bs cs e ρ = fun_ext (λ v.
    let same : get v bs ≡ get v cs =
      sym (get-bindings_key v bs) ∙ ap (get v) e ∙ get-bindings_key v cs in
    rw (same, override))

abbrev pub RestrictYields : Bindings → ℕ → Bdd → ℕ × Bdd → Type 0
RestrictYields bs id s =
    Yields s (λ v. Above v (node_at id s.nodes)) (λ ρ. eval (override bs ρ) id s.nodes)

remember_restrict-Yields :
    (bs : Bindings) (id : ℕ) (s t : Bdd) (r : ℕ)
    → id < length s.nodes
    → RestrictYields bs id s (r, t)
    → RestrictYields bs id s
        (r, record t { restrict_memo = set (id, bindings_key bs) r t.restrict_memo })
remember_restrict-Yields bs id s t r inside y =
    let v = y.steps.valid in
    let g = y.steps.grows in
    record {
      steps = record {
        valid = record {
          store = v.store;
          negs = v.negs;
          applies = v.applies;
          restricts = λ cs id' r' e.
              elim (get-set_cases (id', bindings_key cs) (id, bindings_key bs) r r' t.restrict_memo
                e) [
                  | inl (same, here) ↦
                      let same_id : id' ≡ id = cc in
                      let same_key : bindings_key cs ≡ bindings_key bs = cc in
                      rw (same_id, ← here)
                        (
                          omega (arith, length-Grows g),
                          Computes-change y.computes
                              (λ ρ.
                                rw (override_congr cs bs same_key ρ)
                                  (sym (eval-Grows (override bs ρ) g inside)))
                              (λ w a. rw (node_at-Grows g inside) at a),
                        )
                  | inr before ↦ v.restricts cs id' r' before
                ];
        };
        grows = g;
      };
      computes = y.computes;
    }

restrict_bound-run :
    (rec : ℕ → M ℕ) (bs : Bindings) (id v low high : ℕ) (x : Bool) {r : ℕ} {s t : Bdd}
    → get v bs ≡ some x
    → rec (if x then high else low) s ≡ ok (r, t)
    → restrict_node rec bs id (node v low high) s
      ≡ ok (r, record t { restrict_memo = set (id, bindings_key bs) r t.restrict_memo })
unfolding restrict_node
restrict_bound-run rec bs id v low high x e p = rw (e, restrict_node, ◌>>=◌, p)

restrict_free-run :
    (rec : ℕ → M ℕ) (bs : Bindings) (id v : ℕ) {low high l h r : ℕ} {s t u w : Bdd}
    → get v bs ≡ none
    → rec low s ≡ ok (l, t)
    → rec high t ≡ ok (h, u)
    → mk v l h u ≡ ok (r, w)
    → restrict_node rec bs id (node v low high) s
      ≡ ok (r, record w { restrict_memo = set (id, bindings_key bs) r w.restrict_memo })
unfolding restrict_node
restrict_free-run rec bs id v e p q m = rw (e, restrict_node, ◌>>=◌, p, q, m)

-- One call past the memo, with the promise of the recursive calls on smaller ids.
module _ (rec : ℕ → M ℕ) (bs : Bindings) (id : ℕ)
    (ih : (i : ℕ) (s : Bdd)
      → i < id
      → IsValid s
      → i < length s.nodes
      → Returns (rec i s) (RestrictYields bs i s))
    (s : Bdd) (valid : IsValid s) where
  restrict_node-Yields :
      (n : Node)
      → node_at id s.nodes ≡ some n
      → Returns (restrict_node rec bs id n s) (RestrictYields bs id s)
  restrict_node-Yields (terminal b) e = (
    (id, s),
    unfold restrict_node in refl,
    record {
      steps = Steps-refl valid;
      computes = record {
        inside = node_at-lt id s.nodes e;
        value =
            λ ρ. eval-terminal ρ id s.nodes e ∙ sym (eval-terminal (override bs ρ) id s.nodes e);
        above = λ v a. a;
      };
    },
  )
  restrict_node-Yields (node v low high) e =
      let p = valid.store.shaped id v low high e in
      let inside = node_at-lt id s.nodes e in
      let in_low : low < length s.nodes = omega (arith, p.low_below) in
      let in_high : high < length s.nodes = omega (arith, p.high_below) in
      let split = λ (ρ : Env). eval-node (override bs ρ) id s.nodes e p.low_below p.high_below in
      elim (Option-cases (get v bs)) [
        | inr (true, bound) ↦
            let ((r, t), run, y) = ih high s p.high_below valid in_high in
            (
              (r, _),
              restrict_bound-run rec bs id v low high true bound run,
              remember_restrict-Yields bs id s t r inside (
                  Yields-change y (λ ρ. rw (split ρ, bound, override))
                    (λ w a. Above-weaken (node_at high s.nodes) (rw e at a) p.high_after)),
            )
        | inr (false, bound) ↦
            let ((r, t), run, y) = ih low s p.low_below valid in_low in
            (
              (r, _),
              restrict_bound-run rec bs id v low high false bound run,
              remember_restrict-Yields bs id s t r inside (
                  Yields-change y (λ ρ. rw (split ρ, bound, override))
                    (λ w a. Above-weaken (node_at low s.nodes) (rw e at a) p.low_after)),
            )
        | inl free ↦
            let ((l, t), run_l, yl) = ih low s p.low_below valid in_low in
            let gl = yl.steps.grows in
            let ((h, u), run_h, yh) =
              ih high t p.high_below yl.steps.valid (omega (arith, length-Grows gl)) in
            let ((r, w), run_m, ym) =
              join-Yields v yl yh p.low_after (rw (node_at-Grows gl in_high) p.high_after) in
            (
              (r, _),
              restrict_free-run rec bs id v free run_l run_h run_m,
              remember_restrict-Yields bs id s w r inside (
                  Yields-change ym
                    (λ ρ. rw (split ρ, free, override, eval-Grows (override bs ρ) gl in_high))
                    (λ x a. rw e at a)),
            )
      ]

-- With a terminal or with nothing bound, the node itself is the answer.
early-Yields :
    (bs : Bindings) (id : ℕ) (s : Bdd)
    → IsValid s
    → id < length s.nodes
    → (is_terminal id || is_empty bs) ≡ true
    → RestrictYields bs id s (id, s)
early-Yields bs id s valid inside h = record {
  steps = Steps-refl valid;
  computes = record { inside = inside; value = λ ρ. early_value bs ρ h; above = λ v a. a };
}
  where
    early_value :
        (bs : Bindings) (ρ : Env)
        → (is_terminal id || is_empty bs) ≡ true
        → eval ρ id s.nodes ≡ eval (override bs ρ) id s.nodes
    early_value [] ρ h = unfold get in refl
    early_value (b ∷ bs) ρ h =
        let is_t : is_terminal id ≡ true = ground arith in
        terminal_value valid.store id is_t ρ
        ∙ sym (terminal_value valid.store id is_t (override (b ∷ bs) ρ))

pub restrict_fuel-Yields :
    (fuel : ℕ) (bs : Bindings) (id : ℕ) (s : Bdd)
    → id < fuel
    → IsValid s
    → id < length s.nodes
    → Returns (restrict_fuel fuel bs id s) (RestrictYields bs id s)
unfolding restrict_fuel
restrict_fuel-Yields zero bs id s h valid inside = absurd (omega arith)
restrict_fuel-Yields (suc fuel) bs id s h valid inside =
    elim (Bool-cases (is_terminal id || is_empty bs)) [
      | inl e ↦ ((id, s), rw (e, restrict_fuel), early-Yields bs id s valid inside e)
      | inr inner ↦ elim (Option-cases (get (id, bindings_key bs) s.restrict_memo)) [
        | inr (r, found) ↦ (
          (r, s),
          rw (inner, restrict_fuel, found),
          record { steps = Steps-refl valid; computes = (valid.restricts bs id r found).1 },
        )
        | inl missing ↦
            let (n, at) = node_at-total id s.nodes inside in
            let (p, run, y) =
              restrict_node-Yields (restrict_fuel fuel bs) bs id
                (λ i t lt v q. restrict_fuel-Yields fuel bs i t (omega (arith, lt)) v q) s valid n
                at in
            (p, rw (inner, restrict_fuel, missing, ◌>>=◌, get_node_run id s at) run, y)
      ]
    ]
