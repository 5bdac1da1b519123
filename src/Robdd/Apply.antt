-- ===== src/Robdd/Apply.antt =====
-- `apply` returns, and the node that it returns computes the operation.
pub mod Cofactors
use l4_ide.Prelude.{
  ℕ, suc, zero, ◌<◌, ◌≤◌, ◌+◌, if◌then◌else◌, length, ◌≡◌, refl, sym, ◌∙◌, Returns, Bool, true,
  false, not, arith, get, set, get-set_cases, nat_key, bool_key, pair_key, some, none, inl, inr,
  ◌==◌, ==_true, ==_false, ◌&&◌, Bool-cases, Option-cases, ok, Option, ap, if_both, ◌⊎◌, List, Map,
}
use l4_ide.Robdd.{
  Bdd, Node, terminal, node, terminal_id, node_at, mk, M, ◌>>=◌, apply_fuel, apply_nodes, Op, conj,
  disj, op_eval, op_tag, cofactors, finite, min_var, var_of, is_terminal, true_id, NodeKey,
}
use l4_ide.Robdd.Store.{
  Env, eval, Above, Above-weaken, node_at-total, node_at-Grows, eval-Grows, length-Grows, eval-node,
  eval-terminal, node_at-lt, get_node_run,
}
use l4_ide.Robdd.Validity.{
  terminal_at, terminal_value, IsValid, IsStore, Steps, Steps-refl, Computes, Computes-change,
}
use l4_ide.Robdd.Yield.{Yields, Yields-change, join-Yields}
use Cofactors.{cofactors-Splits, cofactors_lt, Tops, top_lem, BothTerminal}

abbrev pub ApplyYields : Op → ℕ → ℕ → Bdd → ℕ × Bdd → Type 0
ApplyYields op a b s =
    Yields s (λ v. Above v (node_at a s.nodes) × Above v (node_at b s.nodes))
      (λ ρ. op_eval op (eval ρ a s.nodes) (eval ρ b s.nodes))

-- The tag tells the two operations apart.
op_tag-injective : (op op' : Op) → op_tag op ≡ op_tag op' → op ≡ op'
op_tag-injective conj conj e = refl
op_tag-injective conj disj e = cc
op_tag-injective disj conj e = cc
op_tag-injective disj disj e = refl

remember_apply-Yields :
    (op : Op) (a b : ℕ) (s t : Bdd) (r : ℕ)
    → a < length s.nodes
    → b < length s.nodes
    → ApplyYields op a b s (r, t)
    → ApplyYields op a b s (r, record t { apply_memo = set (op_tag op, (a, b)) r t.apply_memo })
remember_apply-Yields op a b s t r in_a in_b y =
    let v = y.steps.valid in
    let g = y.steps.grows in
    record {
      steps = record {
        valid = record {
          store = v.store;
          negs = v.negs;
          applies = λ op' a' b' r' e.
              elim (get-set_cases (op_tag op', (a', b')) (op_tag op, (a, b)) r r' t.apply_memo e) [
                | inl (same, here) ↦
                    let same_op : op' ≡ op = op_tag-injective op' op (cc) in
                    let same_a : a' ≡ a = cc in
                    let same_b : b' ≡ b = cc in
                    rw (same_op, same_a, same_b, ← here)
                      (
                        omega (arith, length-Grows g),
                        omega (arith, length-Grows g),
                        Computes-change y.computes
                            (λ ρ. rw (eval-Grows ρ g in_a, eval-Grows ρ g in_b))
                            (λ w h. (
                              rw (node_at-Grows g in_a) at (h.0),
                              rw (node_at-Grows g in_b) at (h.1),
                            )),
                      )
                | inr before ↦ v.applies op' a' b' r' before
              ];
          restricts = v.restricts;
        };
        grows = g;
      };
      computes = y.computes;
    }

op_if :
    (op : Op) (c x y x' y' : Bool)
    → (if c then op_eval op x x' else op_eval op y y')
      ≡ op_eval op (if c then x else y) (if c then x' else y')
op_if op true x y x' y' = refl
op_if op false x y x' y' = refl

apply_nodes-run :
    (rec : ℕ → ℕ → M ℕ) (op : Op) (a b : ℕ) (an bn : Node) (top : ℕ) {l h r : ℕ} {s t u w : Bdd}
    → ((x : Bdd) → finite (min_var (var_of an) (var_of bn)) x ≡ ok (top, x))
    → rec (cofactors an top a).0 (cofactors bn top b).0 s ≡ ok (l, t)
    → rec (cofactors an top a).1 (cofactors bn top b).1 t ≡ ok (h, u)
    → mk top l h u ≡ ok (r, w)
    → apply_nodes rec op a b an bn s
      ≡ ok (r, record w { apply_memo = set (op_tag op, (a, b)) r w.apply_memo })
unfolding apply_nodes
apply_nodes-run rec op a b an bn top {s = s} f p q m = rw (f s, ◌>>=◌, p, q, m)

pub smaller_pair :
    {ns : List Node} {table : Map NodeKey ℕ} (store : IsStore ns table) (a b : ℕ) {top : ℕ}
    (an bn : Node)
    → node_at a ns ≡ some an
    → node_at b ns ≡ some bn
    → Tops an bn top
    → ((cofactors an top a).0 + (cofactors bn top b).0 < a + b)
      × ((cofactors an top a).1 + (cofactors bn top b).1 < a + b)
smaller_pair store a b {top} an bn ea eb tops =
    let sa = cofactors-Splits store top a an ea tops.first in
    let sb = cofactors-Splits store top b bn eb tops.second in
    elim tops.attained [
      | inl at ↦
          let p = cofactors_lt store top a an ea at in
          (omega (arith, p.0, sa.low_le, sb.low_le), omega (arith, p.1, sa.high_le, sb.high_le))
      | inr at ↦
          let p = cofactors_lt store top b bn eb at in
          (omega (arith, p.0, sa.low_le, sb.low_le), omega (arith, p.1, sa.high_le, sb.high_le))
    ]

below_var : (n : Node) (v w : ℕ) → var_of n ≡ some v → Above w (some n) → w < v
below_var (terminal b) v w e a = absurd (cc)
below_var (node u l h) v w e a = ground arith

-- A variable before both nodes is before the top variable.
below_top :
    (ns : List Node) (a b : ℕ) {top : ℕ} (an bn : Node)
    → node_at a ns ≡ some an
    → node_at b ns ≡ some bn
    → Tops an bn top
    → (w : ℕ) → Above w (node_at a ns)
    → Above w (node_at b ns)
    → w < top
below_top ns a b {top} an bn ea eb tops w p q = elim tops.attained [
  | inl at ↦ below_var an top w at (rw ea at p)
  | inr at ↦ below_var bn top w at (rw eb at q)
]

-- One call past the memo, with the promise of the recursive calls on smaller pairs.
module _ (rec : ℕ → ℕ → M ℕ) (op : Op) (a b : ℕ)
    (ih : (i j : ℕ) (s : Bdd)
      → i + j < a + b
      → IsValid s
      → i < length s.nodes
      → j < length s.nodes
      → Returns (rec i j s) (ApplyYields op i j s))
    (s : Bdd) (valid : IsValid s) where
  apply_nodes-Yields :
      (an bn : Node)
      → node_at a s.nodes ≡ some an
      → node_at b s.nodes ≡ some bn
      → ¬ BothTerminal an bn
      → Returns (apply_nodes rec op a b an bn s) (ApplyYields op a b s)
  apply_nodes-Yields an bn ea eb nt =
      let (top, tops) = top_lem an bn nt in
      let in_a = node_at-lt a s.nodes ea in
      let in_b = node_at-lt b s.nodes eb in
      let sa = cofactors-Splits valid.store top a an ea tops.first in
      let sb = cofactors-Splits valid.store top b bn eb tops.second in
      let (al, ah) = cofactors an top a in
      let (bl, bh) = cofactors bn top b in
      let smaller = smaller_pair valid.store a b an bn ea eb tops in
      let ((l, t), run_l, yl) =
        ih al bl s smaller.0 valid (omega (arith, sa.low_le)) (omega (arith, sb.low_le)) in
      let gl = yl.steps.grows in
      let in_ah : ah < length s.nodes = omega (arith, sa.high_le) in
      let in_bh : bh < length s.nodes = omega (arith, sb.high_le) in
      let ((h, u), run_h, yh) =
        ih ah bh t smaller.1 yl.steps.valid (omega (arith, length-Grows gl))
          (omega (arith, length-Grows gl)) in
      let ((r, w), run_m, ym) =
        join-Yields top yl yh (sa.low_after, sb.low_after)
          (rw (node_at-Grows gl in_ah) sa.high_after, rw (node_at-Grows gl in_bh) sb.high_after) in
      (
        (r, _),
        apply_nodes-run rec op a b an bn top tops.run run_l run_h run_m,
        remember_apply-Yields op a b s w r in_a in_b (
            Yields-change ym
              (λ ρ.
                rw (sa.value ρ, sb.value ρ, eval-Grows ρ gl in_ah, eval-Grows ρ gl in_bh)
                  (op_if op (ρ top) (eval ρ ah s.nodes) (eval ρ al s.nodes) (eval ρ bh s.nodes)
                    (eval ρ bl s.nodes)))
              (λ x p. below_top s.nodes a b an bn ea eb tops x p.0 p.1)),
      )

terminals-Yields :
    (op : Op) (a b : ℕ) (s : Bdd)
    → IsValid s
    → is_terminal a ≡ true
    → is_terminal b ≡ true
    → ApplyYields op a b s (terminal_id (op_eval op (a == true_id) (b == true_id)), s)
terminals-Yields op a b s valid ta tb =
    let res = op_eval op (a == true_id) (b == true_id) in
    let at = terminal_at valid.store res in
    record {
      steps = Steps-refl valid;
      computes = record {
        inside = node_at-lt _ s.nodes at;
        value = λ ρ.
            rw (terminal_value valid.store a ta ρ, terminal_value valid.store b tb ρ)
              (eval-terminal ρ (terminal_id res) s.nodes at);
        above = λ v _. rw at tt;
      };
    }

op_idem : (op : Op) (x : Bool) → x ≡ op_eval op x x
op_idem conj x = ground arith
op_idem disj x = ground arith

not-BothTerminal :
    {ns : List Node} {table : Map NodeKey ℕ} (store : IsStore ns table) (a b : ℕ) (an bn : Node)
    → node_at a ns ≡ some an
    → node_at b ns ≡ some bn
    → (is_terminal a && is_terminal b) ≡ false
    → ¬ BothTerminal an bn
not-BothTerminal store a b (terminal x) (terminal y) ea eb h _ =
    ground (arith, store.only_two a x, store.only_two b y)
not-BothTerminal store a b (terminal x) (node v l h') ea eb h c = c
not-BothTerminal store a b (node v l h') bn ea eb h c = c

pub apply_fuel-Yields :
    (fuel : ℕ) (op : Op) (a b : ℕ) (s : Bdd)
    → a + b < fuel
    → IsValid s
    → a < length s.nodes
    → b < length s.nodes
    → Returns (apply_fuel fuel op a b s) (ApplyYields op a b s)
unfolding apply_fuel
apply_fuel-Yields zero op a b s h valid in_a in_b = absurd (omega arith)
apply_fuel-Yields (suc fuel) op a b s h valid in_a in_b = elim (Bool-cases (a == b)) [
  | inl e ↦
      let same = ==_true a b e in
      (
        (a, s),
        rw (e, apply_fuel),
        record {
          steps = Steps-refl valid;
          computes = record {
            inside = in_a;
            value = λ ρ. rw (← same) (op_idem op (eval ρ a s.nodes));
            above = λ v p. p.0;
          };
        },
      )
  | inr ne ↦ elim (Bool-cases (is_terminal a && is_terminal b)) [
    | inl e ↦ (
      (_, s),
      rw (ne, apply_fuel, e),
      terminals-Yields op a b s valid (ground arith) (ground arith),
    )
    | inr inner ↦ elim (Option-cases (get (op_tag op, (a, b)) s.apply_memo)) [
      | inr (r, found) ↦ (
        (r, s),
        rw (ne, apply_fuel, inner, found),
        record { steps = Steps-refl valid; computes = (valid.applies op a b r found).2 },
      )
      | inl missing ↦
          let (an, ea) = node_at-total a s.nodes in_a in
          let (bn, eb) = node_at-total b s.nodes in_b in
          let (p, run, y) =
            apply_nodes-Yields (apply_fuel fuel op) op a b
              (λ i j t lt v p q. apply_fuel-Yields fuel op i j t (omega (arith, lt)) v p q) s valid
              an bn ea eb (not-BothTerminal valid.store a b an bn ea eb inner) in
          (
            p,
            rw (ne, apply_fuel, inner, missing, ◌>>=◌, get_node_run a s ea, get_node_run b s eb)
                run,
            y,
          )
    ]
  ]
]
