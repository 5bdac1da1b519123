-- ===== src/Robdd/Occurs.antt =====
-- The variables under an id, and that they are the ones on which its function depends.
use l4_ide.Prelude.{
  ℕ, suc, zero, ◌<◌, if◌then◌else◌, length, ◌≡◌, sym, ◌∙◌, Bool, true, false, arith, get, nat_key,
  some, inl, inr, ◌⊎◌, ap, fun_ext, List, ◌≢◌, Map,
}
use l4_ide.Robdd.{Node, terminal, node, node_at, NodeKey}
use l4_ide.Robdd.Store.{
  Env, eval, Above, Above-weaken, node_at-total, eval-node, eval-terminal, node_at-lt,
}
use l4_ide.Robdd.Validity.{IsStore}
use l4_ide.Robdd.Apply.Cofactors.{Splits}
use l4_ide.Robdd.Canonical.{assign, assign_other, separate, cofactor_value}

-- A node that tests `v` is reached from `id`.
pub data Occurs (ns : List Node) (v : ℕ) : ℕ → Type 0 where
  here : {id l h : ℕ} → node_at id ns ≡ some (node v l h) → Occurs ns v id
  low : {id w l h : ℕ} → node_at id ns ≡ some (node w l h) → Occurs ns v l → Occurs ns v id
  high : {id w l h : ℕ} → node_at id ns ≡ some (node w l h) → Occurs ns v h → Occurs ns v id

-- The function of `id` takes both values as `v` varies and the other variables are kept.
abbrev pub DependsOn : List Node → ℕ → ℕ → Type 0
DependsOn ns v id = (ρ : Env) × (eval (assign v true ρ) id ns ≢ eval (assign v false ρ) id ns)

pub Occurs-node :
    {ns : List Node} {v id : ℕ} (w l h : ℕ)
    → node_at id ns ≡ some (node w l h)
    → Occurs ns v id
    → (v ≡ w) ⊎ (Occurs ns v l ⊎ Occurs ns v h)
Occurs-node w l h e (here e') = inl (cc)
Occurs-node {ns} {v} w l h e (low {l = l'} e' o) =
    let same : l' ≡ l = cc in inr (inl (rw same at o))
Occurs-node {ns} {v} w l h e (high {h = h'} e' o) =
    let same : h' ≡ h = cc in inr (inr (rw same at o))

pub Occurs-terminal :
    {ns : List Node} {v id : ℕ} (b : Bool) → node_at id ns ≡ some (terminal b) → Occurs ns v id → ⊥
Occurs-terminal b e (here e') = cc
Occurs-terminal b e (low e' o) = cc
Occurs-terminal b e (high e' o) = cc

assign_comm :
    (v w : ℕ) (b c : Bool) (ρ : Env) → v ≢ w → assign v b (assign w c ρ) ≡ assign w c (assign v b ρ)
unfolding get
assign_comm v w b c ρ ne = fun_ext (λ x. ground arith)

module _ {ns : List Node} {table : Map NodeKey ℕ} (store : IsStore ns table) where
  Occurs-Above : {v id : ℕ} (w : ℕ) → Above w (node_at id ns) → Occurs ns v id → w < v
  Occurs-Above w a (here e) = rw e at a
  Occurs-Above {v} w a (low {id = id} {w = x} {l = l} {h = h} e o) =
      let p = store.shaped id x l h e in
      let below : w < x = rw e at a in
      Occurs-Above w (Above-weaken (node_at l ns) below p.low_after) o
  Occurs-Above {v} w a (high {id = id} {w = x} {l = l} {h = h} e o) =
      let p = store.shaped id x l h e in
      let below : w < x = rw e at a in
      Occurs-Above w (Above-weaken (node_at h ns) below p.high_after) o

  node_Splits : {id : ℕ} (w l h : ℕ) → node_at id ns ≡ some (node w l h) → Splits ns w id l h
  node_Splits {id} w l h e =
      let p = store.shaped id w l h e in
      record {
        low_le = omega (arith, p.low_below);
        high_le = omega (arith, p.high_below);
        low_after = p.low_after;
        high_after = p.high_after;
        value = λ ρ. eval-node ρ id ns e p.low_below p.high_below;
      }

  -- What a branch depends on, the node does.
  lift_DependsOn :
      {v w l h : ℕ} (id : ℕ) (c : Bool)
      → node_at id ns ≡ some (node w l h)
      → v ≢ w
      → DependsOn ns v (if c then h else l)
      → DependsOn ns v id
  lift_DependsOn {v} {w} {l} {h} id c e ne (ρ, d) =
      let s = node_Splits w l h e in
      let inside = node_at-lt id ns e in
      let at = λ (b : Bool).
        ap (λ (r : Env). eval r id ns) (assign_comm v w b c ρ ne)
        ∙ cofactor_value store c (assign v b ρ) s inside in
      (assign w c ρ, λ q. d (sym (at true) ∙ q ∙ at false))

  pub Occurs-DependsOn : {v id : ℕ} → Occurs ns v id → DependsOn ns v id
  Occurs-DependsOn {v} (here {id = id} {l = l} {h = h} e) =
      let s = node_Splits v l h e in
      let p = store.shaped id v l h e in
      let inside = node_at-lt id ns e in
      let (ρ, d) =
        separate store h l (omega (arith, p.high_below)) (omega (arith, p.low_below))
          (λ q. p.reduced (sym q)) in
      (
        ρ,
        λ q. d (
            sym (cofactor_value store true ρ s inside) ∙ q ∙ cofactor_value store false ρ s inside),
      )
  Occurs-DependsOn {v} (low {id = id} {w = w} {l = l} {h = h} e o) =
      let p = store.shaped id w l h e in
      let lt = Occurs-Above w p.low_after o in
      lift_DependsOn id false e (omega arith) (Occurs-DependsOn o)
  Occurs-DependsOn {v} (high {id = id} {w = w} {l = l} {h = h} e o) =
      let p = store.shaped id w l h e in
      let lt = Occurs-Above w p.high_after o in
      lift_DependsOn id true e (omega arith) (Occurs-DependsOn o)

  absent_node :
      (id v : ℕ) (b : Bool) (ρ : Env) (n : Node)
      → ((i : ℕ)
          → i < id
          → i < length ns
          → ¬ Occurs ns v i
          → eval (assign v b ρ) i ns ≡ eval ρ i ns)
      → node_at id ns ≡ some n
      → ¬ Occurs ns v id
      → eval (assign v b ρ) id ns ≡ eval ρ id ns
  absent_node id v b ρ (terminal x) ih e never =
      eval-terminal (assign v b ρ) id ns e ∙ sym (eval-terminal ρ id ns e)
  absent_node id v b ρ (node w l h) ih e never =
      let p = store.shaped id w l h e in
      let inside = node_at-lt id ns e in
      let l_same = ih l p.low_below (omega (arith, p.low_below)) (λ o. never (low e o)) in
      let h_same = ih h p.high_below (omega (arith, p.high_below)) (λ o. never (high e o)) in
      rw (
        eval-node (assign v b ρ) id ns e p.low_below p.high_below,
        eval-node ρ id ns e p.low_below p.high_below,
        assign_other v w b ρ (λ q. never (rw q at (here e))),
        l_same,
        h_same,
      )

  absent_below :
      (k id v : ℕ) (b : Bool) (ρ : Env)
      → id < k
      → id < length ns
      → ¬ Occurs ns v id
      → eval (assign v b ρ) id ns ≡ eval ρ id ns
  absent_below zero id v b ρ h inside never = absurd (omega arith)
  absent_below (suc k) id v b ρ h inside never =
      let (n, e) = node_at-total id ns inside in
      absent_node id v b ρ n (λ i lt q never'. absent_below k i v b ρ (omega (arith, lt)) q never')
        e never

  -- The value does not depend on a variable that does not occur.
  pub absent : (id v : ℕ) → id < length ns → ¬ Occurs ns v id → ¬ DependsOn ns v id
  absent id v inside never (ρ, d) = d (
      absent_below (suc id) id v true ρ (omega arith) inside never
      ∙ sym (absent_below (suc id) id v false ρ (omega arith) inside never))
