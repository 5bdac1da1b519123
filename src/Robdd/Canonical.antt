-- ===== src/Robdd/Canonical.antt =====
-- Canonicity: different ids stand for different functions, and there is an environment to show it.
use l4_ide.Prelude.{
  ℕ, suc, zero, ◌<◌, ◌+◌, if◌then◌else◌, length, ◌≡◌, sym, ◌∙◌, Bool, true, false, arith, get,
  nat_key, some, inl, inr, ◌==◌, ==_true, ==_false, Bool-cases, ap, List, [], ◌∷◌, ◌≢◌, Map,
}
use l4_ide.Robdd.{Node, terminal, node, node_at, cofactors, NodeKey, terminal_id}
use l4_ide.Robdd.Store.{
  Env, eval, Above, Above-weaken, node_at-total, eval-node, eval-terminal, node_at-lt,
}
use l4_ide.Robdd.Validity.{IsStore, override}
use l4_ide.Robdd.Apply.Cofactors.{Splits, cofactors-Splits, Tops, top_lem, BothTerminal}
use l4_ide.Robdd.Apply.{smaller_pair}

-- The environment with one variable set.
abbrev pub assign : ℕ → Bool → Env → Env
assign v b = override ((v, b) ∷ [])

pub assign_self : (v : ℕ) (b : Bool) (ρ : Env) → assign v b ρ v ≡ b
unfolding get
assign_self v b ρ = ground arith

pub assign_other : (v w : ℕ) (b : Bool) (ρ : Env) → w ≢ v → assign v b ρ w ≡ ρ w
unfolding get
assign_other v w b ρ ne = ground arith

module _ {ns : List Node} {table : Map NodeKey ℕ} (store : IsStore ns table) where
  independent_node :
      (id v : ℕ) (b : Bool) (ρ : Env) (n : Node)
      → ((i : ℕ)
          → i < id
          → i < length ns
          → Above v (node_at i ns)
          → eval (assign v b ρ) i ns ≡ eval ρ i ns)
      → node_at id ns ≡ some n
      → Above v (some n)
      → eval (assign v b ρ) id ns ≡ eval ρ id ns
  independent_node id v b ρ (terminal x) ih e a =
      eval-terminal (assign v b ρ) id ns e ∙ sym (eval-terminal ρ id ns e)
  independent_node id v b ρ (node w l h) ih e a =
      let p = store.shaped id w l h e in
      let inside = node_at-lt id ns e in
      let low =
        ih l p.low_below (omega (arith, p.low_below)) (Above-weaken (node_at l ns) a p.low_after) in
      let high =
        ih h p.high_below (omega (arith, p.high_below))
          (Above-weaken (node_at h ns) a p.high_after) in
      rw (
        eval-node (assign v b ρ) id ns e p.low_below p.high_below,
        eval-node ρ id ns e p.low_below p.high_below,
        assign_other v w b ρ (omega arith),
        low,
        high,
      )

  independent_below :
      (k id v : ℕ) (b : Bool) (ρ : Env)
      → id < k
      → id < length ns
      → Above v (node_at id ns)
      → eval (assign v b ρ) id ns ≡ eval ρ id ns
  independent_below zero id v b ρ h inside a = absurd (omega arith)
  independent_below (suc k) id v b ρ h inside a =
      let (n, e) = node_at-total id ns inside in
      independent_node id v b ρ n
        (λ i lt q a'. independent_below k i v b ρ (omega (arith, lt)) q a') e (rw e at a)

  -- The value does not depend on a variable before the top one.
  pub independent :
      (id v : ℕ) (b : Bool) (ρ : Env)
      → id < length ns
      → Above v (node_at id ns)
      → eval (assign v b ρ) id ns ≡ eval ρ id ns
  independent id v b ρ inside a = independent_below (suc id) id v b ρ (omega arith) inside a

  -- The environments at which two ids differ.
  abbrev pub Differ : ℕ → ℕ → Type 0
  Differ i j = (ρ : Env) × (eval ρ i ns ≢ eval ρ j ns)

  distinct_cofactors :
      (i j : ℕ) (n m : Node) {top : ℕ}
      → node_at i ns ≡ some n
      → node_at j ns ≡ some m
      → Tops n m top
      → i ≢ j
      → (cofactors n top i).0 ≡ (cofactors m top j).0
      → (cofactors n top i).1 ≢ (cofactors m top j).1
  distinct_cofactors i j (terminal b) (terminal c) ei ej tops ne p q = ground (arith, tops.attained)
  distinct_cofactors i j (terminal b) (node w l h) {top} ei ej tops ne p q =
      let s = store.shaped j w l h ej in ground (arith, tops.attained, s.reduced)
  distinct_cofactors i j (node v l h) (terminal c) {top} ei ej tops ne p q =
      let s = store.shaped i v l h ei in ground (arith, tops.attained, s.reduced)
  distinct_cofactors i j (node v l h) (node w l' h') {top} ei ej tops ne p q = ground (
    arith,
    tops.attained,
    store.shaped i v l h ei,
    store.shaped j w l' h' ej,
    store.listed i v l h ei,
    store.listed j w l' h' ej,
  )

  -- The cofactor on one side of the split is the function with the variable set.
  pub cofactor_value :
      {top id low high : ℕ} (c : Bool) (ρ : Env)
      → Splits ns top id low high
      → id < length ns
      → eval (assign top c ρ) id ns ≡ eval ρ (if c then high else low) ns
  cofactor_value {top} {id} {low} {high} true ρ s inside =
      s.value (assign top true ρ)
      ∙ ap
          (λ (x : Bool).
            if x then eval (assign top true ρ) high ns else eval (assign top true ρ) low ns)
          (assign_self top true ρ)
      ∙ independent high top true ρ (omega (arith, s.high_le)) s.high_after
  cofactor_value {top} {id} {low} {high} false ρ s inside =
      s.value (assign top false ρ)
      ∙ ap
          (λ (x : Bool).
            if x then eval (assign top false ρ) high ns else eval (assign top false ρ) low ns)
          (assign_self top false ρ)
      ∙ independent low top false ρ (omega (arith, s.low_le)) s.low_after

  -- An environment that tells the cofactors apart tells the ids apart, with the top variable set.
  lift_Differ :
      {i j top il ih jl jh : ℕ} (c : Bool)
      → Splits ns top i il ih
      → Splits ns top j jl jh
      → i < length ns
      → j < length ns
      → Differ (if c then ih else il) (if c then jh else jl)
      → Differ i j
  lift_Differ {top = top} c si sj in_i in_j (ρ, ne) =
      (assign top c ρ, λ e. ne (sym (cofactor_value c ρ si in_i) ∙ e ∙ cofactor_value c ρ sj in_j))

  terminals-Differ :
      {i j : ℕ} (b c : Bool)
      → node_at i ns ≡ some (terminal b)
      → node_at j ns ≡ some (terminal c)
      → i ≢ j
      → Differ i j
  terminals-Differ {i} {j} b c ei ej ne = (
    λ _. false,
    λ e. ne (
        store.only_two i b ei
        ∙ ap terminal_id
            (sym (eval-terminal (λ _. false) i ns ei) ∙ e ∙ eval-terminal (λ _. false) j ns ej)
        ∙ sym (store.only_two j c ej)),
  )

  separate_nodes :
      (i j : ℕ) (n m : Node)
      → ((i' j' : ℕ) → i' + j' < i + j → i' < length ns → j' < length ns → i' ≢ j' → Differ i' j')
      → node_at i ns ≡ some n
      → node_at j ns ≡ some m
      → ¬ BothTerminal n m
      → i ≢ j
      → Differ i j
  separate_nodes i j n m ih ei ej nt ne =
      let (top, tops) = top_lem n m nt in
      let in_i = node_at-lt i ns ei in
      let in_j = node_at-lt j ns ej in
      let si = cofactors-Splits store top i n ei tops.first in
      let sj = cofactors-Splits store top j m ej tops.second in
      let smaller = smaller_pair store i j n m ei ej tops in
      elim (Bool-cases ((cofactors n top i).0 == (cofactors m top j).0)) [
        | inr low_ne ↦ lift_Differ false si sj in_i in_j (
            ih (cofactors n top i).0 (cofactors m top j).0 smaller.0 (omega (arith, si.low_le))
              (omega (arith, sj.low_le)) (==_false _ _ low_ne))
        | inl low_eq ↦ lift_Differ true si sj in_i in_j (
            ih (cofactors n top i).1 (cofactors m top j).1 smaller.1 (omega (arith, si.high_le))
              (omega (arith, sj.high_le))
              (distinct_cofactors i j n m ei ej tops ne (==_true _ _ low_eq)))
      ]

  separate_cases :
      (i j : ℕ) (n m : Node)
      → ((i' j' : ℕ) → i' + j' < i + j → i' < length ns → j' < length ns → i' ≢ j' → Differ i' j')
      → node_at i ns ≡ some n
      → node_at j ns ≡ some m
      → i ≢ j
      → Differ i j
  separate_cases i j (terminal b) (terminal c) ih ei ej ne = terminals-Differ b c ei ej ne
  separate_cases i j (terminal b) (node w l h) ih ei ej ne =
      separate_nodes i j (terminal b) (node w l h) ih ei ej (λ x. x) ne
  separate_cases i j (node v l h) m ih ei ej ne =
      separate_nodes i j (node v l h) m ih ei ej (λ x. x) ne

  separate_below : (k i j : ℕ) → i + j < k → i < length ns → j < length ns → i ≢ j → Differ i j
  separate_below zero i j h in_i in_j ne = absurd (omega arith)
  separate_below (suc k) i j h in_i in_j ne =
      let (n, ei) = node_at-total i ns in_i in
      let (m, ej) = node_at-total j ns in_j in
      separate_cases i j n m (λ i' j' lt p q d. separate_below k i' j' (omega (arith, lt)) p q d) ei
        ej ne

  pub separate : (i j : ℕ) → i < length ns → j < length ns → i ≢ j → Differ i j
  separate i j in_i in_j ne = separate_below (suc (i + j)) i j (omega arith) in_i in_j ne

  -- Ids with one meaning are one id.
  pub canonical :
      (i j : ℕ) → i < length ns → j < length ns → ((ρ : Env) → eval ρ i ns ≡ eval ρ j ns) → i ≡ j
  canonical i j in_i in_j same = elim (Bool-cases (i == j)) [
    | inl e ↦ ==_true i j e
    | inr ne ↦ let (ρ, d) = separate i j in_i in_j (==_false i j ne) in absurd (d (same ρ))
  ]
