-- ===== src/Robdd/Support.antt =====
-- `support` returns the variables under an id, each once visited node read a single time.
use l4_ide.Prelude.{
  ℕ, suc, zero, ◌<◌, ◌≤◌, length, ◌≡◌, sym, ◌∙◌, Bool, true, false, arith, some, inl, inr, ◌⊎◌,
  ◌==◌, ==_true, ==_refl, ◌||◌, Bool-cases, List, [], ◌∷◌, ◌++◌, Map, Returns, ap, ◌↔◌,
}
use l4_ide.Robdd.{
  Node, terminal, node, node_at, NodeKey, has, add, Found, support_fuel, is_terminal, terminal_id,
}
use l4_ide.Robdd.Store.{node_at-total, node_at-lt}
use l4_ide.Robdd.Validity.{IsStore}
use l4_ide.Robdd.Occurs.{Occurs, here, low, high, Occurs-node, Occurs-terminal}

pub has-append : (x y : ℕ) (xs : List ℕ) → has x (xs ++ (y ∷ [])) ≡ (x == y) || has x xs
has-append x y [] = ground arith
has-append x y (z ∷ xs) = ground (arith, has-append x y xs)

pub has-add : (x y : ℕ) (xs : List ℕ) → has x (add y xs) ≡ (x == y) || has x xs
has-add x y xs = ground (arith, has-append x y xs, ==_true x y)

-- Every visited id up to `id` has its variables in the set.
abbrev Covered : List Node → ℕ → Found → Type 0
Covered ns id f =
    (x : ℕ) → has x f.visited ≡ true → x ≤ id → (v : ℕ) → Occurs ns v x → has v f.vars ≡ true

not_terminal_id : (b c : Bool) → (is_terminal (terminal_id b) || c) ≡ false → ⊥
not_terminal_id true c e = cc
not_terminal_id false c e = cc

-- What a call of `go` at `id` adds.
record Covers (ns : List Node) (id : ℕ) (f g : Found) : Type 0 where
  kept : (v : ℕ) → has v f.vars ≡ true → has v g.vars ≡ true
  found : (v : ℕ) → Occurs ns v id → has v g.vars ≡ true
  only : (v : ℕ) → has v g.vars ≡ true → (has v f.vars ≡ true) ⊎ Occurs ns v id
  seen :
      (x : ℕ)
      → has x g.visited ≡ true
      → (has x f.visited ≡ true) ⊎ ((x ≤ id) × ((v : ℕ) → Occurs ns v x → has v g.vars ≡ true))

module _ {ns : List Node} {table : Map NodeKey ℕ} (store : IsStore ns table) where
  terminal_never : (id : ℕ) → is_terminal id ≡ true → {v : ℕ} → Occurs ns v id → ⊥
  terminal_never id t o = elim (Bool-cases (id == 1)) [
    | inl e ↦ Occurs-terminal true (rw (==_true id 1 e) store.true_at) o
    | inr e ↦
        let zero_id : id ≡ 0 = ground arith in Occurs-terminal false (rw zero_id store.false_at) o
  ]

  early-Covers :
      (id : ℕ) (f : Found)
      → (is_terminal id || has id f.visited) ≡ true
      → Covered ns id f
      → Covers ns id f f
  early-Covers id f h covered = record {
    kept = λ v e. e;
    found = λ v o. elim (Bool-cases (is_terminal id)) [
      | inl t ↦ absurd (terminal_never id t o)
      | inr t ↦ covered id (ground arith) (omega arith) v o
    ];
    only = λ v e. inl e;
    seen = λ x e. inl e;
  }

  -- Visiting a node: its variable and its id are added, then both branches are covered.
  module _ (id w l k : ℕ) (at : node_at id ns ≡ some (node w l k)) (f : Found)
      (covered : Covered ns id f) where
    abbrev entered : Found
    entered = record { vars = add w f.vars; visited = add id f.visited }

    entered-vars : (v : ℕ) → has v f.vars ≡ true → has v entered.vars ≡ true
    entered-vars v e = ground (arith, has-add v w f.vars)

    below_entered :
        (i x v : ℕ)
        → i < id
        → has x entered.visited ≡ true
        → x ≤ i
        → Occurs ns v x
        → has v f.vars ≡ true
    below_entered i x v lt e le o =
        covered x (ground (arith, has-add x id f.visited)) (omega arith) v o

    low-Covered : Covered ns l entered
    low-Covered x e le v o =
        entered-vars v (below_entered l x v (store.shaped id w l k at).low_below e le o)

    high-Covered : (g : Found) → Covers ns l entered g → Covered ns k g
    high-Covered g c x e le v o = elim (c.seen x e) [
      | inl before ↦
          c.kept v
            (entered-vars v (below_entered k x v (store.shaped id w l k at).high_below before le o))
      | inr (_, all) ↦ all v o
    ]

    both-Covers : (g h : Found) → Covers ns l entered g → Covers ns k g h → Covers ns id f h
    both-Covers g h cl ch = record {
      kept = λ v e. ch.kept v (cl.kept v (entered-vars v e));
      found = all_found;
      only = λ v e. elim (ch.only v e) [
        | inr o ↦ inr (high at o)
        | inl e' ↦ elim (cl.only v e') [ inr o ↦ inr (low at o) | inl e'' ↦ entered_only v e'' ]
      ];
      seen = λ x e. elim (ch.seen x e) [
        | inr (le, all) ↦ inr (omega (arith, (store.shaped id w l k at).high_below), all)
        | inl e' ↦ elim (cl.seen x e') [
          | inr (le, all) ↦
              inr (omega (arith, (store.shaped id w l k at).low_below), λ v o. ch.kept v (all v o))
          | inl e'' ↦ entered_seen x e''
        ]
      ];
    }
      where
        all_found : (v : ℕ) → Occurs ns v id → has v h.vars ≡ true
        all_found v o = elim (Occurs-node w l k at o) [
          | inl same ↦ ch.kept v (cl.kept v (rw (has-add v w f.vars) (ground (arith, ==_refl w))))
          | inr (inl o') ↦ ch.kept v (cl.found v o')
          | inr (inr o') ↦ ch.found v o'
        ]

        entered_only : (v : ℕ) → has v entered.vars ≡ true → (has v f.vars ≡ true) ⊎ Occurs ns v id
        entered_only v e = elim (Bool-cases (v == w)) [
          | inl hit ↦ inr (rw (==_true v w hit) (here at))
          | inr miss ↦ inl (ground (arith, has-add v w f.vars))
        ]

        entered_seen :
            (x : ℕ)
            → has x entered.visited ≡ true
            → (has x f.visited ≡ true)
              ⊎ ((x ≤ id) × ((v : ℕ) → Occurs ns v x → has v h.vars ≡ true))
        entered_seen x e = elim (Bool-cases (x == id)) [
          | inl hit ↦
              let same = ==_true x id hit in inr (omega arith, λ v o. all_found v (rw same at o))
          | inr miss ↦ inl (ground (arith, has-add x id f.visited))
        ]

  -- A visit past the test of the visited set, with the promise of the calls on smaller ids.
  visit-Covers :
      (fuel id : ℕ) (f : Found) (n : Node)
      → ((i : ℕ) (g : Found)
          → i < id
          → i < length ns
          → Covered ns i g
          → Returns (support_fuel fuel i g ns) (Covers ns i g))
      → node_at id ns ≡ some n
      → (is_terminal id || has id f.visited) ≡ false
      → Covered ns id f
      → Returns (support_fuel (suc fuel) id f ns) (Covers ns id f)
  unfolding support_fuel
  visit-Covers fuel id f (terminal b) ih at e covered =
      let same = store.only_two id b at in
      absurd (
        not_terminal_id b (has id f.visited)
          (ap (λ i. is_terminal i || has id f.visited) (sym same) ∙ e))
  visit-Covers fuel id f (node w l k) ih at e covered =
      let p = store.shaped id w l k at in
      let inside = node_at-lt id ns at in
      let (g, run_l, cl) =
        ih l (entered id w l k at f covered) p.low_below (omega (arith, p.low_below))
          (low-Covered id w l k at f covered) in
      let (h, run_h, ch) =
        ih k g p.high_below (omega (arith, p.high_below))
          (high-Covered id w l k at f covered g cl) in
      (h, rw (e, support_fuel, at, run_l) run_h, both-Covers id w l k at f covered g h cl ch)

  support_fuel-Covers :
      (fuel id : ℕ) (f : Found)
      → id < fuel
      → id < length ns
      → Covered ns id f
      → Returns (support_fuel fuel id f ns) (Covers ns id f)
  support_fuel-Covers zero id f lt inside covered = absurd (omega arith)
  support_fuel-Covers (suc fuel) id f lt inside covered =
      elim (Bool-cases (is_terminal id || has id f.visited)) [
        | inl e ↦ (f, unfold support_fuel in rw (e, support_fuel), early-Covers id f e covered)
        | inr e ↦
            let (n, at) = node_at-total id ns inside in
            visit-Covers fuel id f n
              (λ i g lt' q c. support_fuel-Covers fuel i g (omega (arith, lt')) q c) at e covered
      ]

  -- The set that `support` starts from is empty, so it ends with the variables under the id.
  pub support_fuel-Occurs :
      (id : ℕ)
      → id < length ns
      → Returns
          (support_fuel (suc id) id (record { vars = []; visited = [] }) ns)
          (λ f. (v : ℕ) → (has v f.vars ≡ true) ↔ Occurs ns v id)
  support_fuel-Occurs id inside =
      let (f, run, c) =
        support_fuel-Covers (suc id) id (record { vars = []; visited = [] }) (omega arith) inside
          (λ x e. absurd (false_true e)) in
      (f, run, λ v. (only_Occurs v (c.only v), c.found v))
    where
      false_true : {P : Type 0} → false ≡ true → P
      false_true e = cc

      only_Occurs : (v : ℕ) {P Q : Type 0} → (P → (false ≡ true) ⊎ Q) → P → Q
      only_Occurs v f p = elim (f p) [ inl e ↦ false_true e | inr o ↦ o ]
