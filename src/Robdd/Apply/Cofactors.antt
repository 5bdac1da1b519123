-- ===== src/Robdd/Apply/Cofactors.antt =====
-- The split at the top variable: both operands divide at it, and at least one gets smaller.
use l4_ide.Prelude.{
  ℕ, ◌<◌, ◌≤◌, if◌then◌else◌, ◌≡◌, refl, sym, arith, some, none, inl, inr, ◌⊎◌, ◌==◌, ==_true, leb,
  Bool-cases, ok, Option, if_both, List, Map,
}
use l4_ide.Robdd.{Bdd, Node, terminal, node, node_at, cofactors, finite, min_var, var_of, NodeKey}
use l4_ide.Robdd.Store.{Env, eval, Above, eval-node}
use l4_ide.Robdd.Validity.{IsStore}

-- The variable of a node is `v` or comes after it.
abbrev pub AtOrAfter : ℕ → Option ℕ → Type 0
AtOrAfter v none = Unit
AtOrAfter v (some w) = v ≤ w

-- `low` and `high` are the two cofactors of `id` at `v`.
pub record Splits (nodes : List Node) (v id low high : ℕ) : Type 0 where
  pub low_le : low ≤ id
  pub high_le : high ≤ id
  pub low_after : Above v (node_at low nodes)
  pub high_after : Above v (node_at high nodes)
  pub value : (ρ : Env) → eval ρ id nodes ≡ (if ρ v then eval ρ high nodes else eval ρ low nodes)

module _ {ns : List Node} {table : Map NodeKey ℕ} (store : IsStore ns table) (v id : ℕ) where
  whole_Splits : Above v (node_at id ns) → Splits ns v id id id
  whole_Splits a = record {
    low_le = omega arith;
    high_le = omega arith;
    low_after = a;
    high_after = a;
    value = λ ρ. sym (if_both (ρ v) (eval ρ id ns));
  }

  pub cofactors-Splits :
      (n : Node)
      → node_at id ns ≡ some n
      → AtOrAfter v (var_of n)
      → Splits ns v id (cofactors n v id).0 (cofactors n v id).1
  cofactors-Splits (terminal b) e after = whole_Splits (rw e tt)
  cofactors-Splits (node w l h) e after = elim (Bool-cases (w == v)) [
    | inl hit ↦
        let same = ==_true w v hit in
        let p = store.shaped id w l h e in
        rw hit (record {
          low_le = omega (arith, p.low_below);
          high_le = omega (arith, p.high_below);
          low_after = rw (← same) p.low_after;
          high_after = rw (← same) p.high_after;
          value = λ ρ. rw (← same) (eval-node ρ id ns e p.low_below p.high_below);
        })
    | inr miss ↦ rw miss (whole_Splits (rw e (ground arith)))
  ]

  -- At its own variable a node has smaller cofactors.
  pub cofactors_lt :
      (n : Node)
      → node_at id ns ≡ some n
      → var_of n ≡ some v
      → ((cofactors n v id).0 < id) × ((cofactors n v id).1 < id)
  cofactors_lt (terminal b) e at = absurd (cc)
  cofactors_lt (node w l h) e at =
      let p = store.shaped id w l h e in ground (arith, p.low_below, p.high_below)

-- The top variable of two nodes.
pub record Tops (an bn : Node) (top : ℕ) : Type 0 where
  pub run : (s : Bdd) → finite (min_var (var_of an) (var_of bn)) s ≡ ok (top, s)
  pub first : AtOrAfter top (var_of an)
  pub second : AtOrAfter top (var_of bn)
  pub attained : (var_of an ≡ some top) ⊎ (var_of bn ≡ some top)

abbrev pub BothTerminal : Node → Node → Type 0
BothTerminal (terminal _) (terminal _) = Unit
BothTerminal _ _ = ⊥

pub top_lem : (an bn : Node) → ¬ BothTerminal an bn → (top : ℕ) × Tops an bn top
top_lem (terminal b) (terminal c) h = absurd (h tt)
top_lem (terminal b) (node w l k) h =
    (w, record { run = λ s. refl; first = tt; second = omega arith; attained = inr refl })
top_lem (node v l k) (terminal c) h =
    (v, record { run = λ s. refl; first = omega arith; second = tt; attained = inl refl })
top_lem (node v l k) (node w m j) h = elim (Bool-cases (leb v w)) [
  | inl le ↦ (
    v,
    record { run = λ s. rw le; first = omega arith; second = ground arith; attained = inl refl },
  )
  | inr gt ↦ (
    w,
    record { run = λ s. rw gt; first = ground arith; second = omega arith; attained = inr refl },
  )
]
