-- ===== src/DecisionQuery/Outcome.antt =====
-- The outcome of a restricted diagram: what is settled, and which variables are still needed.
use l4_ide.Prelude.{
  ℕ, ◌<◌, Bool, true, false, Option, none, some, List, ◌≡◌, ◌≢◌, sym, ◌∙◌, ◌↔◌, Map, get, nat_key,
  Returns, length, arith, ◌==◌, ==_true, ==_false, ==_ne, Bool-cases, Option-cases, inl, inr,
}
use l4_ide.Robdd.{Bdd, ◌>>=◌, has, terminal_id}
use l4_ide.Robdd.Store.{Env, eval, eval-terminal, node_at-lt}
use l4_ide.Robdd.Validity.{IsValid, terminal_at}
use l4_ide.Robdd.Canonical.{assign, assign_self, assign_other}
use l4_ide.Robdd.Occurs.{DependsOn}
use l4_ide.Robdd.Correct.{canonical_ids, support-DependsOn}
use l4_ide.DecisionQuery.{
  Compiled, QueryOutcome, is_determined_id, nth, support_from_restricted, outcome_from_restricted,
  uniq_sorted, uniques_at,
}
use l4_ide.DecisionQuery.Order.{IsIndexed}
use l4_ide.DecisionQuery.Compile.{from_index}
use l4_ide.DecisionQuery.Meaning.{put, Agree, by_index, by_index-Agree, from_index-Agree}
use l4_ide.DecisionQuery.Sorting.{
  IsAscending, has-uniq_sorted, uniq_sorted-IsAscending, has-uniques_at, uniques_at-has,
}

-- The node `r` stands for the function `φ` of the uniques.
pub record Represents (c : Compiled) (φ : (ℕ → Bool) → Bool) (r : ℕ) (s : Bdd) : Type 0 where
  pub inside : r < length s.nodes
  pub value : (σ : ℕ → Bool) (ρ : Env) → Agree c.index_of σ ρ → eval ρ r s.nodes ≡ φ σ

-- The outcome is right about `φ`: it is determined exactly if `φ` is constant, and its support
-- ascends and holds exactly the variables on which `φ` depends.
pub record IsOutcome (φ : (ℕ → Bool) → Bool) (o : QueryOutcome) : Type 0 where
  pub settled : (b : Bool) → (o.determined ≡ some b) ↔ ((σ : ℕ → Bool) → φ σ ≡ b)
  pub needed :
      (u : ℕ) → (has u o.support ≡ true) ↔ ((σ : ℕ → Bool) × (φ (put u true σ) ≢ φ (put u false σ)))
  pub ascending : IsAscending o.support

pub Agree-put :
    (order : List ℕ) (idx : Map ℕ ℕ) (u i : ℕ) (b : Bool) (σ : ℕ → Bool) (ρ : Env)
    → IsIndexed order idx
    → get u idx ≡ some i
    → Agree idx σ ρ
    → Agree idx (put u b σ) (assign i b ρ)
Agree-put order idx u i b σ ρ ix at h w j e = elim (Bool-cases (w == u)) [
  | inl hit ↦
      let same_w : w ≡ u = ==_true w u hit in
      let same : j ≡ i = index_unique same_w in rw (hit, same) (sym (assign_self i b ρ))
  | inr miss ↦
      rw miss (h w j e ∙ sym (assign_other i j b ρ (λ same. ==_false w u miss (name_unique same))))
]
  where
    index_unique : w ≡ u → j ≡ i
    index_unique p = cc

    name_unique : j ≡ i → w ≡ u
    name_unique p =
        let a : nth order j ≡ some w = (ix w j).0 e in
        let d : nth order j ≡ some u = rw p ((ix u i).0 at) in cc

absurd_lookup : {i : ℕ} → ◌≡◌ {A = Option ℕ} (some i) none → ⊥
absurd_lookup e = cc

determined_id : (r : ℕ) (b : Bool) → (is_determined_id r ≡ some b) ↔ (r ≡ terminal_id b)
determined_id r true = (λ h. ground arith, λ h. ground arith)
determined_id r false = (λ h. ground arith, λ h. ground arith)

module _ (c : Compiled) (φ : (ℕ → Bool) → Bool) (r : ℕ) (s : Bdd) (valid : IsValid s)
    (ix : IsIndexed c.var_order c.index_of) (rep : Represents c φ r s) where
  pub settled_lem : (b : Bool) → (is_determined_id r ≡ some b) ↔ ((σ : ℕ → Bool) → φ σ ≡ b)
  settled_lem b =
      let at = terminal_at valid.store b in
      let in_b = node_at-lt (terminal_id b) s.nodes at in
      (
        λ h σ.
            let same = (determined_id r b).0 h in
            sym (rep.value σ (by_index c.var_order σ) (by_index-Agree c.var_order c.index_of σ ix))
            ∙ rw same (eval-terminal (by_index c.var_order σ) (terminal_id b) s.nodes at),
        λ all. (determined_id r b).1 (
            (canonical_ids s r (terminal_id b) valid rep.inside in_b).1 (λ ρ.
              rep.value (from_index c.index_of ρ) ρ (from_index-Agree c.index_of ρ)
              ∙ all (from_index c.index_of ρ)
              ∙ sym (eval-terminal ρ (terminal_id b) s.nodes at))),
      )

  abbrev pub Matters : ℕ → Type 0
  Matters u = (σ : ℕ → Bool) × (φ (put u true σ) ≢ φ (put u false σ))

  -- The value with a variable set, in both readings.
  value_put :
      (u i : ℕ) (b : Bool) (σ : ℕ → Bool) (ρ : Env)
      → get u c.index_of ≡ some i
      → Agree c.index_of σ ρ
      → eval (assign i b ρ) r s.nodes ≡ φ (put u b σ)
  value_put u i b σ ρ at h =
      rep.value (put u b σ) (assign i b ρ) (Agree-put c.var_order c.index_of u i b σ ρ ix at h)

  DependsOn-Matters : (u i : ℕ) → get u c.index_of ≡ some i → DependsOn s.nodes i r → Matters u
  DependsOn-Matters u i at (ρ, d) =
      let σ = from_index c.index_of ρ in
      let h = from_index-Agree c.index_of ρ in
      (σ, λ q. d (value_put u i true σ ρ at h ∙ q ∙ sym (value_put u i false σ ρ at h)))

  pub Matters-index :
      (u : ℕ) → Matters u → (i : ℕ) × (get u c.index_of ≡ some i) × DependsOn s.nodes i r
  Matters-index u (σ, d) =
      let ρ = by_index c.var_order σ in
      let h = by_index-Agree c.var_order c.index_of σ ix in
      elim (Option-cases (get u c.index_of)) [
        | inr (i, at) ↦ (
          i,
          at,
          (ρ, λ q. d (sym (value_put u i true σ ρ at h) ∙ q ∙ value_put u i false σ ρ at h)),
        )
        | inl gone ↦ absurd (
            d (
              sym (rep.value (put u true σ) ρ (unnamed gone true))
              ∙ rep.value (put u false σ) ρ (unnamed gone false)))
      ]
    where
      unnamed :
          get u c.index_of ≡ none
          → (b : Bool) → Agree c.index_of (put u b σ) (by_index c.var_order σ)
      unnamed gone b w j e =
          let apart : w ≢ u = λ same. absurd_lookup (sym (rw same at e) ∙ gone) in
          rw (==_ne w u apart) (by_index-Agree c.var_order c.index_of σ ix w j e)

  pub support-Matters :
      Returns
        (support_from_restricted c r s)
        (λ p. (p.1 ≡ s) × ((u : ℕ) → (has u p.0 ≡ true) ↔ Matters u) × IsAscending p.0)
  unfolding support_from_restricted
  support-Matters =
      let ((is, t), run, (same, exact)) = support-DependsOn r s valid rep.inside in
      (
        (uniq_sorted (uniques_at c.var_order is), t),
        rw (run, ◌>>=◌),
        (
          same,
          λ u. (
            λ h.
                let (i, p, q) = uniques_at-has u c.var_order is (sym (has-uniq_sorted u _) ∙ h) in
                DependsOn-Matters u i ((ix u i).1 q) ((exact i).0 p),
            λ m.
                let (i, at, d) = Matters-index u m in
                has-uniq_sorted u _
                ∙ has-uniques_at u i c.var_order is ((exact i).1 d) ((ix u i).0 at),
          ),
          uniq_sorted-IsAscending (uniques_at c.var_order is),
        ),
      )

  pub outcome-IsOutcome : Returns (outcome_from_restricted c r s) (λ p. (p.1 ≡ s) × IsOutcome φ p.0)
  unfolding outcome_from_restricted
  outcome-IsOutcome =
      let ((us, t), run, (same, exact, asc)) = support-Matters in
      (
        (_, t),
        rw (run, ◌>>=◌),
        (same, record { settled = settled_lem; needed = exact; ascending = asc }),
      )
