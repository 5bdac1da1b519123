-- ===== src/DecisionQuery/Correct.antt =====
-- `query` returns, and every part of its result is right about the compiled expression.
use l4_ide.Prelude.{
  ℕ, Bool, true, false, some, List, [], ◌∷◌, ◌≡◌, ◌≢◌, refl, ◌∙◌, ◌↔◌, Map, get, set, get-set,
  get-set_cases, nat_key, Returns, ok, length, arith, if◌then◌else◌, ◌==◌, ==_refl, Bool-cases, inl,
  inr, ◌⊎◌, leb, ltb,
}
use l4_ide.Expr.{Expr, truth}
use l4_ide.Robdd.{Bdd, M, ◌>>=◌, has, restrict, node_count}
use l4_ide.Robdd.Store.{eval-Grows, length-Grows}
use l4_ide.Robdd.Validity.{IsValid, Steps, Steps-refl, Steps-trans}
use l4_ide.Robdd.Correct.{restrict-Yields}
use l4_ide.DecisionQuery.{
  Compiled, QueryOutcome, VarImpact, DecisionQueryResult, outcome_from_restricted,
  support_from_restricted, is_determined_id,
}
use l4_ide.DecisionQuery.Order.{IsIndexed, nth-has}
use l4_ide.DecisionQuery.Query.{
  query, impacts, impact_of, rank, ranks_before, determinable_count, level_of, index_bindings,
}
use l4_ide.DecisionQuery.Meaning.{put, answered, IsMap, IsCompiled, restricted_value}
use l4_ide.DecisionQuery.Sorting.{
  IsRanked, has-sort_ranked, length-sort_ranked, sort_ranked-IsRanked,
}
use l4_ide.DecisionQuery.Outcome.{
  Represents, IsOutcome, Agree-put, outcome-IsOutcome, support-Matters, settled_lem, Matters-index,
}

bind_ok :
    {A B : Type 0} (m : M A) (f : A → M B) {a : A} {s t : Bdd}
    → m s ≡ ok (a, t)
    → (m >>= f) s ≡ f a t
bind_ok m f e = rw (e, ◌>>=◌)

Represents-Steps :
    {c : Compiled} {φ : (ℕ → Bool) → Bool} {r : ℕ} {s t : Bdd}
    → Steps s t
    → Represents c φ r s
    → Represents c φ r t
Represents-Steps st rep = record {
  inside = omega (arith, rep.inside, length-Grows st.grows);
  value = λ σ ρ h. eval-Grows ρ st.grows rep.inside ∙ rep.value σ ρ h;
}

-- The impact of a variable: the outcomes with the variable set.
pub record IsImpact (φ : (ℕ → Bool) → Bool) (u : ℕ) (imp : VarImpact) : Type 0 where
  pub on_true : IsOutcome (λ σ. φ (put u true σ)) imp.if_true
  pub on_false : IsOutcome (λ σ. φ (put u false σ)) imp.if_false

impact_of-run :
    (c : Compiled) (r i : ℕ) {w f : ℕ} {o1 o2 : QueryOutcome} (s : Bdd) {t t2 t3 t4 : Bdd}
    → restrict ((i, true) ∷ []) r s ≡ ok (w, t)
    → restrict ((i, false) ∷ []) r t ≡ ok (f, t2)
    → outcome_from_restricted c w t2 ≡ ok (o1, t3)
    → outcome_from_restricted c f t3 ≡ ok (o2, t4)
    → impact_of c r i s ≡ ok (record { if_true = o1; if_false = o2 }, t4)
unfolding impact_of
impact_of-run c r i s p q a b = rw (p, ◌>>=◌, q, a, b)

module _ (c : Compiled) (φ : (ℕ → Bool) → Bool) (r : ℕ)
    (ix : IsIndexed c.var_order c.index_of) where
  -- Restricting one more variable.
  restrict-Represents :
      (u i : ℕ) (b : Bool) (s : Bdd)
      → IsValid s
      → get u c.index_of ≡ some i
      → Represents c φ r s
      → Returns
          (restrict ((i, b) ∷ []) r s)
          (λ p. Steps s p.1 × Represents c (λ σ. φ (put u b σ)) p.0 p.1)
  restrict-Represents u i b s valid at rep =
      let (p, run, y) = restrict-Yields ((i, b) ∷ []) r s valid rep.inside in
      (
        p,
        run,
        (
          y.steps,
          record {
            inside = y.computes.inside;
            value = λ σ ρ h.
                y.computes.value ρ
                ∙ rep.value (put u b σ) _ (Agree-put c.var_order c.index_of u i b σ ρ ix at h);
          },
        ),
      )

  impact_of-IsImpact :
      (u i : ℕ) (s : Bdd)
      → IsValid s
      → get u c.index_of ≡ some i
      → Represents c φ r s
      → Returns (impact_of c r i s) (λ p. Steps s p.1 × IsImpact φ u p.0)
  impact_of-IsImpact u i s valid at rep =
      let ((w, t), run1, (st1, rep1)) = restrict-Represents u i true s valid at rep in
      let ((f, t2), run2, (st2, rep2)) =
        restrict-Represents u i false t st1.valid at (Represents-Steps st1 rep) in
      let ((o1, t3), run3, (same3, out1)) =
        outcome-IsOutcome c _ w t2 st2.valid ix (Represents-Steps st2 rep1) in
      let ((o2, t4), run4, (same4, out2)) =
        outcome-IsOutcome c _ f t3 (rw same3 st2.valid) ix (rw same3 rep2) in
      (
        (_, t4),
        impact_of-run c r i s run1 run2 run3 run4,
        (rw (same4, same3) (Steps-trans st1 st2), record { on_true = out1; on_false = out2 }),
      )

  -- The map that the loop builds: every entry is right, and every variable of the list has one.
  record Impacts (us : List ℕ) (out : Map ℕ VarImpact) (p : Map ℕ VarImpact × Bdd) : Type 0 where
    right : (u : ℕ) (imp : VarImpact) → get u p.0 ≡ some imp → IsImpact φ u imp
    there :
        (u : ℕ)
        → ((imp : VarImpact) × (get u out ≡ some imp)) ⊎ (has u us ≡ true)
        → (imp : VarImpact) × (get u p.0 ≡ some imp)

  impacts-Impacts :
      (us : List ℕ) (out : Map ℕ VarImpact) (s : Bdd)
      → IsValid s
      → Represents c φ r s
      → ((u : ℕ) → has u us ≡ true → (i : ℕ) × (get u c.index_of ≡ some i))
      → ((u : ℕ) (imp : VarImpact) → get u out ≡ some imp → IsImpact φ u imp)
      → Returns (impacts c r us out s) (λ p. Steps s p.1 × Impacts us out p)
  unfolding impacts
  impacts-Impacts [] out s valid rep named right =
      ((out, s), refl, (Steps-refl valid, record { right = right; there = λ u h. only_out u h }))
    where
      only_out :
          (u : ℕ)
          → ((imp : VarImpact) × (get u out ≡ some imp)) ⊎ (false ≡ true)
          → (imp : VarImpact) × (get u out ≡ some imp)
      only_out u (inl h) = h
      only_out u (inr h) = absurd (cc)
  impacts-Impacts (u ∷ us) out s valid rep named right =
      let (i, at) = named u (ground (arith, ==_refl u)) in
      let ((imp, t), run1, (st1, good)) = impact_of-IsImpact u i s valid at rep in
      let (p, run2, (st2, all)) =
        impacts-Impacts us (set u imp out) t st1.valid (Represents-Steps st1 rep)
          (λ w h. named w (ground arith)) (now_right imp good) in
      (
        p,
        rw (at, impacts)
            (bind_ok (impact_of c r i) (λ imp'. impacts c r us (set u imp' out)) run1 ∙ run2),
        (
          Steps-trans st1 st2,
          record { right = all.right; there = λ w h. all.there w (now_there imp w h) },
        ),
      )
    where
      now_right :
          (imp : VarImpact)
          → IsImpact φ u imp
          → (w : ℕ) (imp' : VarImpact) → get w (set u imp out) ≡ some imp'
          → IsImpact φ w imp'
      now_right imp good w imp' h = elim (get-set_cases w u imp imp' out h) [
        | inl (same, here) ↦ rw (same, ← here) good
        | inr before ↦ right w imp' before
      ]

      now_there :
          (imp : VarImpact) (w : ℕ)
          → ((imp' : VarImpact) × (get w out ≡ some imp')) ⊎ (has w (u ∷ us) ≡ true)
          → ((imp' : VarImpact) × (get w (set u imp out) ≡ some imp')) ⊎ (has w us ≡ true)
      now_there imp w h = elim (Bool-cases (w == u)) [
        | inl e ↦ inl (imp, ground (arith, get-set w u imp out))
        | inr e ↦ elim h [
          | inl (imp', found) ↦ inl (imp', ground (arith, get-set w u imp out))
          | inr more ↦ inr (ground arith)
        ]
      ]

ranks_before_total :
    (idx : Map ℕ ℕ) (impact : Map ℕ VarImpact) (x y : ℕ)
    → ranks_before idx impact x y ≡ false
    → ranks_before idx impact y x ≡ true
ranks_before_total idx impact x y h =
    scores_total (determinable_count impact x) (determinable_count impact y) (level_of idx x)
      (level_of idx y) h
  where
    scores_total :
        (ca cb la lb : ℕ)
        → (if ca == cb then leb la lb else ltb cb ca) ≡ false
        → (if cb == ca then leb lb la else ltb ca cb) ≡ true
    scores_total ca cb la lb h = ground arith

module _ (idx : Map ℕ ℕ) (imp : Map ℕ VarImpact) where
  has-rank : (u : ℕ) (us : List ℕ) → has u (rank idx us imp) ≡ has u us
  unfolding rank
  has-rank u us = has-sort_ranked (ranks_before idx imp) u us

  length-rank : (us : List ℕ) → length (rank idx us imp) ≡ length us
  unfolding rank
  length-rank us = length-sort_ranked (ranks_before idx imp) us

  rank-IsRanked : (us : List ℕ) → IsRanked (ranks_before idx imp) (rank idx us imp)
  unfolding rank
  rank-IsRanked us = sort_ranked-IsRanked (ranks_before idx imp) (ranks_before_total idx imp) us

-- Everything that a result says, against the function `φ` that is left once the answers are in.
pub record Answers (c : Compiled) (φ : (ℕ → Bool) → Bool) (r : DecisionQueryResult) : Type 0 where
  pub outcome : IsOutcome φ (record { determined = r.determined; support = r.support })
  pub impact :
      (u : ℕ)
      → has u r.support ≡ true
      → (imp : VarImpact) × (get u r.impact ≡ some imp) × IsImpact φ u imp
  pub in_order : (u : ℕ) → has u r.support ≡ true → has u c.var_order ≡ true
  pub ranked_same : (u : ℕ) → has u r.ranked ≡ has u r.support
  pub ranked_length : length r.ranked ≡ length r.support
  pub ranked_order : IsRanked (ranks_before c.index_of r.impact) r.ranked

pub IsCompiled-Steps :
    {e : Expr} {c : Compiled} {s t : Bdd} → Steps s t → IsCompiled e c s → IsCompiled e c t
IsCompiled-Steps st k = record {
  valid = st.valid;
  inside = omega (arith, k.inside, length-Grows st.grows);
  indexed = k.indexed;
  compilable = k.compilable;
  value = λ calls ρ. eval-Grows ρ st.grows k.inside ∙ k.value calls ρ;
}

query-run :
    (c : Compiled) (bindings : Map ℕ Bool) (s : Bdd) {r : ℕ} {us : List ℕ} {imp : Map ℕ VarImpact}
    {t t2 t3 : Bdd}
    → restrict (index_bindings c.index_of bindings []) c.root s ≡ ok (r, t)
    → support_from_restricted c r t ≡ ok (us, t2)
    → impacts c r us [] t2 ≡ ok (imp, t3)
    → query c bindings s
      ≡ ok (
        record {
          determined = is_determined_id r;
          support = us;
          ranked = rank c.index_of us imp;
          impact = imp;
          stats_nodes = node_count t3;
          stats_support = length us;
        },
        t3,
      )
unfolding query
query-run c bindings s p q i = rw (p, ◌>>=◌, q, i)

named :
    {c : Compiled} {φ : (ℕ → Bool) → Bool} {r : ℕ} {t : Bdd} (us : List ℕ)
    → Represents c φ r t
    → IsIndexed c.var_order c.index_of
    → IsValid t
    → ((u : ℕ) → (has u us ≡ true) ↔ ((σ : ℕ → Bool) × (φ (put u true σ) ≢ φ (put u false σ))))
    → (u : ℕ) → has u us ≡ true
    → (i : ℕ) × (get u c.index_of ≡ some i)
named {c} {φ} {r} {t} us rep ix valid exact u h =
    let (i, at, _) = Matters-index c φ r t valid ix rep u ((exact u).0 h) in (i, at)

nothing : (φ : (ℕ → Bool) → Bool) (u : ℕ) (imp : VarImpact) → get u [] ≡ some imp → IsImpact φ u imp
unfolding get
nothing φ u imp h = absurd (cc)

module _ (e : Expr) (calls : ℕ → Bool) where
  -- What is left of the expression once the answers are in.
  abbrev pub residue : Map ℕ Bool → (ℕ → Bool) → Bool
  residue bindings σ = truth (answered bindings σ) calls e

  -- In tables where the compiled rule stands for the expression, a query with distinct answers
  -- returns. The compiled rule still stands for the expression afterwards. The result is determined
  -- exactly if what is left is constant, with that value; the support ascends and holds exactly the
  -- variables on which what is left depends, all in the order; each of them has an impact, whose two outcomes are
  -- right for the variable set to true and to false; and the ranking holds the members of the
  -- support, as many, with neighbours in the order of their scores.
  pub query-Answers :
      (c : Compiled) (bindings : Map ℕ Bool) (s : Bdd)
      → IsCompiled e c s
      → IsMap bindings
      → Returns (query c bindings s) (λ p. IsCompiled e c p.1 × Answers c (residue bindings) p.0)
  query-Answers c bindings s compiled m =
      let φ = residue bindings in
      let ((r, t), run1, y) =
        restrict-Yields (index_bindings c.index_of bindings []) c.root s compiled.valid
          compiled.inside in
      let rep : Represents c φ r t = record {
        inside = y.computes.inside;
        value = λ σ ρ h. y.computes.value ρ ∙ restricted_value compiled calls bindings σ ρ m h;
      } in
      let ix = compiled.indexed in
      let valid = y.steps.valid in
      let ((us, t2), run2, (same, exact, asc)) = support-Matters c φ r t valid ix rep in
      let ((imp, t3), run3, (st, all)) =
        impacts-Impacts c φ r ix us [] t valid rep (named us rep ix valid exact) (nothing φ) in
      (
        (_, t3),
        query-run c bindings s run1 run2 (rw same run3),
        (
          IsCompiled-Steps (Steps-trans y.steps st) compiled,
          record {
            outcome = record {
              settled = settled_lem c φ r t valid ix rep;
              needed = exact;
              ascending = asc;
            };
            impact = λ u h. let (i, at) = all.there u (inr h) in (i, at, all.right u i at);
            in_order = λ u h.
                let (i, at) = named us rep ix valid exact u h in
                nth-has u c.var_order i ((ix u i).0 at);
            ranked_same = λ u. has-rank c.index_of imp u us;
            ranked_length = length-rank c.index_of imp us;
            ranked_order = rank-IsRanked c.index_of imp us;
          },
        ),
      )
