-- ===== src/Ladder/Analysis.antt =====
-- `analyze`: which unanswered inputs can still change the result, and which cannot.
use l4_ide.Prelude.{
  ℕ, Bool, true, false, ◌&&◌, not, Option, none, some, List, [], ◌∷◌, ◌≡◌, ◌≢◌, ◌↔◌, refl, sym, ◌∙◌,
  arith, Bool-cases, inl, inr, filter, get, nat_key, fun_ext, ◌==◌, ==_true, ap,
}
use l4_ide.Expr.{Expr, truth, UBoolValue, true_v, false_v, unknown_v}
use l4_ide.Robdd.{has, Bdd}
use l4_ide.DecisionQuery.{Compiled, DecisionQueryResult, uniq_sorted}
use l4_ide.DecisionQuery.Sorting.{has-uniq_sorted, IsAscending, uniq_sorted-IsAscending}
use l4_ide.DecisionQuery.Meaning.{answered, put}
use l4_ide.DecisionQuery.Correct.{residue, Answers}
use l4_ide.Ladder.Assignment.{Assignment, lookup}
use l4_ide.Ladder.Eval.{Evaluation}
use l4_ide.Ladder.Partial.{restrict_expr}
use l4_ide.Ladder.Analyzer.{
  Analyzer, PartialEvalAnalysis, report, not_asked_of, bindings_of, is_open, first_only,
}
use l4_ide.Ladder.Bindings.{get-bindings_of, answer_of}

has-filter : (u : ℕ) (p : ℕ → Bool) (us : List ℕ) → has u (filter p us) ≡ has u us && p u
has-filter u p [] = refl
has-filter u p (w ∷ us) = ground (arith, has-filter u p us, ==_true u w)

settled_answer : (o : Option UBoolValue) → is_open o ≡ false → none ≡ answer_of o → ⊥
settled_answer none h e = cc
settled_answer (some true_v) h e = cc
settled_answer (some false_v) h e = cc
settled_answer (some unknown_v) h e = cc

module _ (a : Assignment) (e : Expr) (calls : ℕ → Bool) where
  -- The truth value once the answers are in.
  abbrev pub left : (ℕ → Bool) → Bool
  left = residue e calls (bindings_of a)

  -- In some completion the truth value depends on the variable.
  abbrev pub CanChange : ℕ → Type 0
  CanChange u = (σ : ℕ → Bool) × (left (put u true σ) ≢ left (put u false σ))

  -- An answered variable changes nothing.
  answered-put :
      (u : ℕ) (b : Bool) (σ : ℕ → Bool)
      → is_open (lookup u a) ≡ false
      → answered (bindings_of a) (put u b σ) ≡ answered (bindings_of a) σ
  answered-put u b σ h = fun_ext (λ w. at w (get w (bindings_of a)) (get-bindings_of w a))
    where
      at :
          (w : ℕ) (o : Option Bool)
          → o ≡ answer_of (lookup w a)
          → (elim o [ some c ↦ c | none ↦ put u b σ w ]) ≡ (elim o [ some c ↦ c | none ↦ σ w ])
      at w (some c) found = refl
      at w none found = elim (Bool-cases (w == u)) [
        | inl hit ↦
            let same = ==_true w u hit in
            absurd (settled_answer (lookup u a) h (found ∙ ap (λ v. answer_of (lookup v a)) same))
        | inr miss ↦ rw miss refl
      ]

  CanChange-open : (u : ℕ) → CanChange u → is_open (lookup u a) ≡ true
  CanChange-open u (σ, d) = elim (Bool-cases (is_open (lookup u a))) [
    | inl unanswered ↦ unanswered
    | inr known ↦ absurd (
        d (
          ap (λ ρ. truth ρ calls e)
            (answered-put u true σ known ∙ sym (answered-put u false σ known))))
  ]

  -- What an analysis says about the inputs, against the truth value that is left: the three lists
  -- ascend, and hold the open inputs, those that can change it, and the open ones that cannot; the
  -- ranking holds what can change it, and `next` is the first of it.
  pub record IsAnalysis (order : List ℕ) (r : PartialEvalAnalysis) : Type 0 where
    pub not_asked : (u : ℕ) → has u r.not_asked ≡ has u order && is_open (lookup u a)
    pub still_needed : (u : ℕ) → (has u r.still_needed ≡ true) ↔ CanChange u
    pub dont_care :
        (u : ℕ)
        → (has u r.dont_care ≡ true)
          ↔ ((has u order ≡ true) × (is_open (lookup u a) ≡ true) × (CanChange u → ⊥))
    pub ranked : (u : ℕ) → has u r.ranked ≡ has u r.still_needed
    pub next : r.next ≡ first_only r.ranked
    pub ascending : IsAscending r.not_asked × IsAscending r.still_needed × IsAscending r.dont_care
    pub restricted : r.restricted_expr ≡ restrict_expr a e
    pub used_bdd : r.used_bdd ≡ true

  pub report-IsAnalysis :
      (z : Analyzer) (v : Evaluation) (c : Compiled) (s t : Bdd) (q : DecisionQueryResult)
      → z.compiled ≡ some (c, s)
      → c.var_order ≡ z.all_vars_in_order
      → Answers c left q
      → IsAnalysis z.all_vars_in_order (
          report z a v (restrict_expr a e) (record {
            support = q.support;
            ranked = q.ranked;
            bdd_stats = some (q.stats_nodes, q.stats_support);
            compiled = some (c, t);
          }))
  unfolding report not_asked_of
  report-IsAnalysis z v c s t q built same k =
      let order = z.all_vars_in_order in
      let support = q.support in
      let asked : (u : ℕ) → has u (not_asked_of a order) ≡ has u order && is_open (lookup u a) =
        λ u. has-filter u (λ w. is_open (lookup w a)) order in
      let still : (u : ℕ)
          → has u (uniq_sorted (filter (λ w. has w support) (not_asked_of a order)))
            ≡ has u (not_asked_of a order) && has u support =
        λ u. has-uniq_sorted u _ ∙ has-filter u (λ w. has w support) (not_asked_of a order) in
      let care : (u : ℕ)
          → has u (uniq_sorted (filter (λ w. not (has w support)) (not_asked_of a order)))
            ≡ has u (not_asked_of a order) && not (has u support) =
        λ u. has-uniq_sorted u _ ∙ has-filter u (λ w. not (has w support)) (not_asked_of a order) in
      let listed : (u : ℕ) → has u support ≡ true → has u order ≡ true =
        λ u h. rw (← same) (k.in_order u h) in
      record {
        not_asked = λ u. has-uniq_sorted u _ ∙ asked u;
        still_needed = λ u. (
          λ h. (k.outcome.needed u).0 (ground (arith, still u)),
          λ m.
              let needed = (k.outcome.needed u).1 m in
              let unanswered = CanChange-open u m in
              ground (arith, still u, asked u, listed u needed),
        );
        dont_care = λ u. (
          λ h. (
            ground (arith, care u, asked u),
            ground (arith, care u, asked u),
            λ m. let needed = (k.outcome.needed u).1 m in ground (arith, care u),
          ),
          λ (there, unanswered, never). elim (Bool-cases (has u support)) [
            | inl needed ↦ absurd (never ((k.outcome.needed u).0 needed))
            | inr idle ↦ ground (arith, care u, asked u)
          ],
        );
        ranked = λ u.
            has-filter u (λ w. has w support && has w (not_asked_of a order)) q.ranked
            ∙ ground (arith, k.ranked_same u, still u);
        next = refl;
        ascending =
            (uniq_sorted-IsAscending _, uniq_sorted-IsAscending _, uniq_sorted-IsAscending _);
        restricted = refl;
        used_bdd = rw built refl;
      }
