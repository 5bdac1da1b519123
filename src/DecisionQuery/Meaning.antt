-- ===== src/DecisionQuery/Meaning.antt =====
-- What a compiled query stands for, and what its restriction by answers stands for.
use l4_ide.Prelude.{
  ℕ, ◌<◌, Bool, false, not, Option, none, some, List, [], ◌∷◌, ◌≡◌, ◌≢◌, refl, sym, ◌∙◌, ap, Map,
  get, set, get-set, nat_key, Returns, length, arith, if◌then◌else◌, ◌==◌, ==_true, ==_false,
  ==_refl, Bool-cases, Option-cases, inl, inr,
}
use l4_ide.Expr.{
  Expr, Exprs, and_e, or_e, not_e, ubool_var, true_e, false_e, app, inert_e, nil, cons, truth,
  all_true, any_true,
}
use l4_ide.Robdd.{Bdd, Bindings}
use l4_ide.Robdd.Store.{Env, eval}
use l4_ide.Robdd.Validity.{IsValid, Steps, override}
use l4_ide.DecisionQuery.{Compiled, compile_decision_query, index_from, nth}
use l4_ide.DecisionQuery.Query.{index_bindings}
use l4_ide.DecisionQuery.Compile.{IsCompilable, AreCompilable, from_index, compile-Yields}
use l4_ide.DecisionQuery.Order.{
  NoRepeats, IsIndexed, IsCovered, IsCovered-IsCompilable, index_from-IsIndexed,
}

-- Answers by unique, over a guess for the variables without an answer.
abbrev pub answered : Map ℕ Bool → (ℕ → Bool) → ℕ → Bool
answered bindings σ u = elim (get u bindings) [ some b ↦ b | none ↦ σ u ]

-- A guess with one variable set.
abbrev pub put : ℕ → Bool → (ℕ → Bool) → ℕ → Bool
put u b σ w = if w == u then b else σ w

-- The keys of a `Map` are distinct.
abbrev pub IsMap {ℓ} : {V : Type ℓ} → Map ℕ V → Type ℓ
IsMap [] = Unit
IsMap ((k, v) ∷ m) = (get k m ≡ none) × IsMap m

-- The diagram of `c` in the tables `s` stands for the expression `e`.
pub record IsCompiled (e : Expr) (c : Compiled) (s : Bdd) : Type 0 where
  pub valid : IsValid s
  pub inside : c.root < length s.nodes
  pub indexed : IsIndexed c.var_order c.index_of
  pub compilable : IsCompilable c.index_of e
  pub value :
      (calls : ℕ → Bool) (ρ : Env) → eval ρ c.root s.nodes ≡ truth (from_index c.index_of ρ) calls e

-- The two assignments agree on every variable with an index.
abbrev pub Agree : Map ℕ ℕ → (ℕ → Bool) → Env → Type 0
Agree idx σ ρ = (u i : ℕ) → get u idx ≡ some i → σ u ≡ ρ i

mutual
  unfolding truth IsCompilable

  truth_congr :
      (idx : Map ℕ ℕ) (σ σ' calls calls' : ℕ → Bool) (e : Expr)
      → IsCompilable idx e
      → ((u i : ℕ) → get u idx ≡ some i → σ u ≡ σ' u)
      → truth σ calls e ≡ truth σ' calls' e
  truth_congr idx σ σ' calls calls' (and_e id xs) c h = (all_congr idx σ σ' calls calls' xs c h).0
  truth_congr idx σ σ' calls calls' (or_e id xs) c h = (all_congr idx σ σ' calls calls' xs c h).1
  truth_congr idx σ σ' calls calls' (not_e id x) c h =
      ap not (truth_congr idx σ σ' calls calls' x c h)
  truth_congr idx σ σ' calls calls' (ubool_var v) (i, at) h = h v.name.unique i at
  truth_congr idx σ σ' calls calls' (true_e id n) c h = refl
  truth_congr idx σ σ' calls calls' (false_e id n) c h = refl
  truth_congr idx σ σ' calls calls' (app f xs) c h = absurd c
  truth_congr idx σ σ' calls calls' (inert_e i) c h = refl

  all_congr :
      (idx : Map ℕ ℕ) (σ σ' calls calls' : ℕ → Bool) (xs : Exprs)
      → AreCompilable idx xs
      → ((u i : ℕ) → get u idx ≡ some i → σ u ≡ σ' u)
      → (all_true σ calls xs ≡ all_true σ' calls' xs)
        × (any_true σ calls xs ≡ any_true σ' calls' xs)
  all_congr idx σ σ' calls calls' nil c h = (refl, refl)
  all_congr idx σ σ' calls calls' (cons x xs) (p, q) h =
      let e = truth_congr idx σ σ' calls calls' x p h in
      let es = all_congr idx σ σ' calls calls' xs q h in (rw (e, es.0), rw (e, es.1))

-- The calls do not matter, and an assignment by index serves for an agreeing one by unique.
pub truth-Agree :
    (idx : Map ℕ ℕ) (σ : ℕ → Bool) (ρ : Env) (calls calls' : ℕ → Bool) (e : Expr)
    → IsCompilable idx e
    → Agree idx σ ρ
    → truth σ calls e ≡ truth (from_index idx ρ) calls' e
truth-Agree idx σ ρ calls calls' e c h =
    truth_congr idx σ (from_index idx ρ) calls calls' e c (λ u i at. h u i at ∙ rw (at, from_index))

-- In valid tables, compiling an expression under an order that has no repeats and covers it returns;
-- the tables stay valid and keep every node; and the result stands for the expression: its root is
-- there, its index map inverts the order, which it keeps, and the root computes the two-valued
-- meaning.
pub compile_decision_query-IsCompiled :
    (e : Expr) (us : List ℕ) (s : Bdd)
    → NoRepeats us
    → IsCovered us e
    → IsValid s
    → Returns
        (compile_decision_query e us s)
        (λ p. Steps s p.1 × IsCompiled e p.0 p.1 × (p.0.var_order ≡ us))
unfolding compile_decision_query
compile_decision_query-IsCompiled e us s n covered valid =
    let idx = index_from 0 us [] in
    let c = IsCovered-IsCompilable us e covered in
    let ((root, t), run, y) = compile-Yields idx (λ _. false) e s c valid in
    (
      (record { var_order = us; index_of = idx; root = root }, t),
      rw (run, compile_decision_query),
      (
        y.steps,
        record {
          valid = y.steps.valid;
          inside = y.computes.inside;
          indexed = index_from-IsIndexed us n;
          compilable = c;
          value = λ calls ρ.
              y.computes.value ρ
              ∙ truth_congr idx _ (from_index idx ρ) (λ _. false) calls e c (λ u i at. refl);
        },
        refl,
      ),
    )

abbrev or_else : Option Bool → Option Bool → Option Bool
or_else (some b) d = some b
or_else none d = d

-- What one round of the loop over the bindings makes of the map by index.
abbrev noted : Map ℕ ℕ → ℕ → Bool → Bindings → Bindings
noted idx w b out = elim (get w idx) [ some j ↦ set j b out | none ↦ out ]

get-noted_hit :
    (idx : Map ℕ ℕ) (w i : ℕ) (b : Bool) (out : Bindings)
    → get w idx ≡ some i
    → get i (noted idx w b out) ≡ some b
get-noted_hit idx w i b out at = rw (at, noted) (get-set i i b out ∙ rw ==_refl)

get-noted_miss :
    (order : List ℕ) (idx : Map ℕ ℕ) (u w i : ℕ) (b : Bool) (out : Bindings)
    → IsIndexed order idx
    → get u idx ≡ some i
    → u ≢ w
    → get i (noted idx w b out) ≡ get i out
get-noted_miss order idx u w i b out ix at ne = elim (Option-cases (get w idx)) [
  | inl e ↦ rw (e, noted)
  | inr (j, e) ↦
      let apart : i ≢ j = λ same.
        let p : nth order i ≡ some u = (ix u i).0 at in
        let q : nth order i ≡ some w = rw same ((ix w j).0 e) in ne (cc) in
      rw (e, noted) (ground (arith, get-set i j b out))
]

-- The bindings by index answer for a variable what the bindings by unique do.
get-index_bindings :
    (order : List ℕ) (idx : Map ℕ ℕ) (bs : Map ℕ Bool) (out : Bindings) (u i : ℕ)
    → IsIndexed order idx
    → IsMap bs
    → get u idx ≡ some i
    → get i (index_bindings idx bs out) ≡ or_else (get u bs) (get i out)
unfolding index_bindings get
get-index_bindings order idx [] out u i ix m at = refl
get-index_bindings order idx ((w, b) ∷ bs) out u i ix m at =
    let ih = get-index_bindings order idx bs (noted idx w b out) u i ix m.1 at in
    elim (Bool-cases (u == w)) [
      | inl hit ↦
          let same : u ≡ w = ==_true u w hit in
          let gone : get u bs ≡ none = rw same m.0 in
          ih ∙ rw (gone, hit) (get-noted_hit idx w i b out (rw same at at))
      | inr miss ↦
          ih
          ∙ rw miss (
              ap (or_else (get u bs))
                (get-noted_miss order idx u w i b out ix at (==_false u w miss)))
    ]

module _ {e : Expr} {c : Compiled} {s : Bdd} (compiled : IsCompiled e c s) (calls : ℕ → Bool) where
  -- The restriction by answers stands for the expression under those answers.
  pub restricted_value :
      (bindings : Map ℕ Bool) (σ : ℕ → Bool) (ρ : Env)
      → IsMap bindings
      → Agree c.index_of σ ρ
      → eval (override (index_bindings c.index_of bindings []) ρ) c.root s.nodes
        ≡ truth (answered bindings σ) calls e
  restricted_value bindings σ ρ m agree =
      compiled.value calls (override (index_bindings c.index_of bindings []) ρ)
      ∙ sym (
          truth-Agree c.index_of (answered bindings σ) _ calls calls e compiled.compilable
            (λ u i at.
              let same =
                get-index_bindings c.var_order c.index_of bindings [] u i compiled.indexed m at in
              by_answer (get u bindings) (get i (index_bindings c.index_of bindings []))
                (same ∙ unfold get in refl) (agree u i at)))
    where
      by_answer :
          {x y : Bool} (o p : Option Bool)
          → p ≡ or_else o none
          → x ≡ y
          → (elim o [ some b ↦ b | none ↦ x ]) ≡ (elim p [ some b ↦ b | none ↦ y ])
      by_answer o p h e = ground arith

-- Every assignment by unique has an agreeing one by index, and the other way round.
pub by_index : List ℕ → (ℕ → Bool) → Env
by_index order σ i = elim (nth order i) [ some u ↦ σ u | none ↦ false ]

pub by_index-Agree :
    (order : List ℕ) (idx : Map ℕ ℕ) (σ : ℕ → Bool)
    → IsIndexed order idx
    → Agree idx σ (by_index order σ)
unfolding by_index
by_index-Agree order idx σ ix u i at = rw ((ix u i).0 at, by_index)

pub from_index-Agree : (idx : Map ℕ ℕ) (ρ : Env) → Agree idx (from_index idx ρ) ρ
from_index-Agree idx ρ u i at = rw (at, from_index)
