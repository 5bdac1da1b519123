-- ===== src/Ladder/Verdict.antt =====
-- The evaluator returns, and a value that it gives is the value under every completion.
use l4_ide.Prelude.{
  ℕ, subst, Bool, false, Option, some, List, ◌∷◌, ◌≡◌, refl, arith, Returns, ok, any, Bool-cases,
  inl, inr, Map,
}
use l4_ide.Expr.{
  Expr, Exprs, and_e, or_e, not_e, ubool_var, true_e, false_e, app, inert_e, nil, cons, UBoolValue,
  unknown_v, truth, inert_and, inert_or, InertContext, inert_value, AppHead,
}
use l4_ide.Ladder.Assignment.{Assignment, lookup, is_unknown_val}
use l4_ide.Ladder.Eval.{
  Reply, answer, refusal, no_response, failure, EvalResult, eval, eval_args, eval_var, eval_call,
  eval_and_chain, eval_or_chain, call_value, results, inert_val, ◌>>=◌, ids_of, joined, negated,
}
use l4_ide.Ladder.Sound.{Says, Completes, AllSay, neg-Says, and_chain-Says, or_chain-Says}

-- Each variable has a value in the assignment, unknown values included.
unfoldable mutual
  pub HasValues : Assignment → Expr → Type 0
  HasValues a (and_e id xs) = AllHaveValues a xs
  HasValues a (or_e id xs) = AllHaveValues a xs
  HasValues a (not_e id x) = HasValues a x
  HasValues a (ubool_var v) = (w : UBoolValue) × (lookup v.name.unique a ≡ some w)
  HasValues a (app f xs) = AllHaveValues a xs
  HasValues a _ = Unit

  pub AllHaveValues : Assignment → Exprs → Type 0
  AllHaveValues a nil = Unit
  AllHaveValues a (cons x xs) = HasValues a x × AllHaveValues a xs

-- `calls` gives each call the value that the language server answers for its arguments' values.
module _ (eval_app : ℕ → List UBoolValue → Reply) (σ calls : ℕ → Bool) where
  unfoldable mutual
    pub Agrees : Expr → Type 0
    Agrees (and_e id xs) = AllAgree xs
    Agrees (or_e id xs) = AllAgree xs
    Agrees (not_e id x) = Agrees x
    Agrees (app f xs) =
        AllAgree xs
        × ((vs : List UBoolValue) (v : UBoolValue)
            → AllSay vs σ calls xs
            → any is_unknown_val vs ≡ false
            → eval_app f.id vs ≡ answer v
            → Says v (calls f.id))
    Agrees _ = Unit

    pub AllAgree : Exprs → Type 0
    AllAgree nil = Unit
    AllAgree (cons x xs) = Agrees x × AllAgree xs

-- The language server gives an answer or refuses.
abbrev pub Responds : (ℕ → List UBoolValue → Reply) → Type 0
Responds eval_app =
    (id : ℕ) (vs : List UBoolValue) → (v : UBoolValue) × (call_value (eval_app id vs) ≡ ok v)

pub eval_var_lem :
    (o : Option UBoolValue) (v : UBoolValue) (id u : ℕ) (sh : Map ℕ UBoolValue)
    → o ≡ some v
    → Returns (eval_var o id u sh) (λ p. p.0.result ≡ v)
unfolding eval_var
eval_var_lem o v id u sh e = rw e (_, refl, refl)

module _ (eval_app : ℕ → List UBoolValue → Reply) (a : Assignment) where
  -- The value is right under every completion of the assignment.
  abbrev pub Fits : Expr → UBoolValue → Type 0
  Fits e v =
      (σ calls : ℕ → Bool) → Completes a σ → Agrees eval_app σ calls e → Says v (truth σ calls e)

  abbrev pub AllFit : Exprs → List UBoolValue → Type 0
  AllFit xs vs =
      (σ calls : ℕ → Bool) → Completes a σ → AllAgree eval_app σ calls xs → AllSay vs σ calls xs

  -- One node over what its children give.
  pub not-run :
      (id : ℕ) (x : Expr) (sh : Map ℕ UBoolValue) {p : EvalResult × Map ℕ UBoolValue}
      → eval eval_app a x sh ≡ ok p
      → eval eval_app a (not_e id x) sh ≡ ok (negated id p.0 p.1)
  unfolding eval
  not-run id x sh run = rw (run, ◌>>=◌) refl

  pub and-run :
      (id : ℕ) (xs : Exprs) (sh : Map ℕ UBoolValue) {p : List EvalResult × Map ℕ UBoolValue}
      → eval_args eval_app a xs sh ≡ ok p
      → eval eval_app a (and_e id xs) sh ≡ (
          let chain = eval_and_chain (results p.0) (ids_of xs) in
          ok (joined id chain.result chain.short_circuited p.0 p.1))
  unfolding eval
  and-run id xs sh run = rw (run, ◌>>=◌) refl

  pub or-run :
      (id : ℕ) (xs : Exprs) (sh : Map ℕ UBoolValue) {p : List EvalResult × Map ℕ UBoolValue}
      → eval_args eval_app a xs sh ≡ ok p
      → eval eval_app a (or_e id xs) sh ≡ (
          let chain = eval_or_chain (results p.0) (ids_of xs) in
          ok (joined id chain.result chain.short_circuited p.0 p.1))
  unfolding eval
  or-run id xs sh run = rw (run, ◌>>=◌) refl

  pub app-run :
      (f : AppHead) (xs : Exprs) (sh : Map ℕ UBoolValue) {p : List EvalResult × Map ℕ UBoolValue}
      {q : EvalResult × Map ℕ UBoolValue}
      → eval_args eval_app a xs sh ≡ ok p
      → eval_call (eval_app f.id) f.id p.0 p.1 ≡ ok q
      → eval eval_app a (app f xs) sh ≡ ok q
  unfolding eval
  app-run f xs sh run1 run2 = rw (run1, ◌>>=◌) run2

  pub cons-run :
      (x : Expr) (xs : Exprs) (sh : Map ℕ UBoolValue) {p : EvalResult × Map ℕ UBoolValue}
      {q : List EvalResult × Map ℕ UBoolValue}
      → eval eval_app a x sh ≡ ok p
      → eval_args eval_app a xs p.1 ≡ ok q
      → eval_args eval_app a (cons x xs) sh ≡ ok (p.0 ∷ q.0, q.1)
  unfolding eval_args
  cons-run x xs sh run1 run2 = rw (run1, ◌>>=◌, run2, ◌>>=◌) refl

module _ (eval_app : ℕ → List UBoolValue → Reply) (a : Assignment)
    (responds : Responds eval_app) where
  call-Says :
      (id : ℕ) (vs : List UBoolValue) (v : UBoolValue) (b : Bool)
      → call_value (eval_app id vs) ≡ ok v
      → ((w : UBoolValue) → eval_app id vs ≡ answer w → Says w b)
      → Says v b
  call-Says id vs v b e h = reply (eval_app id vs) refl e
    where
      reply : (r : Reply) → eval_app id vs ≡ r → call_value r ≡ ok v → Says v b
      reply (answer w) at e = let same : w ≡ v = cc in subst (λ u. Says u b) same (h w at)
      reply refusal at e = let same : unknown_v ≡ v = cc in subst (λ u. Says u b) same tt
      reply no_response at e = ground arith
      reply failure at e = ground arith

  pub eval_call_lem :
      (f : ℕ) (rs : List EvalResult) (sh : Map ℕ UBoolValue)
      → Returns (eval_call (eval_app f) f rs sh) (λ p.
        (b : Bool)
        → (any is_unknown_val (results rs) ≡ false
            → (w : UBoolValue) → eval_app f (results rs) ≡ answer w
            → Says w b)
        → Says p.0.result b)
  unfolding eval_call
  eval_call_lem f rs sh = elim (Bool-cases (any is_unknown_val (results rs))) [
    | inl e ↦ rw e (_, refl, λ b h. tt)
    | inr e ↦
        let (v, run) = responds f (results rs) in
        rw (e, run, ◌>>=◌) (_, refl, λ b h. call-Says f (results rs) v b run (h refl))
  ]

  inert-Says : (c : InertContext) → Says (inert_val c) (inert_value c)
  inert-Says inert_and = refl
  inert-Says inert_or = refl

  mutual
    unfolding eval HasValues truth Agrees AllSay

    -- An expression whose variables have values evaluates, and to a value that fits.
    pub eval-Fits :
        (e : Expr) (sh : Map ℕ UBoolValue)
        → HasValues a e
        → Returns (eval eval_app a e sh) (λ p. Fits eval_app a e p.0.result)
    eval-Fits (true_e id n) sh h = (_, refl, λ σ calls c g. refl)
    eval-Fits (false_e id n) sh h = (_, refl, λ σ calls c g. refl)
    eval-Fits (ubool_var v) sh h =
        let (w, at) = h in
        let (p, run, same) = eval_var_lem (lookup v.name.unique a) w v.id v.name.unique sh at in
        (p, run, λ σ calls c g. rw same (c v.name.unique w at))
    eval-Fits (not_e id x) sh h =
        let (p, run, k) = eval-Fits x sh h in
        (_, not-run eval_app a id x sh run, λ σ calls c g. neg-Says p.0.result _ (k σ calls c g))
    eval-Fits (and_e id xs) sh h =
        let (p, run, k) = eval_args-Fits xs sh h in
        (
          _,
          and-run eval_app a id xs sh run,
          λ σ calls c g. and_chain-Says σ calls (results p.0) xs (k σ calls c g) (ids_of xs),
        )
    eval-Fits (or_e id xs) sh h =
        let (p, run, k) = eval_args-Fits xs sh h in
        (
          _,
          or-run eval_app a id xs sh run,
          λ σ calls c g. or_chain-Says σ calls (results p.0) xs (k σ calls c g) (ids_of xs),
        )
    eval-Fits (app f xs) sh h =
        let (p, run1, k) = eval_args-Fits xs sh h in
        let (q, run2, l) = eval_call_lem f.id p.0 p.1 in
        (
          q,
          app-run eval_app a f xs sh run1 run2,
          λ σ calls c g.
              l (calls f.id) (λ known w at. g.1 (results p.0) w (k σ calls c g.0) known at),
        )
    eval-Fits (inert_e i) sh h = (_, refl, λ σ calls c g. inert-Says i.context)

    pub eval_args-Fits :
        (xs : Exprs) (sh : Map ℕ UBoolValue)
        → AllHaveValues a xs
        → Returns (eval_args eval_app a xs sh) (λ p. AllFit eval_app a xs (results p.0))
    eval_args-Fits nil sh h = (_, refl, λ σ calls c g. tt)
    eval_args-Fits (cons x xs) sh h =
        let (p, run1, k) = eval-Fits x sh h.0 in
        let (q, run2, l) = eval_args-Fits xs p.1 h.1 in
        (
          _,
          cons-run eval_app a x xs sh run1 run2,
          λ σ calls c g. (k σ calls c g.0, l σ calls c g.1),
        )
