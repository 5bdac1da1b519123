-- ===== src/DecisionQuery/Collect.antt =====
-- `collectVarOrder` lists each variable of an expression once, and refuses function calls.
use l4_ide.Prelude.{
  ℕ, true, false, ◌||◌, List, [], ◌∷◌, ◌++◌, ◌≡◌, refl, sym, ◌⊎◌, inl, inr, ok, err, Result, arith,
  ◌==◌, ==_true, ==_refl, Bool-cases,
}
use l4_ide.Expr.{
  Expr, Exprs, and_e, or_e, not_e, ubool_var, true_e, false_e, app, inert_e, nil, cons, HasVar,
  SomeHasVar,
}
use l4_ide.Robdd.{has, add, Fault}
use l4_ide.Robdd.Support.{has-add}
use l4_ide.DecisionQuery.{collect_vars, collect_all, collect_var_order}
use l4_ide.DecisionQuery.Order.{NoRepeats, IsCovered, AreCovered}

mutual
  unfolding IsCovered

  IsCovered-mono :
      (us ws : List ℕ) (e : Expr)
      → ((u : ℕ) → has u us ≡ true → has u ws ≡ true)
      → IsCovered us e
      → IsCovered ws e
  IsCovered-mono us ws (and_e id xs) h c = AreCovered-mono us ws xs h c
  IsCovered-mono us ws (or_e id xs) h c = AreCovered-mono us ws xs h c
  IsCovered-mono us ws (not_e id x) h c = IsCovered-mono us ws x h c
  IsCovered-mono us ws (ubool_var v) h c = h v.name.unique c
  IsCovered-mono us ws (true_e id n) h c = tt
  IsCovered-mono us ws (false_e id n) h c = tt
  IsCovered-mono us ws (app f xs) h c = c
  IsCovered-mono us ws (inert_e i) h c = tt

  AreCovered-mono :
      (us ws : List ℕ) (xs : Exprs)
      → ((u : ℕ) → has u us ≡ true → has u ws ≡ true)
      → AreCovered us xs
      → AreCovered ws xs
  AreCovered-mono us ws nil h c = tt
  AreCovered-mono us ws (cons x xs) h (p, q) =
      (IsCovered-mono us ws x h p, AreCovered-mono us ws xs h q)

append-NoRepeats :
    (u : ℕ) (us : List ℕ) → has u us ≡ false → NoRepeats us → NoRepeats (us ++ (u ∷ []))
append-NoRepeats u [] h n = (refl, tt)
append-NoRepeats u (w ∷ us) h n =
    (ground (arith, has-snoc w u us), append-NoRepeats u us (ground arith) n.1)
  where
    has-snoc : (x y : ℕ) (xs : List ℕ) → has x (xs ++ (y ∷ [])) ≡ (x == y) || has x xs
    has-snoc x y [] = ground arith
    has-snoc x y (z ∷ xs) = ground (arith, has-snoc x y xs)

pub add-NoRepeats : (u : ℕ) (us : List ℕ) → NoRepeats us → NoRepeats (add u us)
add-NoRepeats u us n = elim (Bool-cases (has u us)) [
  | inl old ↦ rw old n
  | inr new ↦ rw new (append-NoRepeats u us new n)
]

-- What a visit adds to the list so far: the variables of the expression, each once.
record Collects (out out' : List ℕ) (Covered : List ℕ → Type 0) (Has : ℕ → Type 0) : Type 0 where
  once : NoRepeats out → NoRepeats out'
  kept : (u : ℕ) → has u out ≡ true → has u out' ≡ true
  covered : Covered out'
  only : (u : ℕ) → has u out' ≡ true → (has u out ≡ true) ⊎ Has u

nothing_Collects :
    {Covered : List ℕ → Type 0} (out : List ℕ) (Has : ℕ → Type 0)
    → Covered out
    → Collects out out Covered Has
nothing_Collects out Has c = record {
  once = λ n. n;
  kept = λ u h. h;
  covered = c;
  only = λ u h. inl h;
}

visit_var : (u : ℕ) (out : List ℕ) → Collects out (add u out) (λ us. has u us ≡ true) (λ w. u ≡ w)
visit_var u out = record {
  once = add-NoRepeats u out;
  kept = λ w h. ground (arith, has-add w u out);
  covered = ground (arith, has-add u u out, ==_refl u);
  only = λ w h. elim (Bool-cases (w == u)) [
    | inl hit ↦ inr (sym (==_true w u hit))
    | inr miss ↦ inl (ground (arith, has-add w u out))
  ];
}

chain_ok :
    {A B : Type 0} (r : Result Fault A) (f : A → Result Fault B) {b : B}
    → (elim r [ ok a ↦ f a | err e ↦ err e ]) ≡ ok b
    → (a : A) × (r ≡ ok a) × (f a ≡ ok b)
chain_ok (ok a) f h = (a, refl, h)
chain_ok (err e) f h = cc

mutual
  unfolding collect_vars IsCovered HasVar

  collect_vars-Collects :
      (e : Expr) (out out' : List ℕ)
      → collect_vars e out ≡ ok out'
      → Collects out out' (λ us. IsCovered us e) (λ u. HasVar u e)
  collect_vars-Collects (and_e id xs) out out' h =
      let c = collect_all-Collects xs out out' h in
      record { once = c.once; kept = c.kept; covered = c.covered; only = c.only }
  collect_vars-Collects (or_e id xs) out out' h =
      let c = collect_all-Collects xs out out' h in
      record { once = c.once; kept = c.kept; covered = c.covered; only = c.only }
  collect_vars-Collects (not_e id x) out out' h =
      let c = collect_vars-Collects x out out' h in
      record { once = c.once; kept = c.kept; covered = c.covered; only = c.only }
  collect_vars-Collects (ubool_var v) out out' h =
      let same : add v.name.unique out ≡ out' = cc in rw (← same) (visit_var v.name.unique out)
  collect_vars-Collects (true_e id n) out out' h =
      let same : out ≡ out' = cc in rw (← same) (nothing_Collects out _ tt)
  collect_vars-Collects (false_e id n) out out' h =
      let same : out ≡ out' = cc in rw (← same) (nothing_Collects out _ tt)
  collect_vars-Collects (app f xs) out out' h = absurd (cc)
  collect_vars-Collects (inert_e i) out out' h =
      let same : out ≡ out' = cc in rw (← same) (nothing_Collects out _ tt)

  collect_all-Collects :
      (xs : Exprs) (out out' : List ℕ)
      → collect_all xs out ≡ ok out'
      → Collects out out' (λ us. AreCovered us xs) (λ u. SomeHasVar u xs)
  collect_all-Collects nil out out' h =
      let same : out ≡ out' = cc in rw (← same) (nothing_Collects out _ tt)
  collect_all-Collects (cons x xs) out out' h =
      let (mid, p, q) = chain_ok (collect_vars x out) (collect_all xs) h in
      let c = collect_vars-Collects x out mid p in
      let d = collect_all-Collects xs mid out' q in
      record {
        once = λ n. d.once (c.once n);
        kept = λ u h. d.kept u (c.kept u h);
        covered = (IsCovered-mono mid out' x d.kept c.covered, d.covered);
        only = λ u h. elim (d.only u h) [
          | inr later ↦ inr (inr later)
          | inl before ↦ elim (c.only u before) [ inl old ↦ inl old | inr first ↦ inr (inl first) ]
        ];
      }

-- An order that `collectVarOrder` returns has no repeats, covers every variable of the expression,
-- which then has no function call, and lists no other unique.
pub collect_var_order_lem :
    (e : Expr) (us : List ℕ)
    → collect_var_order e ≡ ok us
    → NoRepeats us × IsCovered us e × ((u : ℕ) → has u us ≡ true → HasVar u e)
unfolding collect_var_order
collect_var_order_lem e us h =
    let c = collect_vars-Collects e [] us h in
    (c.once tt, c.covered, λ u p. elim (c.only u p) [ inl none_yet ↦ cc | inr found ↦ found ])
