-- ===== src/DecisionQuery/Order.antt =====
-- Variable orders: what `collectVarOrder` collects, and the index of each variable.
use l4_ide.Prelude.{
  ℕ, zero, suc, ◌+◌, true, false, some, List, [], ◌∷◌, ◌≡◌, refl, sym, ◌∙◌, ◌↔◌, ◌⊎◌, inl, inr, ap,
  Map, get, set, get-set, get-set_cases, nat_key, arith, ◌==◌, ==_true, ==_refl, Bool-cases,
}
use l4_ide.Expr.{
  Expr, Exprs, and_e, or_e, not_e, ubool_var, true_e, false_e, app, inert_e, nil, cons,
}
use l4_ide.Robdd.{has}
use l4_ide.DecisionQuery.{index_from, nth}
use l4_ide.DecisionQuery.Compile.{IsCompilable, AreCompilable}

abbrev pub NoRepeats : List ℕ → Type 0
NoRepeats [] = Unit
NoRepeats (u ∷ us) = (has u us ≡ false) × NoRepeats us

-- The index map holds exactly the places of the order.
abbrev pub IsIndexed : List ℕ → Map ℕ ℕ → Type 0
IsIndexed order idx = (u i : ℕ) → (get u idx ≡ some i) ↔ (nth order i ≡ some u)

false_true {ℓ} : {P : Type ℓ} → false ≡ true → P
false_true e = cc

has-nth : (u : ℕ) (us : List ℕ) → has u us ≡ true → (k : ℕ) × (nth us k ≡ some u)
unfolding nth
has-nth u [] h = false_true h
has-nth u (w ∷ us) h = elim (Bool-cases (u == w)) [
  | inl e ↦ (0, ap some (sym (==_true u w e)))
  | inr e ↦ let (k, at) = has-nth u us (ground arith) in (suc k, at)
]

pub nth-has : (u : ℕ) (us : List ℕ) (k : ℕ) → nth us k ≡ some u → has u us ≡ true
unfolding nth
nth-has u [] k h = cc
nth-has u (w ∷ us) zero h = ground (arith, ==_refl u)
nth-has u (w ∷ us) (suc k) h = ground (arith, nth-has u us k h)

-- In an order without repeats a unique has one place.
nth-injective :
    (u : ℕ) (us : List ℕ) (j k : ℕ) → NoRepeats us → nth us j ≡ some u → nth us k ≡ some u → j ≡ k
unfolding nth
nth-injective u [] j k n p q = cc
nth-injective u (w ∷ us) zero zero n p q = refl
nth-injective u (w ∷ us) zero (suc k) n p q =
    let same : w ≡ u = cc in false_true (sym n.0 ∙ rw same (nth-has u us k q))
nth-injective u (w ∷ us) (suc j) zero n p q =
    let same : w ≡ u = cc in false_true (sym n.0 ∙ rw same (nth-has u us j p))
nth-injective u (w ∷ us) (suc j) (suc k) n p q = ap suc (nth-injective u us j k n.1 p q)

index_from_found :
    (u i j : ℕ) (us : List ℕ) (m : Map ℕ ℕ)
    → get u (index_from i us m) ≡ some j
    → ((k : ℕ) × (j ≡ i + k) × (nth us k ≡ some u)) ⊎ (get u m ≡ some j)
unfolding index_from nth
index_from_found u i j [] m h = inr h
index_from_found u i j (w ∷ us) m h = elim (index_from_found u (i + 1) j us (set w i m) h) [
  | inl (k, e, at) ↦ inl (suc k, omega arith, at)
  | inr h' ↦ elim (get-set_cases u w i j m h') [
    | inl (same, here) ↦ inl (0, omega arith, ap some (sym same))
    | inr before ↦ inr before
  ]
]

index_from_keeps :
    (u i : ℕ) (us : List ℕ) (m : Map ℕ ℕ)
    → ((j : ℕ) × (get u m ≡ some j)) ⊎ (has u us ≡ true)
    → (j : ℕ) × (get u (index_from i us m) ≡ some j)
unfolding index_from
index_from_keeps u i [] m (inl h) = h
index_from_keeps u i [] m (inr h) = false_true h
index_from_keeps u i (w ∷ us) m h = index_from_keeps u (i + 1) us (set w i m) (next h)
  where
    next :
        ((j : ℕ) × (get u m ≡ some j)) ⊎ (has u (w ∷ us) ≡ true)
        → ((j : ℕ) × (get u (set w i m) ≡ some j)) ⊎ (has u us ≡ true)
    next h = elim (Bool-cases (u == w)) [
      | inl e ↦ inl (i, ground (arith, get-set u w i m))
      | inr e ↦ elim h [
        | inl (j, at) ↦ inl (j, ground (arith, get-set u w i m))
        | inr more ↦ inr (ground arith)
      ]
    ]

-- `uniqueToVarIndex` inverts an order without repeats.
pub index_from-IsIndexed : (us : List ℕ) → NoRepeats us → IsIndexed us (index_from 0 us [])
index_from-IsIndexed us n u i = (
  λ h. place i h,
  λ at.
      let (j, h) = index_from_keeps u 0 us [] (inr (nth-has u us i at)) in
      let same : j ≡ i = nth-injective u us j i n (place j h) at in rw same at h,
)
  where
    place : (j : ℕ) → get u (index_from 0 us []) ≡ some j → nth us j ≡ some u
    place j h = elim (index_from_found u 0 j us [] h) [
      | inl (k, e, at) ↦ let same : j ≡ k = omega arith in rw same at
      | inr h' ↦ absurd (unfold get in cc)
    ]

-- Every variable of the expression has a place, and there is no function call.
unfoldable mutual
  pub IsCovered : List ℕ → Expr → Type 0
  IsCovered us (and_e id xs) = AreCovered us xs
  IsCovered us (or_e id xs) = AreCovered us xs
  IsCovered us (not_e id x) = IsCovered us x
  IsCovered us (ubool_var v) = has v.name.unique us ≡ true
  IsCovered us (true_e id n) = Unit
  IsCovered us (false_e id n) = Unit
  IsCovered us (app f xs) = ⊥
  IsCovered us (inert_e i) = Unit

  pub AreCovered : List ℕ → Exprs → Type 0
  AreCovered us nil = Unit
  AreCovered us (cons x xs) = IsCovered us x × AreCovered us xs

mutual
  unfolding IsCovered IsCompilable

  covered-IsCompilable :
      (us : List ℕ) (e : Expr) → IsCovered us e → IsCompilable (index_from 0 us []) e
  covered-IsCompilable us (and_e id xs) h = covered-AreCompilable us xs h
  covered-IsCompilable us (or_e id xs) h = covered-AreCompilable us xs h
  covered-IsCompilable us (not_e id x) h = covered-IsCompilable us x h
  covered-IsCompilable us (ubool_var v) h = index_from_keeps v.name.unique 0 us [] (inr h)
  covered-IsCompilable us (true_e id n) h = tt
  covered-IsCompilable us (false_e id n) h = tt
  covered-IsCompilable us (app f xs) h = h
  covered-IsCompilable us (inert_e i) h = tt

  covered-AreCompilable :
      (us : List ℕ) (xs : Exprs) → AreCovered us xs → AreCompilable (index_from 0 us []) xs
  covered-AreCompilable us nil h = tt
  covered-AreCompilable us (cons x xs) (p, q) =
      (covered-IsCompilable us x p, covered-AreCompilable us xs q)

pub IsCovered-IsCompilable :
    (us : List ℕ) (e : Expr) → IsCovered us e → IsCompilable (index_from 0 us []) e
IsCovered-IsCompilable us e h = covered-IsCompilable us e h
