-- ===== src/Ladder/Sound.antt =====
-- What a three-valued answer says, and what the chains of a conjunction and a disjunction say.
use l4_ide.Prelude.{
  ℕ, Bool, true, false, not, some, List, [], ◌∷◌, ◌≡◌, refl, arith, any, Bool-cases, inl, inr,
}
use l4_ide.Expr.{
  Exprs, nil, cons, UBoolValue, true_v, false_v, unknown_v, truth, all_true, any_true,
}
use l4_ide.Ladder.Assignment.{Assignment, lookup, is_true_val, is_false_val}
use l4_ide.Ladder.Eval.{eval_and_chain, eval_or_chain, every, neg_value}

-- A three-valued answer says this much about a truth value.
abbrev pub Says : UBoolValue → Bool → Type 0
Says true_v b = b ≡ true
Says false_v b = b ≡ false
Says unknown_v b = Unit

-- `σ` completes the assignment.
abbrev pub Completes : Assignment → (ℕ → Bool) → Type 0
Completes a σ = (u : ℕ) (v : UBoolValue) → lookup u a ≡ some v → Says v (σ u)

-- The values say so much about the expressions, one for one.
unfoldable pub AllSay : List UBoolValue → (ℕ → Bool) → (ℕ → Bool) → Exprs → Type 0
AllSay [] σ calls nil = Unit
AllSay (v ∷ vs) σ calls (cons x xs) = Says v (truth σ calls x) × AllSay vs σ calls xs
AllSay _ σ calls _ = ⊥

pub neg-Says : (v : UBoolValue) (b : Bool) → Says v b → Says (neg_value v) (not b)
neg-Says true_v b h = ground arith
neg-Says false_v b h = ground arith
neg-Says unknown_v b h = tt

some_false :
    (σ calls : ℕ → Bool) (vs : List UBoolValue) (xs : Exprs)
    → AllSay vs σ calls xs
    → any is_false_val vs ≡ true
    → all_true σ calls xs ≡ false
unfolding AllSay truth
some_false σ calls [] nil h e = cc
some_false σ calls (true_v ∷ vs) (cons x xs) h e = ground (arith, some_false σ calls vs xs h.1)
some_false σ calls (false_v ∷ vs) (cons x xs) h e = ground arith
some_false σ calls (unknown_v ∷ vs) (cons x xs) h e = ground (arith, some_false σ calls vs xs h.1)
some_false σ calls [] (cons x xs) h e = absurd h
some_false σ calls (true_v ∷ vs) nil h e = absurd h
some_false σ calls (false_v ∷ vs) nil h e = absurd h
some_false σ calls (unknown_v ∷ vs) nil h e = absurd h

all_are_true :
    (σ calls : ℕ → Bool) (vs : List UBoolValue) (xs : Exprs)
    → AllSay vs σ calls xs
    → every is_true_val vs ≡ true
    → all_true σ calls xs ≡ true
unfolding AllSay truth
all_are_true σ calls [] nil h e = refl
all_are_true σ calls (true_v ∷ vs) (cons x xs) h e = ground (arith, all_are_true σ calls vs xs h.1)
all_are_true σ calls (false_v ∷ vs) (cons x xs) h e = ground arith
all_are_true σ calls (unknown_v ∷ vs) (cons x xs) h e = ground arith
all_are_true σ calls [] (cons x xs) h e = absurd h
all_are_true σ calls (true_v ∷ vs) nil h e = absurd h
all_are_true σ calls (false_v ∷ vs) nil h e = absurd h
all_are_true σ calls (unknown_v ∷ vs) nil h e = absurd h

some_true :
    (σ calls : ℕ → Bool) (vs : List UBoolValue) (xs : Exprs)
    → AllSay vs σ calls xs
    → any is_true_val vs ≡ true
    → any_true σ calls xs ≡ true
unfolding AllSay truth
some_true σ calls [] nil h e = cc
some_true σ calls (true_v ∷ vs) (cons x xs) h e = ground arith
some_true σ calls (false_v ∷ vs) (cons x xs) h e = ground (arith, some_true σ calls vs xs h.1)
some_true σ calls (unknown_v ∷ vs) (cons x xs) h e = ground (arith, some_true σ calls vs xs h.1)
some_true σ calls [] (cons x xs) h e = absurd h
some_true σ calls (true_v ∷ vs) nil h e = absurd h
some_true σ calls (false_v ∷ vs) nil h e = absurd h
some_true σ calls (unknown_v ∷ vs) nil h e = absurd h

all_are_false :
    (σ calls : ℕ → Bool) (vs : List UBoolValue) (xs : Exprs)
    → AllSay vs σ calls xs
    → every is_false_val vs ≡ true
    → any_true σ calls xs ≡ false
unfolding AllSay truth
all_are_false σ calls [] nil h e = refl
all_are_false σ calls (false_v ∷ vs) (cons x xs) h e =
    ground (arith, all_are_false σ calls vs xs h.1)
all_are_false σ calls (true_v ∷ vs) (cons x xs) h e = ground arith
all_are_false σ calls (unknown_v ∷ vs) (cons x xs) h e = ground arith
all_are_false σ calls [] (cons x xs) h e = absurd h
all_are_false σ calls (true_v ∷ vs) nil h e = absurd h
all_are_false σ calls (false_v ∷ vs) nil h e = absurd h
all_are_false σ calls (unknown_v ∷ vs) nil h e = absurd h

module _ (σ calls : ℕ → Bool) (vs : List UBoolValue) (xs : Exprs) (say : AllSay vs σ calls xs) where
  pub and_chain-Says : (ids : List ℕ) → Says (eval_and_chain vs ids).result (all_true σ calls xs)
  unfolding eval_and_chain
  and_chain-Says ids = elim (Bool-cases (any is_false_val vs)) [
    | inl e ↦ rw e (some_false σ calls vs xs say e)
    | inr e ↦ elim (Bool-cases (every is_true_val vs)) [
      | inl e' ↦ rw (e, e') (all_are_true σ calls vs xs say e')
      | inr e' ↦ rw (e, e') tt
    ]
  ]

  pub or_chain-Says : (ids : List ℕ) → Says (eval_or_chain vs ids).result (any_true σ calls xs)
  unfolding eval_or_chain
  or_chain-Says ids = elim (Bool-cases (any is_true_val vs)) [
    | inl e ↦ rw e (some_true σ calls vs xs say e)
    | inr e ↦ elim (Bool-cases (every is_false_val vs)) [
      | inl e' ↦ rw (e, e') (all_are_false σ calls vs xs say e')
      | inr e' ↦ rw (e, e') tt
    ]
  ]
