-- ===== src/Ladder/ShortCircuit.antt =====
-- The short-circuited operands of a chain are those behind its shortest deciding prefix.
use l4_ide.Prelude.{
  ℕ, zero, suc, ◌<◌, Bool, true, false, List, [], ◌∷◌, ◌≡◌, ◌≢◌, refl, arith, length, any, take,
  drop, Bool-cases, inl, inr,
}
use l4_ide.Expr.{UBoolValue, false_v}
use l4_ide.Ladder.Assignment.{is_true_val, is_false_val}
use l4_ide.Ladder.Eval.{after_first, eval_and_chain, every}

-- `k` operands are the shortest prefix with a value that satisfies `p`, and `ids` are those behind it.
record IsFirst (p : UBoolValue → Bool) (vs : List UBoolValue) (all ids : List ℕ) (k : ℕ)
    : Type 0 where
  behind : ids ≡ drop k all
  found : any p (take k vs) ≡ true
  shortest : (j : ℕ) → j < k → any p (take j vs) ≡ false

IsFirst-hit :
    (p : UBoolValue → Bool) (vs : List UBoolValue) (ids : List ℕ)
    → length vs ≡ length ids
    → any p vs ≡ true
    → (k : ℕ) × IsFirst p vs ids (after_first p vs ids) k
unfolding after_first
IsFirst-hit p [] ids len h = absurd (cc)
IsFirst-hit p (v ∷ vs) [] len h = absurd (omega (arith, len))
IsFirst-hit p (v ∷ vs) (i ∷ ids) len h = elim (Bool-cases (p v)) [
  | inl hit ↦ (
    1,
    rw hit
        (record { behind = refl; found = ground (arith, hit); shortest = λ j lt. only_zero j lt }),
  )
  | inr miss ↦
      let (k, first) = IsFirst-hit p vs ids (omega (arith, len)) (ground arith) in
      (
        suc k,
        rw miss (record {
          behind = first.behind;
          found = ground (arith, first.found);
          shortest = λ j lt. prefix j miss lt first.shortest;
        }),
      )
]
  where
    only_zero : (j : ℕ) → j < 1 → any p (take j (v ∷ vs)) ≡ false
    only_zero zero lt = refl
    only_zero (suc j) lt = absurd (omega (arith, lt))

    prefix :
        {k : ℕ} (j : ℕ)
        → p v ≡ false
        → j < suc k
        → ((i : ℕ) → i < k → any p (take i vs) ≡ false)
        → any p (take j (v ∷ vs)) ≡ false
    prefix zero miss lt ih = refl
    prefix (suc j) miss lt ih = ground (arith, ih j (omega (arith, lt)))

-- In a conjunction with a false operand, and with one id for each operand, the short-circuited ids are
-- those behind the first `k` operands, where the first `k` give false and no fewer do.
pub and_chain_short :
    (vs : List UBoolValue) (ids : List ℕ)
    → length vs ≡ length ids
    → (eval_and_chain vs ids).result ≡ false_v
    → (k : ℕ) × ((eval_and_chain vs ids).short_circuited ≡ drop k ids)
      × ((eval_and_chain (take k vs) (take k ids)).result ≡ false_v)
      × ((j : ℕ) → j < k → (eval_and_chain (take j vs) (take j ids)).result ≢ false_v)
unfolding eval_and_chain
and_chain_short vs ids len h =
    let some_false = and_false vs ids h in
    let (k, first) = IsFirst-hit is_false_val vs ids len some_false in
    (
      k,
      rw some_false first.behind,
      rw (first.found) refl,
      λ j lt e. absurd (no_false (first.shortest j lt) (and_false (take j vs) (take j ids) e)),
    )
  where
    and_false :
        (vs : List UBoolValue) (ids : List ℕ)
        → (eval_and_chain vs ids).result ≡ false_v
        → any is_false_val vs ≡ true
    and_false vs ids h = elim (Bool-cases (any is_false_val vs)) [
      | inl e ↦ e
      | inr e ↦ elim (Bool-cases (every is_true_val vs)) [
        | inl e' ↦ ground (arith, h, e, e')
        | inr e' ↦ ground (arith, h, e, e')
      ]
    ]

    no_false : {b : Bool} → b ≡ false → b ≡ true → ⊥
    no_false p q = cc
