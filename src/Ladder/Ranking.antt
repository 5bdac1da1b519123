-- ===== src/Ladder/Ranking.antt =====
-- query-plan-override.ts: the order in which `uniquesForAtoms` lists the uniques of a plan's atoms.
use l4_ide.Prelude.{
  ℕ, Bool, true, not, ◌&&◌, List, [], ◌∷◌, ◌++◌, ◌≡◌, refl, sym, ap, ◌∙◌, arith, ◌==◌, ==_true,
  ==_refl, filter, Bool-cases, inl, inr,
}
use mathlib.Core.List.{append_assoc, append-nil}
use l4_ide.Robdd.{has, add}
use l4_ide.Robdd.Support.{has-append}
use l4_ide.Ladder.Override.{AtomLike, uniques_for_atom, add_all, collect_uniques}

-- The first of each number, in their order.
abbrev pub each_once : List ℕ → List ℕ
each_once [] = []
each_once (u ∷ us) = u ∷ filter (λ v. not (v == u)) (each_once us)

filter_both : (p q : ℕ → Bool) (xs : List ℕ) → filter p (filter q xs) ≡ filter (λ v. q v && p v) xs
filter_both p q [] = refl
filter_both p q (x ∷ xs) = elim (Bool-cases (q x)) [
  | inl e ↦ rw (e, filter_both p q xs) refl
  | inr e ↦ rw (e, filter_both p q xs) refl
]

filter_same : (p q : ℕ → Bool) (xs : List ℕ) → ((v : ℕ) → p v ≡ q v) → filter p xs ≡ filter q xs
filter_same p q [] h = refl
filter_same p q (x ∷ xs) h = rw (h x, filter_same p q xs h) refl

abbrev new_to : List ℕ → List ℕ → List ℕ
new_to out us = filter (λ v. not (has v out)) us

skip_old :
    (u : ℕ) (us out : List ℕ)
    → has u out ≡ true
    → new_to out (filter (λ v. not (v == u)) us) ≡ new_to out us
skip_old u us out h =
    filter_both (λ v. not (has v out)) (λ v. not (v == u)) us
    ∙ filter_same _ _ us (λ v. elim (Bool-cases (v == u)) [
      | inl e ↦ let same : v ≡ u = ==_true v u e in rw (same, h, ==_refl u) refl
      | inr e ↦ rw e refl
    ])

skip_new :
    (u : ℕ) (us out : List ℕ)
    → new_to out (filter (λ v. not (v == u)) us) ≡ new_to (out ++ (u ∷ [])) us
skip_new u us out =
    filter_both (λ v. not (has v out)) (λ v. not (v == u)) us
    ∙ filter_same _ _ us (λ v. let e = has-append v u out in ground (arith, e))

add_all_order :
    (by_id by_label : List ℕ → List ℕ) (us out : List ℕ)
    → add_all by_id by_label us out ≡ out ++ new_to out (each_once us)
unfolding add_all
add_all_order by_id by_label [] out = sym (append-nil out)
add_all_order by_id by_label (u ∷ us) out = elim (Bool-cases (has u out)) [
  | inl e ↦ rw e (
      add_all_order by_id by_label us out
      ∙ ap (λ (x : List ℕ). out ++ x) (sym (skip_old u (each_once us) out e)))
  | inr e ↦ rw e (
      add_all_order by_id by_label us (out ++ (u ∷ []))
      ∙ append_assoc out (u ∷ []) (new_to (out ++ (u ∷ [])) (each_once us))
      ∙ ap (λ (x : List ℕ). out ++ (u ∷ x)) (sym (skip_new u (each_once us) out)))
]

add_all-append :
    (by_id by_label : List ℕ → List ℕ) (us vs out : List ℕ)
    → add_all by_id by_label (us ++ vs) out
      ≡ add_all by_id by_label vs (add_all by_id by_label us out)
unfolding add_all
add_all-append by_id by_label [] vs out = refl
add_all-append by_id by_label (u ∷ us) vs out = add_all-append by_id by_label us vs (add u out)

module _ (by_id by_label : List ℕ → List ℕ) where
  -- The uniques of all the atoms, in the order of the atoms.
  abbrev pub all_uniques : List AtomLike → List ℕ
  all_uniques [] = []
  all_uniques (a ∷ atoms) = uniques_for_atom by_id by_label a ++ all_uniques atoms

  collected :
      (atoms : List AtomLike) (out : List ℕ)
      → collect_uniques by_id by_label atoms out ≡ add_all by_id by_label (all_uniques atoms) out
  unfolding collect_uniques add_all
  collected [] out = refl
  collected (a ∷ atoms) out =
      collected atoms (add_all by_id by_label (uniques_for_atom by_id by_label a) out)
      ∙ sym (
          add_all-append by_id by_label (uniques_for_atom by_id by_label a) (all_uniques atoms) out)

  filter_all : (xs : List ℕ) → new_to [] xs ≡ xs
  filter_all [] = refl
  filter_all (x ∷ xs) = ap (λ (ys : List ℕ). x ∷ ys) (filter_all xs)

  pub collect_uniques_order :
      (atoms : List AtomLike)
      → collect_uniques by_id by_label atoms [] ≡ each_once (all_uniques atoms)
  collect_uniques_order atoms =
      collected atoms []
      ∙ add_all_order by_id by_label (all_uniques atoms) []
      ∙ filter_all (each_once (all_uniques atoms))
