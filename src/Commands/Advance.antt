-- ===== src/Commands/Advance.antt =====
-- `markHandled`: the persisted number moves over the handled prefix that has no gap.
use l4_ide.Prelude.{
  ℕ, zero, suc, ◌≤◌, ◌<◌, true, false, not, ◌&&◌, List, [], ◌∷◌, ◌≡◌, refl, arith, ◌==◌, ==_true,
  ==_refl, length, Bool-cases, inl, inr,
}
use l4_ide.Robdd.{has}
use l4_ide.Commands.{advance, remove}

has-remove : (k x : ℕ) (ys : List ℕ) → has k (remove x ys) ≡ has k ys && not (k == x)
has-remove k x [] = refl
has-remove k x (y ∷ ys) = ground (arith, has-remove k x ys, ==_true k y)

length-remove_le : (x : ℕ) (ys : List ℕ) → length (remove x ys) ≤ length ys
length-remove_le x [] = omega arith
length-remove_le x (y ∷ ys) = ground (arith, length-remove_le x ys)

length-remove_found : (x : ℕ) (ys : List ℕ) → has x ys ≡ true → length (remove x ys) < length ys
length-remove_found x [] h = cc
length-remove_found x (y ∷ ys) h =
    ground (arith, length-remove_found x ys, length-remove_le x ys, ==_refl x)

-- All numbers in the list are above the first bound and at most the second.
abbrev pub Within : ℕ → ℕ → List ℕ → Type 0
Within lo hi above = (k : ℕ) → has k above ≡ true → (lo < k) × (k ≤ hi)

-- Where the loop ends: over the numbers in the list without a gap, and not at one that is in it.
pub record Advanced (next : ℕ) (above : List ℕ) (hi next' : ℕ) (above' : List ℕ) : Type 0 where
  pub up : next ≤ next'
  pub below : next' ≤ hi
  pub prefix : (k : ℕ) → next < k → k ≤ next' → has k above ≡ true
  pub rest : (k : ℕ) → has k above' ≡ true → has k above ≡ true
  pub kept : (k : ℕ) → has k above ≡ true → next' < k → has k above' ≡ true
  pub within : Within next' hi above'
  pub gap : has (suc next') above' ≡ false

pub advance-Advanced :
    (fuel next hi : ℕ) (above : List ℕ)
    → length above ≤ fuel
    → next ≤ hi
    → Within next hi above
    → Advanced next above hi (advance fuel next above).0 (advance fuel next above).1
unfolding advance
advance-Advanced zero next hi [] len le w = record {
  up = omega arith;
  below = le;
  prefix = λ k a b. absurd (omega (arith, a, b));
  rest = λ k h. h;
  kept = λ k h lt. h;
  within = w;
  gap = refl;
}
advance-Advanced zero next hi (x ∷ above) len le w = absurd (omega (arith, len))
advance-Advanced (suc fuel) next hi above len le w = elim (Bool-cases (has (suc next) above)) [
  | inr e ↦
      rw (e, advance)
        (record {
          up = omega arith;
          below = le;
          prefix = λ k a b. absurd (omega (arith, a, b));
          rest = λ k h. h;
          kept = λ k h lt. h;
          within = w;
          gap = e;
        })
  | inl e ↦
      rw (e, advance)
        (let removed : (k : ℕ)
              → has k (remove (suc next) above) ≡ has k above && not (k == suc next) =
            λ k. has-remove k (suc next) above in
          let shorter = length-remove_found (suc next) above e in
          let ih =
            advance-Advanced fuel (suc next) hi (remove (suc next) above)
              (omega (arith, len, shorter)) ((w (suc next) e).1)
              (λ k h. (above_next k h, (w k (ground (arith, removed k))).1)) in
          record {
            up = omega (arith, ih.up);
            below = ih.below;
            prefix = λ k a b. elim (Bool-cases (k == suc next)) [
              | inl same ↦ let p = ==_true k (suc next) same in rw p e
              | inr apart ↦
                  let found = ih.prefix k (ground (arith, a, apart)) b in ground (arith, removed k)
            ];
            rest = λ k h. let found = ih.rest k h in ground (arith, removed k);
            kept = λ k h lt.
                let up = ih.up in
                let other : (k == suc next) ≡ false = ground (arith, up, lt) in
                ih.kept k (ground (arith, removed k)) lt;
            within = ih.within;
            gap = ih.gap;
          })
]
  where
    above_next : (k : ℕ) → has k (remove (suc next) above) ≡ true → suc next < k
    above_next k h =
        let r = has-remove k (suc next) above in
        let (lt, _) = w k (ground (arith, r)) in ground (arith, r, lt)
