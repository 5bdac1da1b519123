-- ===== src/EventLog/Notes.antt =====
-- event-log.ts: the note at the end of a text that is cut is read back by the next cut.
use Prim.Native.Nat.{◌/◌, ◌%◌}
use mathlib.Core.List.{reverse, reverse-append, reverse-reverse, append_assoc}
use l4_ide.Prelude.{
  ℕ, zero, suc, ◌+◌, ◌-◌, ◌≤◌, ◌<◌, Bool, true, false, Option, none, some, List, [], ◌∷◌, ◌++◌, ◌≡◌,
  refl, sym, ap, ◌∙◌, arith, if◌then◌else◌, ltb, ◌==◌, ==_refl, length, take,
}
use l4_ide.Digits.{
  digits_from, last_digits, number_of, span_digits, number_of-digits_from, digits_from-AreDigits,
  span_digits_lem,
}
use l4_ide.Doubles.{
  finite, exact_limit, to_number, plus_number, minus_number, to_number-exact, number_text-exact,
}
use l4_ide.EventLog.Shrink.{
  note_start, note_end, truncation_note, after_prefix, with_number, match_note, body_of,
  length_with_note, strip_note, original_length, shrink_text,
}

after_prefix_lem : (p s : List ℕ) → after_prefix p (p ++ s) ≡ some s
unfolding after_prefix
after_prefix_lem [] s = refl
after_prefix_lem (c ∷ p) s = rw (==_refl c) (after_prefix_lem p s)

-- A text with a note, read from its end.
reverse-note :
    (kept ds : List ℕ)
    → reverse (kept ++ (note_start ++ (reverse ds ++ note_end)))
      ≡ reverse note_end ++ (ds ++ (reverse note_start ++ reverse kept))
reverse-note kept ds = simp (reverse-append, reverse-reverse, append_assoc)

match_note-steps :
    (s t : List ℕ) (c : ℕ) (cs r x : List ℕ)
    → after_prefix (reverse note_end) s ≡ some t
    → span_digits t ≡ (c ∷ cs, r)
    → after_prefix (reverse note_start) r ≡ some x
    → match_note s ≡ some (x, number_of (c ∷ cs))
unfolding match_note
match_note-steps s t c cs r x e f g =
    (λ i. elim (e i) [
      | none ↦ none
      | some u ↦ with_number (span_digits u).0 (after_prefix (reverse note_start) (span_digits u).1)
    ])
    ∙ (λ i. with_number (f i).0 (after_prefix (reverse note_start) (f i).1))
    ∙ ap (with_number (c ∷ cs)) g

match_note_lem :
    (kept : List ℕ) (d : ℕ)
    → d < exact_limit
    → match_note (reverse (kept ++ truncation_note (finite d))) ≡ some (reverse kept, d)
unfolding truncation_note digits_from
match_note_lem kept d small =
    let rest : List ℕ = if ltb d 10 then [] else digits_from d (d / 10) in
    let before : List ℕ = reverse note_start ++ reverse kept in
    let steps =
      match_note-steps (reverse note_end ++ (last_digits d ++ before)) (last_digits d ++ before)
        (48 + d % 10) rest before (reverse kept)
        (after_prefix_lem (reverse note_end) (last_digits d ++ before))
        (span_digits_lem (last_digits d) _ _ (digits_from-AreDigits (suc d) d) refl)
        (after_prefix_lem (reverse note_start) (reverse kept)) in
    (λ i. match_note (reverse (kept ++ (note_start ++ (number_text-exact d small i ++ note_end)))))
    ∙ ap match_note (reverse-note kept (last_digits d))
    ∙ steps
    ∙ (λ i. some (reverse kept, number_of-digits_from (suc d) d (omega arith) i))

-- What a text tells of its original's length, length_with_note without rounding.
abbrev pub told_of : Option (List ℕ × ℕ) → ℕ
told_of none = 0
told_of (some m) = m.1

unfoldable pub told_length : List ℕ → ℕ
told_length s = length (strip_note s) + told_of (match_note (reverse s))

-- Below the limit the numbers are exact.
pub original_length-told :
    (s : List ℕ) → told_length s < exact_limit → original_length s ≡ finite (told_length s)
unfolding original_length told_length strip_note
original_length-told s small = by_note (match_note (reverse s)) small
  where
    by_note :
        (o : Option (List ℕ × ℕ))
        → length (body_of s o) + told_of o < exact_limit
        → length_with_note s (length (body_of s o)) o ≡ finite (length (body_of s o) + told_of o)
    by_note none h = ap finite (omega arith)
    by_note (some m) h =
        ap (plus_number (length (reverse m.0))) (to_number-exact m.1 (omega (arith, h)))
        ∙ to_number-exact (length (reverse m.0) + m.1) h

strip_note-note :
    (kept : List ℕ) (d : ℕ)
    → d < exact_limit
    → strip_note (kept ++ truncation_note (finite d)) ≡ kept
unfolding strip_note
strip_note-note kept d small =
    ap (body_of (kept ++ truncation_note (finite d))) (match_note_lem kept d small)
    ∙ reverse-reverse kept

told_length-note :
    (kept : List ℕ) (d : ℕ)
    → d < exact_limit
    → told_length (kept ++ truncation_note (finite d)) ≡ length kept + d
unfolding told_length
told_length-note kept d small =
    (λ i. length (strip_note-note kept d small i) + told_of (match_note_lem kept d small i))

pub length-take : (n : ℕ) (s : List ℕ) → length (take n s) ≤ length s
length-take zero s = omega arith
length-take (suc n) [] = omega arith
length-take (suc n) (c ∷ s) = omega (arith, length-take n s)

body-le : (s : List ℕ) → length (strip_note s) ≤ told_length s
unfolding told_length
body-le s = omega arith

-- The note of a cut, below the limit.
pub cut_note :
    (s kept : List ℕ)
    → told_length s < exact_limit
    → truncation_note (minus_number (original_length s) (length kept))
      ≡ truncation_note (finite (told_length s - length kept))
unfolding to_number truncation_note
cut_note s kept small =
    (λ i. truncation_note (minus_number (original_length-told s small i) (length kept)))
    ∙ ap truncation_note (to_number-exact (told_length s - length kept) (omega (arith, small)))

-- Let a text and its note tell of an original with fewer than 2 ^ 53 code units, where numbers are exact. If it is
-- cut, then the result has the first half of the text before its note, and a note with which it tells of as
-- many, also where the text had been cut before; and the code counts this number for both.
pub shrink_text-counts :
    (s t : List ℕ)
    → told_length s < exact_limit
    → shrink_text s ≡ some t
    → (strip_note t ≡ take (length (strip_note s) / 2) (strip_note s))
      × (told_length t ≡ told_length s)
      × (original_length s ≡ finite (told_length s))
      × (original_length t ≡ finite (told_length s))
unfolding shrink_text
shrink_text-counts s t small h = by_test (length kept == length (strip_note s)) h
  where
    kept : List ℕ
    kept = take (length (strip_note s) / 2) (strip_note s)

    d : ℕ
    d = told_length s - length kept

    by_test :
        (b : Bool)
        → (if b
            then none
            else some (kept ++ truncation_note (minus_number (original_length s) (length kept))))
          ≡ some t
        → (strip_note t ≡ kept)
          × (told_length t ≡ told_length s)
          × (original_length s ≡ finite (told_length s))
          × (original_length t ≡ finite (told_length s))
    by_test true g = absurd (cc)
    by_test false g =
        let first : kept ++ truncation_note (minus_number (original_length s) (length kept)) ≡ t =
          ground arith in
        let made : kept ++ truncation_note (finite d) ≡ t =
          ap (λ (x : List ℕ). kept ++ x) (sym (cut_note s kept small)) ∙ first in
        let less : d < exact_limit = omega (arith, small) in
        let shorter : length kept ≤ told_length s =
          omega (arith, length-take (length (strip_note s) / 2) (strip_note s), body-le s) in
        let told : told_length t ≡ told_length s =
          ap told_length (sym made) ∙ told_length-note kept d less ∙ omega (arith, shorter) in
        (
          ap strip_note (sym made) ∙ strip_note-note kept d less,
          told,
          original_length-told s small,
          original_length-told t (omega (arith, told, small)) ∙ ap finite told,
        )
