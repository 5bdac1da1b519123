-- ===== src/TextPositions/RoundTrip.antt =====
-- text-positions.ts: the offset of the position of an offset.
use l4_ide.Prelude.{
  ℕ, zero, suc, ◌+◌, ◌-◌, ◌≤◌, ◌<◌, min, Bool, true, false, ◌&&◌, Option, none, some, List, [], ◌∷◌,
  ◌≡◌, refl, arith, ◌==◌, if◌then◌else◌, ltb, leb, length, Bool-cases, inl, inr, ==_true,
}
use l4_ide.TextPositions.{
  code_at, is_code, line_starts, back_over, line_end, start_at, last_start, position_at, offset_at,
}
use l4_ide.TextPositions.Search.{IsLineOf, last_start-IsLineOf, line_starts_mono}

-- The offset stands between the two characters of a line's end.
abbrev pub is_inside_end : List ℕ → ℕ → Bool
unfolding code_at
is_inside_end text o = ltb 0 o && is_code 13 (code_at text (o - 1)) && is_code 10 (code_at text o)

start_at-code_at : (starts : List ℕ) (i s : ℕ) → code_at starts i ≡ some s → start_at starts i ≡ s
unfolding code_at
start_at-code_at starts i s h = rw (start_at, h) refl

code_at-length : (xs : List ℕ) (i s : ℕ) → code_at xs i ≡ some s → i < length xs
unfolding code_at
code_at-length [] i s h = absurd (cc)
code_at-length (x ∷ xs) zero s h = omega arith
code_at-length (x ∷ xs) (suc i) s h = let ih = code_at-length xs i s h in omega arith

back_over-ge : (text : List ℕ) (c stop : ℕ) → stop - 1 ≤ back_over text c stop
unfolding back_over
back_over-ge text c stop = by_test (ltb 0 stop && is_code c (code_at text (stop - 1)))
  where
    by_test : (b : Bool) → stop - 1 ≤ (if b then stop - 1 else stop)
    by_test true = omega arith
    by_test false = omega arith

-- The last character before a line may be passed over, and no other.
back_over-last :
    (text : List ℕ) (o : ℕ)
    → is_inside_end text o ≡ false
    → o ≤ back_over text 13 (back_over text 10 (suc o))
unfolding back_over code_at
back_over-last text o outside =
    let e : suc o - 1 ≡ o = omega arith in
    rw e (by_tests (is_code 10 (code_at text o)) (is_code 13 (code_at text (o - 1))) refl refl)
  where
    by_tests :
        (a b : Bool)
        → is_code 10 (code_at text o) ≡ a
        → is_code 13 (code_at text (o - 1)) ≡ b
        → o ≤ (
            if ltb 0 (if ltb 0 (suc o) && a then o else suc o)
              && is_code 13 (code_at text ((if ltb 0 (suc o) && a then o else suc o) - 1))
            then (if ltb 0 (suc o) && a then o else suc o) - 1
            else (if ltb 0 (suc o) && a then o else suc o))
    by_tests true b p q = let t : ltb 0 (suc o) ≡ true = ground arith in rw t (ground arith)
    by_tests false b p q = let t : ltb 0 (suc o) ≡ true = ground arith in rw t (ground arith)

-- An offset before the next line is not past the end of its line, unless it stands inside that end.
le-back_over :
    (text : List ℕ) (o next : ℕ)
    → o < next
    → is_inside_end text o ≡ false
    → o ≤ back_over text 13 (back_over text 10 next)
le-back_over text o next h outside = elim (Bool-cases (next == suc o)) [
  | inl e ↦
      let same : next ≡ suc o = ==_true next (suc o) e in rw same (back_over-last text o outside)
  | inr e ↦
      let a = back_over-ge text 10 next in
      let b = back_over-ge text 13 (back_over text 10 next) in ground (arith)
]

-- Then the line's end is at the offset or past it.
le-line_end :
    (text : List ℕ) (o r : ℕ)
    → o ≤ length text
    → is_inside_end text o ≡ false
    → IsLineOf (line_starts text) o r
    → o ≤ line_end text (line_starts text) r
unfolding line_end
le-line_end text o r h outside l = by_next (code_at (line_starts text) (r + 1)) refl
  where
    by_next :
        (n : Option ℕ)
        → code_at (line_starts text) (r + 1) ≡ n
        → o
          ≤ (elim n [ none ↦ length text | some next ↦ back_over text 13 (back_over text 10 next) ])
    by_next none e = h
    by_next (some next) e =
        let reach = code_at-length (line_starts text) (r + 1) next e in
        let after = l.last (r + 1) (omega arith) reach in
        let is_next = start_at-code_at (line_starts text) (r + 1) next e in
        le-back_over text o next (omega arith) outside

-- The line that `positionAt` finds.
found_line :
    (text : List ℕ) (o : ℕ)
    → IsLineOf (line_starts text) o (
        last_start
          (length (line_starts text))
          (line_starts text)
          o
          0
          (length (line_starts text) - 1))
unfolding line_starts code_at
found_line text o =
    last_start-IsLineOf (line_starts text) o (line_starts_mono text) (length (line_starts text)) 0
      (length (line_starts text) - 1) (omega arith) (omega arith) (omega arith) (omega arith)
      (λ j p q. absurd (omega arith))

-- For an offset in the text, or at its end, that does not stand between a carriage return and the line feed
-- after it, the offset of its position is the offset itself.
pub offset_at-position_at :
    (text : List ℕ) (o : ℕ)
    → o ≤ length text
    → is_inside_end text o ≡ false
    → offset_at text (position_at text o) ≡ o
unfolding offset_at position_at
offset_at-position_at text o h outside =
    let starts : List ℕ = line_starts text in
    let clamped : min o (length text) ≡ o = omega arith in
    let r : ℕ = last_start (length starts) starts o 0 (length starts - 1) in
    let l = found_line text o in
    let inside = l.in_range in
    let before = l.starts_before in
    let ends = le-line_end text o r h outside l in
    let here : leb (length starts) r ≡ false = ground arith in rw (clamped, here) (omega arith)
