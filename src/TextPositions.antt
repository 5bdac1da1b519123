-- ===== src/TextPositions.antt =====
-- ts-shared/legalese-agent/src/text-positions.ts: offsets in a text, and positions by line and character. A
-- text is its list of UTF-16 code units. Offsets, lines and characters are natural numbers.
pub mod Search
pub mod RoundTrip
use Prim.Native.Nat.{◌/◌}
use l4_ide.Prelude.{
  ℕ, zero, suc, ◌+◌, ◌-◌, min, Bool, true, false, ◌&&◌, ◌||◌, Option, none, some, List, [], ◌∷◌,
  ◌==◌, if◌then◌else◌, ltb, leb, length, take, drop,
}

pub record LspPosition : Type 0 where
  pub line : ℕ
  pub character : ℕ

-- `text.charCodeAt(i)`, or a line's start: none out of range.
unfoldable pub code_at : List ℕ → ℕ → Option ℕ
code_at [] i = none
code_at (c ∷ cs) zero = some c
code_at (c ∷ cs) (suc i) = code_at cs i

abbrev pub is_code : ℕ → Option ℕ → Bool
is_code c none = false
is_code c (some d) = d == c

-- The loop of `lineStarts`, at the offset `i`.
unfoldable pub starts_from : ℕ → List ℕ → List ℕ
starts_from i [] = []
starts_from i (c ∷ []) = if (c == 13) || (c == 10) then (i + 1) ∷ [] else []
starts_from i (c ∷ d ∷ cs) =
    let after_both : List ℕ = (i + 2) ∷ starts_from (i + 2) cs in
    let rest : List ℕ = starts_from (i + 1) (d ∷ cs) in
    if (c == 13) && (d == 10)
    then after_both
    else if (c == 13) || (c == 10)
    then (i + 1) ∷ rest
    else rest

unfoldable pub line_starts : List ℕ → List ℕ
unfolding starts_from
line_starts text = 0 ∷ starts_from 0 text

-- `if (end > 0 && text.charCodeAt(end - 1) === c) end--`
unfoldable pub back_over : List ℕ → ℕ → ℕ → ℕ
unfolding code_at
back_over text c stop = if ltb 0 stop && is_code c (code_at text (stop - 1)) then stop - 1 else stop

unfoldable pub line_end : List ℕ → List ℕ → ℕ → ℕ
unfolding back_over code_at
line_end text starts line = elim (code_at starts (line + 1)) [
  | none ↦ length text
  | some next ↦ back_over text 13 (back_over text 10 next)
]

-- `starts[i]!`
abbrev pub start_at : List ℕ → ℕ → ℕ
unfolding code_at
start_at starts i = elim (code_at starts i) [ none ↦ 0 | some s ↦ s ]

-- The binary search, with fuel for its rounds.
unfoldable pub last_start : ℕ → List ℕ → ℕ → ℕ → ℕ → ℕ
unfolding code_at
last_start zero starts offset lo hi = lo
last_start (suc fuel) starts offset lo hi =
    let mid = (lo + hi + 1) / 2 in
    let right = last_start fuel starts offset mid hi in
    let left = last_start fuel starts offset lo (mid - 1) in
    if ltb lo hi then (if leb (start_at starts mid) offset then right else left) else lo

unfoldable pub position_at : List ℕ → ℕ → LspPosition
unfolding line_starts line_end last_start code_at
position_at text offset =
    let clamped = min offset (length text) in
    let starts = line_starts text in
    let lo = last_start (length starts) starts clamped 0 (length starts - 1) in
    record { line = lo; character = min clamped (line_end text starts lo) - start_at starts lo }

unfoldable pub offset_at : List ℕ → LspPosition → ℕ
unfolding line_starts line_end code_at
offset_at text position =
    let starts = line_starts text in
    if leb (length starts) position.line
    then length text
    else min (start_at starts position.line + position.character)
        (line_end text starts position.line)

-- The text between two positions.
unfoldable pub text_in_range : List ℕ → LspPosition → LspPosition → List ℕ
unfolding offset_at
text_in_range text start stop = drop (offset_at text start) (take (offset_at text stop) text)
