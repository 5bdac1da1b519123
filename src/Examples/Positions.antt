-- ===== src/Examples/Positions.antt =====
-- The theorem on positions at a concrete text.
use l4_ide.Prelude.{ℕ, List, [], ◌∷◌, ◌≡◌, refl, arith}
use l4_ide.TextPositions.{
  position_at, offset_at, code_at, starts_from, line_starts, back_over, line_end, last_start,
}
use l4_ide.TextPositions.RoundTrip.{offset_at-position_at}

-- a, carriage return, line feed, b, line feed, c
abbrev three_lines : List ℕ
three_lines = 97 ∷ 13 ∷ 10 ∷ 98 ∷ 10 ∷ 99 ∷ []

second_line : position_at three_lines 4 ≡ record { line = 1; character = 1 }
unfolding position_at line_starts starts_from last_start line_end back_over code_at
second_line = refl

-- Inside the end of a line the round trip goes back to its start.
inside_end : offset_at three_lines (position_at three_lines 2) ≡ 1
unfolding offset_at position_at line_starts starts_from last_start line_end back_over code_at
inside_end = refl

positions_example : offset_at three_lines (position_at three_lines 4) ≡ 4
unfolding code_at
positions_example = offset_at-position_at three_lines 4 (omega arith) refl
