-- ===== src/Protocol/Numbers.antt =====
-- files.ts: the text of `commands.seq` and `commands.done`, and the text of a cursor into the events.
use mathlib.Core.List.{reverse}
use l4_ide.Prelude.{
  ℕ, Bool, ◌&&◌, ◌||◌, Option, none, some, List, [], ◌∷◌, ◌++◌, if◌then◌else◌, leb, ltb, ◌==◌,
  length,
}
use l4_ide.Digits.{decimal, number_of, span_digits}
use l4_ide.Protocol.{codes}
use l4_ide.Protocol.Validate.{max_safe_integer}
use l4_ide.Protocol.Patterns.{every}

-- `\s`
abbrev pub is_space : ℕ → Bool
is_space c =
    (leb 9 c && leb c 13)
    || c == 32
    || c == 160
    || c == 5760
    || (leb 8192 c && leb c 8202)
    || c == 8232
    || c == 8233
    || c == 8239
    || c == 8287
    || c == 12288
    || c == 65279

unfoldable pub after_spaces : List ℕ → List ℕ
after_spaces [] = []
after_spaces (c ∷ s) = if is_space c then after_spaces s else c ∷ s

-- At least one digit, and at most so many.
abbrev pub has_digits : ℕ → List ℕ → Bool
has_digits most ds = leb 1 (length ds) && leb (length ds) most

-- A number that is no safe integer is an error.
unfoldable pub format_command_seq : ℕ → Option (List ℕ)
unfolding decimal
format_command_seq n = if ltb max_safe_integer n then none else some (decimal n ++ (10 ∷ []))

unfoldable pub parse_command_seq : List ℕ → Option ℕ
unfolding after_spaces span_digits number_of
parse_command_seq text =
    let m = span_digits (after_spaces text) in
    if has_digits 12 (m.0) && every is_space (m.1) then some (number_of (reverse (m.0))) else none

pub record EventCursor : Type 0 where
  pub segment : ℕ
  pub offset : ℕ

unfoldable pub format_cursor : EventCursor → List ℕ
unfolding decimal
format_cursor c =
    if c.segment == 0 && c.offset == 0
    then codes "0"
    else decimal c.segment ++ (58 ∷ decimal c.offset)

-- The optional part of a cursor.
unfoldable pub parse_offset : ℕ → List ℕ → Option EventCursor
unfolding span_digits number_of
parse_offset n [] = some (record { segment = n; offset = 0 })
parse_offset n (c ∷ s) =
    let m = span_digits s in
    if c == 58 && has_digits 9 (m.0) && leb (length (m.1)) 0
    then some (record { segment = n; offset = number_of (reverse (m.0)) })
    else none

unfoldable pub parse_cursor : List ℕ → Option EventCursor
unfolding parse_offset
parse_cursor text =
    let m = span_digits text in
    if has_digits 7 (m.0) then parse_offset (number_of (reverse (m.0))) (m.1) else none
