-- ===== src/Protocol/Printed.antt =====
-- files.ts: what is printed for a command number and for a cursor is read back.
use mathlib.Core.List.{reverse}
use l4_ide.Prelude.{
  ℕ, suc, ◌≤◌, ◌<◌, Bool, true, false, ◌&&◌, none, some, List, [], ◌∷◌, ◌++◌, ◌≡◌, refl, ap, ◌∙◌,
  arith, if◌then◌else◌, ltb, ◌==◌, ==_true, length, Bool-cases, inl, inr,
}
use l4_ide.Digits.{
  decimal, number_of, span_digits, AreDigits, span_digits_lem, span_digits_all, decimal-AreDigits,
  number_of-decimal, decimal-short, decimal-long, decimal-some, tens,
}
use l4_ide.Protocol.{codes}
use l4_ide.Protocol.Validate.{max_safe_integer}
use l4_ide.Protocol.Patterns.{every}
use l4_ide.Protocol.Numbers.{
  is_space, after_spaces, has_digits, format_command_seq, parse_command_seq, EventCursor,
  format_cursor, parse_offset, parse_cursor,
}

-- No digit is a space.
after_spaces_lem : (ds s : List ℕ) → AreDigits ds → 1 ≤ length ds → after_spaces (ds ++ s) ≡ ds ++ s
unfolding after_spaces
after_spaces_lem [] s h le = absurd (omega (arith, le))
after_spaces_lem (d ∷ ds) s h le =
    let digit = h.0 in let other : is_space d ≡ false = ground (arith, digit) in rw other refl

decimal-has_digits : (n k : ℕ) → n < tens (suc k) → has_digits (suc k) (decimal n) ≡ true
decimal-has_digits n k h =
    let short = decimal-short n k h in let one = decimal-some n in ground (arith, short, one)

decimal_too_long : (n k : ℕ) → tens k ≤ n → has_digits k (decimal n) ≡ false
decimal_too_long n k h = let long = decimal-long n k h in ground (arith, long)

parse-printed :
    (n : ℕ)
    → parse_command_seq (decimal n ++ (10 ∷ []))
      ≡ (if has_digits 12 (decimal n) && true then some n else none)
unfolding parse_command_seq
parse-printed n =
    let read : span_digits (after_spaces (decimal n ++ (10 ∷ []))) ≡ (decimal n, 10 ∷ []) =
      ap span_digits (after_spaces_lem (decimal n) (10 ∷ []) (decimal-AreDigits n) (decimal-some n))
      ∙ span_digits_lem (decimal n) 10 [] (decimal-AreDigits n) refl in
    (λ i.
      if has_digits 12 ((read i).0) && every is_space ((read i).1)
      then some (number_of (reverse ((read i).0)))
      else none)
    ∙ ap (λ (x : ℕ). if has_digits 12 (decimal n) && true then some x else none)
        (number_of-decimal n)

-- A command number that is a safe integer is printed, and what is printed is read back as the same number if
-- it has at most twelve digits, and as invalid otherwise.
pub parse-format_command_seq :
    (n : ℕ)
    → n ≤ max_safe_integer
    → (content : List ℕ) × (format_command_seq n ≡ some content)
      × (parse_command_seq content ≡ (if ltb n 1000000000000 then some n else none))
unfolding format_command_seq tens
parse-format_command_seq n safe =
    let fits : ltb max_safe_integer n ≡ false = ground (arith, safe) in
    (
      decimal n ++ (10 ∷ []),
      rw fits refl,
      parse-printed n ∙ elim (Bool-cases (ltb n 1000000000000)) [
        | inl e ↦ rw (e, decimal-has_digits n 11 (ground (arith, e))) refl
        | inr e ↦ rw (e, decimal_too_long n 12 (ground (arith, e))) refl
      ],
    )

-- A cursor with a segment of at most seven digits and an offset of at most nine is read back from its text.
pub parse-format_cursor :
    (c : EventCursor)
    → c.segment < 10000000
    → c.offset < 1000000000
    → parse_cursor (format_cursor c) ≡ some c
unfolding format_cursor parse_cursor parse_offset tens
parse-format_cursor c s7 o9 = by_start (c.segment == 0 && c.offset == 0) refl
  where
    printed : parse_cursor (decimal c.segment ++ (58 ∷ decimal c.offset)) ≡ some c
    printed =
        let first =
          span_digits_lem (decimal c.segment) 58 (decimal c.offset) (decimal-AreDigits c.segment)
            refl in
        let second = span_digits_all (decimal c.offset) (decimal-AreDigits c.offset) in
        rw
          (
            first,
            decimal-has_digits c.segment 6 s7,
            number_of-decimal c.segment,
            second,
            decimal-has_digits c.offset 8 o9,
            number_of-decimal c.offset,
          )
          refl

    by_start :
        (b : Bool)
        → (c.segment == 0 && c.offset == 0) ≡ b
        → parse_cursor (if b then codes "0" else decimal c.segment ++ (58 ∷ decimal c.offset))
          ≡ some c
    by_start true e = ground (arith, ==_true c.segment 0, ==_true c.offset 0, e)
    by_start false e = printed
