-- ===== src/EventLog/Shrink.antt =====
-- event-log.ts: what is made of an event whose field is too large. A text is cut in half, with a note of how
-- much of the original is gone. `json_text` is the text of a value's JSON.
use Prim.Native.String.{String}
use Prim.Native.Nat.{◌/◌}
use mathlib.Core.List.{reverse}
use l4_ide.Prelude.{
  ℕ, zero, suc, ◌-◌, true, Option, none, some, List, [], ◌∷◌, ◌++◌, if◌then◌else◌, leb, ◌==◌,
  length, take,
}
use l4_ide.Digits.{number_of, span_digits}
use l4_ide.Doubles.{Number, finite, to_number, plus_number, minus_number, number_text}
use l4_ide.Protocol.{
  Value, undefined, boolean, string, array, object, Items, nil, cons, Fields, end, field, codes,
  get, put, count, is_named,
}
use l4_ide.Protocol.Validate.{Part, key, index}

abbrev pub note_start : List ℕ
note_start = codes "…[truncated "

abbrev pub note_end : List ℕ
note_end = codes " chars]"

unfoldable pub truncation_note : Number → List ℕ
unfolding number_text
truncation_note dropped = note_start ++ (number_text dropped ++ note_end)

-- What comes after a prefix.
unfoldable pub after_prefix : List ℕ → List ℕ → Option (List ℕ)
after_prefix [] s = some s
after_prefix (c ∷ p) [] = none
after_prefix (c ∷ p) (d ∷ s) = let rest = after_prefix p s in if c == d then rest else none

abbrev pub with_number : List ℕ → Option (List ℕ) → Option (List ℕ × ℕ)
unfolding number_of
with_number [] o = none
with_number (c ∷ cs) none = none
with_number (c ∷ cs) (some s) = some (s, number_of (c ∷ cs))

-- NOTE_RE on a text whose end comes first: what stands before the note, and the note's number.
unfoldable pub match_note : List ℕ → Option (List ℕ × ℕ)
unfolding after_prefix span_digits number_of
match_note s = elim (after_prefix (reverse note_end) s) [
  | none ↦ none
  | some t ↦ with_number (span_digits t).0 (after_prefix (reverse note_start) (span_digits t).1)
]

abbrev pub body_of : List ℕ → Option (List ℕ × ℕ) → List ℕ
body_of s none = s
body_of s (some m) = reverse m.0

unfoldable pub strip_note : List ℕ → List ℕ
unfolding match_note
strip_note s = body_of s (match_note (reverse s))

-- The length without the note, and the note's number.
abbrev pub length_with_note : List ℕ → ℕ → Option (List ℕ × ℕ) → Number
unfolding to_number
length_with_note s kept none = finite (length s)
length_with_note s kept (some m) = plus_number kept (to_number m.1)

unfoldable pub original_length : List ℕ → Number
unfolding match_note strip_note to_number
original_length s = length_with_note s (length (strip_note s)) (match_note (reverse s))

unfoldable pub shrink_text : List ℕ → Option (List ℕ)
unfolding strip_note original_length truncation_note to_number
shrink_text s =
    let body = strip_note s in
    let kept = take (length body / 2) body in
    if length kept == length body
    then none
    else some (kept ++ truncation_note (minus_number (original_length s) (length kept)))

abbrev pub item_at : ℕ → Items → Value
item_at i nil = undefined
item_at zero (cons v xs) = v
item_at (suc i) (cons v xs) = item_at i xs

abbrev pub put_item : ℕ → Value → Items → Items
put_item i w nil = nil
put_item zero w (cons v xs) = cons w xs
put_item (suc i) w (cons v xs) = cons v (put_item i w xs)

abbrev pub take_items : ℕ → Items → Items
take_items zero xs = nil
take_items (suc n) nil = nil
take_items (suc n) (cons v xs) = cons v (take_items n xs)

abbrev pub map_text : Option (List ℕ) → Option Value
map_text none = none
map_text (some s) = some (string s)

abbrev pub shrink_item : Value → Option Value
unfolding shrink_text
shrink_item (string s) = map_text (shrink_text s)
shrink_item v = none

abbrev pub with_item : ℕ → Items → Option Value → Option Value
with_item i xs none = none
with_item i xs (some w) = some (array (put_item i w xs))

-- A longer JSON text is replaced by its start.
abbrev pub preview_length : ℕ
preview_length = 10000

abbrev pub preview_of : List ℕ → Option Value
unfolding truncation_note
preview_of s =
    if leb (length s) preview_length
    then none
    else some (
        object (
          field "truncated" (boolean true) (
            field "preview"
              (string
                (take preview_length s ++ truncation_note (finite (length s - preview_length))))
              end)))

module _ (json_text : Value → List ℕ) where
  unfoldable pub shrink_value : Value → Option ℕ → Option Value
  unfolding shrink_text truncation_note
  shrink_value (array xs) (some i) = with_item i xs (shrink_item (item_at i xs))
  shrink_value (array xs) none =
      if count xs == 0 then none else some (array (take_items (count xs / 2) xs))
  shrink_value (string s) i = map_text (shrink_text s)
  shrink_value (object fs) i = preview_of (json_text (object fs))
  shrink_value _ i = none

  abbrev pub put_back : String → Fields → Option Value → Option Fields
  put_back k event none = none
  put_back k event (some v) = some (put k v event)

  abbrev pub shrink_named : String → Option ℕ → Fields → Option Fields
  unfolding shrink_value
  shrink_named k i event =
      if is_named k "type" then none else put_back k event (shrink_value (get k event) i)

  -- The path of an error starts with the event's name, and its keys are letters.
  unfoldable pub shrink_field : Fields → List Part → Option Fields
  unfolding shrink_value
  shrink_field event (key e ∷ key k ∷ index i ∷ path) = shrink_named k (some i) event
  shrink_field event (key e ∷ key k ∷ path) = shrink_named k none event
  shrink_field event path = none
