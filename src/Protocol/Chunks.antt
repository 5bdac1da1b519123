-- ===== src/Protocol/Chunks.antt =====
-- events.ts: a reader of the log parses the lines that are complete, and goes on after them. `read_line` is what
-- a line's bytes are: blank, no JSON, or a value.
use l4_ide.Prelude.{ℕ, suc, Option, none, some, List, [], ◌∷◌, ◌==◌, if◌then◌else◌, take, ok, err}
use l4_ide.Protocol.{Value}
use l4_ide.Protocol.Validate.{Checked, key}
use l4_ide.Protocol.Patterns.{split_on}
use l4_ide.Protocol.Events.{cloud_event}

pub data Line : Type 0 where
  blank no_json : Line
  value : Value → Line

pub record Parsed : Type 0 where
  pub events : List Value
  pub bytes : ℕ
  pub invalid : ℕ

abbrev pub nothing : Parsed
nothing = record { events = []; bytes = 0; invalid = 0 }

abbrev pub line_feed : ℕ
line_feed = 10

-- `lastIndexOf`
unfoldable pub last_index : ℕ → List ℕ → Option ℕ
last_index c [] = none
last_index c (d ∷ s) = elim (last_index c s) [
  | some i ↦ some (suc i)
  | none ↦ if d == c then some 0 else none
]

abbrev pub add_event : Value → Parsed → Parsed
add_event w r = record r { events = w ∷ r.events }

abbrev pub add_invalid : Parsed → Parsed
add_invalid r = record r { invalid = suc r.invalid }

abbrev pub note_event : Checked → Parsed → Parsed
note_event (ok w) r = add_event w r
note_event (err e) r = add_invalid r

module _ (json_text : Value → List ℕ) (read_line : List ℕ → Line) where
  abbrev pub note_line : Line → Parsed → Parsed
  note_line blank r = r
  note_line no_json r = add_invalid r
  note_line (value v) r = note_event (cloud_event json_text v (key "event" ∷ [])) r

  -- What the lines hold.
  unfoldable pub parse_lines : List (List ℕ) → Parsed
  unfolding cloud_event
  parse_lines [] = nothing
  parse_lines (l ∷ ls) = note_line (read_line l) (parse_lines ls)

  unfoldable pub parse_event_chunk : List ℕ → Parsed
  unfolding last_index parse_lines
  parse_event_chunk chunk = elim (last_index line_feed chunk) [
    | none ↦ nothing
    | some end ↦ record (parse_lines (split_on line_feed (take end chunk))) { bytes = suc end }
  ]
