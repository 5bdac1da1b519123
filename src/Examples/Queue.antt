-- ===== src/Examples/Queue.antt =====
-- The theorems on the command queue and its marker files, at small inputs.
use l4_ide.Prelude.{
  length, ℕ, ◌≤◌, Bool, true, false, Option, none, some, List, [], ◌∷◌, ◌++◌, ◌≡◌, refl, ◌==◌,
  arith, if◌then◌else◌, ltb,
}
use l4_ide.Protocol.{Value, string, object, Fields, end, field, codes}
use l4_ide.Protocol.Commands.{client_command, stored_command}
use l4_ide.Protocol.Numbers.{
  format_command_seq, parse_command_seq, EventCursor, format_cursor, parse_cursor,
}
use l4_ide.Protocol.Printed.{parse-format_command_seq, parse-format_cursor}
use l4_ide.Commands.{
  CommandReader, Attempt, command, unfinished, invalid_command, open_at, poll, note_seq,
}
use l4_ide.Commands.Handled.{IsSound, Handles, open_at-IsSound}
use l4_ide.Commands.Through.{HandlesThrough}
use l4_ide.Commands.Failing.{poll_try, mark_handled_try, mark_handled_through_try}
use l4_ide.Commands.Tries.{Tries, poll_try-Tries}
use l4_ide.Commands.Throws.{Throws, Serves, poll_try-Throws}
use l4_ide.Commands.History.{After, reported}
use l4_ide.Commands.Files.{QueueFile, absent, holds, shown, open_reader}
use l4_ide.Commands.Restart.{HandsOut}
use l4_ide.Commands.Queued.{IsQueued, attempts, accepted_redelivered}

abbrev never : ℕ → Bool
never n = false

-- Command 4 is there, 5 is invalid, and 6 is not complete.
abbrev queue : ℕ → Attempt × ℕ
queue n =
    if n == 4 then (command 4, 0) else if n == 5 then (invalid_command, 0) else (unfinished, 0)

poll_try_example :
    ((open_at 3).high_water ≤ (note_seq (some 6) (open_at 3)).high_water)
    × Tries never queue (note_seq (some 6) (open_at 3)) (poll_try (some 6) never queue (open_at 3))
    × (poll_try (some 6) (λ _. true) queue (open_at 3)
        ≡ (some (poll (some 6) queue (open_at 3)).0, (poll (some 6) queue (open_at 3)).1))
poll_try_example = poll_try-Tries (some 6) never queue (open_at 3) (open_at-IsSound 3)

-- Here commands 4 and 5 are invalid, and the first write fails.
abbrev spoilt : ℕ → Attempt × ℕ
spoilt n = if ltb n 6 then (invalid_command, 0) else (command n, 0)

halted_example :
    Throws never (note_seq (some 6) (open_at 3)) (poll_try (some 6) never spoilt (open_at 3))
halted_example = poll_try-Throws 3 (some 6) never spoilt (open_at 3) Serves.opened

-- That poll throws, with one number passed.
spoilt_halts :
    poll_try (some 6) never spoilt (open_at 3)
    ≡ (none, record (open_at 3) { high_water = 6; done = 4; delivered = 4 })
unfolding poll_try
spoilt_halts = refl

-- After the report of a stop command whose write failed, a poll may lose a command: 4 is the stop command and
-- 5 was skipped, 6 is read, and then skipping 7 throws.
abbrev stopped : CommandReader
stopped = (mark_handled_through_try false 4 (poll_try (some 5) never queue (open_at 3)).1).1

abbrev later : ℕ → Attempt × ℕ
later n = if n == 6 then (command 6, 0) else (invalid_command, 0)

stopped_loses :
    ((poll_try (some 7) never later stopped).0 ≡ none)
    × ((poll_try (some 7) never later stopped).1.delivered ≡ 7)
unfolding poll_try mark_handled_through_try
stopped_loses = (refl, refl)

-- Two of three delivered commands, where the second is handled first.
abbrev busy : CommandReader
busy = record {
  high_water = 6;
  done = 3;
  delivered = 6;
  handled_above = 5 ∷ [];
  stuck_since = none;
  written = [];
}

busy-IsSound : IsSound busy
busy-IsSound = record {
  done_delivered = omega arith;
  delivered_seen = omega arith;
  within = λ k h. ground arith;
}

reported_example :
    Handles 4 busy (mark_handled_try false 4 busy).1
    × HandlesThrough 4 busy (mark_handled_through_try false 4 busy).1
reported_example = reported false 4 busy busy-IsSound (omega arith)

abbrev answer_fields : Fields
answer_fields =
    field "type" (string (codes "answer"))
      (field "callId" (string (codes "q1")) (field "answer" (string (codes "yes")) end))

-- The text of command 4 stands for its JSON.
abbrev sent_json : List ℕ → Option Value
sent_json [] = none
sent_json (c ∷ s) = some (object (stored_command c 1700000000000 answer_fields))

-- Command 4 is stored, 5 is not there yet.
abbrev files : ℕ → QueueFile × ℕ
files n = if n == 4 then (holds (n ∷ []), 0) else (absent, 0)

-- A run that has handed out command 4.
abbrev ran : CommandReader
ran = (poll_try (some 6) never queue (open_at 3)).1

files-IsQueued : IsQueued sent_json length 4 (files 4).0
unfolding client_command
files-IsQueued = record {
  content = 4 ∷ [];
  is_held = refl;
  fits = omega arith;
  sent = answer_fields;
  checked = answer_fields;
  accepted = refl;
  now = 1700000000000;
  is_stored = refl;
  counted = omega arith;
  is_safe = omega arith;
  now_safe = omega arith;
}

redelivered_example : HandsOut never (attempts sent_json length files) 4 (
    poll_try
      (shown (some (codes "5" ++ (10 ∷ []))))
      never
      (attempts sent_json length files)
      (open_reader (some (codes "3" ++ (10 ∷ [])))))
unfolding poll_try format_command_seq
redelivered_example =
    accepted_redelivered sent_json length 3 5 4 (codes "3" ++ (10 ∷ [])) (codes "5" ++ (10 ∷ []))
      never files ran (After.polled (some 6) never queue After.here) refl (omega arith)
      (omega arith) refl refl files-IsQueued

command_seq_example :
    (content : List ℕ) × (format_command_seq 42 ≡ some content)
    × (parse_command_seq content ≡ (if ltb 42 1000000000000 then some 42 else none))
command_seq_example = parse-format_command_seq 42 (omega arith)

abbrev cursor : EventCursor
cursor = record { segment = 3; offset = 120 }

cursor_example : parse_cursor (format_cursor cursor) ≡ some cursor
cursor_example = parse-format_cursor cursor (omega arith) (omega arith)

-- Spaces around a number are passed over.
seq_spaces : parse_command_seq (32 ∷ codes "17" ++ (13 ∷ 10 ∷ [])) ≡ some 17
unfolding parse_command_seq
seq_spaces = refl
