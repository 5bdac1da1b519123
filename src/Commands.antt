-- ===== src/Commands.antt =====
-- ts-apps/cloud-agent/src/command-reader.ts: the reader of a session's command queue.
-- The files are what the reads give: a read of a command file is an `Attempt`, with the time on the clock
-- then; a read of `commands.seq` is its number, or `none` if it is invalid. Files says what these are for
-- the contents. Writes of `commands.done` are a log, and here each succeeds; Failing has those that fail.
pub mod Advance
pub mod Handled
pub mod Delivery
pub mod Polling
pub mod Failing
pub mod Faults
pub mod Tries
pub mod Through
pub mod Written
pub mod History
pub mod Throws
pub mod Restart
pub mod Files
pub mod Queued
use l4_ide.Prelude.{
  ℕ, zero, suc, ◌+◌, ◌-◌, Bool, true, false, not, Option, none, some, List, [], ◌∷◌, ◌++◌, ◌==◌,
  if◌then◌else◌, leb, ltb, length, filter, max, min,
}
use l4_ide.Robdd.{has, add}

abbrev pub command_grace_ms : ℕ
command_grace_ms = 15000

abbrev pub command_transient_grace_ms : ℕ
command_transient_grace_ms = 60000

-- What a read of a command file gives: an error that passes or another one, no complete text, a text that
-- is no valid command, or a command with its id.
pub data Attempt : Type 0 where
  transient_failure other_failure unfinished invalid_command : Attempt
  command : ℕ → Attempt

pub data ReadResult : Type 0 where
  wait skip : ReadResult
  ready : ℕ → ReadResult

pub record CommandReader : Type 0 where
  pub high_water : ℕ
  pub done : ℕ
  pub delivered : ℕ
  pub handled_above : List ℕ
  pub stuck_since : Option (ℕ × ℕ)
  pub written : List ℕ

-- `open`, with the number in `commands.done`, or 0 without a valid one.
abbrev pub open_at : ℕ → CommandReader
open_at n = record {
  high_water = n;
  done = n;
  delivered = n;
  handled_above = [];
  stuck_since = none;
  written = [];
}

-- `stuck`, by what is noted so far.
unfoldable pub stuck_since_then :
    Option (ℕ × ℕ) → ℕ → ℕ → ℕ → CommandReader → ReadResult × CommandReader
stuck_since_then none n grace_ms now s = (wait, record s { stuck_since = some (n, now) })
stuck_since_then (some (m, at)) n grace_ms now s =
    if not (m == n)
    then (wait, record s { stuck_since = some (n, now) })
    else if ltb (now - at) grace_ms
    then (wait, s)
    else (skip, record s { stuck_since = none })

unfoldable pub stuck : ℕ → ℕ → ℕ → CommandReader → ReadResult × CommandReader
unfolding stuck_since_then
stuck n grace_ms now s = stuck_since_then s.stuck_since n grace_ms now s

unfoldable pub read : ℕ → Attempt → ℕ → CommandReader → ReadResult × CommandReader
unfolding stuck
read n transient_failure now s = stuck n command_transient_grace_ms now s
read n other_failure now s = (skip, record s { stuck_since = none })
read n unfinished now s = stuck n command_grace_ms now s
read n invalid_command now s = (skip, s)
read n (command id) now s =
    if id == n then (ready id, record s { stuck_since = none }) else (skip, s)

unfoldable pub persist : ℕ → CommandReader → CommandReader
persist next s =
    if leb next s.done then s else record s { done = next; written = s.written ++ (next ∷ []) }

abbrev pub remove : ℕ → List ℕ → List ℕ
remove x = filter (λ y. not (y == x))

-- The loop of `markHandled`. Each round takes a number out, so the length is enough fuel.
unfoldable pub advance : ℕ → ℕ → List ℕ → ℕ × List ℕ
advance zero next above = (next, above)
advance (suc fuel) next above = elim (has (suc next) above) [
  | true ↦ advance fuel (suc next) (remove (suc next) above)
  | false ↦ (next, above)
]

unfoldable pub mark_handled : ℕ → CommandReader → CommandReader
unfolding persist advance
mark_handled n s =
    if leb n s.done
    then s
    else (let above = add n s.handled_above in
        let (next, rest) = advance (length above) s.done above in
        persist next (record s { handled_above = rest }))

unfoldable pub mark_handled_through : ℕ → CommandReader → CommandReader
unfolding persist
mark_handled_through n s =
    persist (max s.done (min n s.delivered))
      (record s { handled_above = filter (λ k. not (leb k n)) s.handled_above })

-- The high-water mark takes a larger number only.
unfoldable pub note_seq : Option ℕ → CommandReader → CommandReader
note_seq none s = s
note_seq (some seq) s = if ltb s.high_water seq then record s { high_water = seq } else s

-- The loop of `poll`, with the reads that the files give. Each round that goes on delivers a number.
unfoldable pub poll_from : ℕ → (ℕ → Attempt × ℕ) → CommandReader → List ℕ × CommandReader
unfolding read mark_handled
poll_from zero files s = ([], s)
poll_from (suc fuel) files s = elim (ltb s.delivered s.high_water) [
  | false ↦ ([], s)
  | true ↦
      let n = suc s.delivered in
      let result = read n (files n).0 (files n).1 s in
      elim (result.0) [
        | wait ↦ ([], result.1)
        | skip ↦ poll_from fuel files (mark_handled n (record (result.1) { delivered = n }))
        | ready id ↦
            let rest = poll_from fuel files (record (result.1) { delivered = n }) in
            (id ∷ rest.0, rest.1)
      ]
]

unfoldable pub poll : Option ℕ → (ℕ → Attempt × ℕ) → CommandReader → List ℕ × CommandReader
unfolding poll_from note_seq
poll seq files s = let t = note_seq seq s in poll_from (t.high_water - t.delivered) files t
