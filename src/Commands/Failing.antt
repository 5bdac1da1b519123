-- ===== src/Commands/Failing.antt =====
-- ts-apps/cloud-agent/src/command-reader.ts, where a write of `commands.done` may fail: the fence refuses it,
-- or the file cannot be replaced. A failed write leaves the file as it was, and its error goes to the caller:
-- the first part of a result is `false`, or `none` for a poll.
use l4_ide.Prelude.{
  ℕ, zero, suc, ◌-◌, Bool, true, false, not, Option, none, some, List, [], ◌∷◌, ◌++◌, if◌then◌else◌,
  leb, ltb, length, filter, max, min,
}
use l4_ide.Robdd.{add}
use l4_ide.Commands.{CommandReader, Attempt, wait, skip, ready, read, advance, note_seq}

-- The number in memory is set before the write.
unfoldable pub persist_try : Bool → ℕ → CommandReader → Bool × CommandReader
persist_try writes next s =
    if leb next s.done
    then (true, s)
    else if writes
    then (true, record s { done = next; written = s.written ++ (next ∷ []) })
    else (false, record s { done = next })

unfoldable pub mark_handled_try : Bool → ℕ → CommandReader → Bool × CommandReader
unfolding persist_try advance
mark_handled_try writes n s =
    if leb n s.done
    then (true, s)
    else (let above = add n s.handled_above in
        let (next, rest) = advance (length above) s.done above in
        persist_try writes next (record s { handled_above = rest }))

unfoldable pub mark_handled_through_try : Bool → ℕ → CommandReader → Bool × CommandReader
unfolding persist_try
mark_handled_through_try writes n s =
    persist_try writes (max s.done (min n s.delivered))
      (record s { handled_above = filter (λ k. not (leb k n)) s.handled_above })

-- A command is handed out only if the rest of the poll returns.
abbrev pub with_command : ℕ → Option (List ℕ) → Option (List ℕ)
with_command id none = none
with_command id (some out) = some (id ∷ out)

-- An error of `markHandled` leaves the loop, and the commands read so far with it. `writes n` says
-- whether a write succeeds while the poll skips the number `n`.
unfoldable pub poll_try_from :
    ℕ → (ℕ → Bool) → (ℕ → Attempt × ℕ) → CommandReader → Option (List ℕ) × CommandReader
unfolding read mark_handled_try
poll_try_from zero writes files s = (some [], s)
poll_try_from (suc fuel) writes files s = elim (ltb s.delivered s.high_water) [
  | false ↦ (some [], s)
  | true ↦
      let n = suc s.delivered in
      let result = read n (files n).0 (files n).1 s in
      elim (result.0) [
        | wait ↦ (some [], result.1)
        | skip ↦
            let marked = mark_handled_try (writes n) n (record (result.1) { delivered = n }) in
            let rest = poll_try_from fuel writes files (marked.1) in
            elim (marked.0) [ true ↦ rest | false ↦ (none, marked.1) ]
        | ready id ↦
            let rest = poll_try_from fuel writes files (record (result.1) { delivered = n }) in
            (with_command id (rest.0), rest.1)
      ]
]

unfoldable pub poll_try :
    Option ℕ → (ℕ → Bool) → (ℕ → Attempt × ℕ) → CommandReader → Option (List ℕ) × CommandReader
unfolding poll_try_from note_seq
poll_try seq writes files s =
    let t = note_seq seq s in poll_try_from (t.high_water - t.delivered) writes files t
