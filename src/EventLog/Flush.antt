-- ===== src/EventLog/Flush.antt =====
-- event-log.ts: where no call on the disk fails, a flush publishes all that was emitted.
use l4_ide.Prelude.{
  ℕ, ◌-◌, Bool, true, false, not, ◌&&◌, Option, none, some, List, [], ◌∷◌, ◌++◌, ◌≡◌, refl, sym, ap,
  ◌∙◌, subst, arith, if◌then◌else◌, ltb,
}
use mathlib.Core.List.{append-nil}
use l4_ide.Protocol.{Value}
use l4_ide.EventLog.{
  Payload, Event, Head, Log, take_delta, write_pending, begin_write, is_some, queued,
}
use l4_ide.EventLog.Disk.{number_events, write, Outcome, went, threw}
use l4_ide.EventLog.Steps.{
  World, Input, flush_called, write_begins, write_ends, step, run, end_write, ended,
}
use l4_ide.EventLog.Writes.{read_log-Holds}
use l4_ide.EventLog.Stream.{atoms, queue}
use l4_ide.EventLog.Delivers.{batch_of, new_world, sent_before_close, new-Delivers}
use l4_ide.EventLog.Delivery.{Finds, run_of, next, run-Delivers}
use l4_ide.EventLog.Faultless.{Succeeds, write-Succeeds}

-- Nothing is queued, and the log is not closed.
abbrev IsEmptied : Log → Type 0
IsEmptied l = (queue l ≡ []) × (l.closed ≡ false)

-- And no write runs.
abbrev IsIdle : World → Type 0
IsIdle w = IsEmptied w.log × (w.log.in_flight ≡ none)

begin_write-IsEmptied : (l : Log) → l.delta ≡ none → l.closed ≡ false → IsEmptied (begin_write l)
unfolding begin_write
begin_write-IsEmptied l d h = by_state l.closed l.pending l.delta refl h d
  where
    by_state :
        (b : Bool) (ps : List Payload) (o : Option Payload)
        → l.pending ≡ ps
        → b ≡ false
        → l.delta ≡ none
        → IsEmptied (
            if b then record l { waiting = l.waiting - 1 } else elim ps [
              | [] ↦ record l { waiting = l.waiting - 1 }
              | p ∷ qs ↦ record l {
                waiting = l.waiting - 1;
                pending = [];
                in_flight = some (p ∷ qs);
              }
            ])
    by_state true ps o e f g = absurd (cc)
    by_state false [] o e f g = ((λ i. e i ++ queued (g i)), h)
    by_state false (p ∷ qs) o e f g = (ap queued g, h)

-- A flush, its turn, and the end of its write with no call failing.
abbrev pub flush_inputs : List Input
flush_inputs = flush_called ∷ write_begins ∷ write_ends [] ∷ []

module _ (json_text : Value → List ℕ) (now : ℕ → ℕ) (json_bytes : Event → ℕ) (delays : List ℕ) where
  -- A write that meets no fault leaves no batch.
  end_write-IsIdle :
      (w : World) → IsEmptied w.log → IsIdle (end_write json_text now json_bytes delays [] w)
  unfolding end_write
  end_write-IsIdle w e = by_batch w.log.in_flight refl
    where
      by_outcome :
          (batch : List Payload) (es : List Event) (o : Outcome Head)
          → Succeeds o
          → IsIdle (ended json_text now json_bytes delays batch es w.log o)
      by_outcome batch es (went h t) s = (e, refl)
      by_outcome batch es (threw t) s = elim s [ ]

      by_batch :
          (o : Option (List Payload))
          → w.log.in_flight ≡ o
          → IsIdle (elim o [
            | none ↦ w
            | some batch ↦
                ended json_text now json_bytes delays batch
                  (number_events json_text now w.log.seq batch)
                  w.log
                  (write json_bytes w.log.unclean w.log.head
                    (number_events json_text now w.log.seq batch)
                    (record w.storage { faults = [] }))
          ])
      by_batch none f = (e, f)
      by_batch (some batch) f =
          by_outcome batch (number_events json_text now w.log.seq batch)
            (write json_bytes w.log.unclean w.log.head (number_events json_text now w.log.seq batch)
              (record w.storage { faults = [] }))
            (write-Succeeds json_bytes w.log.unclean w.log.head
              (number_events json_text now w.log.seq batch) (record w.storage { faults = [] }) refl)

  begins_lem :
      (w : World)
      → w.log.in_flight ≡ none
      → ltb 0 w.log.waiting ≡ true
      → next json_text now json_bytes delays write_begins w ≡ record w { log = begin_write w.log }
  unfolding step
  begins_lem w idle waits = by_turn w.log.in_flight (ltb 0 w.log.waiting) idle waits
    where
      by_turn :
          (o : Option (List Payload)) (b : Bool)
          → o ≡ none
          → b ≡ true
          → (if not (is_some o) && b then record w { log = begin_write w.log } else w)
            ≡ record w { log = begin_write w.log }
      by_turn none true e f = refl
      by_turn none false e f = absurd (cc)
      by_turn (some x) b e f = absurd (ground arith)

  flush-IsIdle :
      (w : World)
      → w.log.in_flight ≡ none
      → w.log.closed ≡ false
      → IsIdle (run_of json_text now json_bytes delays flush_inputs w)
  unfolding run step take_delta write_pending
  flush-IsIdle w idle still_open =
      let l : Log = write_pending (take_delta w.log) in
      let w1 : World = record w { log = l } in
      let w2 : World = record w1 { log = begin_write l } in
      subst (λ (x : World). IsIdle (end_write json_text now json_bytes delays [] x))
        (sym (begins_lem w1 idle (ground arith)))
        (end_write-IsIdle w2 (begin_write-IsEmptied l refl still_open))

  -- From a log that was not closed, with no write under way, a flush whose calls on the disk succeed publishes
  -- all that was emitted: a reader finds the lines of the events made of payloads `done`, and their text and
  -- events are those of all the calls of `emit`, in order.
  pub flush_publishes :
      (is : List Input)
      → (run_of json_text now json_bytes delays is new_world).log.in_flight ≡ none
      → (run_of json_text now json_bytes delays is new_world).log.closed ≡ false
      → (done : List Payload) × Finds json_text now json_bytes delays
          (run_of json_text now json_bytes delays flush_inputs
            (run_of json_text now json_bytes delays is new_world))
          done
        × (atoms done ≡ atoms (sent_before_close is))
  flush_publishes is idle still_open =
      let sent : List Payload = sent_before_close is in
      let w : World = run_of json_text now json_bytes delays is new_world in
      let w3 : World = run_of json_text now json_bytes delays flush_inputs w in
      let start =
        run-Delivers json_text now json_bytes delays is [] new_world false refl
          (new-Delivers json_text now json_bytes delays) in
      let d =
        run-Delivers json_text now json_bytes delays flush_inputs sent w false still_open start in
      let quiet = flush-IsIdle w idle still_open in
      (
        d.done,
        read_log-Holds json_bytes w3.storage w3.log.head w3.log.unclean
            (number_events json_text now 0 d.done) d.holds,
        sym (append-nil (atoms d.done))
            ∙ (λ i.
                atoms d.done
                ++ (atoms (batch_of (sym quiet.1 i))
                    ++ sym (d.to_come quiet.0.1 ∙ ap atoms quiet.0.0) i))
            ∙ d.stream
            ∙ ap atoms (append-nil sent),
      )
