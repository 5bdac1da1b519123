-- ===== src/EventLog/Steps.antt =====
-- event-log.ts: what happens to the log, one after the other: calls, timers, and the runs of `writePending`,
-- one at a time, with events coming in while a write runs. The disk changes where a write ends: what a reader
-- can see in its middle is what it sees after a write that fails there.
use l4_ide.Prelude.{
  ℕ, zero, suc, ◌+◌, true, false, not, ◌&&◌, none, some, List, [], ◌∷◌, ◌++◌, if◌then◌else◌, ltb,
  length,
}
use l4_ide.Protocol.{Value}
use l4_ide.EventLog.{
  Payload, Event, Head, Log, emit, take_delta, schedule_flush, schedule_retry, write_pending,
  begin_write, close, is_some,
}
use l4_ide.EventLog.Disk.{Storage, Fault, Outcome, went, threw, number_events, write, Piece, cut}

pub record World : Type 0 where
  pub log : Log
  pub storage : Storage

-- `write_ends` is the end of the write that runs, with the faults that its calls meet.
pub data Input : Type 0 where
  emitted : Payload → Input
  delta_fires flush_fires retry_fires flush_called write_begins closing : Input
  write_ends : List Fault → Input

module _ (json_text : Value → List ℕ) (now : ℕ → ℕ) (json_bytes : Event → ℕ) (delays : List ℕ) where
  -- The batch is published: the head and the last number move.
  abbrev pub published : Head → List Event → Log → Log
  published h es l = record l {
    head = h;
    seq = l.seq + length es;
    unclean = false;
    in_flight = none;
    failures = 0;
    retry_timer = none;
  }

  -- The batch goes back in front of what was queued meanwhile.
  abbrev pub requeued : List Payload → Log → Log
  requeued batch l =
      let back : Log = record l {
        pending = batch ++ l.pending;
        unclean = true;
        in_flight = none;
      } in
      if l.closed then back else schedule_retry delays back

  abbrev pub ended : List Payload → List Event → Log → Outcome Head → World
  ended batch es l (went h s) = record { log = published h es l; storage = s }
  ended batch es l (threw s) = record { log = requeued batch l; storage = s }

  unfoldable pub end_write : List Fault → World → World
  unfolding schedule_retry number_events write
  end_write faults w = elim w.log.in_flight [
    | none ↦ w
    | some batch ↦
        let es : List Event = number_events json_text now w.log.seq batch in
        ended batch es w.log
          (write json_bytes w.log.unclean w.log.head es (record w.storage { faults = faults }))
  ]

  -- A timer fires only while it is set, and a run has its turn when no other write runs.
  unfoldable pub step : Input → World → World
  unfolding emit take_delta schedule_flush write_pending begin_write close end_write
  step (emitted p) w = record w { log = emit p w.log }
  step delta_fires w =
      if w.log.delta_timer then record w { log = schedule_flush (take_delta w.log) } else w
  step flush_fires w = if w.log.flush_timer then record w { log = write_pending w.log } else w
  step retry_fires w =
      if is_some w.log.retry_timer
      then record w { log = write_pending (record w.log { retry_timer = none }) }
      else w
  step flush_called w = record w { log = write_pending (take_delta w.log) }
  step write_begins w =
      if not (is_some w.log.in_flight) && ltb 0 w.log.waiting
      then record w { log = begin_write w.log }
      else w
  step (write_ends faults) w = end_write faults w
  step closing w = record w { log = close w.log }

  unfoldable pub run : List Input → World → World
  unfolding step
  run [] w = w
  run (i ∷ is) w = run is (step i w)

-- What a reader of the log finds: the segments before the last, and the last up to the length in head.json.
unfoldable pub segments_below : ℕ → (ℕ → List Piece) → List Piece
segments_below zero files = []
segments_below (suc n) files = segments_below n files ++ files n

unfoldable pub read_log : (Event → ℕ) → Head → (ℕ → List Piece) → List Piece
unfolding segments_below cut
read_log json_bytes h files =
    segments_below h.segment files ++ cut json_bytes h.length (files h.segment)
