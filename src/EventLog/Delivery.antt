-- ===== src/EventLog/Delivery.antt =====
-- event-log.ts: whatever happens to the log and to its disk, a reader finds the first of the events that were
-- emitted, in their order and numbered one after the other.
use l4_ide.Prelude.{
  ℕ, suc, Bool, true, false, not, ◌&&◌, ◌||◌, Option, none, some, List, [], ◌∷◌, ◌++◌, ◌≡◌, refl,
  sym, ap, ◌∙◌, subst, arith, if◌then◌else◌, map, ltb, length,
}
use mathlib.Core.List.{append_assoc, append-nil}
use l4_ide.Protocol.{Value}
use l4_ide.EventLog.{
  Payload, Event, Log, emit, take_delta, collect, schedule_flush, schedule_retry, write_pending,
  begin_write, close, is_some,
}
use l4_ide.EventLog.Disk.{number_events, validated, line, head_of}
use l4_ide.EventLog.Steps.{
  World, Input, emitted, delta_fires, flush_fires, retry_fires, flush_called, write_begins, closing,
  write_ends, step, run, end_write, read_log,
}
use l4_ide.EventLog.Valid.{validated-IsFrom}
use l4_ide.EventLog.Writes.{read_log-Holds}
use l4_ide.EventLog.Stream.{
  Atom, atoms, queue, Adds, Adds-trans, take_delta-Adds, schedule_flush-Adds, write_pending-Adds,
  emit-Adds,
}
use l4_ide.EventLog.Delivers.{
  batch_of, new_world, sent_before_close, Delivers, new-Delivers, Delivers-keeps, Delivers-Adds,
  close-Delivers,
}
use l4_ide.EventLog.Turns.{begin_write-Delivers, end_write-Delivers}

-- The events have the numbers that follow `n`.
abbrev pub IsNumbered : ℕ → List Event → Type 0
IsNumbered n [] = Unit
IsNumbered n (e ∷ es) = (e.seq ≡ suc n) × IsNumbered (suc n) es

-- The sum of what was sent and what an input sends.
abbrev sends : Input → List Payload
sends (emitted p) = p ∷ []
sends delta_fires = []
sends flush_fires = []
sends retry_fires = []
sends flush_called = []
sends write_begins = []
sends closing = []
sends (write_ends fs) = []

module _ (json_text : Value → List ℕ) (now : ℕ → ℕ) (json_bytes : Event → ℕ) (delays : List ℕ) where
  abbrev pub Sent : List Payload → World → Type 0
  Sent = Delivers json_text now json_bytes delays

  abbrev pub next : Input → World → World
  unfolding step
  next = step json_text now json_bytes delays

  number_events-IsNumbered :
      (n : ℕ) (ps : List Payload) → IsNumbered n (number_events json_text now n ps)
  unfolding number_events
  number_events-IsNumbered n [] = tt
  number_events-IsNumbered n (p ∷ ps) =
      by_event (validated json_text now (suc n) p) refl (number_events-IsNumbered n ps)
        (number_events-IsNumbered (suc n) ps)
    where
      by_event :
          (o : Option Event)
          → validated json_text now (suc n) p ≡ o
          → IsNumbered n (number_events json_text now n ps)
          → IsNumbered (suc n) (number_events json_text now (suc n) ps)
          → IsNumbered n (elim o [
            | none ↦ number_events json_text now n ps
            | some e ↦ e ∷ number_events json_text now (suc n) ps
          ])
      by_event none h here later = here
      by_event (some e) h here later =
          ((validated-IsFrom json_text now (suc n) p e h).numbered, later)

  if_kept :
      {sent : List Payload} {w v : World} (b : Bool)
      → Sent sent v
      → Sent sent w
      → Sent sent (if b then v else w)
  if_kept true x y = x
  if_kept false x y = y

  no_news :
      {sent : List Payload} {w : World} (b : Bool)
      → Sent sent w
      → Sent (if b then sent else sent ++ []) w
  no_news true d = d
  no_news {sent} {w} false d = subst (λ (x : List Payload). Sent x w) (sym (append-nil sent)) d

  retry_fires-Adds : (l : Log) → Adds [] l (write_pending (record l { retry_timer = none }))
  unfolding write_pending
  retry_fires-Adds l = record {
    head = refl;
    seq = refl;
    unclean = refl;
    in_flight = refl;
    closed = refl;
    stream = sym (append-nil (atoms (queue l)));
  }

  closed_emit : (p : Payload) (l : Log) → l.closed ≡ true → emit p l ≡ l
  unfolding emit
  closed_emit p l h = by_closed _ l.closed h
    where
      by_closed : (m : Log) (b : Bool) → b ≡ true → (if b then l else m) ≡ l
      by_closed m true e = refl
      by_closed m false e = absurd (cc)

  -- Each input keeps what is delivered, and an event that is emitted before the log is closed is added.
  step-Delivers :
      (i : Input) (sent : List Payload) (w : World)
      → Sent sent w
      → Sent (if w.log.closed then sent else sent ++ sends i) (next i w)
  unfolding step
  step-Delivers (emitted p) sent w d = by_closed w.log.closed refl
    where
      by_closed :
          (b : Bool)
          → w.log.closed ≡ b
          → Sent (if b then sent else sent ++ (p ∷ [])) (record w { log = emit p w.log })
      by_closed true e =
          subst (λ (l : Log). Sent sent (record w { log = l })) (sym (closed_emit p w.log e)) d
      by_closed false e =
          Delivers-Adds json_text now json_bytes delays sent (p ∷ []) w (emit p w.log)
            (emit-Adds p w.log e) d
  step-Delivers delta_fires sent w d = no_news w.log.closed (
      if_kept w.log.delta_timer
        (Delivers-keeps json_text now json_bytes delays sent w (schedule_flush (take_delta w.log))
          (Adds-trans [] [] w.log (take_delta w.log) (schedule_flush (take_delta w.log))
            (take_delta-Adds w.log) (schedule_flush-Adds (take_delta w.log)))
          d)
        d)
  step-Delivers flush_fires sent w d = no_news w.log.closed (
      if_kept w.log.flush_timer
        (Delivers-keeps json_text now json_bytes delays sent w (write_pending w.log)
          (write_pending-Adds w.log) d)
        d)
  step-Delivers retry_fires sent w d = no_news w.log.closed (
      if_kept (is_some w.log.retry_timer)
        (Delivers-keeps json_text now json_bytes delays sent w
          (write_pending (record w.log { retry_timer = none })) (retry_fires-Adds w.log) d)
        d)
  step-Delivers flush_called sent w d = no_news w.log.closed (
      Delivers-keeps json_text now json_bytes delays sent w (write_pending (take_delta w.log))
        (Adds-trans [] [] w.log (take_delta w.log) (write_pending (take_delta w.log))
          (take_delta-Adds w.log) (write_pending-Adds (take_delta w.log)))
        d)
  step-Delivers write_begins sent w d =
      no_news w.log.closed (by_turn w.log.in_flight (ltb 0 w.log.waiting) refl)
    where
      by_turn :
          (o : Option (List Payload)) (b : Bool)
          → w.log.in_flight ≡ o
          → Sent sent (if not (is_some o) && b then record w { log = begin_write w.log } else w)
      by_turn none true e = begin_write-Delivers json_text now json_bytes delays sent w e d
      by_turn none false e = d
      by_turn (some batch) b e = d
  step-Delivers (write_ends fs) sent w d =
      no_news w.log.closed (end_write-Delivers json_text now json_bytes delays sent fs w d)
  step-Delivers closing sent w d =
      no_news w.log.closed (close-Delivers json_text now json_bytes delays sent w d)

  -- Only `close` closes the log.
  abbrev is_closing : Input → Bool
  is_closing closing = true
  is_closing (emitted p) = false
  is_closing delta_fires = false
  is_closing flush_fires = false
  is_closing retry_fires = false
  is_closing flush_called = false
  is_closing write_begins = false
  is_closing (write_ends fs) = false

  closed-step : (i : Input) (w : World) → (next i w).log.closed ≡ (w.log.closed || is_closing i)
  unfolding step emit take_delta schedule_flush collect write_pending begin_write close end_write
      schedule_retry
  closed-step i w = ground arith

  abbrev pub run_of : List Input → World → World
  unfolding run
  run_of = run json_text now json_bytes delays

  sent_before_close-cons :
      (i : Input) (is : List Input) (sent : List Payload)
      → (if is_closing i then sent ++ sends i else (sent ++ sends i) ++ sent_before_close is)
        ≡ sent ++ sent_before_close (i ∷ is)
  sent_before_close-cons (emitted p) is sent = append_assoc sent (p ∷ []) (sent_before_close is)
  sent_before_close-cons delta_fires is sent = append_assoc sent [] (sent_before_close is)
  sent_before_close-cons flush_fires is sent = append_assoc sent [] (sent_before_close is)
  sent_before_close-cons retry_fires is sent = append_assoc sent [] (sent_before_close is)
  sent_before_close-cons flush_called is sent = append_assoc sent [] (sent_before_close is)
  sent_before_close-cons write_begins is sent = append_assoc sent [] (sent_before_close is)
  sent_before_close-cons (write_ends fs) is sent = append_assoc sent [] (sent_before_close is)
  sent_before_close-cons closing is sent = refl

  pub run-Delivers :
      (is : List Input) (sent : List Payload) (w : World) (b : Bool)
      → w.log.closed ≡ b
      → Sent sent w
      → Sent (if b then sent else sent ++ sent_before_close is) (run_of is w)
  unfolding run
  run-Delivers [] sent w true e d = d
  run-Delivers [] sent w false e d =
      subst (λ (x : List Payload). Sent x w) (sym (append-nil sent)) d
  run-Delivers (i ∷ is) sent w true e d =
      run-Delivers is sent (next i w) true
        (closed-step i w ∙ ap (λ (c : Bool). c || is_closing i) e)
        (subst (λ (c : Bool). Sent (if c then sent else sent ++ sends i) (next i w)) e
          (step-Delivers i sent w d))
  run-Delivers (i ∷ is) sent w false e d =
      subst (λ (x : List Payload). Sent x (run_of is (next i w))) (sent_before_close-cons i is sent)
        (run-Delivers is (sent ++ sends i) (next i w) (is_closing i)
          (closed-step i w ∙ ap (λ (c : Bool). c || is_closing i) e)
          (subst (λ (c : Bool). Sent (if c then sent else sent ++ sends i) (next i w)) e
            (step-Delivers i sent w d)))

  -- A reader of the log finds these payloads, numbered.
  abbrev pub Finds : World → List Payload → Type 0
  Finds w done =
      read_log json_bytes (head_of w.storage) w.storage.files
      ≡ map line (number_events json_text now 0 done)

  -- After any sequence of emitted events, timers, flushes, writes with failing calls, and closings, on a log
  -- that starts with no file: a reader finds the lines of events with the numbers 1, 2, 3 and so on, made of
  -- payloads `done` of which the invalid ones are left out and the others checked and numbered in turn; the
  -- text and events of `done` are the first of those emitted before the log was closed, in the order of the
  -- calls; and the log's last number is that of the last event.
  pub published_in_order :
      (is : List Input)
      → (done : List Payload) × (rest : List Atom) × Finds (run_of is new_world) done
        × IsNumbered 0 (number_events json_text now 0 done)
        × (atoms done ++ rest ≡ atoms (sent_before_close is))
        × ((run_of is new_world).log.seq ≡ length (number_events json_text now 0 done))
  published_in_order is =
      let w : World = run_of is new_world in
      let d =
        run-Delivers is [] new_world false refl (new-Delivers json_text now json_bytes delays) in
      (
        d.done,
        atoms (batch_of w.log.in_flight) ++ d.rest,
        read_log-Holds json_bytes w.storage w.log.head w.log.unclean
            (number_events json_text now 0 d.done) d.holds,
        number_events-IsNumbered 0 d.done,
        d.stream,
        d.counted,
      )
