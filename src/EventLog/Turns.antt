-- ===== src/EventLog/Turns.antt =====
-- event-log.ts: a run takes its batch, and puts it back when the write fails.
use l4_ide.Prelude.{
  ℕ, ◌+◌, ◌-◌, Bool, true, false, Option, none, some, List, [], ◌∷◌, ◌++◌, ◌≡◌, refl, sym, ap, ◌∙◌,
  subst, arith, if◌then◌else◌, length, length-append,
}
use mathlib.Core.List.{append_assoc}
use l4_ide.Protocol.{Value}
use l4_ide.EventLog.{Payload, Event, Head, Log, schedule_retry, begin_write, queued}
use l4_ide.EventLog.Disk.{Storage, Fault, Outcome, went, threw, number_events, write}
use l4_ide.EventLog.Steps.{World, end_write, ended}
use l4_ide.EventLog.Rules.{Ends}
use l4_ide.EventLog.Writes.{Holds, Holds-faults}
use l4_ide.EventLog.Publish.{write-Ends}
use l4_ide.EventLog.Stream.{Atom, atoms, atoms-append, queue}
use l4_ide.EventLog.Delivers.{
  batch_of, schedule_retry-Adds, Delivers, Delivers-keeps, number_events-append,
}

module _ (json_text : Value → List ℕ) (now : ℕ → ℕ) (json_bytes : Event → ℕ) (delays : List ℕ) where
  abbrev pub Sent : List Payload → World → Type 0
  Sent = Delivers json_text now json_bytes delays

  abbrev numbered : ℕ → List Payload → List Event
  numbered = number_events json_text now

  -- The run's turn takes the queue, in front of the delta.
  pub begin_write-Delivers :
      (sent : List Payload) (w : World)
      → w.log.in_flight ≡ none
      → Sent sent w
      → Sent sent (record w { log = begin_write w.log })
  unfolding begin_write
  begin_write-Delivers sent w idle d = by_state w.log.closed w.log.pending refl refl
    where
      turn : Log
      turn = record w.log { waiting = w.log.waiting - 1 }

      by_state :
          (b : Bool) (ps : List Payload)
          → w.log.closed ≡ b
          → w.log.pending ≡ ps
          → Sent sent (record w {
            log = if b then record w.log { waiting = w.log.waiting - 1 } else elim ps [
              | [] ↦ record w.log { waiting = w.log.waiting - 1 }
              | p ∷ qs ↦ record w.log {
                waiting = w.log.waiting - 1;
                pending = [];
                in_flight = some (p ∷ qs);
              }
            ];
          })
      by_state true ps e f = record {
        done = d.done;
        rest = d.rest;
        holds = d.holds;
        counted = d.counted;
        stream = d.stream;
        to_come = d.to_come;
      }
      by_state false [] e f = record {
        done = d.done;
        rest = d.rest;
        holds = d.holds;
        counted = d.counted;
        stream = d.stream;
        to_come = d.to_come;
      }
      by_state false (p ∷ qs) e f = record {
        done = d.done;
        rest = atoms (queued w.log.delta);
        holds = d.holds;
        counted = d.counted;
        stream =
            ap (λ (x : List Atom). atoms d.done ++ x)
              (sym (atoms-append (p ∷ qs) (queued w.log.delta))
                ∙ ap (λ (x : List Payload). atoms (x ++ queued w.log.delta)) (sym f)
                ∙ sym (d.to_come e)
                ∙ ap (λ (x : Option (List Payload)). atoms (batch_of x) ++ d.rest) (sym idle))
            ∙ d.stream;
        to_come = λ _. refl;
      }

  -- The end of a write moves the batch to what is written, or back to the queue.
  pub end_write-Delivers :
      (sent : List Payload) (faults : List Fault) (w : World)
      → Sent sent w
      → Sent sent (end_write json_text now json_bytes delays faults w)
  unfolding end_write
  end_write-Delivers sent faults w d = by_batch w.log.in_flight refl
    where
      start : Storage
      start = record w.storage { faults = faults }

      by_outcome :
          (batch : List Payload) (o : Outcome Head)
          → w.log.in_flight ≡ some batch
          → Ends o
              (λ h t. Holds json_bytes t h false (numbered 0 d.done ++ numbered w.log.seq batch))
              (λ t. Holds json_bytes t w.log.head true (numbered 0 d.done))
          → Sent sent
              (ended json_text now json_bytes delays batch (numbered w.log.seq batch) w.log o)
      by_outcome batch (went h t) e a =
          let more : numbered 0 (d.done ++ batch) ≡ numbered 0 d.done ++ numbered w.log.seq batch =
            number_events-append json_text now json_bytes delays 0 d.done batch
            ∙ ap (λ (n : ℕ). numbered 0 d.done ++ numbered n batch) (omega (arith, d.counted)) in
          record {
            done = d.done ++ batch;
            rest = d.rest;
            holds = subst (λ (x : List Event). Holds json_bytes t h false x) (sym more) a;
            counted =
                ap (λ (n : ℕ). n + length (numbered w.log.seq batch)) d.counted
                ∙ sym
                    (ap length more ∙ length-append (numbered 0 d.done) (numbered w.log.seq batch));
            stream =
                ap (λ (x : List Atom). x ++ d.rest) (atoms-append d.done batch)
                ∙ append_assoc (atoms d.done) (atoms batch) d.rest
                ∙ ap (λ (x : Option (List Payload)). atoms d.done ++ (atoms (batch_of x) ++ d.rest))
                    (sym e)
                ∙ d.stream;
            to_come = d.to_come;
          }
      by_outcome batch (threw t) e a =
          let back : Log = record w.log {
            pending = batch ++ w.log.pending;
            unclean = true;
            in_flight = none;
          } in
          let requeue : Sent sent (record { log = back; storage = t }) = record {
            done = d.done;
            rest = atoms batch ++ d.rest;
            holds = a;
            counted = d.counted;
            stream =
                ap (λ (x : Option (List Payload)). atoms d.done ++ (atoms (batch_of x) ++ d.rest))
                  (sym e)
                ∙ d.stream;
            to_come = λ f.
                ap (λ (x : List Atom). atoms batch ++ x) (d.to_come f)
                ∙ sym (atoms-append batch (queue w.log))
                ∙ ap atoms (sym (append_assoc batch w.log.pending (queued w.log.delta)));
          } in
          by_closed w.log.closed requeue (
            Delivers-keeps json_text now json_bytes delays sent (record { log = back; storage = t })
              (schedule_retry delays back) (schedule_retry-Adds delays back) requeue)
        where
          by_closed :
              (b : Bool) {l m : Log}
              → Sent sent (record { log = l; storage = t })
              → Sent sent (record { log = m; storage = t })
              → Sent sent (record { log = if b then l else m; storage = t })
          by_closed true x y = x
          by_closed false x y = y

      by_batch :
          (o : Option (List Payload))
          → w.log.in_flight ≡ o
          → Sent sent (elim o [
            | none ↦ w
            | some batch ↦
                ended json_text now json_bytes delays batch (numbered w.log.seq batch) w.log (
                  write json_bytes w.log.unclean w.log.head
                    (numbered w.log.seq batch)
                    (record w.storage { faults = faults }))
          ])
      by_batch none e = d
      by_batch (some batch) e =
          by_outcome batch
            (write json_bytes w.log.unclean w.log.head (numbered w.log.seq batch) start) e
            (write-Ends json_bytes w.log.head (numbered 0 d.done) w.log.unclean
              (numbered w.log.seq batch) start
              (Holds-faults json_bytes w.storage start w.log.head w.log.unclean (numbered 0 d.done)
                refl refl d.holds))
