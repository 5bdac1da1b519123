-- ===== src/EventLog/Delivers.antt =====
-- event-log.ts: the events that a reader finds are those that were emitted, in their order.
use l4_ide.Prelude.{
  ℕ, suc, ◌+◌, ◌-◌, Bool, true, false, Option, none, some, List, [], ◌∷◌, ◌++◌, ◌≡◌, refl, sym, ap,
  ◌∙◌, subst, arith, if◌then◌else◌, length, min,
}
use mathlib.Core.List.{append_assoc, append-nil}
use l4_ide.Protocol.{Value}
use l4_ide.EventLog.{Payload, Event, Head, Log, new_log, schedule_retry, close, is_some, delay_at}
use l4_ide.EventLog.Disk.{Storage, number_events, validated}
use l4_ide.EventLog.Steps.{
  World, Input, emitted, delta_fires, flush_fires, retry_fires, flush_called, write_begins, closing,
  write_ends, segments_below,
}
use l4_ide.EventLog.Writes.{Holds}
use l4_ide.EventLog.Stream.{Atom, atoms, atoms-append, queue, Adds, Adds-same}

-- The batch of the write that runs.
abbrev pub batch_of : Option (List Payload) → List Payload
batch_of none = []
batch_of (some b) = b

abbrev pub empty_storage : Storage
empty_storage = record { files = λ k. []; head_file = none; faults = [] }

abbrev pub new_world : World
new_world = record { log = new_log; storage = empty_storage }

-- The events that are emitted before the log is closed.
abbrev pub sent_before_close : List Input → List Payload
sent_before_close [] = []
sent_before_close (emitted p ∷ is) = p ∷ sent_before_close is
sent_before_close (closing ∷ is) = []
sent_before_close (delta_fires ∷ is) = sent_before_close is
sent_before_close (flush_fires ∷ is) = sent_before_close is
sent_before_close (retry_fires ∷ is) = sent_before_close is
sent_before_close (flush_called ∷ is) = sent_before_close is
sent_before_close (write_begins ∷ is) = sent_before_close is
sent_before_close (write_ends fs ∷ is) = sent_before_close is

pub schedule_retry-Adds : (delays : List ℕ) (l : Log) → Adds [] l (schedule_retry delays l)
unfolding schedule_retry
schedule_retry-Adds delays l =
    by_test (is_some l.retry_timer) (delay_at (min l.failures (length delays - 1)) delays)
      (suc l.failures)
  where
    by_test :
        (b : Bool) (d f : ℕ)
        → Adds [] l (if b then l else record l { retry_timer = some d; failures = f })
    by_test true d f = Adds-same l
    by_test false d f = record {
      head = refl;
      seq = refl;
      unclean = refl;
      in_flight = refl;
      closed = refl;
      stream = sym (append-nil (atoms (queue l)));
    }

module _ (json_text : Value → List ℕ) (now : ℕ → ℕ) (json_bytes : Event → ℕ) (delays : List ℕ) where
  abbrev pub numbered : ℕ → List Payload → List Event
  numbered = number_events json_text now

  number_step :
      (n : ℕ) (p : Payload) (a : List Payload) (o : Option Event)
      → validated json_text now (suc n) p ≡ o
      → numbered n (p ∷ a) ≡ (elim o [ none ↦ numbered n a | some e ↦ e ∷ numbered (suc n) a ])
  unfolding number_events
  number_step n p a o h = rw (number_events, h) refl

  -- A batch is numbered on from the one before.
  pub number_events-append :
      (n : ℕ) (a b : List Payload)
      → numbered n (a ++ b) ≡ numbered n a ++ numbered (n + length (numbered n a)) b
  unfolding number_events
  number_events-append n [] b = ap (λ (k : ℕ). numbered k b) (omega arith)
  number_events-append n (p ∷ a) b =
      by_event (validated json_text now (suc n) p) (number_events-append n a b)
        (number_events-append (suc n) a b)
    where
      by_event :
          (o : Option Event)
          → numbered n (a ++ b) ≡ numbered n a ++ numbered (n + length (numbered n a)) b
          → numbered (suc n) (a ++ b)
            ≡ numbered (suc n) a ++ numbered (suc n + length (numbered (suc n) a)) b
          → ◌≡◌ {A = List Event}
              (elim o [ none ↦ numbered n (a ++ b) | some e ↦ e ∷ numbered (suc n) (a ++ b) ])
              ((elim o [ none ↦ numbered n a | some e ↦ e ∷ numbered (suc n) a ])
                ++ numbered
                    (n + length (elim o [ none ↦ numbered n a | some e ↦ e ∷ numbered (suc n) a ]))
                    b)
      by_event none here later = here
      by_event (some e) here later =
          ap (λ (x : List Event). e ∷ x) later
          ∙ ap (λ (k : ℕ). e ∷ (numbered (suc n) a ++ numbered k b)) (omega arith)

  -- The batches that are written, and what is to come: the batch of the write that runs, then the queue,
  -- unless the log is closed.
  pub record Delivers (sent : List Payload) (w : World) : Type 0 where
    pub done : List Payload
    pub rest : List Atom
    pub holds : Holds json_bytes w.storage w.log.head w.log.unclean (numbered 0 done)
    pub counted : w.log.seq ≡ length (numbered 0 done)
    pub stream : atoms done ++ (atoms (batch_of w.log.in_flight) ++ rest) ≡ atoms sent
    pub to_come : w.log.closed ≡ false → rest ≡ atoms (queue w.log)

  pub new-Delivers : Delivers [] new_world
  unfolding number_events
  new-Delivers = record {
    done = [];
    rest = [];
    holds = record {
      current = [];
      rest = [];
      shown = refl;
      file = refl;
      exact = refl;
      content = unfold segments_below in refl;
      clean = λ _. refl;
    };
    counted = refl;
    stream = refl;
    to_come = λ _. refl;
  }

  pub Delivers-Adds :
      (sent news : List Payload) (w : World) (l : Log)
      → Adds news w.log l
      → Delivers sent w
      → Delivers (sent ++ news) (record w { log = l })
  Delivers-Adds sent news w l a d = record {
    done = d.done;
    rest = d.rest ++ atoms news;
    holds =
        subst (λ (h : Head). Holds json_bytes w.storage h l.unclean (numbered 0 d.done))
          (sym a.head)
          (subst (λ (u : Bool). Holds json_bytes w.storage w.log.head u (numbered 0 d.done))
            (sym a.unclean) d.holds);
    counted = a.seq ∙ d.counted;
    stream =
        ap
          (λ (b : Option (List Payload)).
            atoms d.done ++ (atoms (batch_of b) ++ (d.rest ++ atoms news)))
          a.in_flight
        ∙ regroup (atoms d.done) (atoms (batch_of w.log.in_flight)) d.rest (atoms news)
        ∙ ap (λ (x : List Atom). x ++ atoms news) d.stream
        ∙ sym (atoms-append sent news);
    to_come =
        λ e. ap (λ (x : List Atom). x ++ atoms news) (d.to_come (sym a.closed ∙ e)) ∙ sym a.stream;
  }
    where
      regroup : (x y z n : List Atom) → x ++ (y ++ (z ++ n)) ≡ (x ++ (y ++ z)) ++ n
      regroup x y z n = simp (append_assoc)

  pub Delivers-keeps :
      (sent : List Payload) (w : World) (l : Log)
      → Adds [] w.log l
      → Delivers sent w
      → Delivers sent (record w { log = l })
  Delivers-keeps sent w l a d =
      subst (λ (x : List Payload). Delivers x (record w { log = l })) (append-nil sent)
        (Delivers-Adds sent [] w l a d)

  pub close-Delivers :
      (sent : List Payload) (w : World)
      → Delivers sent w
      → Delivers sent (record w { log = close w.log })
  unfolding close
  close-Delivers sent w d = record {
    done = d.done;
    rest = d.rest;
    holds = d.holds;
    counted = d.counted;
    stream = d.stream;
    to_come = λ e. absurd (cc);
  }
