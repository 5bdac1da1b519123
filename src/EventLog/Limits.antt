-- ===== src/EventLog/Limits.antt =====
-- event-log.ts: the sizes of the segments after any sequence of what happens to the log.
use l4_ide.Prelude.{
  ℕ, ◌≤◌, Bool, true, false, Option, none, some, List, [], ◌∷◌, ◌++◌, ◌≡◌, refl, sym, subst, arith,
  ◌==◌, if◌then◌else◌, inl,
}
use l4_ide.Protocol.{Value}
use l4_ide.EventLog.{
  Payload, Event, Head, Log, emit, take_delta, collect, schedule_flush, schedule_retry,
  write_pending, begin_write, close,
}
use l4_ide.EventLog.Disk.{
  Piece, Storage, Fault, Outcome, went, threw, cut, write, number_events, head_of,
}
use l4_ide.EventLog.Steps.{
  World, Input, emitted, delta_fires, flush_fires, retry_fires, flush_called, write_begins, closing,
  write_ends, step, run, end_write, ended,
}
use l4_ide.EventLog.Rules.{Ends}
use l4_ide.EventLog.Delivers.{new_world, new-Delivers}
use l4_ide.EventLog.Delivery.{next, run_of, run-Delivers}
use l4_ide.EventLog.Bounds.{Fits}
use l4_ide.EventLog.Bounded.{Bounded, Bounded-files, write-Bounded, cut-current}

-- What a reader finds in the k-th segment: the file, up to the head's length in the last.
unfoldable pub read_segment : (Event → ℕ) → Head → (ℕ → List Piece) → ℕ → List Piece
unfolding cut
read_segment json_bytes h files k =
    if k == h.segment then cut json_bytes h.length (files k) else files k

module _ (json_text : Value → List ℕ) (now : ℕ → ℕ) (json_bytes : Event → ℕ) (delays : List ℕ) where
  abbrev IsBounded : World → Type 0
  IsBounded w = Bounded json_bytes w.log.head w.log.unclean w.storage

  new-IsBounded : IsBounded new_world
  new-IsBounded = record {
    below = λ k hk. inl (omega arith);
    current = [];
    rest = [];
    file = refl;
    exact = refl;
    fits = inl (omega arith);
    clean = λ _. refl;
  }

  abbrev is_write_end : Input → Bool
  is_write_end (write_ends fs) = true
  is_write_end (emitted p) = false
  is_write_end delta_fires = false
  is_write_end flush_fires = false
  is_write_end retry_fires = false
  is_write_end flush_called = false
  is_write_end write_begins = false
  is_write_end closing = false

  step-same :
      (i : Input) (w : World)
      → is_write_end i ≡ false
      → ((next json_text now json_bytes delays i w).log.head ≡ w.log.head)
        × ((next json_text now json_bytes delays i w).log.unclean ≡ w.log.unclean)
        × ((next json_text now json_bytes delays i w).storage ≡ w.storage)
  unfolding step emit take_delta schedule_flush collect write_pending begin_write close
  step-same i w h = ground arith

  schedule_retry-same :
      (l : Log)
      → ((schedule_retry delays l).head ≡ l.head) × ((schedule_retry delays l).unclean ≡ l.unclean)
  unfolding schedule_retry
  schedule_retry-same l = ground arith

  IsBounded-log :
      (w : World) (l : Log)
      → (l.head ≡ w.log.head) × (l.unclean ≡ w.log.unclean)
      → IsBounded w
      → IsBounded (record { log = l; storage = w.storage })
  IsBounded-log w l same b =
      subst (λ (h : Head). Bounded json_bytes h l.unclean w.storage) (sym same.0)
        (subst (λ (u : Bool). Bounded json_bytes w.log.head u w.storage) (sym same.1) b)

  end_write-IsBounded :
      (faults : List Fault) (w : World)
      → IsBounded w
      → IsBounded (end_write json_text now json_bytes delays faults w)
  unfolding end_write
  end_write-IsBounded faults w b = by_batch w.log.in_flight
    where
      start : Storage
      start = record w.storage { faults = faults }

      by_outcome :
          (batch : List Payload) (es : List Event) (o : Outcome Head)
          → Ends o (λ h t. Bounded json_bytes h false t) (λ t. Bounded json_bytes w.log.head true t)
          → IsBounded (ended json_text now json_bytes delays batch es w.log o)
      by_outcome batch es (went h t) a = a
      by_outcome batch es (threw t) a =
          let back : Log = record w.log {
            pending = batch ++ w.log.pending;
            unclean = true;
            in_flight = none;
          } in
          by_closed w.log.closed (schedule_retry delays back) (
            IsBounded-log (record { log = back; storage = t }) (schedule_retry delays back)
              (schedule_retry-same back) a)
        where
          by_closed :
              (c : Bool) (l : Log)
              → IsBounded (record { log = l; storage = t })
              → IsBounded (record {
                log =
                    if c
                    then record w.log {
                      pending = batch ++ w.log.pending;
                      unclean = true;
                      in_flight = none;
                    }
                    else l;
                storage = t;
              })
          by_closed true l x = a
          by_closed false l x = x

      by_batch :
          (o : Option (List Payload))
          → IsBounded (elim o [
            | none ↦ w
            | some batch ↦
                ended json_text now json_bytes delays batch
                  (number_events json_text now w.log.seq batch)
                  w.log
                  (write json_bytes w.log.unclean w.log.head
                    (number_events json_text now w.log.seq batch)
                    (record w.storage { faults = faults }))
          ])
      by_batch none = b
      by_batch (some batch) =
          let es : List Event = number_events json_text now w.log.seq batch in
          by_outcome batch es (write json_bytes w.log.unclean w.log.head es start) (
            write-Bounded json_bytes w.log.head w.log.unclean es start
              (Bounded-files json_bytes w.log.head w.log.unclean w.storage start refl b))

  other-IsBounded :
      (i : Input) (w : World)
      → is_write_end i ≡ false
      → IsBounded w
      → IsBounded (next json_text now json_bytes delays i w)
  other-IsBounded i w e b =
      let v : World = next json_text now json_bytes delays i w in
      let same = step-same i w e in
      subst (λ (t : Storage). Bounded json_bytes v.log.head v.log.unclean t) (sym same.2)
        (IsBounded-log w v.log (same.0, same.1) b)

  step-IsBounded :
      (i : Input) (w : World) → IsBounded w → IsBounded (next json_text now json_bytes delays i w)
  unfolding step
  step-IsBounded (emitted p) w b = other-IsBounded (emitted p) w refl b
  step-IsBounded delta_fires w b = other-IsBounded delta_fires w refl b
  step-IsBounded flush_fires w b = other-IsBounded flush_fires w refl b
  step-IsBounded retry_fires w b = other-IsBounded retry_fires w refl b
  step-IsBounded flush_called w b = other-IsBounded flush_called w refl b
  step-IsBounded write_begins w b = other-IsBounded write_begins w refl b
  step-IsBounded closing w b = other-IsBounded closing w refl b
  step-IsBounded (write_ends fs) w b = end_write-IsBounded fs w b

  run-IsBounded :
      (is : List Input) (w : World)
      → IsBounded w
      → IsBounded (run_of json_text now json_bytes delays is w)
  unfolding run
  run-IsBounded [] w b = b
  run-IsBounded (i ∷ is) w b =
      run-IsBounded is (next json_text now json_bytes delays i w) (step-IsBounded i w b)

  read_segment-Fits :
      (h : Head) (unclean : Bool) (t : Storage) (k : ℕ)
      → k ≤ h.segment
      → Bounded json_bytes h unclean t
      → Fits json_bytes (read_segment json_bytes h t.files k)
  unfolding read_segment
  read_segment-Fits h unclean t k hk b = by_last (k == h.segment) refl
    where
      by_last :
          (c : Bool)
          → (k == h.segment) ≡ c
          → Fits json_bytes (if c then cut json_bytes h.length (t.files k) else t.files k)
      by_last true e =
          let same : h.segment ≡ k = ground arith in
          subst (λ (j : ℕ). Fits json_bytes (cut json_bytes h.length (t.files j))) same
            (subst (Fits json_bytes) (sym (cut-current json_bytes h unclean t b)) b.fits)
      by_last false e = b.below k (ground arith)

  -- Whatever happens to the log and to its disk, each segment that a reader finds up to the head has at most
  -- EVENT_SEGMENT_MAX_BYTES, or it is one line alone.
  pub segments_bounded :
      (is : List Input) (k : ℕ)
      → k ≤ (head_of (run_of json_text now json_bytes delays is new_world).storage).segment
      → Fits json_bytes (
          read_segment json_bytes
            (head_of (run_of json_text now json_bytes delays is new_world).storage)
            (run_of json_text now json_bytes delays is new_world).storage.files
            k)
  segments_bounded is k hk =
      let w : World = run_of json_text now json_bytes delays is new_world in
      let d =
        run-Delivers json_text now json_bytes delays is [] new_world false refl
          (new-Delivers json_text now json_bytes delays) in
      let shown : head_of w.storage ≡ w.log.head = d.holds.shown in
      read_segment-Fits (head_of w.storage) w.log.unclean w.storage k hk (
        subst (λ (h : Head). Bounded json_bytes h w.log.unclean w.storage) (sym shown)
          (run-IsBounded is new_world new-IsBounded))
