-- ===== src/EventLog/Reopen.antt =====
-- event-log.ts: `open` finds where the log of a run that has ended stopped.
use l4_ide.Prelude.{
  ℕ, suc, ◌+◌, ◌<◌, Bool, true, false, not, Option, some, List, [], ◌∷◌, ◌++◌, ◌≡◌, refl, sym, ap,
  ◌∙◌, subst, arith, ◌==◌, if◌then◌else◌, ltb, map, length,
}
use l4_ide.EventLog.{Event, Head}
use l4_ide.EventLog.Disk.{
  Storage, Piece, line, torn, threw, size, cut, check_fence, truncate_to, put_file, later_faults,
  pure,
}
use l4_ide.EventLog.Steps.{segments_below}
use l4_ide.EventLog.Rules.{Ends, and_then-Ends, call-Ends, Ends-mono, Ends-both}
use l4_ide.EventLog.Opens.{has_fault, open_log-faults}
use l4_ide.EventLog.Segments.{size-append}
use l4_ide.EventLog.Writes.{
  Holds, Holds-faults, Holds-unclean, Holds-truncated, cut-size, current-IsPositive,
}
use l4_ide.EventLog.Delivery.{IsNumbered}
use l4_ide.EventLog.Recovery.{
  last_seq_from, seq_or_before, valid_head, reads, skip_segment, resume, open_with, open_log,
}

module _ (json_bytes : Event → ℕ) where
  abbrev AreLines : List Piece → Type 0
  AreLines [] = Unit
  AreLines (line e ∷ ps) = AreLines ps
  AreLines (torn n ∷ ps) = ⊥

  lines-AreLines : (es : List Event) → AreLines (map line es)
  lines-AreLines [] = tt
  lines-AreLines (e ∷ es) = lines-AreLines es

  AreLines-end : (a b : List Piece) → AreLines (a ++ b) → AreLines b
  AreLines-end [] b h = h
  AreLines-end (line e ∷ a) b h = AreLines-end a b h
  AreLines-end (torn n ∷ a) b h = elim h [ ]

  last_seq_from-append :
      (n : ℕ) (a b : List Piece) → last_seq_from n (a ++ b) ≡ last_seq_from (last_seq_from n a) b
  unfolding last_seq_from
  last_seq_from-append n [] b = refl
  last_seq_from-append n (line e ∷ a) b = last_seq_from-append e.seq a b
  last_seq_from-append n (torn k ∷ a) b = last_seq_from-append n a b

  -- The last line decides.
  last_seq_from-some :
      (n m : ℕ) (ps : List Piece)
      → AreLines ps
      → 0 < size json_bytes ps
      → last_seq_from n ps ≡ last_seq_from m ps
  unfolding last_seq_from
  last_seq_from-some n m [] h k = absurd (omega arith)
  last_seq_from-some n m (line e ∷ ps) h k = refl
  last_seq_from-some n m (torn j ∷ ps) h k = elim h [ ]

  last_seq_from-IsNumbered :
      (n : ℕ) (es : List Event) → IsNumbered n es → last_seq_from n (map line es) ≡ n + length es
  unfolding last_seq_from
  last_seq_from-IsNumbered n [] h = omega arith
  last_seq_from-IsNumbered n (e ∷ es) h =
      ap (λ (k : ℕ). last_seq_from k (map line es)) h.0
      ∙ last_seq_from-IsNumbered (suc n) es h.1
      ∙ omega arith

  module _ (s : Storage) (h : Head) (unclean : Bool) (es : List Event)
      (a : Holds json_bytes s h unclean es) where
    last_seq-current : IsNumbered 0 es → 0 < h.length → last_seq_from 0 a.current ≡ length es
    last_seq-current numbered long =
        let below : List Piece = segments_below h.segment s.files in
        let are : AreLines a.current =
          AreLines-end below a.current (subst AreLines (sym a.content) (lines-AreLines es)) in
        let some_bytes : 0 < size json_bytes a.current = let e = a.exact in omega arith in
        last_seq_from-some 0 (last_seq_from 0 below) a.current are some_bytes
        ∙ sym (last_seq_from-append 0 below a.current)
        ∙ ap (last_seq_from 0) a.content
        ∙ last_seq_from-IsNumbered 0 es numbered
        ∙ omega arith

    no_events : 0 < h.length → 0 < length es
    no_events long = by_events es a.content
      where
        by_events :
            (fs : List Event)
            → segments_below h.segment s.files ++ a.current ≡ map line fs
            → 0 < length fs
        by_events [] e =
            let all = ap (size json_bytes) e in
            let parts = size-append json_bytes (segments_below h.segment s.files) a.current in
            let x = a.exact in absurd (omega (arith, all, parts, x))
        by_events (f ∷ fs) e = omega arith

  nil_of_size : (ps : List Piece) → size json_bytes ps ≡ 0 → ps ≡ []
  nil_of_size [] e = refl
  nil_of_size (line x ∷ ps) e = absurd (omega (arith, e))
  nil_of_size (torn k ∷ ps) e = absurd (omega (arith, e))

  -- A file that is as long as the head says has nothing after.
  Holds-exact :
      (s : Storage) (h : Head) (unclean : Bool) (es : List Event)
      → ltb h.length (size json_bytes (s.files h.segment)) ≡ false
      → Holds json_bytes s h unclean es
      → Holds json_bytes s h false es
  Holds-exact s h unclean es short a =
      let parts = ap (size json_bytes) a.file ∙ size-append json_bytes a.current a.rest in
      let x = a.exact in
      let none_left : size json_bytes a.rest ≡ 0 = ground (arith) in
      record {
        current = a.current;
        rest = a.rest;
        shown = a.shown;
        file = a.file;
        exact = a.exact;
        content = a.content;
        clean = λ _. nil_of_size a.rest none_left;
      }

  -- What `open` finds, and the log that it leaves.
  abbrev pub Resumed : Head → List Event → Head × ℕ → Storage → Type 0
  Resumed h es r t = (r.0 ≡ h) × (r.1 ≡ length es) × Holds json_bytes t h false es

  resume-Ends :
      (s : Storage) (h : Head) (unclean : Bool) (es : List Event)
      → Holds json_bytes s h unclean es
      → IsNumbered 0 es
      → 0 < h.length
      → Ends (resume json_bytes h s.files s) (Resumed h es) (λ t. Holds json_bytes t h true es)
  unfolding resume truncate_to
  resume-Ends s h unclean es a numbered long =
      let Left : Unit {0} → Storage → Type 0 = λ _ t. Holds json_bytes t h false es in
      let n =
        seq_or_before s.files h.segment
          (last_seq_from 0 (cut json_bytes h.length (s.files h.segment))) in
      let read : cut json_bytes h.length (s.files h.segment) ≡ a.current =
        (λ i. cut json_bytes (sym a.exact i) (a.file i))
        ∙ cut-size json_bytes a.current a.rest (current-IsPositive json_bytes s h unclean es a) in
      let last : last_seq_from 0 (cut json_bytes h.length (s.files h.segment)) ≡ length es =
        ap (last_seq_from 0) read ∙ last_seq-current s h unclean es a numbered long in
      let found : n ≡ length es =
        ap (seq_or_before s.files h.segment) last
        ∙ (let k = no_events s h unclean es a long in
            let e : (length es == 0) ≡ false = ground arith in rw e refl) in
      and_then-Ends
        ((if ltb h.length (size json_bytes (s.files h.segment))
            then truncate_to json_bytes h
            else pure tt)
          s)
        (λ _. pure (h, n)) Left (Resumed h es) (λ t. Holds json_bytes t h true es)
        (by_length (ltb h.length (size json_bytes (s.files h.segment))) refl)
        (λ _ t b. (refl, found, b))
    where
      by_length :
          (b : Bool)
          → ltb h.length (size json_bytes (s.files h.segment)) ≡ b
          → Ends
              ((if b then truncate_to json_bytes h else pure tt) s)
              (λ _ t. Holds json_bytes t h false es)
              (λ t. Holds json_bytes t h true es)
      by_length true e =
          let s' : Storage = record s { faults = later_faults s.faults } in
          let a' = Holds-faults json_bytes s s' h unclean es refl refl a in
          call-Ends
            (λ x. record x {
              files = put_file h.segment (cut json_bytes h.length (x.files h.segment)) x.files;
            })
            (λ m x. x) s (λ t. Holds json_bytes t h false es) (λ t. Holds json_bytes t h true es)
            (Holds-truncated json_bytes s' h unclean es a')
            (λ m. Holds-unclean json_bytes s' h unclean es a')
      by_length false e = Holds-exact s h unclean es e a

  resumes-Ends :
      (s : Storage) (h : Head) (unclean : Bool) (es : List Event)
      → Holds json_bytes s h unclean es
      → s.head_file ≡ some h
      → valid_head h ≡ true
      → IsNumbered 0 es
      → 0 < h.length
      → Ends (open_log json_bytes s) (Resumed h es) (λ t. Holds json_bytes t h true es)
  unfolding open_log check_fence
  resumes-Ends s h unclean es a e valid numbered long =
      let s' : Storage = record s { faults = later_faults s.faults } in
      let a' = Holds-faults json_bytes s s' h unclean es refl refl a in
      and_then-Ends (check_fence s) (λ _. reads (λ t. open_with json_bytes t.head_file t.files))
        (λ _ t. Holds json_bytes t h unclean es × (t.head_file ≡ some h)) (Resumed h es)
        (λ t. Holds json_bytes t h true es)
        (call-Ends (λ x. x) (λ m x. x) s
          (λ t. Holds json_bytes t h unclean es × (t.head_file ≡ some h))
          (λ t. Holds json_bytes t h true es) (a', e)
          (λ m. Holds-unclean json_bytes s' h unclean es a'))
        (λ _ t b.
          subst
            (λ (o : Option Head).
              Ends (open_with json_bytes o t.files t) (Resumed h es)
                (λ u. Holds json_bytes u h true es))
            (sym b.1)
            (by_tests t (valid_head h) (ltb (size json_bytes (t.files h.segment)) h.length) valid
              (let parts =
                  ap (size json_bytes) b.0.file ∙ size-append json_bytes b.0.current b.0.rest in
                let x = b.0.exact in ground (arith))
              (resume-Ends t h unclean es b.0 numbered long)))
    where
      by_tests :
          (t : Storage) (v c : Bool)
          → v ≡ true
          → c ≡ false
          → Ends (resume json_bytes h t.files t) (Resumed h es) (λ u. Holds json_bytes u h true es)
          → Ends
              ((if not v
                  then (λ x. threw x)
                  else if c
                  then skip_segment json_bytes h t.files
                  else resume json_bytes h t.files)
                t)
              (Resumed h es)
              (λ u. Holds json_bytes u h true es)
      by_tests t true false p q r = r
      by_tests t true true p q r = absurd (cc)
      by_tests t false c p q r = absurd (cc)

  -- After a run has ended at any point of a write, with events published up to a head whose segment is not
  -- empty, `open` finds that head and the number of the last event, and drops what was not published; or it
  -- throws, and then a call on the disk has failed, and a reader finds what it found before.
  pub open_resumes :
      (s : Storage) (h : Head) (unclean : Bool) (es : List Event)
      → Holds json_bytes s h unclean es
      → s.head_file ≡ some h
      → valid_head h ≡ true
      → IsNumbered 0 es
      → 0 < h.length
      → Ends
          (open_log json_bytes s)
          (Resumed h es)
          (λ t. Holds json_bytes t h true es × (has_fault s.faults ≡ true))
  open_resumes s h unclean es a e valid numbered long =
      Ends-mono (open_log json_bytes s) (λ r t. Resumed h es r t × Unit {0}) (Resumed h es)
        (λ t. Holds json_bytes t h true es × (has_fault s.faults ≡ true))
        (λ t. Holds json_bytes t h true es × (has_fault s.faults ≡ true))
        (Ends-both (open_log json_bytes s) (Resumed h es) (λ _ _. Unit {0})
          (λ t. Holds json_bytes t h true es) (λ _. has_fault s.faults ≡ true)
          (resumes-Ends s h unclean es a e valid numbered long)
          (open_log-faults json_bytes s h e valid))
        (λ r t b. b.0) (λ t b. b)
