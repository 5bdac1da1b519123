-- ===== src/Commands/Throws.antt =====
-- A poll that throws has read no command before: its write is for a prefix of skipped numbers.
use l4_ide.Prelude.{
  ℕ, zero, suc, ◌≤◌, ◌<◌, Bool, true, false, Option, none, some, List, [], ◌≡◌, refl, ◌∙◌, sym,
  subst, arith, leb, ltb, length, Bool-cases, inl, inr,
}
use l4_ide.Robdd.{has, add}
use l4_ide.Robdd.Support.{has-add}
use l4_ide.Commands.{
  open_at, CommandReader, Attempt, ReadResult, wait, skip, ready, read, advance, note_seq,
}
use l4_ide.Commands.Handled.{open_at-IsSound, IsSound, AtGap, Handles}
use l4_ide.Commands.Delivery.{Polls, OnlyStuck, read-OnlyStuck, IsSound-read}
use l4_ide.Commands.Polling.{skipped-Polls, note_seq-IsSound}
use l4_ide.Commands.Failing.{persist_try, mark_handled_try, poll_try_from, poll_try, with_command}
use l4_ide.Commands.Faults.{mark_handled_try_fails}
use l4_ide.Commands.Tries.{Tries, poll_try-Tries, Fails, mark_handled_try-Handles, stopped-Polls}

advance-AtGap :
    (fuel next : ℕ) (above : List ℕ)
    → has (suc next) above ≡ false
    → advance fuel next above ≡ (next, above)
unfolding advance
advance-AtGap zero next above h = refl
advance-AtGap (suc fuel) next above h = rw (h, advance) refl

-- The number after the persisted one is delivered and not handled.
abbrev pub IsHeld : CommandReader → Type 0
IsHeld s = AtGap s × (suc s.done ≤ s.delivered)

-- While a delivered command waits to be handled, skipping a later number writes nothing.
mark_handled_try-IsHeld :
    (writes : Bool) (n : ℕ) (s : CommandReader)
    → AtGap s
    → suc s.done < n
    → (mark_handled_try writes n s ≡ (true, record s { handled_above = add n s.handled_above }))
      × (has (suc s.done) (add n s.handled_above) ≡ false)
unfolding mark_handled_try persist_try
mark_handled_try-IsHeld writes n s gap lt =
    let above = add n s.handled_above in
    let later : leb n s.done ≡ false = ground (arith, lt) in
    let added = has-add (suc s.done) n s.handled_above in
    let still : has (suc s.done) above ≡ false = ground (arith, added, gap, lt) in
    let same : leb s.done s.done ≡ true = ground arith in
    (
      rw (later, mark_handled_try)
          ((λ i.
              let a : ℕ × List ℕ = advance-AtGap (length above) s.done above still i in
              persist_try writes (a.0) (record s { handled_above = a.1 }))
            ∙ rw (same, persist_try) refl),
      still,
    )

unfoldable pub Returns : Option (List ℕ) → Type 0
Returns none = ⊥
Returns (some out) = Unit

with_command-Returns : (id : ℕ) (r : Option (List ℕ)) → Returns r → Returns (with_command id r)
unfolding Returns
with_command-Returns id none h = h
with_command-Returns id (some out) h = tt

pub IsHeld-read :
    (n : ℕ) (s u : CommandReader)
    → u ≡ record s { stuck_since = u.stuck_since }
    → AtGap s
    → AtGap u × (u.done ≡ s.done) × (u.delivered ≡ s.delivered)
IsHeld-read n s u same gap = rw same (gap, refl, refl)

pub poll_try_from-IsHeld :
    (fuel : ℕ) (writes : ℕ → Bool) (files : ℕ → Attempt × ℕ) (s : CommandReader)
    → IsHeld s
    → Returns (poll_try_from fuel writes files s).0
unfolding poll_try_from Returns
poll_try_from-IsHeld zero writes files s held = tt
poll_try_from-IsHeld (suc fuel) writes files s (gap, waits) =
    elim (Bool-cases (ltb s.delivered s.high_water)) [
      | inr e ↦ rw (e, poll_try_from) tt
      | inl e ↦
          rw (e, poll_try_from)
            (by_result
              (read (suc s.delivered) (files (suc s.delivered)).0 (files (suc s.delivered)).1 s)
              (read-OnlyStuck (suc s.delivered) (files (suc s.delivered)).0
                (files (suc s.delivered)).1 s)
              (poll_try_from-IsHeld fuel writes files))
    ]
  where
    by_result :
        (r : ReadResult × CommandReader)
        → OnlyStuck (suc s.delivered) s r
        → ((u : CommandReader) → IsHeld u → Returns (poll_try_from fuel writes files u).0)
        → let p : Option (List ℕ) × CommandReader = elim (r.0) [
          | wait ↦ (some [], r.1)
          | skip ↦
              let marked =
                mark_handled_try
                  (writes (suc s.delivered))
                  (suc s.delivered)
                  (record (r.1) { delivered = suc s.delivered }) in
              let rest = poll_try_from fuel writes files (marked.1) in
              elim (marked.0) [ true ↦ rest | false ↦ (none, marked.1) ]
          | ready id ↦
              let rest =
                poll_try_from fuel writes files (record (r.1) { delivered = suc s.delivered }) in
              (with_command id (rest.0), rest.1)
        ] in
          Returns p.0
    by_result (wait, u) only ih = tt
    by_result (skip, u) (same, _) ih =
        let n = suc s.delivered in
        let (gap', done', _) = IsHeld-read n s u same gap in
        let v = record u { delivered = n } in
        let (marks, still) =
          mark_handled_try-IsHeld (writes n) n v gap' (omega (arith, done', waits)) in
        subst
          (λ (m : Bool × CommandReader).
            Returns
              (elim (m.0) as (λ _. Option (List ℕ) × CommandReader) [
                | true ↦ poll_try_from fuel writes files (m.1)
                | false ↦ (none, m.1)
              ]).0)
          (sym marks)
          (ih (record v { handled_above = add n v.handled_above })
            (still, omega (arith, done', waits)))
    by_result (ready id, u) (same, _) ih =
        let n = suc s.delivered in
        let (gap', done', _) = IsHeld-read n s u same gap in
        with_command-Returns id _
          (ih (record u { delivered = n }) (gap', omega (arith, done', waits)))

-- What a poll that throws has done: it has read no command, and has handled each number that it passed.
abbrev pub Throws : (ℕ → Bool) → CommandReader → Option (List ℕ) × CommandReader → Type 0
Throws writes s (some out, t) = Unit
Throws writes s (none, t) = Polls (Fails writes) s [] t

Returns-Throws :
    (writes : ℕ → Bool) (s : CommandReader) (r : Option (List ℕ)) (t : CommandReader)
    → Returns r
    → Throws writes s (r, t)
unfolding Returns
Returns-Throws writes s none t h = absurd h
Returns-Throws writes s (some out) t h = tt

skipped-Throws :
    (writes : ℕ → Bool) (s u : CommandReader) (m : Bool × CommandReader)
    (rest : Option (List ℕ) × CommandReader)
    → OnlyStuck (suc s.delivered) s (skip, u)
    → Handles (suc s.delivered) (record u { delivered = suc s.delivered }) m.1
    → (m.0 ≡ false → writes (suc s.delivered) ≡ false)
    → Throws writes m.1 rest
    → Throws writes s (elim (m.0) [ true ↦ rest | false ↦ (none, m.1) ])
skipped-Throws writes s u (true, v) (some out, t) only h failed p = tt
skipped-Throws writes s u (true, v) (none, t) only h failed p =
    skipped-Polls (Fails writes) s u v [] t only h p
skipped-Throws writes s u (false, v) rest only h failed p =
    skipped-Polls (Fails writes) s u v [] v only h
      (stopped-Polls (Fails writes) v h.sound (rw h.delivered (failed refl)))

poll_try_from-Throws :
    (fuel : ℕ) (writes : ℕ → Bool) (files : ℕ → Attempt × ℕ) (s : CommandReader)
    → IsSound s
    → AtGap s
    → Throws writes s (poll_try_from fuel writes files s)
unfolding poll_try_from
poll_try_from-Throws zero writes files s k gap = tt
poll_try_from-Throws (suc fuel) writes files s k gap =
    elim (Bool-cases (ltb s.delivered s.high_water)) [
      | inr e ↦ rw (e, poll_try_from) tt
      | inl e ↦
          rw (e, poll_try_from)
            (by_result
              (read (suc s.delivered) (files (suc s.delivered)).0 (files (suc s.delivered)).1 s)
              (read-OnlyStuck (suc s.delivered) (files (suc s.delivered)).0
                (files (suc s.delivered)).1 s)
              (ground (arith, e)) (poll_try_from-Throws fuel writes files))
    ]
  where
    by_result :
        (r : ReadResult × CommandReader)
        → OnlyStuck (suc s.delivered) s r
        → suc s.delivered ≤ s.high_water
        → ((u : CommandReader)
            → IsSound u
            → AtGap u
            → Throws writes u (poll_try_from fuel writes files u))
        → let p : Option (List ℕ) × CommandReader = elim (r.0) [
          | wait ↦ (some [], r.1)
          | skip ↦
              let marked =
                mark_handled_try
                  (writes (suc s.delivered))
                  (suc s.delivered)
                  (record (r.1) { delivered = suc s.delivered }) in
              let rest = poll_try_from fuel writes files (marked.1) in
              elim (marked.0) [ true ↦ rest | false ↦ (none, marked.1) ]
          | ready id ↦
              let rest =
                poll_try_from fuel writes files (record (r.1) { delivered = suc s.delivered }) in
              (with_command id (rest.0), rest.1)
        ] in
          Throws writes s p
    by_result (wait, u) only lt ih = tt
    by_result (skip, u) only lt ih =
        let n = suc s.delivered in
        let v = record u { delivered = n } in
        let (gap', _, _) = IsHeld-read n s u only.0 gap in
        let (sound, _) = IsSound-read n s (skip, u) only lt k in
        let h = mark_handled_try-Handles (writes n) n v sound (omega arith) in
        let m = mark_handled_try (writes n) n v in
        skipped-Throws writes s u m _ only h (mark_handled_try_fails (writes n) n v)
          (ih (m.1) h.sound (h.gap gap'))
    by_result (ready id, u) only lt ih =
        let n = suc s.delivered in
        let (gap', done', _) = IsHeld-read n s u only.0 gap in
        let below = k.done_delivered in
        let v = record u { delivered = n } in
        Returns-Throws writes s _ _ (
          with_command-Returns id _
            (poll_try_from-IsHeld fuel writes files v (gap', omega (arith, done', below))))

poll_try_sound-Throws :
    (seq : Option ℕ) (writes : ℕ → Bool) (files : ℕ → Attempt × ℕ) (s : CommandReader)
    → IsSound s
    → AtGap s
    → Throws writes (note_seq seq s) (poll_try seq writes files s)
unfolding poll_try note_seq
poll_try_sound-Throws seq writes files s k gap =
    let (sound, _, _, _) = note_seq-IsSound seq s k in
    poll_try_from-Throws _ writes files (note_seq seq s) sound (note_seq-AtGap seq)
  where
    note_seq-AtGap : (o : Option ℕ) → AtGap (note_seq o s)
    note_seq-AtGap none = gap
    note_seq-AtGap (some n) = elim (Bool-cases (ltb s.high_water n)) [
      | inl e ↦ rw (e, note_seq) gap
      | inr e ↦ rw (e, note_seq) gap
    ]

-- The readers of a run that has not come to a stop command: from what `open` reads, by polls and reports of
-- delivered numbers, where any write may fail.
pub data Serves (start : ℕ) : CommandReader → Type 0 where
  opened : Serves start (open_at start)
  polled :
      (seq : Option ℕ) (writes : ℕ → Bool) (files : ℕ → Attempt × ℕ) {t : CommandReader}
      → Serves start t
      → Serves start (poll_try seq writes files t).1
  marked :
      (writes : Bool) (n : ℕ) {t : CommandReader}
      → n ≤ t.delivered
      → Serves start t
      → Serves start (mark_handled_try writes n t).1

note_seq-IsKept : (seq : Option ℕ) (t : CommandReader) → AtGap t → AtGap (note_seq seq t)
unfolding note_seq
note_seq-IsKept none t gap = gap
note_seq-IsKept (some n) t gap = elim (Bool-cases (ltb t.high_water n)) [
  | inl e ↦ rw (e, note_seq) gap
  | inr e ↦ rw (e, note_seq) gap
]

Tries-AtGap :
    (writes : ℕ → Bool) (files : ℕ → Attempt × ℕ) (t : CommandReader)
    (r : Option (List ℕ) × CommandReader)
    → Tries writes files t r
    → AtGap t
    → IsSound r.1 × AtGap r.1
Tries-AtGap writes files t (some out, u) p gap = (p.sound, p.gap gap)
Tries-AtGap writes files t (none, u) (lost, p) gap = (p.sound, p.gap gap)

Serves-AtGap : (start : ℕ) (t : CommandReader) → Serves start t → IsSound t × AtGap t
Serves-AtGap start _ opened = (open_at-IsSound start, refl)
Serves-AtGap start _ (polled seq writes files {t} run) =
    let (sound, gap) = Serves-AtGap start t run in
    Tries-AtGap writes files (note_seq seq t) (poll_try seq writes files t)
      (poll_try-Tries seq writes files t sound).1 (note_seq-IsKept seq t gap)
Serves-AtGap start _ (marked writes n {t} le run) =
    let (sound, gap) = Serves-AtGap start t run in
    let h = mark_handled_try-Handles writes n t sound le in (h.sound, h.gap gap)

-- Before a stop command, a poll that throws loses no command: in a run of polls and of reports of delivered
-- numbers, whichever writes fail and in whatever order the numbers are reported, a poll that throws has read
-- no command, for it has handled, by skipping, each number that it passed, up to one whose write failed; and
-- the reader stays sound.
pub poll_try-Throws :
    (start : ℕ) (seq : Option ℕ) (writes : ℕ → Bool) (files : ℕ → Attempt × ℕ) (s : CommandReader)
    → Serves start s
    → Throws writes (note_seq seq s) (poll_try seq writes files s)
poll_try-Throws start seq writes files s run =
    let (sound, gap) = Serves-AtGap start s run in
    poll_try_sound-Throws seq writes files s sound gap
