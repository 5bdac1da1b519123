-- ===== src/Commands/Tries.antt =====
-- A poll in which a write fails: what it has done with the numbers that it passed.
use l4_ide.Prelude.{
  ℕ, zero, suc, ◌-◌, ◌≤◌, Bool, true, false, Option, none, some, List, [], ◌∷◌, ◌≡◌, refl, arith,
  ltb, Bool-cases, inl, inr, subst, sym,
}
use l4_ide.Commands.{
  CommandReader, Attempt, ReadResult, wait, skip, ready, read, mark_handled, note_seq, poll,
}
use l4_ide.Commands.Handled.{IsSound, Handles, mark_handled-Handles}
use l4_ide.Commands.Delivery.{
  Polls, Ends, OnlyStuck, read-OnlyStuck, IsSound-read, finished-Polls, waiting-Polls,
}
use l4_ide.Commands.Polling.{skipped-Polls, skipped-left, ready-Polls, ready-left, note_seq-IsSound}
use l4_ide.Commands.Failing.{mark_handled_try, poll_try_from, poll_try, with_command}
use l4_ide.Commands.Faults.{mark_handled_try_only, mark_handled_try_fails, poll_try_from-true}

Handles-written :
    (n : ℕ) (s t : CommandReader) (w : List ℕ)
    → Handles n s t
    → Handles n s (record t { written = w })
Handles-written n s t w h = record {
  sound = record {
    done_delivered = h.sound.done_delivered;
    delivered_seen = h.sound.delivered_seen;
    within = h.sound.within;
  };
  gap = h.gap;
  delivered = h.delivered;
  high_water = h.high_water;
  up = h.up;
  handled = h.handled;
}

-- A failed write changes nothing of what is handled in memory.
pub mark_handled_try-Handles :
    (writes : Bool) (n : ℕ) (s : CommandReader)
    → IsSound s
    → n ≤ s.delivered
    → Handles n s (mark_handled_try writes n s).1
mark_handled_try-Handles writes n s sound le =
    subst (Handles n s) (sym (mark_handled_try_only writes n s))
      (Handles-written n s (mark_handled n s) _ (mark_handled-Handles n s sound le))

-- The poll has stopped at a number that it skipped, whose write failed.
abbrev pub Fails : (ℕ → Bool) → CommandReader → Type 0
Fails writes t = writes t.delivered ≡ false

-- A poll that returns is as without errors. One that fails has passed numbers in the same way, up to one
-- that it skipped, and what it would have handed out for them is in no result.
abbrev pub Tries :
    (ℕ → Bool) → (ℕ → Attempt × ℕ) → CommandReader → Option (List ℕ) × CommandReader → Type 0
Tries writes files s (some out, t) = Polls (Ends files) s out t
Tries writes files s (none, t) = (lost : List ℕ) × Polls (Fails writes) s lost t

with_command-Tries :
    (writes : ℕ → Bool) (files : ℕ → Attempt × ℕ) (s u : CommandReader) (id : ℕ)
    (r : Option (List ℕ) × CommandReader)
    → OnlyStuck (suc s.delivered) s (ready id, u)
    → Tries writes files (record u { delivered = suc s.delivered }) r
    → Tries writes files s (with_command id (r.0), r.1)
with_command-Tries writes files s u id (some out, t) only p =
    ready-Polls (Ends files) s u id out t only p
with_command-Tries writes files s u id (none, t) only (lost, p) =
    (id ∷ lost, ready-Polls (Fails writes) s u id lost t only p)

skipped-Tries :
    (writes : ℕ → Bool) (files : ℕ → Attempt × ℕ) (s u v : CommandReader)
    (r : Option (List ℕ) × CommandReader)
    → OnlyStuck (suc s.delivered) s (skip, u)
    → Handles (suc s.delivered) (record u { delivered = suc s.delivered }) v
    → Tries writes files v r
    → Tries writes files s r
skipped-Tries writes files s u v (some out, t) only h p =
    skipped-Polls (Ends files) s u v out t only h p
skipped-Tries writes files s u v (none, t) only h (lost, p) =
    (lost, skipped-Polls (Fails writes) s u v lost t only h p)

-- Nothing was passed.
pub stopped-Polls :
    (E : CommandReader → Type 0) (s : CommandReader) → IsSound s → E s → Polls E s [] s
stopped-Polls E s k e = record {
  sound = k;
  gap = λ g. g;
  high_water = refl;
  done_up = omega arith;
  ordered = omega arith;
  dealt = λ j lt le. absurd (omega (arith, lt, le));
  kept = λ j h. h;
  ended = e;
}

-- After a skipped number, by whether its write threw.
marked-Tries :
    (writes : ℕ → Bool) (files : ℕ → Attempt × ℕ) (s u : CommandReader) (m : Bool × CommandReader)
    (rest : Option (List ℕ) × CommandReader)
    → OnlyStuck (suc s.delivered) s (skip, u)
    → Handles (suc s.delivered) (record u { delivered = suc s.delivered }) m.1
    → (m.0 ≡ false → writes (suc s.delivered) ≡ false)
    → Tries writes files m.1 rest
    → Tries writes files s (elim (m.0) [ true ↦ rest | false ↦ (none, m.1) ])
marked-Tries writes files s u (true, v) rest only h failed p =
    skipped-Tries writes files s u v rest only h p
marked-Tries writes files s u (false, v) rest only h failed p =
    skipped-Tries writes files s u v (none, v) only h
      ([], stopped-Polls (Fails writes) v h.sound (rw h.delivered (failed refl)))

poll_try_from-Tries :
    (fuel : ℕ) (writes : ℕ → Bool) (files : ℕ → Attempt × ℕ) (s : CommandReader)
    → IsSound s
    → s.high_water - s.delivered ≤ fuel
    → Tries writes files s (poll_try_from fuel writes files s)
unfolding poll_try_from
poll_try_from-Tries zero writes files s k le =
    finished-Polls files s k (let seen = k.delivered_seen in omega (arith, seen, le))
poll_try_from-Tries (suc fuel) writes files s k le =
    elim (Bool-cases (ltb s.delivered s.high_water)) [
      | inr e ↦
          rw (e, poll_try_from)
            (finished-Polls files s k (let seen = k.delivered_seen in ground (arith, seen, e)))
      | inl e ↦
          rw (e, poll_try_from)
            (by_result
              (read (suc s.delivered) (files (suc s.delivered)).0 (files (suc s.delivered)).1 s)
              refl
              (read-OnlyStuck (suc s.delivered) (files (suc s.delivered)).0
                (files (suc s.delivered)).1 s)
              (ground (arith, e)) (poll_try_from-Tries fuel writes files))
    ]
  where
    by_result :
        (r : ReadResult × CommandReader)
        → read (suc s.delivered) (files (suc s.delivered)).0 (files (suc s.delivered)).1 s ≡ r
        → OnlyStuck (suc s.delivered) s r
        → suc s.delivered ≤ s.high_water
        → ((u : CommandReader)
            → IsSound u
            → u.high_water - u.delivered ≤ fuel
            → Tries writes files u (poll_try_from fuel writes files u))
        → let p : Option (List ℕ) × CommandReader = elim (r.0) [
          | wait ↦ (some [], r.1)
          | skip ↦
              let marked =
                mark_handled_try
                  (writes (suc s.delivered))
                  (suc s.delivered)
                  (record (r.1) { delivered = suc s.delivered }) in
              let rest = poll_try_from fuel writes files (marked.1) in
              elim (marked.0) [ true ↦ rest | false ↦ (none, marked.1) ]
          | ready id ↦
              let rest =
                poll_try_from fuel writes files (record (r.1) { delivered = suc s.delivered }) in
              (with_command id (rest.0), rest.1)
        ] in
          Tries writes files s p
    by_result (wait, u) run (same, _) lt ih =
        waiting-Polls files s u same
          (IsSound-read (suc s.delivered) s (wait, u) (same, λ id h. absurd (cc)) lt k).1 run
    by_result (skip, u) run only lt ih =
        let n = suc s.delivered in
        let v = record u { delivered = suc s.delivered } in
        let (sound, _) = IsSound-read (suc s.delivered) s (skip, u) only lt k in
        let h = mark_handled_try-Handles (writes n) n v sound (omega arith) in
        let m = mark_handled_try (writes n) n v in
        marked-Tries writes files s u m _ only h (mark_handled_try_fails (writes n) n v)
          (ih (m.1) h.sound (skipped-left s u (m.1) only h lt le))
    by_result (ready id, u) run only lt ih =
        let v = record u { delivered = suc s.delivered } in
        let (sound, _) = IsSound-read (suc s.delivered) s (ready id, u) only lt k in
        with_command-Tries writes files s u id _ only (ih v sound (ready-left s u id only lt le))

-- A poll of a sound reader never lowers the high-water mark. One that returns leaves the reader sound, and
-- hands out the commands in ascending order, each once: each number passed is handed out or handled, what
-- was handled stays so, the persisted number never goes down, and the number after it is not handled if that
-- was so before; and it passes every announced number, or stops at one whose read says to wait. One
-- that throws has stopped at a number that it skipped, whose write fails; it has passed the numbers up to
-- this one in the same way, and keeps the reader sound; but the commands among them are in no result. If
-- every write succeeds, then the poll returns, as one in which no write can fail.
pub poll_try-Tries :
    (seq : Option ℕ) (writes : ℕ → Bool) (files : ℕ → Attempt × ℕ) (s : CommandReader)
    → IsSound s
    → (s.high_water ≤ (note_seq seq s).high_water)
      × Tries writes files (note_seq seq s) (poll_try seq writes files s)
      × (poll_try seq (λ _. true) files s ≡ (some (poll seq files s).0, (poll seq files s).1))
unfolding poll_try poll
poll_try-Tries seq writes files s k =
    let (sound, _, _, up) = note_seq-IsSound seq s k in
    (
      up,
      poll_try_from-Tries _ writes files (note_seq seq s) sound (omega arith),
      poll_try_from-true _ files (note_seq seq s),
    )
