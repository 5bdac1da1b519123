-- ===== src/Commands/Restart.antt =====
-- What becomes of the commands that a run has not handled, when the harness starts again.
use l4_ide.Prelude.{
  ℕ, zero, suc, ◌-◌, ◌≤◌, ◌<◌, Bool, true, false, Option, none, some, List, [], ◌≡◌, refl, sym,
  subst, arith, ◌==◌, ==_true, ==_refl, ltb, Bool-cases, inl, inr, ap, ◌⊎◌, ◌∙◌, if◌then◌else◌,
}
use l4_ide.Robdd.{has}
use l4_ide.Commands.{
  CommandReader, Attempt, transient_failure, other_failure, unfinished, invalid_command, command,
  ReadResult, wait, skip, ready, open_at, read, note_seq,
}
use l4_ide.Commands.Handled.{IsSound, AtGap, handled, open_at-IsSound}
use l4_ide.Commands.Delivery.{OnlyStuck, read-OnlyStuck, IsSound-read}
use l4_ide.Commands.Polling.{skipped-left, ready-left}
use l4_ide.Commands.Failing.{mark_handled_try, poll_try_from, poll_try, with_command}
use l4_ide.Commands.Faults.{mark_handled_try_fails}
use l4_ide.Commands.Tries.{mark_handled_try-Handles}
use l4_ide.Commands.Throws.{Returns, poll_try_from-IsHeld, IsHeld-read}
use l4_ide.Commands.History.{After, After-Keeps}
use l4_ide.Commands.Written.{last_from}

-- A file that is not there or half written, or whose read failed in a way that passes.
abbrev pub is_pending : Attempt → Bool
is_pending transient_failure = true
is_pending other_failure = false
is_pending unfinished = true
is_pending invalid_command = false
is_pending (command id) = false

read_ready :
    (n : ℕ) (a : Attempt) (now : ℕ) (s : CommandReader)
    → a ≡ command n
    → read n a now s ≡ (ready n, record s { stuck_since = none })
unfolding read
read_ready n a now s e = rw (e, ==_refl n) refl

-- A read says to wait for such a file only.
read_waits :
    (n : ℕ) (a : Attempt) (now : ℕ) (s u : CommandReader)
    → read n a now s ≡ (wait, u)
    → is_pending a ≡ true
unfolding read
read_waits n transient_failure now s u h = refl
read_waits n other_failure now s u h = absurd (cc)
read_waits n unfinished now s u h = refl
read_waits n invalid_command now s u h = absurd (cc)
read_waits n (command id) now s u h = by_id (id == n) h
  where
    by_id :
        (b : Bool)
        → ◌≡◌ {A = ReadResult × CommandReader}
            (if b then (ready id, record s { stuck_since = none }) else (skip, s))
            (wait, u)
        → false ≡ true
    by_id true g = absurd (cc)
    by_id false g = absurd (cc)

-- A poll hands out the command `k`; or it stops to wait for the file of an earlier one; or it throws, since it
-- skipped an earlier one and could not write that.
abbrev pub HandsOut : (ℕ → Bool) → (ℕ → Attempt × ℕ) → ℕ → Option (List ℕ) × CommandReader → Type 0
HandsOut writes files k (some out, t) =
    (has k out ≡ true) ⊎ ((suc t.delivered < k) × (is_pending (files (suc t.delivered)).0 ≡ true))
HandsOut writes files k (none, t) = (t.delivered < k) × (writes t.delivered ≡ false)

with_command-HandsOut :
    (writes : ℕ → Bool) (files : ℕ → Attempt × ℕ) (k id : ℕ) (r : Option (List ℕ))
    (t : CommandReader)
    → HandsOut writes files k (r, t)
    → HandsOut writes files k (with_command id r, t)
with_command-HandsOut writes files k id none t h = h
with_command-HandsOut writes files k id (some out) t (inl h) =
    inl (elim (Bool-cases (k == id)) [ inl e ↦ ground (arith, e) | inr e ↦ ground (arith, e, h) ])
with_command-HandsOut writes files k id (some out) t (inr h) = inr h

-- A command that is read is handed out, if the rest of the poll returns.
first-HandsOut :
    (writes : ℕ → Bool) (files : ℕ → Attempt × ℕ) (k : ℕ) (r : Option (List ℕ)) (t : CommandReader)
    → Returns r
    → HandsOut writes files k (with_command k r, t)
unfolding Returns
first-HandsOut writes files k none t h = absurd h
first-HandsOut writes files k (some out) t h = inl (let e = ==_refl k in ground (arith, e))

marked-HandsOut :
    (writes : ℕ → Bool) (files : ℕ → Attempt × ℕ) (k n : ℕ) (m : Bool × CommandReader)
    (rest : Option (List ℕ) × CommandReader)
    → n < k
    → m.1.delivered ≡ n
    → (m.0 ≡ false → writes n ≡ false)
    → HandsOut writes files k rest
    → HandsOut writes files k
        (elim (m.0) as (λ _. Option (List ℕ) × CommandReader) [ true ↦ rest | false ↦ (none, m.1) ])
marked-HandsOut writes files k n (true, v) rest lt at failed p = p
marked-HandsOut writes files k n (false, v) rest lt at failed p =
    (omega (arith, lt, at), rw at (failed refl))

poll_try_from-HandsOut :
    (fuel : ℕ) (writes : ℕ → Bool) (files : ℕ → Attempt × ℕ) (k : ℕ) (s : CommandReader)
    → IsSound s
    → AtGap s
    → s.delivered < k
    → k ≤ s.high_water
    → s.high_water - s.delivered ≤ fuel
    → (files k).0 ≡ command k
    → HandsOut writes files k (poll_try_from fuel writes files s)
unfolding poll_try_from
poll_try_from-HandsOut zero writes files k s sound gap lt up le there =
    absurd (omega (arith, lt, up, le))
poll_try_from-HandsOut (suc fuel) writes files k s sound gap lt up le there =
    let e : ltb s.delivered s.high_water ≡ true = ground (arith, lt, up) in
    rw (e, poll_try_from)
      (by_result (read (suc s.delivered) (files (suc s.delivered)).0 (files (suc s.delivered)).1 s)
        refl
        (read-OnlyStuck (suc s.delivered) (files (suc s.delivered)).0 (files (suc s.delivered)).1 s)
        (poll_try_from-HandsOut fuel writes files k))
  where
    announced : suc s.delivered ≤ s.high_water
    announced = omega (arith, lt, up)

    -- It is `k`'s turn only if its command is read.
    later :
        (r : ReadResult × CommandReader)
        → read (suc s.delivered) (files (suc s.delivered)).0 (files (suc s.delivered)).1 s ≡ r
        → ((id : ℕ) → r.0 ≡ ready id → ⊥)
        → suc s.delivered < k
    later r run none_read = elim (Bool-cases (k == suc s.delivered)) [
      | inr apart ↦ ground (arith, apart, lt)
      | inl same ↦
          let q : k ≡ suc s.delivered = ==_true k (suc s.delivered) same in
          let found : (files (suc s.delivered)).0 ≡ command (suc s.delivered) =
            subst (λ (j : ℕ). (files j).0 ≡ command j) q there in
          absurd (
            none_read (suc s.delivered) (
              ap (λ (x : ReadResult × CommandReader). x.0)
                (sym run
                  ∙ read_ready (suc s.delivered) (files (suc s.delivered)).0
                      (files (suc s.delivered)).1 s found)))
    ]

    by_result :
        (r : ReadResult × CommandReader)
        → read (suc s.delivered) (files (suc s.delivered)).0 (files (suc s.delivered)).1 s ≡ r
        → OnlyStuck (suc s.delivered) s r
        → ((u : CommandReader)
            → IsSound u
            → AtGap u
            → u.delivered < k
            → k ≤ u.high_water
            → u.high_water - u.delivered ≤ fuel
            → (files k).0 ≡ command k
            → HandsOut writes files k (poll_try_from fuel writes files u))
        → let p : Option (List ℕ) × CommandReader = elim (r.0) [
          | wait ↦ (some [], r.1)
          | skip ↦
              let marked =
                mark_handled_try
                  (writes (suc s.delivered))
                  (suc s.delivered)
                  (record (r.1) { delivered = suc s.delivered }) in
              let rest = poll_try_from fuel writes files (marked.1) in
              elim (marked.0) [ true ↦ rest | false ↦ (none, marked.1) ]
          | ready id ↦
              let rest =
                poll_try_from fuel writes files (record (r.1) { delivered = suc s.delivered }) in
              (with_command id (rest.0), rest.1)
        ] in
          HandsOut writes files k p
    by_result (wait, u) run (same, _) ih =
        let (_, _, at) = IsHeld-read (suc s.delivered) s u same gap in
        let less = later (wait, u) run (λ id h. absurd (cc)) in
        inr (
          omega (arith, less, at),
          subst (λ (d : ℕ). is_pending (files (suc d)).0 ≡ true) (sym at)
              (read_waits (suc s.delivered) (files (suc s.delivered)).0 (files (suc s.delivered)).1
                s u run),
        )
    by_result (skip, u) run only ih =
        let n = suc s.delivered in
        let v = record u { delivered = n } in
        let (gap', _, _) = IsHeld-read n s u only.0 gap in
        let (good, _) = IsSound-read n s (skip, u) only announced sound in
        let h = mark_handled_try-Handles (writes n) n v good (omega arith) in
        let less = later (skip, u) run (λ id g. absurd (cc)) in
        let at = h.delivered in
        let high = h.high_water in
        let same_high : u.high_water ≡ s.high_water = ap (λ w. w.high_water) only.0 in
        let m = mark_handled_try (writes n) n v in
        marked-HandsOut writes files k n m _ less at (mark_handled_try_fails (writes n) n v) (
          ih (m.1) h.sound (h.gap gap') (omega (arith, at, less))
            (omega (arith, high, same_high, up)) (skipped-left s u (m.1) only h announced le) there)
    by_result (ready id, u) run only ih =
        let n = suc s.delivered in
        let v = record u { delivered = n } in
        let (gap', done', _) = IsHeld-read n s u only.0 gap in
        let (good, _) = IsSound-read n s (ready id, u) only announced sound in
        let same_high : u.high_water ≡ s.high_water = ap (λ w. w.high_water) only.0 in
        let below = sound.done_delivered in
        let number : id ≡ n = only.1 id refl in
        let rest = poll_try_from fuel writes files v in
        elim (Bool-cases (k == n)) [
          | inl same ↦
              let q : k ≡ id = ==_true k n same ∙ sym number in
              subst (λ (j : ℕ). HandsOut writes files k (with_command j (rest.0), rest.1)) q
                (first-HandsOut writes files k (rest.0) (rest.1)
                  (poll_try_from-IsHeld fuel writes files v (gap', omega (arith, done', below))))
          | inr apart ↦ with_command-HandsOut writes files k id (rest.0) (rest.1) (
              ih v good gap' (ground (arith, apart, lt)) (omega (arith, same_high, up))
                (ready-left s u id only announced le) there)
        ]

-- After any run, a reader that is opened with the number in the file hands out a number that was not handled
-- and whose file holds its command, unless it stops at an earlier one.
pub redelivered :
    (start seq k : ℕ) (writes : ℕ → Bool) (files : ℕ → Attempt × ℕ) (s : CommandReader)
    → After (open_at start) s
    → handled s k ≡ false
    → k ≤ seq
    → (files k).0 ≡ command k
    → HandsOut writes files k
        (poll_try (some seq) writes files (open_at (last_from start s.written)))
unfolding poll_try note_seq
redelivered start seq k writes files s run new le there =
    let kept = After-Keeps start (open_at start) s (open_at-IsSound start) (omega arith) run in
    let behind = kept.behind in
    let at = last_from start s.written in
    let later : at < k = ground (arith, new, behind) in
    let shown : ltb at seq ≡ true = ground (arith, later, le) in
    rw shown (
      poll_try_from-HandsOut (seq - at) writes files k (record (open_at at) { high_water = seq })
        (record {
          done_delivered = omega arith;
          delivered_seen = omega (arith, later, le);
          within = λ j h. absurd (cc);
        })
        refl later le (omega arith) there)
