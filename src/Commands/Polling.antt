-- ===== src/Commands/Polling.antt =====
-- A whole poll: the loop, with enough fuel, and the number in `commands.seq` before it.
use l4_ide.Prelude.{
  ℕ, zero, suc, ◌-◌, ◌≤◌, Option, none, some, List, [], ◌∷◌, ◌≡◌, refl, ◌∙◌, arith, ltb, Bool-cases,
  inl, inr, ap, ==_refl,
}
use l4_ide.Commands.{
  CommandReader, Attempt, ReadResult, wait, skip, ready, read, mark_handled, poll_from, poll,
  note_seq,
}
use l4_ide.Commands.Handled.{IsSound, Handles, mark_handled-Handles}
use l4_ide.Commands.Delivery.{
  Polls, Ends, OnlyStuck, read-OnlyStuck, IsSound-read, finished-Polls, waiting-Polls, then-Polls,
}

-- The rest of a poll after a number that was skipped.
pub skipped-Polls :
    (E : CommandReader → Type 0) (s u v : CommandReader) (out : List ℕ) (t : CommandReader)
    → OnlyStuck (suc s.delivered) s (skip, u)
    → Handles (suc s.delivered) (record u { delivered = suc s.delivered }) v
    → Polls E v out t
    → Polls E s out t
skipped-Polls E s u v out t (same, o) h p =
    let same_done : u.done ≡ s.done = ap (λ w. w.done) same in
    let same_above : u.handled_above ≡ s.handled_above = ap (λ w. w.handled_above) same in
    let same_high : u.high_water ≡ s.high_water = ap (λ w. w.high_water) same in
    then-Polls E s v [] out t h.delivered (h.high_water ∙ same_high)
      (omega (arith, h.up, same_done)) (λ g. h.gap (rw (same_done, same_above) g))
      (λ j g. h.handled j ∙ rw (same_done, same_above) (ground (arith, g)))
      (inl (refl, h.handled (suc s.delivered) ∙ ground (arith, ==_refl (suc s.delivered)))) p

pub skipped-left :
    {fuel : ℕ} (s u v : CommandReader)
    → OnlyStuck (suc s.delivered) s (skip, u)
    → Handles (suc s.delivered) (record u { delivered = suc s.delivered }) v
    → suc s.delivered ≤ s.high_water
    → s.high_water - s.delivered ≤ suc fuel
    → v.high_water - v.delivered ≤ fuel
skipped-left s u v (same, o) h lt le =
    let same_high : u.high_water ≡ s.high_water = ap (λ w. w.high_water) same in
    let moved = h.delivered in
    let seen = h.high_water in omega (arith, moved, seen, same_high, lt, le)

-- The rest of a poll after a command that was handed out.
pub ready-Polls :
    (E : CommandReader → Type 0) (s u : CommandReader) (id : ℕ) (out : List ℕ) (t : CommandReader)
    → OnlyStuck (suc s.delivered) s (ready id, u)
    → Polls E (record u { delivered = suc s.delivered }) out t
    → Polls E s (id ∷ out) t
ready-Polls E s u id out t (same, o) p =
    let same_done : u.done ≡ s.done = ap (λ w. w.done) same in
    let same_above : u.handled_above ≡ s.handled_above = ap (λ w. w.handled_above) same in
    let same_high : u.high_water ≡ s.high_water = ap (λ w. w.high_water) same in
    then-Polls E s (record u { delivered = suc s.delivered }) (id ∷ []) out t refl same_high
      (omega (arith, same_done)) (λ g. rw (same_done, same_above) g)
      (λ j g. rw (same_done, same_above) g) (inr (ap (λ j. j ∷ []) (o id refl))) p

pub ready-left :
    {fuel : ℕ} (s u : CommandReader) (id : ℕ)
    → OnlyStuck (suc s.delivered) s (ready id, u)
    → suc s.delivered ≤ s.high_water
    → s.high_water - s.delivered ≤ suc fuel
    → u.high_water - suc s.delivered ≤ fuel
ready-left s u id (same, o) lt le =
    let same_high : u.high_water ≡ s.high_water = ap (λ w. w.high_water) same in
    omega (arith, same_high, lt, le)

poll_from-Polls :
    (fuel : ℕ) (files : ℕ → Attempt × ℕ) (s : CommandReader)
    → IsSound s
    → s.high_water - s.delivered ≤ fuel
    → Polls (Ends files) s (poll_from fuel files s).0 (poll_from fuel files s).1
unfolding poll_from
poll_from-Polls zero files s k le =
    finished-Polls files s k (let seen = k.delivered_seen in omega (arith, seen, le))
poll_from-Polls (suc fuel) files s k le = elim (Bool-cases (ltb s.delivered s.high_water)) [
  | inr e ↦
      rw (e, poll_from)
        (finished-Polls files s k (let seen = k.delivered_seen in ground (arith, seen, e)))
  | inl e ↦
      rw (e, poll_from)
        (by_result
          (read (suc s.delivered) (files (suc s.delivered)).0 (files (suc s.delivered)).1 s) refl
          (read-OnlyStuck (suc s.delivered) (files (suc s.delivered)).0 (files (suc s.delivered)).1
            s)
          (ground (arith, e)) (poll_from-Polls fuel files))
]
  where
    by_result :
        (r : ReadResult × CommandReader)
        → read (suc s.delivered) (files (suc s.delivered)).0 (files (suc s.delivered)).1 s ≡ r
        → OnlyStuck (suc s.delivered) s r
        → suc s.delivered ≤ s.high_water
        → ((u : CommandReader)
            → IsSound u
            → u.high_water - u.delivered ≤ fuel
            → Polls (Ends files) u (poll_from fuel files u).0 (poll_from fuel files u).1)
        → let p : List ℕ × CommandReader = elim (r.0) [
          | wait ↦ ([], r.1)
          | skip ↦
              poll_from fuel files
                (mark_handled (suc s.delivered) (record (r.1) { delivered = (suc s.delivered) }))
          | ready id ↦
              let rest = poll_from fuel files (record (r.1) { delivered = (suc s.delivered) }) in
              (id ∷ rest.0, rest.1)
        ] in
          Polls (Ends files) s p.0 p.1
    by_result (wait, u) run (same, _) lt ih =
        waiting-Polls files s u same
          (IsSound-read (suc s.delivered) s (wait, u) (same, λ id h. absurd (cc)) lt k).1 run
    by_result (skip, u) run only lt ih =
        let v = record u { delivered = suc s.delivered } in
        let (sound, _) = IsSound-read (suc s.delivered) s (skip, u) only lt k in
        let h = mark_handled-Handles (suc s.delivered) v sound (omega arith) in
        let left = skipped-left s u (mark_handled (suc s.delivered) v) only h lt le in
        skipped-Polls (Ends files) s u (mark_handled (suc s.delivered) v) _ _ only h
          (ih (mark_handled (suc s.delivered) v) h.sound left)
    by_result (ready id, u) run only lt ih =
        let v = record u { delivered = suc s.delivered } in
        let (sound, _) = IsSound-read (suc s.delivered) s (ready id, u) only lt k in
        ready-Polls (Ends files) s u id _ _ only (ih v sound (ready-left s u id only lt le))

pub note_seq-IsSound :
    (seq : Option ℕ) (s : CommandReader)
    → IsSound s
    → IsSound (note_seq seq s)
      × ((note_seq seq s).done ≡ s.done)
      × ((note_seq seq s).delivered ≡ s.delivered)
      × (s.high_water ≤ (note_seq seq s).high_water)
unfolding note_seq
note_seq-IsSound none s k = (k, refl, refl, omega arith)
note_seq-IsSound (some seq) s k = elim (Bool-cases (ltb s.high_water seq)) [
  | inr e ↦ rw (e, note_seq) (k, refl, refl, omega arith)
  | inl e ↦
      rw (e, note_seq)
        (
          record {
            done_delivered = k.done_delivered;
            delivered_seen = let seen = k.delivered_seen in ground (arith, seen, e);
            within = k.within;
          },
          refl,
          refl,
          ground (arith, e),
        )
]

-- A poll of a sound reader, whatever number `commands.seq` shows, never lowers the high-water mark, and from
-- there: the reader stays sound; the commands handed out have ascending numbers, above the last number
-- delivered before; each number passed is handed out or handled, and what was handled stays so; and the
-- poll passes every announced number, or stops at one whose read says to wait.
pub poll-Polls :
    (seq : Option ℕ) (files : ℕ → Attempt × ℕ) (s : CommandReader)
    → IsSound s
    → (s.high_water ≤ (note_seq seq s).high_water)
      × Polls (Ends files) (note_seq seq s) (poll seq files s).0 (poll seq files s).1
unfolding poll
poll-Polls seq files s k =
    let (sound, _, _, up) = note_seq-IsSound seq s k in
    (up, poll_from-Polls _ files (note_seq seq s) sound (omega arith))
