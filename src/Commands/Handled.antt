-- ===== src/Commands/Handled.antt =====
-- `markHandled` adds one number to the handled ones, and keeps the reader sound.
use l4_ide.Prelude.{
  ℕ, suc, ◌≤◌, ◌<◌, Bool, true, false, ◌||◌, List, ◌≡◌, refl, arith, ◌==◌, ==_true, leb, length,
  Bool-cases, inl, inr,
}
use l4_ide.Robdd.{has, add}
use l4_ide.Robdd.Support.{has-add}
use l4_ide.Commands.{CommandReader, advance, persist, mark_handled, open_at}
use l4_ide.Commands.Advance.{Within, advance-Advanced}

-- The numbers are in order, and those handled above the persisted one are delivered.
pub record IsSound (s : CommandReader) : Type 0 where
  pub done_delivered : s.done ≤ s.delivered
  pub delivered_seen : s.delivered ≤ s.high_water
  pub within : Within s.done s.delivered s.handled_above

-- The number after the persisted one is not handled.
abbrev pub AtGap : CommandReader → Type 0
AtGap s = has (suc s.done) s.handled_above ≡ false

pub open_at-IsSound : (n : ℕ) → IsSound (open_at n)
open_at-IsSound n = record {
  done_delivered = omega arith;
  delivered_seen = omega arith;
  within = λ k h. absurd (cc);
}

abbrev pub handled : CommandReader → ℕ → Bool
handled s k = leb k s.done || has k s.handled_above

-- The parts of the reader that handling leaves alone or sets.
pub record Sets (s : CommandReader) (next : ℕ) (above : List ℕ) (t : CommandReader) : Type 0 where
  pub at : t.done ≡ next
  pub left : t.handled_above ≡ above
  pub delivered : t.delivered ≡ s.delivered
  pub high_water : t.high_water ≡ s.high_water

pub persist-Sets :
    (next : ℕ) (above : List ℕ) (s : CommandReader)
    → s.done ≤ next
    → Sets s next above (persist next (record s { handled_above = above }))
unfolding persist
persist-Sets next above s le = elim (Bool-cases (leb next s.done)) [
  | inl e ↦
      rw (e, persist)
        (record { at = ground (arith, e, le); left = refl; delivered = refl; high_water = refl })
  | inr e ↦ rw (e, persist) (record { at = refl; left = refl; delivered = refl; high_water = refl })
]

-- What handling one more number does.
pub record Handles (n : ℕ) (s t : CommandReader) : Type 0 where
  pub sound : IsSound t
  pub gap : AtGap s → AtGap t
  pub delivered : t.delivered ≡ s.delivered
  pub high_water : t.high_water ≡ s.high_water
  pub up : s.done ≤ t.done
  pub handled : (k : ℕ) → handled t k ≡ handled s k || (k == n)

-- In a sound reader, handling a delivered number keeps the reader sound, moves neither the delivered
-- number nor the high-water mark, never lowers the persisted number, and makes this number and no other
-- handled, in whatever order the numbers are handled; and if the number after the persisted one was not
-- handled before, then it is not so after either.
pub mark_handled-Handles :
    (n : ℕ) (s : CommandReader) → IsSound s → n ≤ s.delivered → Handles n s (mark_handled n s)
unfolding mark_handled
mark_handled-Handles n s sound le = elim (Bool-cases (leb n s.done)) [
  | inl e ↦
      rw (e, mark_handled)
        (record {
          sound = sound;
          gap = λ g. g;
          delivered = refl;
          high_water = refl;
          up = omega arith;
          handled = λ k. ground (arith, e, ==_true k n);
        })
  | inr e ↦ rw (e, mark_handled) (moved (ground (arith, e)))
]
  where
    moved :
        s.done < n
        → let above = add n s.handled_above in
          let a = advance (length above) s.done above in
          Handles n s (persist a.0 (record s { handled_above = a.1 }))
    moved lt =
        let above = add n s.handled_above in
        let added : (k : ℕ) → has k above ≡ (k == n) || has k s.handled_above =
          λ k. has-add k n s.handled_above in
        let a =
          advance-Advanced (length above) s.done s.delivered above (omega arith)
            sound.done_delivered (λ k h. bounds k h (added k)) in
        let p = persist-Sets _ _ s a.up in
        let at = p.at in
        let left = p.left in
        let delivered = p.delivered in
        let seen = p.high_water in
        let later = sound.delivered_seen in
        let up = a.up in
        let below = a.below in
        record {
          sound = record {
            done_delivered = rw (at, delivered) below;
            delivered_seen = rw (delivered, seen) later;
            within = rw (at, left, delivered) a.within;
          };
          gap = λ _. rw (at, left) a.gap;
          delivered = delivered;
          high_water = seen;
          up = rw at up;
          handled =
              λ k. rw (at, left) (exact _ _ k (added k) (a.prefix k) (a.rest k) (a.kept k) up);
        }
      where
        bounds :
            (k : ℕ)
            → has k (add n s.handled_above) ≡ true
            → has k (add n s.handled_above) ≡ (k == n) || has k s.handled_above
            → (s.done < k) × (k ≤ s.delivered)
        bounds k h e = elim (Bool-cases (k == n)) [
          | inl same ↦ let q = ==_true k n same in rw q (lt, le)
          | inr apart ↦ sound.within k (ground (arith, h, e, apart))
        ]

        exact :
            (next : ℕ) (rest : List ℕ) (k : ℕ)
            → has k (add n s.handled_above) ≡ (k == n) || has k s.handled_above
            → (s.done < k → k ≤ next → has k (add n s.handled_above) ≡ true)
            → (has k rest ≡ true → has k (add n s.handled_above) ≡ true)
            → (has k (add n s.handled_above) ≡ true → next < k → has k rest ≡ true)
            → s.done ≤ next
            → (leb k next || has k rest) ≡ (leb k s.done || has k s.handled_above) || (k == n)
        exact next rest k e prefix only kept up = ground (arith, e, prefix, only, kept, up)
