-- ===== src/Commands/History.antt =====
-- The command reader over a run of the harness: polls and reports in any order, where any write may fail.
use l4_ide.Prelude.{ℕ, ◌≤◌, Bool, Option, none, some, List, [], ◌∷◌, arith, subst, sym}
use l4_ide.Commands.{CommandReader, Attempt, note_seq, mark_handled_through}
use l4_ide.Commands.Handled.{IsSound, Handles}
use l4_ide.Commands.Delivery.{Between}
use l4_ide.Commands.Polling.{note_seq-IsSound}
use l4_ide.Commands.Through.{HandlesThrough, mark_handled_through-HandlesThrough}
use l4_ide.Commands.Failing.{mark_handled_try, mark_handled_through_try, poll_try}
use l4_ide.Commands.Faults.{mark_handled_through_try_only}
use l4_ide.Commands.Tries.{Tries, mark_handled_try-Handles, poll_try-Tries}
use l4_ide.Commands.Written.{
  IsBehind, mark_handled_try-IsBehind, mark_handled_through_try-IsBehind, poll_try-IsBehind,
}

-- The readers that a run reaches from `s`. A command is reported once it is delivered.
pub data After (s : CommandReader) : CommandReader → Type 0 where
  here : After s s
  polled :
      (seq : Option ℕ) (writes : ℕ → Bool) (files : ℕ → Attempt × ℕ) {t : CommandReader}
      → After s t
      → After s (poll_try seq writes files t).1
  marked :
      (writes : Bool) (n : ℕ) {t : CommandReader}
      → n ≤ t.delivered
      → After s t
      → After s (mark_handled_try writes n t).1
  marked_through :
      (writes : Bool) (n : ℕ) {t : CommandReader}
      → After s t
      → After s (mark_handled_through_try writes n t).1

-- Numbers that ascend between two bounds show that the bounds do.
Between-le : (lo hi : ℕ) (xs : List ℕ) → Between lo hi xs → lo ≤ hi
Between-le lo hi [] b = b
Between-le lo hi (x ∷ xs) (lt, b) = let le = Between-le x hi xs b in omega (arith, lt, le)

Tries-IsSound :
    (writes : ℕ → Bool) (files : ℕ → Attempt × ℕ) (s : CommandReader)
    (r : Option (List ℕ) × CommandReader)
    → Tries writes files s r
    → IsSound r.1 × (s.delivered ≤ r.1.delivered)
Tries-IsSound writes files s (some out, t) p = (p.sound, Between-le _ _ out p.ordered)
Tries-IsSound writes files s (none, t) (lost, p) = (p.sound, Between-le _ _ lost p.ordered)

HandlesThrough-written :
    (n : ℕ) (s t : CommandReader) (w : List ℕ)
    → HandlesThrough n s t
    → HandlesThrough n s (record t { written = w })
HandlesThrough-written n s t w h = record {
  sound = record {
    done_delivered = h.sound.done_delivered;
    delivered_seen = h.sound.delivered_seen;
    within = h.sound.within;
  };
  delivered = h.delivered;
  high_water = h.high_water;
  up = h.up;
  handled = h.handled;
}

mark_handled_through_try-HandlesThrough :
    (writes : Bool) (n : ℕ) (s : CommandReader)
    → IsSound s
    → HandlesThrough n s (mark_handled_through_try writes n s).1
mark_handled_through_try-HandlesThrough writes n s sound =
    subst (HandlesThrough n s) (sym (mark_handled_through_try_only writes n s)) (
      HandlesThrough-written n s (mark_handled_through n s) _
        (mark_handled_through-HandlesThrough n s sound))

-- In a sound reader, whether or not the write succeeds: reporting a delivered number makes it and no other
-- handled, and reporting all numbers up to one makes those of them that are delivered, and no other, handled;
-- both keep the reader sound, move neither the delivered number nor the high-water mark, and never lower
-- the persisted number in memory. After the first, the number after the persisted one is not handled, if
-- that was so before.
pub reported :
    (writes : Bool) (n : ℕ) (s : CommandReader)
    → IsSound s
    → n ≤ s.delivered
    → Handles n s (mark_handled_try writes n s).1
      × HandlesThrough n s (mark_handled_through_try writes n s).1
reported writes n s sound le = (
  mark_handled_try-Handles writes n s sound le,
  mark_handled_through_try-HandlesThrough writes n s sound,
)

-- What a run keeps, from a reader that started with the number `start` in the file.
pub record Keeps (start : ℕ) (s t : CommandReader) : Type 0 where
  pub sound : IsSound t
  pub behind : IsBehind start t
  pub onward : s.delivered ≤ t.delivered

-- Whatever is polled and reported in a run, and whichever writes fail, a sound reader stays sound, the
-- number in the file stays at most the one in memory, and the delivered number never goes down.
pub After-Keeps :
    (start : ℕ) (s t : CommandReader) → IsSound s → IsBehind start s → After s t → Keeps start s t
After-Keeps start s _ sound behind here = record {
  sound = sound;
  behind = behind;
  onward = omega arith;
}
After-Keeps start s _ sound behind (polled seq writes files {t} run) =
    let k = After-Keeps start s t sound behind run in
    let (later, up) =
      Tries-IsSound writes files (note_seq seq t) (poll_try seq writes files t)
        (poll_try-Tries seq writes files t k.sound).1 in
    let (_, _, same, _) = note_seq-IsSound seq t k.sound in
    let onward = k.onward in
    record {
      sound = later;
      behind = poll_try-IsBehind start seq writes files t k.behind;
      onward = omega (arith, up, same, onward);
    }
After-Keeps start s _ sound behind (marked writes n {t} le run) =
    let k = After-Keeps start s t sound behind run in
    let h = mark_handled_try-Handles writes n t k.sound le in
    let same = h.delivered in
    let onward = k.onward in
    record {
      sound = h.sound;
      behind = mark_handled_try-IsBehind start writes n t k.behind;
      onward = omega (arith, same, onward);
    }
After-Keeps start s _ sound behind (marked_through writes n {t} run) =
    let k = After-Keeps start s t sound behind run in
    let h = mark_handled_through_try-HandlesThrough writes n t k.sound in
    let same = h.delivered in
    let onward = k.onward in
    record {
      sound = h.sound;
      behind = mark_handled_through_try-IsBehind start writes n t k.behind;
      onward = omega (arith, same, onward);
    }
