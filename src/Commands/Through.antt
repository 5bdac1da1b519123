-- ===== src/Commands/Through.antt =====
-- `markHandledThrough`: after `stop`, every number up to it is handled.
use l4_ide.Prelude.{
  ℕ, ◌≤◌, ◌<◌, true, not, ◌&&◌, ◌||◌, List, [], ◌∷◌, ◌≡◌, refl, arith, ==_true, leb, filter, max,
  min,
}
use l4_ide.Robdd.{has}
use l4_ide.Commands.{CommandReader, mark_handled_through}
use l4_ide.Commands.Handled.{IsSound, handled, persist-Sets}
use l4_ide.Commands.Advance.{Within}

has-filter_above :
    (k n : ℕ) (ys : List ℕ) → has k (filter (λ j. not (leb j n)) ys) ≡ has k ys && not (leb k n)
has-filter_above k n [] = refl
has-filter_above k n (y ∷ ys) = ground (arith, has-filter_above k n ys, ==_true k y)

-- What handling all numbers up to one does.
pub record HandlesThrough (n : ℕ) (s t : CommandReader) : Type 0 where
  pub sound : IsSound t
  pub delivered : t.delivered ≡ s.delivered
  pub high_water : t.high_water ≡ s.high_water
  pub up : s.done ≤ t.done
  pub handled : (k : ℕ) → handled t k ≡ handled s k || (leb k n && leb k s.delivered)

-- In a sound reader, handling all numbers up to one keeps the reader sound, moves neither the delivered
-- number nor the high-water mark, never lowers the persisted number, and makes the numbers up to this one
-- that are delivered, and no other, handled.
pub mark_handled_through-HandlesThrough :
    (n : ℕ) (s : CommandReader) → IsSound s → HandlesThrough n s (mark_handled_through n s)
unfolding mark_handled_through
mark_handled_through-HandlesThrough n s k =
    let above = filter (λ j. not (leb j n)) s.handled_above in
    let next = max s.done (min n s.delivered) in
    let below = k.done_delivered in
    let seen = k.delivered_seen in
    let p = persist-Sets next above s (ground arith) in
    let at = p.at in
    let left = p.left in
    let moved = p.delivered in
    let high = p.high_water in
    let kept : (j : ℕ) → has j above ≡ has j s.handled_above && not (leb j n) =
      λ j. has-filter_above j n s.handled_above in
    record {
      sound = record {
        done_delivered = rw (at, moved) (ground (arith, below));
        delivered_seen = rw (moved, high) seen;
        within =
            rw (at, left, moved)
              (let bounds : Within next s.delivered above =
                  λ j h. within_filter j h (kept j) (k.within j) in
                bounds);
      };
      delivered = moved;
      high_water = high;
      up = rw at (ground arith);
      handled = λ j. rw (at, left) (ground (arith, kept j, k.within j, below));
    }
  where
    within_filter :
        (j : ℕ)
        → has j (filter (λ i. not (leb i n)) s.handled_above) ≡ true
        → has j (filter (λ i. not (leb i n)) s.handled_above)
          ≡ has j s.handled_above && not (leb j n)
        → (has j s.handled_above ≡ true → (s.done < j) × (j ≤ s.delivered))
        → (max s.done (min n s.delivered) < j) × (j ≤ s.delivered)
    within_filter j h e w = ground (arith, h, e, w)
