-- ===== src/Commands/Delivery.antt =====
-- A poll delivers the announced commands in order, each once, and stops only to wait.
use l4_ide.Prelude.{
  ℕ, suc, ◌≤◌, ◌<◌, Bool, true, false, ◌||◌, Option, none, some, List, [], ◌∷◌, ◌++◌, ◌≡◌, refl,
  ◌∙◌, arith, ◌==◌, ==_true, if◌then◌else◌, Bool-cases, inl, inr, ap, ◌⊎◌,
}
use l4_ide.Robdd.{has}
use l4_ide.Commands.{
  CommandReader, Attempt, transient_failure, other_failure, unfinished, invalid_command, command,
  ReadResult, wait, skip, ready, stuck, stuck_since_then, read,
}
use l4_ide.Commands.Handled.{IsSound, AtGap, handled}

-- The numbers ascend, above the first bound and up to the second.
abbrev pub Between : ℕ → ℕ → List ℕ → Type 0
Between lo hi [] = lo ≤ hi
Between lo hi (x ∷ xs) = (lo < x) × Between x hi xs

Between-from : (lo mid hi : ℕ) (xs : List ℕ) → lo ≤ mid → Between mid hi xs → Between lo hi xs
Between-from lo mid hi [] le b = omega (arith, le, b)
Between-from lo mid hi (x ∷ xs) le (lt, b) = (omega (arith, le, lt), b)

-- A read changes only the note of when a number got stuck, and a command carries its number.
abbrev pub OnlyStuck : ℕ → CommandReader → ReadResult × CommandReader → Type 0
OnlyStuck n s r =
    (r.1 ≡ record s { stuck_since = r.1.stuck_since }) × ((id : ℕ) → r.0 ≡ ready id → id ≡ n)

choose :
    (n : ℕ) (s : CommandReader) (b c : Bool) (at : Option (ℕ × ℕ))
    → OnlyStuck n s (
        if b
        then (wait, record s { stuck_since = at })
        else if c
        then (wait, s)
        else (skip, record s { stuck_since = none }))
choose n s true c at = (refl, λ id e. absurd (cc))
choose n s false true at = (refl, λ id e. absurd (cc))
choose n s false false at = (refl, λ id e. absurd (cc))

stuck_since_then-OnlyStuck :
    (o : Option (ℕ × ℕ)) (n grace now : ℕ) (s : CommandReader)
    → OnlyStuck n s (stuck_since_then o n grace now s)
unfolding stuck_since_then
stuck_since_then-OnlyStuck none n grace now s = (refl, λ id e. absurd (cc))
stuck_since_then-OnlyStuck (some (m, at)) n grace now s = choose n s _ _ (some (n, now))

pub read-OnlyStuck :
    (n : ℕ) (a : Attempt) (now : ℕ) (s : CommandReader) → OnlyStuck n s (read n a now s)
unfolding read stuck
read-OnlyStuck n transient_failure now s = stuck_since_then-OnlyStuck s.stuck_since n _ now s
read-OnlyStuck n other_failure now s = (refl, λ id e. absurd (cc))
read-OnlyStuck n unfinished now s = stuck_since_then-OnlyStuck s.stuck_since n _ now s
read-OnlyStuck n invalid_command now s = (refl, λ id e. absurd (cc))
read-OnlyStuck n (command id) now s = given (id == n) refl
  where
    ready_id : (j : ℕ) → ready id ≡ ready j → j ≡ id
    ready_id j h = cc

    given :
        (b : Bool)
        → (id == n) ≡ b
        → OnlyStuck n s (if b then (ready id, record s { stuck_since = none }) else (skip, s))
    given true e = (refl, λ j h. let same = ==_true id n e in ready_id j h ∙ same)
    given false e = (refl, λ j h. absurd (cc))

pub IsSound-read :
    (n : ℕ) (s : CommandReader) (r : ReadResult × CommandReader)
    → OnlyStuck n s r
    → suc s.delivered ≤ s.high_water
    → IsSound s
    → IsSound (record (r.1) { delivered = suc s.delivered }) × IsSound r.1
IsSound-read n s (r, u) (same, _) lt k = rw same (
  record {
    done_delivered = omega (arith, k.done_delivered);
    delivered_seen = lt;
    within = λ j h. let (a, b) = k.within j h in (a, omega (arith, b));
  },
  record {
    done_delivered = k.done_delivered;
    delivered_seen = k.delivered_seen;
    within = k.within;
  },
)

-- A poll that returns has passed every announced number, or stops at one whose read says to wait.
abbrev pub Ends : (ℕ → Attempt × ℕ) → CommandReader → Type 0
Ends files t =
    (t.delivered ≡ t.high_water)
    ⊎ ((w : CommandReader) × (read (suc t.delivered) (files (suc t.delivered)).0
            (files (suc t.delivered)).1 w
          ≡ (wait, t)))

-- What a poll from the reader `s` gives: the commands `out` and the reader `t`, which ends as `E` says.
pub record Polls (E : CommandReader → Type 0) (s : CommandReader) (out : List ℕ) (t : CommandReader)
    : Type 0 where
  pub sound : IsSound t
  pub gap : AtGap s → AtGap t
  pub high_water : t.high_water ≡ s.high_water
  pub done_up : s.done ≤ t.done
  pub ordered : Between s.delivered t.delivered out
  pub dealt : (k : ℕ) → s.delivered < k → k ≤ t.delivered → (has k out || handled t k) ≡ true
  pub kept : (k : ℕ) → handled s k ≡ true → handled t k ≡ true
  pub ended : E t

-- Nothing more is announced.
pub finished-Polls :
    (files : ℕ → Attempt × ℕ) (s : CommandReader)
    → IsSound s
    → s.delivered ≡ s.high_water
    → Polls (Ends files) s [] s
finished-Polls files s k e = record {
  sound = k;
  gap = λ g. g;
  high_water = refl;
  done_up = omega arith;
  ordered = omega arith;
  dealt = λ j lt le. absurd (omega (arith, lt, le));
  kept = λ j h. h;
  ended = inl e;
}

pub waiting-Polls :
    (files : ℕ → Attempt × ℕ) (s u : CommandReader)
    → u ≡ record s { stuck_since = u.stuck_since }
    → IsSound u
    → read (suc s.delivered) (files (suc s.delivered)).0 (files (suc s.delivered)).1 s ≡ (wait, u)
    → Polls (Ends files) s [] u
waiting-Polls files s u same k run =
    let same_delivered : u.delivered ≡ s.delivered = ap (λ w. w.delivered) same in
    let same_done : u.done ≡ s.done = ap (λ w. w.done) same in
    let same_above : u.handled_above ≡ s.handled_above = ap (λ w. w.handled_above) same in
    record {
      sound = k;
      gap = λ g. rw (same_done, same_above) g;
      high_water = ap (λ w. w.high_water) same;
      done_up = omega (arith, same_done);
      ordered = omega (arith, same_delivered);
      dealt = λ j lt le. absurd (omega (arith, lt, le, same_delivered));
      kept = λ j h. rw (same_done, same_above) h;
      ended =
          inr
            (s, ap (λ d. read (suc d) (files (suc d)).0 (files (suc d)).1 s) same_delivered ∙ run);
    }

-- The rest of a poll after a command that was handed out or skipped.
pub then-Polls :
    (E : CommandReader → Type 0) (s u : CommandReader) (first out : List ℕ) (t : CommandReader)
    → u.delivered ≡ suc s.delivered
    → u.high_water ≡ s.high_water
    → s.done ≤ u.done
    → (AtGap s → AtGap u)
    → ((k : ℕ) → handled s k ≡ true → handled u k ≡ true)
    → ((first ≡ []) × (handled u (suc s.delivered) ≡ true)) ⊎ (first ≡ suc s.delivered ∷ [])
    → Polls E u out t
    → Polls E s (first ++ out) t
then-Polls E s u first out t d h up gap kept one p = record {
  sound = p.sound;
  gap = λ g. p.gap (gap g);
  high_water = p.high_water ∙ h;
  done_up = omega (arith, up, p.done_up);
  ordered = order first one (rw (← d) p.ordered);
  dealt = λ k lt le. deal first one k lt (λ more. p.dealt k more le) (λ same. p.kept k same);
  kept = λ k g. p.kept k (kept k g);
  ended = p.ended;
}
  where
    order :
        (first : List ℕ)
        → ((first ≡ []) × (handled u (suc s.delivered) ≡ true)) ⊎ (first ≡ suc s.delivered ∷ [])
        → Between (suc s.delivered) t.delivered out
        → Between s.delivered t.delivered (first ++ out)
    order first (inl (e, _)) b =
        rw e (Between-from s.delivered (suc s.delivered) t.delivered out (omega arith) b)
    order first (inr e) b = rw e (omega arith, b)

    deal :
        (first : List ℕ)
        → ((first ≡ []) × (handled u (suc s.delivered) ≡ true)) ⊎ (first ≡ suc s.delivered ∷ [])
        → (k : ℕ) → s.delivered < k
        → (u.delivered < k → (has k out || handled t k) ≡ true)
        → (handled u k ≡ true → handled t k ≡ true)
        → (has k (first ++ out) || handled t k) ≡ true
    deal first (inl (e, g)) k lt rest stays = elim (Bool-cases (k == suc s.delivered)) [
      | inl same ↦
          let q = ==_true k (suc s.delivered) same in
          let there : handled t k ≡ true = stays (rw q g) in rw e (ground (arith, there))
      | inr apart ↦ rw e (rest (ground (arith, lt, apart, d)))
    ]
    deal first (inr e) k lt rest stays = elim (Bool-cases (k == suc s.delivered)) [
      | inl same ↦ rw e (ground (arith, same))
      | inr apart ↦ let there = rest (ground (arith, lt, apart, d)) in rw e (ground (arith, there))
    ]
