-- ===== src/Edits/Streak.antt =====
-- The brake: what a streak of broken edits counts, and that a turn is nudged at most once.
use l4_ide.Prelude.{
  ◌||◌, ◌⊎◌, inl, inr, subst, ℕ, ◌+◌, Bool, true, false, Option, none, some, List, [], ◌∷◌, ◌≡◌,
  refl, sym, ◌∙◌, arith, if◌then◌else◌, leb, Map, ap, ◌++◌,
}
use l4_ide.Edits.{
  L4FileState, TrackedFile, TurnRecord, record_file, made_progress, is_worse, starts_streak,
  progressed, failed_checks, stop_nudge, broken_files, is_nothing,
}

-- Progress is a strict order: what is better than a state is not bettered by it, and progress over a state
-- that was itself progress is progress over the first.
pub made_progress_lem :
    (a b c : L4FileState)
    → made_progress a b ≡ true
    → (made_progress b a ≡ false) × (made_progress b c ≡ true → made_progress a c ≡ true)
unfolding made_progress is_worse
made_progress_lem a b c h = (ground (arith, h), λ k. ground (arith, h, k))

abbrev compiles : L4FileState → Bool
compiles s = leb failed_checks s.level

-- A state that neither compiles nor starts a streak nor is progress over the best one.
abbrev pub IsStuck : Option L4FileState → L4FileState → Type 0
IsStuck best s = (compiles s ≡ false) × (starts_streak best ≡ false) × (progressed best s ≡ false)

-- The states after so many edits each.
abbrev pub AllStuck : Option L4FileState → List (L4FileState × ℕ) → Type 0
AllStuck best [] = Unit
AllStuck best ((s, n) ∷ ss) = IsStuck best s × AllStuck best ss

abbrev pub edits : List (L4FileState × ℕ) → ℕ
edits [] = 0
edits ((s, n) ∷ ss) = n + edits ss

-- The calls of `recordState` for one file.
unfoldable pub record_all : List (L4FileState × ℕ) → TrackedFile → TrackedFile
unfolding record_file
record_all [] f = f
record_all ((s, n) ∷ ss) f = record_all ss (record_file s n f)

-- The edits of a state that becomes the best one count only if it starts a streak.
abbrev pub first_edits : Option L4FileState → L4FileState → ℕ → ℕ
first_edits best s n = if compiles s then 0 else if starts_streak best then n else 0

-- The state that is the best one after some calls, and what is counted from it on.
pub record Reached (f : TrackedFile) (ss : List (L4FileState × ℕ)) (t : TrackedFile) : Type 0 where
  pub before : List (L4FileState × ℕ)
  pub state : L4FileState
  pub applied : ℕ
  pub after : List (L4FileState × ℕ)
  pub split : ss ≡ before ++ ((state, applied) ∷ after)
  pub is_best : t.best ≡ some state
  pub betters :
      (compiles state
        || starts_streak (record_all before f).best
        || progressed (record_all before f).best state)
      ≡ true
  pub stuck : AllStuck (some state) after
  pub count : t.broken_edits ≡ first_edits (record_all before f).best state applied + edits after

-- No state was better than the one before.
pub record Stays (f : TrackedFile) (ss : List (L4FileState × ℕ)) (t : TrackedFile) : Type 0 where
  pub same_best : t.best ≡ f.best
  pub stuck : AllStuck f.best ss
  pub count : t.broken_edits ≡ f.broken_edits + edits ss

moved :
    (f g t : TrackedFile) (s : L4FileState) (n : ℕ) (ss : List (L4FileState × ℕ))
    → (compiles s || starts_streak f.best || progressed f.best s) ≡ true
    → g.best ≡ some s
    → g.broken_edits ≡ first_edits f.best s n
    → Stays g ss t
    → Reached f ((s, n) ∷ ss) t
unfolding record_all
moved f g t s n ss better best counts stays = record {
  before = [];
  state = s;
  applied = n;
  after = ss;
  split = refl;
  is_best = stays.same_best ∙ best;
  betters = better;
  stuck = subst (λ (o : Option L4FileState). AllStuck o ss) best stays.stuck;
  count = stays.count ∙ ap (λ (k : ℕ). k + edits ss) counts;
}

prepended :
    (f t : TrackedFile) (s : L4FileState) (n : ℕ) (ss : List (L4FileState × ℕ))
    → Reached (record_file s n f) ss t
    → Reached f ((s, n) ∷ ss) t
unfolding record_all
prepended f t s n ss r = record {
  before = (s, n) ∷ r.before;
  state = r.state;
  applied = r.applied;
  after = r.after;
  split = ap (λ (xs : List (L4FileState × ℕ)). (s, n) ∷ xs) r.split;
  is_best = r.is_best;
  betters = r.betters;
  stuck = r.stuck;
  count = r.count;
}

-- One call and the rest, by the four branches of `recordState`.
record_one :
    (f t : TrackedFile) (s : L4FileState) (n : ℕ) (ss : List (L4FileState × ℕ))
    → Stays (record_file s n f) ss t
    → Stays f ((s, n) ∷ ss) t ⊎ Reached f ((s, n) ∷ ss) t
unfolding record_file
record_one f t s n ss =
    by_tests (compiles s) (starts_streak f.best) (progressed f.best s) refl refl refl
  where
    by_tests :
        (a b c : Bool)
        → compiles s ≡ a
        → starts_streak f.best ≡ b
        → progressed f.best s ≡ c
        → Stays
            (if a
              then record f { broken_edits = 0; best = some s }
              else if b
              then record f { broken_edits = n; best = some s }
              else if c
              then record f { broken_edits = 0; best = some s }
              else record f { broken_edits = f.broken_edits + n })
            ss
            t
        → Stays f ((s, n) ∷ ss) t ⊎ Reached f ((s, n) ∷ ss) t
    by_tests true b c x y z h = inr (moved f _ t s n ss (rw x refl) refl (rw x refl) h)
    by_tests false true c x y z h =
        inr (moved f _ t s n ss (rw (x, y) refl) refl (rw (x, y) refl) h)
    by_tests false false true x y z h =
        inr (moved f _ t s n ss (rw (x, y, z) refl) refl (rw (x, y) refl) h)
    by_tests false false false x y z h = inl (record {
      same_best = h.same_best;
      stuck = ((x, y, z), h.stuck);
      count = h.count ∙ omega arith;
    })

-- What a file's count of broken edits says after any calls of `recordState`, each with its number of edits.
-- Either no state compiled, started a streak or was progress over the best one at the start, the best one
-- is the same, and all edits were added to the count; or the best state is that of some call, which
-- compiled, started a streak or was progress over the best one before it, no later state did so over it,
-- and the count is that of all later edits, with its own if it started a streak.
pub record_all_lem :
    (ss : List (L4FileState × ℕ)) (f : TrackedFile)
    → Stays f ss (record_all ss f) ⊎ Reached f ss (record_all ss f)
unfolding record_all
record_all_lem [] f = inl (record { same_best = refl; stuck = tt; count = omega arith })
record_all_lem ((s, n) ∷ ss) f = elim (record_all_lem ss (record_file s n f)) [
  | inl h ↦ record_one f (record_all ss (record_file s n f)) s n ss h
  | inr r ↦ inr (prepended f (record_all ss (record_file s n f)) s n ss r)
]

pick : {A : Type 0} (b : Bool) (x y : A) → b ≡ true → (if b then x else y) ≡ x
pick true x y e = refl
pick false x y e = absurd (cc)

-- A turn that was nudged is not nudged again, whatever its files look like then.
pub stop_nudge_once :
    (current later : Map ℕ L4FileState) (knock_on more : List ℕ) (t u : TurnRecord)
    {broken : List ℕ}
    → stop_nudge current knock_on t ≡ (some broken, u)
    → stop_nudge later more u ≡ (none, u)
unfolding stop_nudge
stop_nudge_once current later knock_on more t u {broken} h =
    pick u.nudged (none, u) _
      (marked t.nudged (is_nothing (broken_files t.files current ++ knock_on))
        (broken_files t.files current ++ knock_on) h)
  where
    marked :
        (b c : Bool) (found : List ℕ)
        → ◌≡◌ {A = Option (List ℕ) × TurnRecord}
            (if b
              then (none, t)
              else if c
              then (none, t)
              else (some found, record t { nudged = true }))
            (some broken, u)
        → u.nudged ≡ true
    marked true c found e = absurd (cc)
    marked false true found e = absurd (cc)
    marked false false found e = sym (ap (λ p. p.1.nudged) e)
