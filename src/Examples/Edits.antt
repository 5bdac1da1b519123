-- ===== src/Examples/Edits.antt =====
-- The theorems on the brake, at a file that never compiles.
use l4_ide.Prelude.{◌⊎◌, List, ℕ, true, false, none, some, [], ◌∷◌, ◌≡◌, refl, Map, get, nat_key}
use l4_ide.Edits.{L4FileState, TurnRecord, made_progress, stop_nudge, TrackedFile, new_turn}
use l4_ide.Edits.Streak.{
  made_progress_lem, record_all, record_all_lem, Stays, Reached, stop_nudge_once,
}

-- A state with some errors.
abbrev errors_at : ℕ → L4FileState
errors_at n = record { level = 1; errors = n; pending = false; first_error_line = none }

made_progress_five : made_progress (errors_at 5) (errors_at 3) ≡ true
unfolding made_progress
made_progress_five = refl

made_progress_example :
    (made_progress (errors_at 3) (errors_at 5) ≡ false)
    × (made_progress (errors_at 3) (errors_at 1) ≡ true
        → made_progress (errors_at 5) (errors_at 1) ≡ true)
made_progress_example =
    made_progress_lem (errors_at 5) (errors_at 3) (errors_at 1) made_progress_five

-- A file that does not compile, has progress once and then none.
abbrev tried : List (L4FileState × ℕ)
tried = (errors_at 4, 1) ∷ (errors_at 2, 3) ∷ (errors_at 6, 2) ∷ []

abbrev tracked : TrackedFile
tracked = record { baseline = none; best = some (errors_at 3); broken_edits = 5 }

streak_example :
    Stays tracked tried (record_all tried tracked)
    ⊎ Reached tracked tried (record_all tried tracked)
streak_example = record_all_lem tried tracked

tried_counts :
    record_all tried tracked
    ≡ record { baseline = none; best = some (errors_at 2); broken_edits = 2 }
unfolding record_all made_progress
tried_counts = refl

-- A file that compiled at first and now has an error.
abbrev broken_turn : TurnRecord
broken_turn = record new_turn {
  files =
      (
        8,
        record {
          baseline =
              some (record { level = 3; errors = 0; pending = false; first_error_line = none });
          best = none;
          broken_edits = 1;
        },
      )
      ∷ [];
}

abbrev now_broken : Map ℕ L4FileState
now_broken = (8, errors_at 1) ∷ []

first_nudge :
    stop_nudge now_broken [] broken_turn ≡ (some (8 ∷ []), record broken_turn { nudged = true })
unfolding stop_nudge get
first_nudge = refl

nudge_example :
    stop_nudge now_broken [] (record broken_turn { nudged = true })
    ≡ (none, record broken_turn { nudged = true })
nudge_example =
    stop_nudge_once now_broken now_broken [] [] broken_turn (record broken_turn { nudged = true })
      first_nudge
