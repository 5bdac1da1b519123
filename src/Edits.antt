-- ===== src/Edits.antt =====
-- ts-shared/legalese-agent/src/edit-guard.ts, and the comparisons of ts-shared/legalese-agent/src/tools/lsp.ts:
-- the brake on edits to a file that get nowhere. A file is its number, and a turn is one `TurnRecord`.
-- The texts that are shown are left out: a nudge is the list of the files that it names.
pub mod Streak
use l4_ide.Prelude.{
  ℕ, suc, ◌+◌, ◌≤◌, Bool, true, false, ◌&&◌, ◌||◌, not, Option, none, some, List, [], ◌∷◌, ◌++◌,
  ◌==◌, if◌then◌else◌, ltb, leb, Map, get, set, nat_key,
}
use l4_ide.Robdd.{has}

abbrev pub max_broken_edits : ℕ
max_broken_edits = 15

-- The levels of `FILE_LEVEL`.
abbrev pub parse_failure : ℕ
parse_failure = 0

abbrev pub failed_checks : ℕ
failed_checks = 2

pub record L4FileState : Type 0 where
  pub level : ℕ
  pub errors : ℕ
  pub pending : Bool
  pub first_error_line : Option ℕ

unfoldable pub is_worse : L4FileState → L4FileState → Bool
is_worse before after =
    if not (after.level == before.level)
    then ltb after.level before.level
    else ltb before.errors after.errors

-- `to.firstErrorLine ?? -1` is greater than `from.firstErrorLine ?? -1`.
abbrev pub line_after : Option ℕ → Option ℕ → Bool
line_after none _ = false
line_after (some m) none = true
line_after (some m) (some n) = ltb n m

unfoldable pub made_progress : L4FileState → L4FileState → Bool
unfolding is_worse
made_progress old new =
    if is_worse new old
    then true
    else old.level == parse_failure
      && new.level == parse_failure
      && new.errors == old.errors
      && line_after new.first_error_line old.first_error_line

pub record TrackedFile : Type 0 where
  pub baseline : Option L4FileState
  pub best : Option L4FileState
  pub broken_edits : ℕ

pub record TurnRecord : Type 0 where
  pub files : Map ℕ TrackedFile
  pub sequences : List ℕ
  pub nudged : Bool
  pub errors_before : Option (Map ℕ ℕ)

abbrev pub new_turn : TurnRecord
new_turn = record { files = []; sequences = []; nudged = false; errors_before = none }

-- `beginRound`: the files that have more than one edit call get a sequence.
unfoldable pub repeated : List ℕ → List ℕ → List ℕ
repeated seen [] = []
repeated seen (u ∷ us) = if has u seen then u ∷ repeated (u ∷ seen) us else repeated (u ∷ seen) us

unfoldable pub begin_round : List ℕ → TurnRecord → TurnRecord
unfolding repeated
begin_round uris t = record t { sequences = repeated [] uris }

unfoldable pub track : ℕ → Option L4FileState → TurnRecord → TurnRecord
unfolding get set
track uri baseline t = elim (get uri t.files) [
  | some f ↦ t
  | none ↦ record t {
    files = set uri (record { baseline = baseline; best = baseline; broken_edits = 0 }) t.files;
  }
]

unfoldable pub note_errors_before : Option (Map ℕ ℕ) → TurnRecord → TurnRecord
note_errors_before none t = t
note_errors_before (some counts) t = elim (t.errors_before) [
  | some old ↦ t
  | none ↦ record t { errors_before = some counts }
]

-- The files that the turn did not edit and that have more errors than before it.
unfoldable pub knock_on_from : Map ℕ TrackedFile → Map ℕ ℕ → Map ℕ ℕ → List (ℕ × ℕ)
unfolding get
knock_on_from files before [] = []
knock_on_from files before ((uri, errors) ∷ now) =
    let rest = knock_on_from files before now in
    elim (get uri files) [
      | some f ↦ rest
      | none ↦ elim (get uri before) [
        | none ↦ rest
        | some n ↦ if ltb n errors then (uri, errors) ∷ rest else rest
      ]
    ]

unfoldable pub knock_on_files : Option (Map ℕ ℕ) → TurnRecord → List (ℕ × ℕ)
unfolding knock_on_from
knock_on_files now t = elim (t.errors_before) [
  | none ↦ []
  | some before ↦ elim now [ none ↦ [] | some counts ↦ knock_on_from t.files before counts ]
]

abbrev pub is_blocked : TrackedFile → Bool
is_blocked f = leb max_broken_edits f.broken_edits

-- `blocked`: whether the turn may not edit the file any more.
unfoldable pub blocked : ℕ → TurnRecord → Bool
unfolding get
blocked uri t = elim (get uri t.files) [ none ↦ false | some f ↦ is_blocked f ]

-- Whether the file has no best state, or one that compiles.
abbrev pub starts_streak : Option L4FileState → Bool
starts_streak none = true
starts_streak (some b) = leb failed_checks b.level

abbrev pub progressed : Option L4FileState → L4FileState → Bool
progressed none state = false
progressed (some b) state = made_progress b state

-- What `recordState` makes of a tracked file after `applied` edits.
unfoldable pub record_file : L4FileState → ℕ → TrackedFile → TrackedFile
unfolding made_progress
record_file state applied f =
    if leb failed_checks state.level
    then record f { broken_edits = 0; best = some state }
    else if starts_streak f.best
    then record f { broken_edits = applied; best = some state }
    else if progressed f.best state
    then record f { broken_edits = 0; best = some state }
    else record f { broken_edits = f.broken_edits + applied }

unfoldable pub record_state : ℕ → L4FileState → ℕ → TurnRecord → TurnRecord
unfolding record_file get set
record_state uri state applied t = elim (get uri t.files) [
  | none ↦ t
  | some f ↦ record t { files = set uri (record_file state applied f) t.files }
]

-- Whether the nudge names the file.
unfoldable pub is_nudge : TrackedFile → Option L4FileState → Bool
unfolding is_worse
is_nudge f none = false
is_nudge f (some now) =
    not now.pending
    && ltb now.level failed_checks
    && not (is_blocked f)
    && elim (f.baseline) [ none ↦ false | some b ↦ is_worse b now ]

unfoldable pub broken_files : Map ℕ TrackedFile → Map ℕ L4FileState → List ℕ
unfolding is_nudge get
broken_files [] current = []
broken_files ((uri, f) ∷ files) current =
    let rest = broken_files files current in
    if is_nudge f (get uri current) then uri ∷ rest else rest

abbrev pub is_nothing : List ℕ → Bool
is_nothing [] = true
is_nothing (x ∷ xs) = false

-- `stopNudge`: the files that the nudge names, if there is a nudge. The knock-on files are listed last.
unfoldable pub stop_nudge : Map ℕ L4FileState → List ℕ → TurnRecord → Option (List ℕ) × TurnRecord
unfolding broken_files
stop_nudge current knock_on t =
    if t.nudged
    then (none, t)
    else (let broken = broken_files t.files current ++ knock_on in
        if is_nothing broken then (none, t) else (some broken, record t { nudged = true }))
