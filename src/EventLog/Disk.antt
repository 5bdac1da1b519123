-- ===== src/EventLog/Disk.antt =====
-- event-log.ts: the files of the log and the write of a batch. A file is the lines in it, with what a write
-- that failed left of one; each call on the disk takes the next fault of a script, where an empty script has
-- no more faults. The fence's checks are calls that may fail.
use l4_ide.Prelude.{
  ℕ, zero, suc, ◌+◌, ◌-◌, Bool, true, false, ◌&&◌, Option, none, some, List, [], ◌∷◌, ◌++◌, ◌==◌,
  if◌then◌else◌, leb, ltb,
}
use Prim.Native.String.{String}
use l4_ide.Prelude.{ok, err}
use l4_ide.Protocol.{Value, whole, string, object, Fields, end, field, codes, spread}
use l4_ide.Protocol.Validate.{Part, key, Problem, longer, larger, more, Failure}
use l4_ide.Protocol.Events.{cloud_event}
use l4_ide.EventLog.{Payload, text_delta, thinking_delta, other_event, Event, Head, first_head}
use l4_ide.EventLog.Shrink.{shrink_field}

-- `torn n` is the first n + 1 bytes of a line.
pub data Piece : Type 0 where
  line : Event → Piece
  torn : ℕ → Piece

-- A call succeeds, or it fails; a write that fails has written so many bytes.
pub data Fault : Type 0 where
  fine : Fault
  fails : ℕ → Fault

pub record Storage : Type 0 where
  pub files : ℕ → List Piece
  pub head_file : Option Head
  pub faults : List Fault

abbrev pub event_segment_max_bytes : ℕ
event_segment_max_bytes = 1048576

abbrev pub shrink_attempts : ℕ
shrink_attempts = 24

abbrev pub head_of : Storage → Head
head_of s = elim s.head_file [ none ↦ first_head | some h ↦ h ]

abbrev pub next_fault : List Fault → Fault
next_fault [] = fine
next_fault (f ∷ fs) = f

abbrev pub later_faults : List Fault → List Fault
later_faults [] = []
later_faults (f ∷ fs) = fs

abbrev pub put_file : ℕ → List Piece → (ℕ → List Piece) → ℕ → List Piece
put_file n ps files k = if k == n then ps else files k

-- A sequence of calls that may throw.
pub data Outcome {ℓ} (A : Type ℓ) : Type ℓ where
  went : A → Storage → Outcome A
  threw : Storage → Outcome A

abbrev pub Io {ℓ} : Type ℓ → Type ℓ
Io A = Storage → Outcome A

abbrev pub and_then {ℓ κ} : {A : Type ℓ} {B : Type κ} → Outcome A → (A → Io B) → Outcome B
and_then (went a s) f = f a s
and_then (threw s) f = threw s

infixl 1 ◌>>=◌ ◌>>◌
abbrev pub ◌>>=◌ {ℓ κ} : {A : Type ℓ} {B : Type κ} → Io A → (A → Io B) → Io B
m >>= f = λ s. and_then (m s) f

abbrev pub ◌>>◌ {ℓ κ} : {A : Type ℓ} {B : Type κ} → Io A → Io B → Io B
m >> k = m >>= λ _. k

abbrev pub pure {ℓ} : {A : Type ℓ} → A → Io A
pure a = λ s. went a s

-- A call that does the one thing, or the other when it fails.
abbrev pub answer : (Storage → Storage) → (ℕ → Storage → Storage) → Fault → Io (Unit {0})
answer done broken fine s = went tt (done s)
answer done broken (fails n) s = threw (broken n s)

unfoldable pub call : (Storage → Storage) → (ℕ → Storage → Storage) → Io (Unit {0})
call done broken s =
    answer done broken (next_fault s.faults) (record s { faults = later_faults s.faults })

-- SIZE_ERROR_RE
abbrev pub is_size_problem : Problem → Bool
is_size_problem longer = true
is_size_problem larger = true
is_size_problem more = true
is_size_problem _ = false

abbrev pub event_path : List Part
event_path = key "event" ∷ []

abbrev pub delta_fields : String → List ℕ → List ℕ → Fields
delta_fields name c s =
    field "type" (string (codes name))
      (field "conversationId" (string c) (field "text" (string s) end))

abbrev pub payload_fields : Payload → Fields
payload_fields (text_delta c s) = delta_fields "text-delta" c s
payload_fields (thinking_delta c s) = delta_fields "thinking-delta" c s
payload_fields (other_event fs) = fs

-- `json_text` is the text of a value's JSON, and `now` the time at which an event with a number is checked.
module _ (json_text : Value → List ℕ) (now : ℕ → ℕ) where
  abbrev pub candidate : ℕ → Payload → Fields
  candidate seq p =
      spread (field "seq" (whole seq) (field "ts" (whole (now seq)) end)) (payload_fields p)

  abbrev pub smaller : Fields → Failure → Option Fields
  unfolding shrink_field
  smaller c f = if is_size_problem f.problem then shrink_field json_text c f.path else none

  -- The loop of `validated`, with the attempts that are left.
  unfoldable pub validated_from : ℕ → ℕ → Fields → Option Event
  unfolding cloud_event shrink_field
  validated_from zero seq c = elim (cloud_event json_text (object c) event_path) [
    | ok w ↦ some (record { seq = seq; content = w })
    | err f ↦ none
  ]
  validated_from (suc left) seq c = elim (cloud_event json_text (object c) event_path) [
    | ok w ↦ some (record { seq = seq; content = w })
    | err f ↦ elim (smaller c f) [ none ↦ none | some d ↦ validated_from left seq d ]
  ]

  unfoldable pub validated : ℕ → Payload → Option Event
  unfolding validated_from
  validated seq p = validated_from shrink_attempts seq (candidate seq p)

  -- The events of a batch, numbered on from the last number.
  unfoldable pub number_events : ℕ → List Payload → List Event
  unfolding validated
  number_events seq [] = []
  number_events seq (p ∷ ps) = elim (validated (suc seq) p) [
    | none ↦ number_events seq ps
    | some e ↦ e ∷ number_events (suc seq) ps
  ]

-- `fs.rm(…, { force: true })`
unfoldable pub remove_file : ℕ → Io (Unit {0})
unfolding call
remove_file k = call (λ s. record s { files = put_file k [] s.files }) (λ n s. s)

-- `writeAtomic` of head.json: the file is the new one or the one before.
unfoldable pub write_head : Head → Io (Unit {0})
unfolding call
write_head h = call (λ s. record s { head_file = some h }) (λ n s. s)

-- `fence.check`
unfoldable pub check_fence : Io (Unit {0})
unfolding call
check_fence = call (λ s. s) (λ n s. s)

-- `json_bytes` is the length of an event's JSON.
module _ (json_bytes : Event → ℕ) where
  -- `formatEventLine` ends the line.
  abbrev pub bytes : Piece → ℕ
  bytes (line e) = suc (json_bytes e)
  bytes (torn n) = suc n

  abbrev pub size : List Piece → ℕ
  size [] = 0
  size (p ∷ ps) = bytes p + size ps

  -- The first bytes of a file.
  unfoldable pub cut : ℕ → List Piece → List Piece
  cut n [] = []
  cut n (p ∷ ps) =
      let rest : List Piece = p ∷ cut (n - bytes p) ps in
      if n == 0 then [] else if leb (bytes p) n then rest else torn (n - 1) ∷ []

  unfoldable pub truncate_to : Head → Io (Unit {0})
  unfolding cut call
  truncate_to h =
      call (λ s. record s { files = put_file h.segment (cut h.length (s.files h.segment)) s.files })
        (λ n s. s)

  abbrev pub appended : ℕ → List Piece → Storage → Storage
  appended k chunk s = record s { files = put_file k (s.files k ++ chunk) s.files }

  unfoldable pub append_to_file : ℕ → List Piece → Io (Unit {0})
  unfolding cut call
  append_to_file k chunk = call (appended k chunk) (λ n s. appended k (cut n chunk) s)

  -- `commit`: the head after the chunk is appended.
  unfoldable pub commit : Head → List Piece → Io Head
  unfolding check_fence append_to_file
  commit h [] = pure h
  commit h (p ∷ ps) = do
    check_fence
    append_to_file h.segment (p ∷ ps)
    pure (record h { length = h.length + size (p ∷ ps) })

  -- The loop of `write` over the lines, and the commit after it. A line that would pass the limit starts a
  -- segment.
  unfoldable pub write_lines : Head → List Piece → List Event → Io Head
  unfolding commit remove_file
  write_lines h chunk [] = commit h chunk
  write_lines h chunk (e ∷ es) =
      let here : Io Head = write_lines h (chunk ++ (line e ∷ [])) es in
      let over : Io Head = do
        h1 ← commit h chunk
        remove_file (suc h1.segment)
        write_lines (record { segment = suc h1.segment; length = 0 }) (line e ∷ []) es
      in let used = h.length + size chunk in
        if ltb 0 used && ltb event_segment_max_bytes (used + bytes (line e)) then over else here

  -- The truncation at the start of `write`.
  unfoldable pub make_clean : Bool → Head → Io (Unit {0})
  unfolding truncate_to
  make_clean unclean h = if unclean then truncate_to h else pure tt

  -- `write` after the batch is numbered: the head that is published.
  unfoldable pub write_events : Head → List Event → Io Head
  unfolding write_lines check_fence write_head
  write_events h [] = pure h
  write_events h (e ∷ es) = do h1 ← write_lines h [] (e ∷ es); check_fence; write_head h1; pure h1

  unfoldable pub write : Bool → Head → List Event → Io Head
  unfolding check_fence make_clean write_events
  write unclean h es = do check_fence; make_clean unclean h; write_events h es
