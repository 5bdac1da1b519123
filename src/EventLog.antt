-- ===== src/EventLog.antt =====
-- ts-apps/cloud-agent/src/event-log.ts: the queue in memory of a session's event log. EventLog/Disk.antt has
-- the files, EventLog/Steps.antt the timers and the runs of a write. Texts are lists of code units, and
-- the other events are their fields.
pub mod Shrink
pub mod Notes
pub mod Halving
pub mod Attempts
pub mod Disk
pub mod Steps
pub mod Rules
pub mod Valid
pub mod Segments
pub mod Lines
pub mod Writes
pub mod Publish
pub mod Recovery
pub mod Opens
pub mod Reopen
pub mod Stream
pub mod Delivers
pub mod Turns
pub mod Delivery
pub mod Faultless
pub mod Flush
pub mod Bounds
pub mod Bounded
pub mod Limits
pub mod Readable
use l4_ide.Prelude.{
  ℕ, zero, suc, ◌+◌, ◌-◌, Bool, true, false, not, ◌&&◌, ◌||◌, Option, none, some, List, [], ◌∷◌,
  ◌++◌, if◌then◌else◌, length, min,
}
use l4_ide.Protocol.{Value, Fields}
use l4_ide.Protocol.Validate.{same_text}

pub data Payload : Type 0 where
  text_delta thinking_delta : List ℕ → List ℕ → Payload
  other_event : Fields → Payload

pub record Event : Type 0 where
  pub seq : ℕ
  pub content : Value

pub record Head : Type 0 where
  pub segment : ℕ
  pub length : ℕ

abbrev pub first_event_segment : ℕ
first_event_segment = 1

abbrev pub first_head : Head
first_head = record { segment = first_event_segment; length = 0 }

-- A timer is the delay it was set with, or whether it is set. `waiting` counts the runs of `writePending` that
-- stand behind `writing`, and `in_flight` is the batch of the run whose turn it is.
pub record Log : Type 0 where
  pub head : Head
  pub seq : ℕ
  pub pending : List Payload
  pub delta : Option Payload
  pub delta_timer : Bool
  pub flush_timer : Bool
  pub retry_timer : Option ℕ
  pub failures : ℕ
  pub unclean : Bool
  pub closed : Bool
  pub waiting : ℕ
  pub in_flight : Option (List Payload)

abbrev pub new_log : Log
new_log = record {
  head = first_head;
  seq = 0;
  pending = [];
  delta = none;
  delta_timer = false;
  flush_timer = false;
  retry_timer = none;
  failures = 0;
  unclean = false;
  closed = false;
  waiting = 0;
  in_flight = none;
}

abbrev pub is_some {ℓ} : {A : Type ℓ} → Option A → Bool
is_some none = false
is_some (some a) = true

-- The delta after one of the same type and conversation is joined to it, or no delta.
abbrev pub joined : Payload → Payload → Option Payload
joined (text_delta c s) (text_delta d t) =
    if same_text c d then some (text_delta c (s ++ t)) else none
joined (thinking_delta c s) (thinking_delta d t) =
    if same_text c d then some (thinking_delta c (s ++ t)) else none
joined _ _ = none

abbrev pub is_delta : Payload → Bool
is_delta (text_delta c s) = true
is_delta (thinking_delta c s) = true
is_delta (other_event k) = false

abbrev pub queued : Option Payload → List Payload
queued none = []
queued (some p) = p ∷ []

unfoldable pub take_delta : Log → Log
take_delta l = record l { delta_timer = false; pending = l.pending ++ queued l.delta; delta = none }

unfoldable pub schedule_flush : Log → Log
schedule_flush l =
    if l.flush_timer || is_some l.retry_timer then l else record l { flush_timer = true }

-- The delta that is collected is joined with the new one, or queued before it.
unfoldable pub collect : Payload → Option Payload → Log → Log
unfolding take_delta schedule_flush
collect p none l = record l { delta = some p; delta_timer = true }
collect p (some d) l = elim (joined d p) [
  | some q ↦ record l { delta = some q; delta_timer = true }
  | none ↦ record (schedule_flush (take_delta l)) { delta = some p; delta_timer = true }
]

unfoldable pub emit : Payload → Log → Log
unfolding take_delta schedule_flush collect
emit p l =
    if l.closed
    then l
    else if is_delta p
    then collect p l.delta l
    else schedule_flush (record (take_delta l) { pending = (take_delta l).pending ++ (p ∷ []) })

unfoldable pub close : Log → Log
close l = record l {
  closed = true;
  flush_timer = false;
  retry_timer = none;
  delta_timer = false;
  pending = [];
  delta = none;
}

-- `delays[i] ?? 0`
unfoldable pub delay_at : ℕ → List ℕ → ℕ
delay_at i [] = 0
delay_at zero (d ∷ ds) = d
delay_at (suc i) (d ∷ ds) = delay_at i ds

unfoldable pub schedule_retry : List ℕ → Log → Log
unfolding delay_at
schedule_retry delays l = if is_some l.retry_timer then l else record l {
  retry_timer = some (delay_at (min l.failures (length delays - 1)) delays);
  failures = suc l.failures;
}

-- The start of `writePending`, up to its turn.
unfoldable pub write_pending : Log → Log
write_pending l = record l { flush_timer = false; waiting = suc l.waiting }

-- The run's turn: it takes what is queued.
unfoldable pub begin_write : Log → Log
begin_write l =
    let turn : Log = record l { waiting = l.waiting - 1 } in
    if l.closed then turn else elim l.pending [
      | [] ↦ turn
      | p ∷ ps ↦ record turn { pending = []; in_flight = some (p ∷ ps) }
    ]
