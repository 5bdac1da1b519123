-- ===== src/Lease.antt =====
-- ts-apps/cloud-agent/src/lease.ts: a run's permission to write, and the lease that renews it.
-- Times are milliseconds on one clock, which a call is given as `now`. What the files say (whether a newer
-- run exists, whether a write succeeds) is given to each call. `reports` counts the calls of the callback
-- on a violation, and `stops` those of the callback on a newer run. A write of the file and the renewal of the
-- fence after it are one step; a release is two, its write and the closing of the fence.
pub mod Window
use l4_ide.Prelude.{
  ℕ, suc, ◌+◌, ◌-◌, Bool, true, false, ◌&&◌, ◌||◌, not, Option, none, some, List, [], ◌∷◌, ◌++◌,
  ◌==◌, if◌then◌else◌, ltb, leb, Result, ok, err,
}

abbrev pub fence_margin_ms : ℕ
fence_margin_ms = 15000

pub data Superseded : Type 0 where
  run_ended lease_expired : Superseded

pub record Fence : Type 0 where
  pub valid_until : ℕ
  pub closed : Bool
  pub violated : Bool
  pub margin_ms : ℕ
  pub reports : ℕ

abbrev pub new_fence : ℕ → Fence
new_fence margin_ms = record {
  valid_until = 0;
  closed = false;
  violated = false;
  margin_ms = margin_ms;
  reports = 0;
}

unfoldable pub renewed : ℕ → Fence → Fence
renewed expires_at f = if f.closed then f else record f { valid_until = expires_at }

abbrev pub violation : Fence → Fence
violation f = if f.violated then f else record f { violated = true; reports = suc f.reports }

-- `check`: whether the write is refused, and the fence after it. The code tests `now < validUntil - marginMs`
-- on numbers that may be negative, which is this sum.
unfoldable pub check : ℕ → Fence → Result Superseded (Unit {0}) × Fence
check now f =
    if f.closed
    then (err run_ended, f)
    else if ltb (now + f.margin_ms) f.valid_until
    then (ok tt, f)
    else (err lease_expired, violation f)

unfoldable pub close : Fence → Fence
close f = record f { closed = true }

-- What the files of a run say at boot: its record (`none` if it is missing, or whether it is valid), whether
-- a newer record exists, and when its lease expires, if it has a valid one.
pub record RunFiles : Type 0 where
  pub run_record : Option Bool
  pub newer_run : Bool
  pub lease : Option ℕ

pub data Refusal : Type 0 where
  no_record invalid_record newer_exists no_lease lease_ran_out : Refusal

unfoldable pub check_run : RunFiles → ℕ → Result Refusal ℕ
check_run files now = elim (files.run_record) [
  | none ↦ err no_record
  | some valid ↦
      if not valid
      then err invalid_record
      else if files.newer_run
      then err newer_exists
      else elim (files.lease) [
        | none ↦ err no_lease
        | some expires_at ↦
            if leb expires_at (now + fence_margin_ms) then err lease_ran_out else ok expires_at
      ]
]

pub data HarnessLeaseState : Type 0 where
  running busy waiting : HarnessLeaseState

abbrev pub same_state : HarnessLeaseState → HarnessLeaseState → Bool
same_state running running = true
same_state busy busy = true
same_state waiting waiting = true
same_state _ _ = false

abbrev pub same_turn : Option ℕ → Option ℕ → Bool
same_turn none none = true
same_turn (some a) (some b) = a == b
same_turn _ _ = false

-- What is written to the lease's file, and whether it was written expired. `files` lists the writes, the last
-- one first.
pub record LeaseFile : Type 0 where
  pub state : HarnessLeaseState
  pub turn_id : Option ℕ
  pub expires_at : ℕ
  pub expired : Bool

pub record RunLease : Type 0 where
  pub state : HarnessLeaseState
  pub turn_id : Option ℕ
  pub held : Bool
  pub ttl_ms : ℕ
  pub fence : Fence
  pub files : List LeaseFile
  pub stops : ℕ

pub data WriteError : Type 0 where
  superseded : Superseded → WriteError
  not_written : WriteError

-- `write`, once the fence was asked: the file is written if the file system lets it, and the fence is
-- renewed.
unfoldable pub write_checked :
    Result Superseded (Unit {0}) × Fence
    → Bool
    → Bool
    → ℕ
    → RunLease
    → Result WriteError (Unit {0}) × RunLease
unfolding renewed
write_checked (err e, f) writable expired now l = (err (superseded e), record l { fence = f })
write_checked (ok _, f) writable expired now l =
    let expires_at = now + (if expired then 0 else l.ttl_ms) in
    let file : LeaseFile = record {
      state = l.state;
      turn_id = l.turn_id;
      expires_at = expires_at;
      expired = expired;
    } in
    if not writable then (err not_written, record l { fence = f }) else (
      ok tt,
      record l { files = file ∷ l.files; fence = if expired then f else renewed expires_at f },
    )

unfoldable pub write : Bool → Bool → ℕ → RunLease → Result WriteError (Unit {0}) × RunLease
unfolding check write_checked
write writable expired now l = write_checked (check now l.fence) writable expired now l

unfoldable pub start : Bool → ℕ → RunLease → Result WriteError (Unit {0}) × RunLease
unfolding write
start writable now l = write writable false now (record l { held = true })

abbrev pub stop : RunLease → RunLease
stop l = record l { held = false }

-- `renew`: errors are logged and go no further.
unfoldable pub renew : Bool → Bool → ℕ → RunLease → RunLease
unfolding write
renew newer_run writable now l =
    if not l.held
    then l
    else if newer_run
    then record (stop l) { stops = suc l.stops }
    else (write writable false now l).1

unfoldable pub set_lease :
    HarnessLeaseState → Option ℕ → Bool → ℕ → RunLease → Result WriteError (Unit {0}) × RunLease
unfolding write
set_lease state turn_id writable now l =
    if same_state l.state state && same_turn l.turn_id turn_id
    then (ok tt, l)
    else (let m = record l {
      state = state;
      turn_id = if same_state state running then none else turn_id;
    } in
        if m.held then write writable false now m else (ok tt, m))

-- `release` up to the end of the write that it awaits. Other calls may come before the rest of it.
unfoldable pub release_write : Bool → ℕ → RunLease → Result WriteError (Unit {0}) × RunLease
unfolding write
release_write writable now l = if l.held then write writable true now (stop l) else (ok tt, stop l)

-- The rest of `release`, whether or not the write failed.
abbrev pub release_close : RunLease → RunLease
unfolding close
release_close l = record l { fence = close l.fence }
