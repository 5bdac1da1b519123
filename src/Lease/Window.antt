-- ===== src/Lease/Window.antt =====
-- A run writes only while the lease that others read is valid.
use l4_ide.Prelude.{
  ℕ, suc, ◌+◌, ◌<◌, Bool, true, false, ◌&&◌, not, Option, none, List, [], ◌∷◌, ◌≡◌, refl, sym, ◌∙◌,
  arith, ◌⊎◌, ◌||◌, any, if◌then◌else◌, ltb, inl, inr, Result, ok, err,
}
use l4_ide.Lease.{
  Fence, renewed, check, close, violation, Superseded, RunLease, LeaseFile, HarnessLeaseState,
  running, run_ended, lease_expired, write, write_checked, WriteError, fence_margin_ms, start, stop,
  renew, set_lease, release_write, release_close, same_state, same_turn,
}

-- When the lease that others read runs out: the last one written, or the one found at boot.
abbrev pub expiry : ℕ → List LeaseFile → ℕ
expiry boot [] = boot
expiry boot (f ∷ fs) = f.expires_at

-- The same of the last one that was not written expired.
abbrev pub renewal_expiry : ℕ → List LeaseFile → ℕ
renewal_expiry boot [] = boot
renewal_expiry boot (f ∷ fs) = if f.expired then renewal_expiry boot fs else f.expires_at

-- A lease was written expired.
abbrev pub is_released : List LeaseFile → Bool
is_released fs = any (λ f. f.expired) fs

renewal_expiry_lem :
    (boot : ℕ) (fs : List LeaseFile)
    → (is_released fs ≡ true) ⊎ (renewal_expiry boot fs ≡ expiry boot fs)
renewal_expiry_lem boot [] = inr refl
renewal_expiry_lem boot (f ∷ fs) = by_expired f.expired
  where
    by_expired :
        (b : Bool)
        → (b || any (λ g. g.expired) fs ≡ true)
          ⊎ ((if b then renewal_expiry boot fs else f.expires_at) ≡ f.expires_at)
    by_expired true = inl refl
    by_expired false = inr refl

abbrev one : Bool → ℕ
one true = 1
one false = 0

-- The fence is closed for good, or armed with the last lease that was not written expired; and it has reported a
-- violation once if there was one, and never else.
pub record IsArmed (boot : ℕ) (l : RunLease) : Type 0 where
  pub armed : (l.fence.closed ≡ true) ⊎ (l.fence.valid_until ≡ renewal_expiry boot l.files)
  pub reported : l.fence.reports ≡ (if l.fence.violated then 1 else 0)

-- What a check leaves of the fence.
record Checks (f g : Fence) : Type 0 where
  same_until : g.valid_until ≡ f.valid_until
  same_closed : g.closed ≡ f.closed
  counted : f.reports ≡ (if f.violated then 1 else 0) → g.reports ≡ (if g.violated then 1 else 0)

violation-Checks : (f : Fence) → Checks f (violation f)
violation-Checks f = known f.violated refl
  where
    known :
        (b : Bool)
        → f.violated ≡ b
        → Checks f (if b then f else record f { violated = true; reports = suc f.reports })
    known true e = record { same_until = refl; same_closed = refl; counted = λ h. h }
    known false e = record {
      same_until = refl;
      same_closed = refl;
      counted = λ h. ground (arith, h, e);
    }

check-Checks : (now : ℕ) (f : Fence) → Checks f (check now f).1
unfolding check
check-Checks now f = by_tests f.closed (ltb (now + f.margin_ms) f.valid_until)
  where
    by_tests :
        (b c : Bool)
        → Checks f (
            let p : Result Superseded (Unit {0}) × Fence =
              if b
              then (err run_ended, f)
              else if c
              then (ok tt, f)
              else (err lease_expired, violation f) in
            p.1)
    by_tests true c = record { same_until = refl; same_closed = refl; counted = λ h. h }
    by_tests false true = record { same_until = refl; same_closed = refl; counted = λ h. h }
    by_tests false false = violation-Checks f

-- The check lets a write through only in the window.
check-ok :
    (now : ℕ) (f : Fence) {u : Unit {0}} {g : Fence}
    → check now f ≡ (ok u, g)
    → (f.closed ≡ false) × (now + f.margin_ms < f.valid_until)
unfolding check
check-ok now f {u} {g} h = by_tests f.closed (ltb (now + f.margin_ms) f.valid_until) refl refl h
  where
    by_tests :
        (b c : Bool)
        → f.closed ≡ b
        → ltb (now + f.margin_ms) f.valid_until ≡ c
        → ◌≡◌ {A = Result Superseded (Unit {0}) × Fence}
            (if b
              then (err run_ended, f)
              else if c
              then (ok tt, f)
              else (err lease_expired, violation f))
            (ok u, g)
        → (f.closed ≡ false) × (now + f.margin_ms < f.valid_until)
    by_tests true c e k h = absurd (cc)
    by_tests false true e k h = (e, ground (arith, k))
    by_tests false false e k h = absurd (cc)

renewed-IsArmed :
    (boot expires_at : ℕ) (f : Fence) (l : RunLease) (file : LeaseFile)
    → file.expires_at ≡ expires_at
    → file.expired ≡ false
    → f.reports ≡ (if f.violated then 1 else 0)
    → IsArmed boot (record l { files = file ∷ l.files; fence = renewed expires_at f })
unfolding renewed
renewed-IsArmed boot expires_at f l file e live r = by_closed f.closed refl
  where
    by_closed :
        (b : Bool)
        → f.closed ≡ b
        → IsArmed boot (record l {
          files = file ∷ l.files;
          fence = if b then f else record f { valid_until = expires_at };
        })
    by_closed true c = record { armed = inl c; reported = r }
    by_closed false c = record { armed = inr (rw live (sym e)); reported = r }

fence-IsArmed :
    (boot : ℕ) (l : RunLease) (f : Fence)
    → Checks l.fence f
    → IsArmed boot l
    → IsArmed boot (record l { fence = f })
fence-IsArmed boot l f c a = record {
  armed = elim (a.armed) [ inl e ↦ inl (c.same_closed ∙ e) | inr e ↦ inr (c.same_until ∙ e) ];
  reported = c.counted a.reported;
}

write_checked-IsArmed :
    (boot : ℕ) (p : Result Superseded (Unit {0}) × Fence) (writable : Bool) (now : ℕ) (l : RunLease)
    → Checks l.fence p.1
    → IsArmed boot l
    → IsArmed boot (write_checked p writable false now l).1
unfolding write_checked
write_checked-IsArmed boot (err e, f) writable now l c a = fence-IsArmed boot l f c a
write_checked-IsArmed boot (ok _, f) false now l c a = fence-IsArmed boot l f c a
write_checked-IsArmed boot (ok _, f) true now l c a =
    renewed-IsArmed boot (now + l.ttl_ms) f l _ refl refl (c.counted a.reported)

write-IsArmed :
    (boot : ℕ) (writable : Bool) (now : ℕ) (l : RunLease)
    → IsArmed boot l
    → IsArmed boot (write writable false now l).1
unfolding write
write-IsArmed boot writable now l a =
    write_checked-IsArmed boot (check now l.fence) writable now l (check-Checks now l.fence) a

-- An expired lease does not arm the fence.
write_expired-IsArmed :
    (boot : ℕ) (p : Result Superseded (Unit {0}) × Fence) (writable : Bool) (now : ℕ) (l : RunLease)
    → Checks l.fence p.1
    → IsArmed boot l
    → IsArmed boot (write_checked p writable true now l).1
unfolding write_checked
write_expired-IsArmed boot (err e, f) writable now l c a = fence-IsArmed boot l f c a
write_expired-IsArmed boot (ok _, f) false now l c a = fence-IsArmed boot l f c a
write_expired-IsArmed boot (ok _, f) true now l c a =
    let kept = fence-IsArmed boot l f c a in record { armed = kept.armed; reported = kept.reported }

IsArmed-fields :
    (boot : ℕ) (l m : RunLease)
    → m.fence ≡ l.fence
    → m.files ≡ l.files
    → IsArmed boot l
    → IsArmed boot m
IsArmed-fields boot l m e h a = record { armed = rw (e, h) a.armed; reported = rw e a.reported }

renew-IsArmed :
    (boot : ℕ) (newer writable : Bool) (now : ℕ) (l : RunLease)
    → IsArmed boot l
    → IsArmed boot (renew newer writable now l)
unfolding renew
renew-IsArmed boot newer writable now l a = by_tests l.held newer
  where
    by_tests :
        (b c : Bool)
        → IsArmed boot (
            if not b
            then l
            else if c
            then record (stop l) { stops = suc l.stops }
            else (write writable false now l).1)
    by_tests false c = a
    by_tests true true = IsArmed-fields boot l _ refl refl a
    by_tests true false = write-IsArmed boot writable now l a

set_lease-IsArmed :
    (boot : ℕ) (state : HarnessLeaseState) (turn : Option ℕ) (writable : Bool) (now : ℕ)
    (l : RunLease)
    → IsArmed boot l
    → IsArmed boot (set_lease state turn writable now l).1
unfolding set_lease
set_lease-IsArmed boot state turn writable now l a =
    by_tests (same_state l.state state && same_turn l.turn_id turn) l.held
  where
    moved : RunLease
    moved = record l { state = state; turn_id = if same_state state running then none else turn }

    moved-IsArmed : IsArmed boot moved
    moved-IsArmed = IsArmed-fields boot l moved refl refl a

    by_tests :
        (b c : Bool)
        → IsArmed boot (
            let p : Result WriteError (Unit {0}) × RunLease =
              if b
              then (ok tt, l)
              else if c
              then write writable false now moved
              else (ok tt, moved) in
            p.1)
    by_tests true c = a
    by_tests false true = write-IsArmed boot writable now moved moved-IsArmed
    by_tests false false = moved-IsArmed

release_write-IsArmed :
    (boot : ℕ) (writable : Bool) (now : ℕ) (l : RunLease)
    → IsArmed boot l
    → IsArmed boot (release_write writable now l).1
unfolding release_write write
release_write-IsArmed boot writable now l a = by_held l.held
  where
    stopped_lease : IsArmed boot (stop l)
    stopped_lease = IsArmed-fields boot l (stop l) refl refl a

    by_held :
        (b : Bool)
        → let p : Result WriteError (Unit {0}) × RunLease =
            if b then write writable true now (stop l) else (ok tt, stop l) in
          IsArmed boot p.1
    by_held false = stopped_lease
    by_held true =
        write_expired-IsArmed boot (check now l.fence) writable now (stop l)
          (check-Checks now l.fence) stopped_lease

-- One call on a lease, or one of the two parts of a release.
pub data Step : RunLease → RunLease → Type 0 where
  started : (w : Bool) (now : ℕ) (l : RunLease) → Step l (start w now l).1
  renewal : (newer w : Bool) (now : ℕ) (l : RunLease) → Step l (renew newer w now l)
  set_to :
      (state : HarnessLeaseState) (turn : Option ℕ) (w : Bool) (now : ℕ) (l : RunLease)
      → Step l (set_lease state turn w now l).1
  checked : (now : ℕ) (l : RunLease) → Step l (record l { fence = (check now l.fence).1 })
  stopped : (l : RunLease) → Step l (stop l)
  release_begins : (w : Bool) (now : ℕ) (l : RunLease) → Step l (release_write w now l).1
  release_ends : (l : RunLease) → Step l (release_close l)

Step-IsArmed : (boot : ℕ) {l m : RunLease} → Step l m → IsArmed boot l → IsArmed boot m
unfolding start close
Step-IsArmed boot (started w now l) a =
    write-IsArmed boot w now (record l { held = true }) (IsArmed-fields boot l _ refl refl a)
Step-IsArmed boot (renewal newer w now l) a = renew-IsArmed boot newer w now l a
Step-IsArmed boot (set_to state turn w now l) a = set_lease-IsArmed boot state turn w now l a
Step-IsArmed boot (checked now l) a = fence-IsArmed boot l _ (check-Checks now l.fence) a
Step-IsArmed boot (stopped l) a = IsArmed-fields boot l _ refl refl a
Step-IsArmed boot (release_begins w now l) a = release_write-IsArmed boot w now l a
Step-IsArmed boot (release_ends l) a = record { armed = inl refl; reported = a.reported }

-- A lease whose fence was armed with the expiry found at boot.
abbrev pub booted : ℕ → ℕ → RunLease
booted boot ttl_ms = record {
  state = running;
  turn_id = none;
  held = false;
  ttl_ms = ttl_ms;
  fence = record {
    valid_until = boot;
    closed = false;
    violated = false;
    margin_ms = fence_margin_ms;
    reports = 0;
  };
  files = [];
  stops = 0;
}

pub data Reachable (boot ttl_ms : ℕ) : RunLease → Type 0 where
  boots : Reachable boot ttl_ms (booted boot ttl_ms)
  after : {l m : RunLease} → Reachable boot ttl_ms l → Step l m → Reachable boot ttl_ms m

pub Reachable-IsArmed : (boot ttl_ms : ℕ) {l : RunLease} → Reachable boot ttl_ms l → IsArmed boot l
Reachable-IsArmed boot ttl boots = record { armed = inr refl; reported = refl }
Reachable-IsArmed boot ttl (after r st) = Step-IsArmed boot st (Reachable-IsArmed boot ttl r)

-- After any calls on a lease, with a write of its file and the renewal of the fence after it as one step, and a
-- release as two, a write that the fence lets through comes more than the margin before the expiry of the last
-- lease written that was not written expired, or the one found at boot. This is the lease that others read,
-- unless a release has written one expired. And the callback on a violation was called once if there was a
-- violation, and not at all if there was none.
pub write_in_window :
    (boot ttl_ms now : ℕ) {l : RunLease} {u : Unit {0}} {g : Fence}
    → Reachable boot ttl_ms l
    → check now l.fence ≡ (ok u, g)
    → (now + l.fence.margin_ms < renewal_expiry boot l.files)
      × ((is_released l.files ≡ true) ⊎ (now + l.fence.margin_ms < expiry boot l.files))
      × (l.fence.reports ≡ (if l.fence.violated then 1 else 0))
write_in_window boot ttl now {l} reachable h =
    let a = Reachable-IsArmed boot ttl reachable in
    let (not_closed, lt) = check-ok now l.fence h in
    elim (a.armed) [
      | inl closed ↦ absurd (both closed not_closed)
      | inr e ↦
          let early : now + l.fence.margin_ms < renewal_expiry boot l.files = rw (← e) lt in
          (early, others early (renewal_expiry_lem boot l.files), a.reported)
    ]
  where
    both : {b : Bool} → b ≡ true → b ≡ false → ⊥
    both p q = cc

    others :
        now + l.fence.margin_ms < renewal_expiry boot l.files
        → (is_released l.files ≡ true) ⊎ (renewal_expiry boot l.files ≡ expiry boot l.files)
        → (is_released l.files ≡ true) ⊎ (now + l.fence.margin_ms < expiry boot l.files)
    others early (inl e) = inl e
    others early (inr e) = inr (rw (← e) early)
