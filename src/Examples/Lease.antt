-- ===== src/Examples/Lease.antt =====
-- The theorem on leases, at a run that was started.
use l4_ide.Prelude.{◌⊎◌, ◌+◌, ◌<◌, true, ◌≡◌, refl, if◌then◌else◌, ok}
use l4_ide.Lease.{RunLease, check, start, release_write}
use l4_ide.Lease.Window.{
  renewal_expiry, is_released, expiry, booted, boots, after, started, write_in_window,
}

-- A run found a lease until 200000 and wrote its own at 1000, for 90000.
abbrev begun : RunLease
begun = (start true 1000 (booted 200000 90000)).1

begun_checked : check 50000 begun.fence ≡ (ok tt, begun.fence)
unfolding check start
begun_checked = refl

-- Between the two parts of a release, others read a lease that has run out, and the fence lets writes through.
abbrev releasing : RunLease
releasing = (release_write true 50000 begun).1

releasing_checked :
    (check 50001 releasing.fence ≡ (ok tt, releasing.fence))
    × (expiry 200000 releasing.files ≡ 50000)
unfolding check start release_write
releasing_checked = (refl, refl)

write_in_window_example :
    (50000 + begun.fence.margin_ms < renewal_expiry 200000 begun.files)
    × ((is_released begun.files ≡ true)
        ⊎ (50000 + begun.fence.margin_ms < expiry 200000 begun.files))
    × (begun.fence.reports ≡ (if begun.fence.violated then 1 else 0))
write_in_window_example =
    write_in_window 200000 90000 50000 (after boots (started true 1000 (booted 200000 90000)))
      begun_checked
