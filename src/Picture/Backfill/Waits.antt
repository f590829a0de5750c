-- ===== src/Picture/Backfill/Waits.antt =====
-- The wait of a failure as fail's statement computes it, and as Go does.
use native.Mathlib.Nat.{pow-suc, pow-le-pow_right}
use katalog_manager.Base.{
  ℕ, zero, suc, ◌+◌, ◌-◌, ◌*◌, ◌^◌, ◌≤◌, ◌≡◌, refl, arith, min, leb, Bool-cases, inl, inr,
}
use katalog_manager.Base.Backoff.{doubled_lem, times_two, times_two-suc}
use katalog_manager.Picture.Area.{backoff, hour}
use katalog_manager.Picture.Backfill.{sql_wait}

times_two-hour : (n : ℕ) → times_two n hour ≡ hour * 2 ^ n
times_two-hour zero = unfold times_two in refl
times_two-hour (suc n) = omega (arith, times_two-hour n, times_two-suc n hour, pow-suc 2 n)

-- The wait that the statement of fail computes after a title's failures, a power of two cut at both
-- ends, is the wait of the failure that follows them as Go's loop computes it.
pub sql_wait-backoff : (failures : ℕ) → sql_wait failures ≡ backoff (failures + 1)
unfolding sql_wait backoff
sql_wait-backoff failures =
    let at : failures + 1 - 1 ≡ failures = omega arith in
    rw (doubled_lem hour (7 * 24 * hour) (failures + 1) (omega arith) (omega arith))
      (elim (Bool-cases (leb failures 30)) [
        | inl few ↦
            let same : min failures 30 ≡ failures = ground arith in
            rw (same, at, times_two-hour failures) (ground arith)
        | inr many ↦
            let same : min failures 30 ≡ 30 = ground arith in
            let big : 2 ^ 30 ≤ 2 ^ failures =
              pow-le-pow_right (omega arith) {i = 30} {j = failures} (ground arith) in
            rw (same, at, times_two-hour failures) (ground arith)
      ])
