-- ===== src/Processing/Policy/Schedule.antt =====
-- The schedule that the step table is given (delays) is the policy (Retries, Delay).
use katalog_manager.Base.{
  ℕ, zero, suc, ◌+◌, ◌-◌, ◌≤◌, ◌<◌, min, ◌≡◌, refl, true, false, none, some, arith, get_elem?,
  Bool-cases, inl, inr, if◌then◌else◌,
}
use native.Mathlib.Nat.{add-zero}
use katalog_manager.Base.Backoff.{times_two, doubled_lem, times_two-suc, le-times_two}
use katalog_manager.Processing.Policy.{Policy, IsValid, delay, retries, delays_from, delays, sql_at}

pub retries-bounds : (p : Policy) (n : ℕ) → retries p n ≡ true → (1 ≤ n) × (n < p.max_attempts)
unfolding retries
retries-bounds p n h = ground arith

pub retries_of_bounds : (p : Policy) (n : ℕ) → 1 ≤ n → n < p.max_attempts → retries p n ≡ true
unfolding retries
retries_of_bounds p n h k = ground arith

retries_none : (p : Policy) (n : ℕ) → p.max_attempts ≤ n → retries p n ≡ false
unfolding retries
retries_none p n h = ground arith

delays_from_lem :
    (p : Policy) (fuel n i : ℕ)
    → p.max_attempts ≤ fuel + n
    → 1 ≤ n
    → get_elem? (delays_from p fuel n) i
      ≡ (if retries p (n + i) then some (delay p (n + i)) else none)
unfolding delays_from
delays_from_lem p zero n i h h1 = rw (retries_none p (n + i) (omega arith))
delays_from_lem p (suc fuel) n zero h h1 = rw add-zero (ground arith)
delays_from_lem p (suc fuel) n (suc i) h h1 = elim (Bool-cases (retries p n)) [
  | inl e ↦
      let next : n + 1 + i ≡ n + suc i = omega arith in
      rw e (rw next at (delays_from_lem p fuel (n + 1) i (omega arith) (omega arith)))
  | inr e ↦ rw (e, retries_none p (n + suc i) (ground (arith, retries_of_bounds p n)))
]

-- The array that the step table is given holds, for the n-th failure in a row, the wait of the
-- policy exactly when the policy retries that failure, and NULL otherwise.
pub sql_at-delays :
    (p : Policy) (n : ℕ) → sql_at (delays p) n ≡ (if retries p n then some (delay p n) else none)
unfolding delays
sql_at-delays p zero = unfold retries in refl
sql_at-delays p (suc n) =
    let next : 1 + n ≡ suc n = omega arith in
    rw next at (delays_from_lem p p.max_attempts 1 n (omega arith) (omega arith))

times_two_mono : (n d : ℕ) → times_two (n - 1) d ≤ times_two (suc n - 1) d
times_two_mono zero d = omega arith
times_two_mono (suc n) d =
    let here : suc n - 1 ≡ n = omega arith in
    let there : suc (suc n) - 1 ≡ suc n = omega arith in
    rw (here, there) (omega (arith, times_two-suc n d))

-- Under a valid policy the wait after the n-th failure is Backoff doubled n - 1 times, BackoffMax at
-- most: at least Backoff, never longer than BackoffMax, and never shorter than after one failure less.
pub delay-le-delay :
    (p : Policy) (n : ℕ)
    → IsValid p
    → (delay p n ≡ min (times_two (n - 1) p.backoff) p.backoff_max)
      × (p.backoff ≤ delay p n)
      × (delay p n ≤ p.backoff_max)
      × (delay p n ≤ delay p (suc n))
unfolding delay
delay-le-delay p n v =
    let now = doubled_lem p.backoff p.backoff_max n (omega arith) (omega arith) in
    let next = doubled_lem p.backoff p.backoff_max (suc n) (omega arith) (omega arith) in
    let low = le-times_two (n - 1) p.backoff in
    let step = times_two_mono n p.backoff in (now, omega arith, omega arith, omega arith)
