-- ===== src/Base/Backoff.antt =====
-- The wait that doubles: the loop that Policy.Delay (internal/processing/policy.go) and doubled
-- (internal/picture/picture.go) share, over Go's int64 durations. A duration is its 64-bit pattern,
-- so a doubling that overflows wraps as Go's does, and the order is the signed one.
use Prim.Native.Nat.{ℕ, zero, suc, ◌+◌, ◌-◌, ◌*◌, ◌%◌, ◌^◌, ◌≤◌, ◌<◌, min}
use mathlib.Core.Path.{◌≡◌, refl}
use mathlib.Core.Bool.{Bool}
use native.Mathlib.Omega.{arith}
use katalog_manager.Base.Tests.{ltb, if◌then◌else◌}

abbrev pub int64_mod : ℕ
int64_mod = 2 ^ 64

-- a < b of two int64 values.
abbrev pub lt_int64 : ℕ → ℕ → Bool
lt_int64 a b = ltb ((a + 2 ^ 63) % int64_mod) ((b + 2 ^ 63) % int64_mod)

-- for i := 1; i < n && d < most; i++ { d *= 2 }, with the rounds i still has.
unfoldable pub double_while : ℕ → ℕ → ℕ → ℕ
double_while zero d most = d
double_while (suc rounds) d most =
    let rest = double_while rounds (d * 2 % int64_mod) most in if lt_int64 d most then rest else d

-- The loop for the n-th failure (n - 1 rounds, none for n = 0), then min(d, most).
unfoldable pub doubled : ℕ → ℕ → ℕ → ℕ
doubled first most n =
    let d = double_while (n - 1) first most in if lt_int64 d most then d else most

-- The plain backoff: doubled at each round with no bound on the way, and cut at the end.
unfoldable pub times_two : ℕ → ℕ → ℕ
times_two zero d = d
times_two (suc n) d = times_two n (d * 2)

pub le-times_two : (n d : ℕ) → d ≤ times_two n d
unfolding times_two
le-times_two zero d = omega arith
le-times_two (suc n) d = omega (arith, le-times_two n (d * 2))

double_while_lem :
    (n d most : ℕ)
    → most ≤ 2 ^ 62
    → d < 2 ^ 63
    → (min (double_while n d most) most ≡ min (times_two n d) most)
      × (double_while n d most < 2 ^ 63)
unfolding double_while times_two
double_while_lem zero d most hm hd = (refl, hd)
double_while_lem (suc n) d most hm hd =
    ground (arith, double_while_lem n (d * 2 % int64_mod) most, le-times_two n (d * 2))

-- With a longest wait of at most 2^62 (146 years in nanoseconds) nothing overflows, and the loop is
-- the plain backoff.
pub doubled_lem :
    (first most n : ℕ)
    → first < 2 ^ 63
    → most ≤ 2 ^ 62
    → doubled first most n ≡ min (times_two (n - 1) first) most
unfolding doubled
doubled_lem first most n hf hm = ground (arith, double_while_lem (n - 1) first most)

pub times_two-suc : (n d : ℕ) → times_two (suc n) d ≡ times_two n d * 2
unfolding times_two
times_two-suc zero d = refl
times_two-suc (suc n) d = times_two-suc n (d * 2)
