-- ===== src/Processing/Policy.antt =====
-- internal/processing/policy.go: how a failed step is retried, and the steps' timeouts. Durations
-- are Go's int64 patterns (Base.Backoff); MaxAttempts below 1 retries nothing, as 0 does here.
pub mod Schedule
use katalog_manager.Base.{
  ℕ, zero, suc, ◌+◌, ◌-◌, ◌≤◌, ◌<◌, ◌^◌, Bool, true, false, ◌&&◌, Option, none, some, List, [], ◌∷◌,
  ltb, leb, if◌then◌else◌, get_elem?,
}
use katalog_manager.Base.Backoff.{doubled, lt_int64}
use katalog_manager.Processing.Vocab.{Step}

pub record Policy : Type 0 where
  pub max_attempts : ℕ
  pub backoff : ℕ
  pub backoff_max : ℕ
  -- Timeouts: a map from the steps, none where it has no entry.
  pub timeouts : Step → Option ℕ
  pub default_timeout : ℕ

-- A policy as the configuration reads it: positive durations, in order, of 146 years at most.
pub record IsValid (p : Policy) : Type 0 where
  pub positive : 0 < p.backoff
  pub ordered : p.backoff ≤ p.backoff_max
  pub bounded : p.backoff_max ≤ 2 ^ 62

-- Delay
unfoldable pub delay : Policy → ℕ → ℕ
delay p failures = doubled p.backoff p.backoff_max failures

-- Retries
unfoldable pub retries : Policy → ℕ → Bool
retries p failures = leb 1 failures && ltb failures p.max_attempts

-- for n := 1; p.Retries(n); n++ { out = append(out, p.Delay(n)) }, on fuel.
unfoldable pub delays_from : Policy → ℕ → ℕ → List ℕ
delays_from p zero n = []
delays_from p (suc fuel) n =
    let rest = delays_from p fuel (n + 1) in if retries p n then delay p n ∷ rest else []

-- delays; MaxAttempts rounds are enough (Processing.Policy.Schedule).
unfoldable pub delays : Policy → List ℕ
unfolding delays_from
delays p = delays_from p p.max_attempts 1

-- if d > 0, of int64 values.
abbrev positive_or : ℕ → ℕ → ℕ
positive_or d other = if lt_int64 0 d then d else other

-- Timeout
unfoldable pub timeout : Policy → Step → ℕ
timeout p s = elim (p.timeouts s) [
  | none ↦ p.default_timeout
  | some d ↦ positive_or d p.default_timeout
]

-- An array's element in SQL, by its index from 1; NULL outside.
abbrev pub sql_at : List ℕ → ℕ → Option ℕ
sql_at xs zero = none
sql_at xs (suc i) = get_elem? xs i
