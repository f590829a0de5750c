-- ===== src/Chapters/Record/Unreadable.antt =====
-- internal/chapters/chapters.go: when reads that failed make a title unreadable, however they are reported.
use katalog_manager.Base.{
  ℕ, ◌+◌, ◌*◌, ◌≤◌, ◌<◌, ◌≡◌, refl, ap, inl, inr, Bool, true, false, some, List, [], ◌∷◌, All,
  Bool-cases, ltb, ltb→lt, suc, zero, arith,
}
use katalog_manager.Base.Text.{Text}
use katalog_manager.Base.Backoff.{doubled, double_while}
use katalog_manager.Picture.Area.{hour}
use katalog_manager.Picture.Report.{lt_int32}
use katalog_manager.Chapters.Read.{
  ReadState, state_failed, state_unreadable, Read, backoff, end_claim, add_one,
}
use katalog_manager.Chapters.Record.{transient_failure}
use katalog_manager.Chapters.Record.Updates.{Call, failed, is_counted}
use katalog_manager.Chapters.Record.Failures.{
  Waits, failed_counted, failed_uncounted, is_counted_lem, failed_again, failed_next,
}

-- Reads that ran on the file and failed, one after the other.
pub fail_all : List (Call × Text) → Read → Read
fail_all [] k = k
fail_all ((c, why) ∷ rest) k = fail_all rest (failed c why k)

abbrev pub is_unreadable : ReadState → Bool
is_unreadable state_unreadable = true
is_unreadable _ = false

-- The backoffs of the first n failures, from t on.
due : ℕ → ℕ → ℕ
due t zero = t
due t (suc n) = due t n + backoff (suc n)

due-fifteen : (t : ℕ) → due t 4 ≡ t + 15 * hour
unfolding due backoff doubled double_while
due-fifteen t = omega arith

-- Nothing counted, or at most four failures, each after the backoff of the one before.
data Since (t : ℕ) (k : Read) : Type 0 where
  uncounted : k.failures ≡ 0 → is_unreadable k.state ≡ false → Since t k
  waits : (n : ℕ) → 1 ≤ n → n ≤ 4 → Waits (due t n) n k → Since t k

readable : (t : ℕ) (k : Read) → Since t k → is_unreadable k.state ≡ false
readable t k (uncounted f s) = s
readable t k (waits n low high w) = rw w.state refl

module _ (t : ℕ) (c : Call) (why : Text) (k : Read) (from : t ≤ c.now)
    (before : c.now < t + 15 * hour) where
  not_before :
      (at n : ℕ) → lt_int32 0 n ≡ true → is_counted c.now k ≡ false → Waits at n k → at ≤ c.now
  not_before at n p e w = elim (Bool-cases (ltb c.now at)) [
    | inl l ↦ let counted = is_counted_lem c why k at n p (ltb→lt c.now at l) w in cc (counted, e)
    | inr l ↦ ground (arith, l)
  ]

  fails_next :
      (n : ℕ)
      → 1 ≤ n
      → n ≤ 4
      → is_counted c.now k ≡ false
      → Waits (due t n) n k
      → due t n ≤ c.now
      → Since t (failed c why k)
  unfolding due
  fails_next n low high e w late = elim (Bool-cases (ltb n 4)) [
    | inl l ↦ waits (suc n) (omega arith) (omega (arith, ltb→lt n 4 l)) (
        failed_next c why k (due t n) (suc n) (ground (arith, l)) (rw w.counted (ground (arith, l)))
          e late)
    | inr l ↦
        let four : n ≡ 4 = ground (arith, l) in
        absurd (ground (arith, due-fifteen t, ap (due t) four))
  ]

  fails_first : k.failures ≡ 0 → Since t (failed c why k)
  unfolding due is_counted
  fails_first f =
      waits 1 (omega arith) (omega arith)
        (failed_next c why k t 1 (ground arith) (rw f (ground arith)) (rw f (ground arith)) from)

  failed-Since : Since t k → Since t (failed c why k)
  failed-Since (uncounted f s) = fails_first f
  failed-Since (waits n low high w) = elim (Bool-cases (is_counted c.now k)) [
    | inl e ↦ waits n low high (failed_again c why k (due t n) n e w)
    | inr e ↦ fails_next n low high e w (not_before (due t n) n (ground arith) e w)
  ]

counts :
    (c : Call) (k : Read) (next : ℕ)
    → lt_int32 0 k.failures ≡ true
    → k.state ≡ state_failed
    → k.next_attempt ≡ some next
    → c.now < next
    → is_counted c.now k ≡ true
unfolding is_counted
counts c k next p s e early = rw (p, s, e) (ground (arith, early))

counts_not :
    (c later : Call) (why : Text) (k : Read)
    → c.now + backoff (add_one k.transients) ≤ later.now
    → is_counted later.now (transient_failure c why k) ≡ false
unfolding is_counted transient_failure
counts_not c later why k late = ground (arith, late)

all-Since :
    (t : ℕ) (fs : List (Call × Text)) (k : Read)
    → All (λ f. (t ≤ f.0.now) × (f.0.now < t + 15 * hour)) fs
    → Since t k
    → Since t (fail_all fs k)
unfolding fail_all
all-Since t [] k a s = s
all-Since t ((c, why) ∷ fs) k ((from, before), a) s =
    all-Since t fs (failed c why k) a (failed-Since t c why k from before s)

-- Of a title that counts no failure and is readable, reads that fail on the file within fifteen hours,
-- however many and in whatever order they are reported, do not make it unreadable, where nothing else is
-- done to its row in between: no other report of it, transient or not, and no lease that ends.
pub fail_all-readable :
    (t : ℕ) (fs : List (Call × Text)) (k : Read)
    → k.failures ≡ 0
    → is_unreadable k.state ≡ false
    → All (λ f. (t ≤ f.0.now) × (f.0.now < t + 15 * hour)) fs
    → is_unreadable (fail_all fs k).state ≡ false
fail_all-readable t fs k f s a = readable t (fail_all fs k) (all-Since t fs k a (uncounted f s))

-- A failure of the storage or the worker in between can bring the next failure forward: where its own
-- backoff ends before that of the failure counted last, a read that fails after it and before that counts
-- one more, which without it counts none.
pub transient_failure-counts :
    (c later : Call) (why transient_why : Text) (k : Read) (next : ℕ)
    → lt_int32 0 k.failures ≡ true
    → k.state ≡ state_failed
    → k.next_attempt ≡ some next
    → c.now + backoff (add_one k.transients) ≤ later.now
    → later.now < next
    → ((failed later why k).failures ≡ k.failures)
      × ((failed later why (transient_failure c transient_why k)).failures ≡ add_one k.failures)
unfolding transient_failure end_claim
transient_failure-counts c later why transient_why k next p s e late early =
    let k' = transient_failure c transient_why k in
    (
      (failed_counted later why k (counts later k next p s e early)).0,
      (failed_uncounted later why k' (counts_not c later transient_why k late)).0,
    )
