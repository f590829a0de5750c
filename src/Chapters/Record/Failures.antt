-- ===== src/Chapters/Record/Failures.antt =====
-- internal/chapters/chapters.go: when reads that failed make a title unreadable, and what stands after one.
use katalog_manager.Base.{
  ℕ, ◌+◌, ◌≤◌, ◌<◌, ◌≡◌, refl, ap, ◌∙◌, inl, inr, Bool, true, false, ◌||◌, Option, some, [],
  Bool-cases, arith,
}
use katalog_manager.Base.Text.{Text, trim_space}
use katalog_manager.Picture.Report.{lt_int32}
use katalog_manager.Chapters.Title.{has_chapters}
use katalog_manager.Chapters.Read.{
  state_failed, Read, Kept, backoff, of_source, failure, end_claim, add_one, settles, held_of,
}
use katalog_manager.Chapters.Take.{RecordRead}
use katalog_manager.Chapters.Report.{Report, state, leaves}
use katalog_manager.Chapters.Record.Claims.{is_stale, is_newer}
use katalog_manager.Chapters.Record.{record_failure, record_kept, record_as, call_of}
use katalog_manager.Chapters.Record.Updates.{Call, only, failed, is_counted}

-- n failures are counted, and the next attempt is not before at.
pub record Waits (at n : ℕ) (k : Read) : Type 0 where
  pub counted : k.failures ≡ n
  pub state : k.state ≡ state_failed
  pub next : ℕ
  pub set : k.next_attempt ≡ some next
  pub late : at ≤ next

failure-early :
    (m : ℕ) (why : Text) (now : ℕ)
    → lt_int32 m 5 ≡ true
    → ((failure m why now).0 ≡ state_failed) × ((failure m why now).1 ≡ now + backoff m)
unfolding failure
failure-early m why now p = rw p (refl, refl)

module _ (c : Call) (why : Text) (k : Read) where
  pub failed_counted :
      is_counted c.now k ≡ true
      → ((failed c why k).failures ≡ k.failures)
        × ((failed c why k).state ≡ k.state)
        × ((failed c why k).next_attempt ≡ k.next_attempt)
  unfolding failed end_claim
  failed_counted e = rw e (refl, refl, refl)

  pub failed_uncounted :
      is_counted c.now k ≡ false
      → ((failed c why k).failures ≡ add_one k.failures)
        × ((failed c why k).state ≡ (failure (add_one k.failures) why c.now).0)
        × ((failed c why k).next_attempt ≡ some (failure (add_one k.failures) why c.now).1)
  unfolding failed end_claim
  failed_uncounted e = rw e (refl, refl, refl)

  pub is_counted_lem :
      (at n : ℕ) → lt_int32 0 n ≡ true → c.now < at → Waits at n k → is_counted c.now k ≡ true
  unfolding is_counted
  is_counted_lem at n p early w = rw (w.counted, w.state, w.set) (ground (arith, p, early, w.late))

  pub failed_again :
      (at n : ℕ) → is_counted c.now k ≡ true → Waits at n k → Waits at n (failed c why k)
  failed_again at n e w =
      let (f, s, x) = failed_counted e in
      record {
        counted = f ∙ w.counted;
        state = s ∙ w.state;
        next = w.next;
        set = x ∙ w.set;
        late = w.late;
      }

  pub failed_next :
      (at m : ℕ)
      → lt_int32 m 5 ≡ true
      → add_one k.failures ≡ m
      → is_counted c.now k ≡ false
      → at ≤ c.now
      → Waits (at + backoff m) m (failed c why k)
  failed_next at m p e not_counted late =
      let (f, s, x) = failed_uncounted not_counted in
      let (early, wait) = failure-early m why c.now p in
      record {
        counted = f ∙ e;
        state = s ∙ (ap (λ (n : ℕ). (failure n why c.now).0) e ∙ early);
        next = c.now + backoff m;
        set = x ∙ ap some (ap (λ (n : ℕ). (failure n why c.now).1) e ∙ wait);
        late = omega (arith, late);
      }

-- A read that failed of a title that is settled, or held, of that original only ends its claim.
failure-only :
    (c : Call) (r : Report) (newer : Bool) (k : Kept)
    → (settles k.row c.source (has_chapters k.chapters) || held_of k.row c.source) ≡ true
    → (why : Text) × (record_failure c r newer k ≡ only c why k.row)
unfolding record_failure
failure-only c r newer k h = elim (Bool-cases c.lapse) [
  | inl l ↦ (trim_space r.read.error, ground (arith, l))
  | inr l ↦ ([], ground (arith, l, h))
]

-- What a read settled, or holds for an admin, is as it was.
pub record Stands (source : Option ℕ) (chapters : Bool) (k after : Read) : Type 0 where
  pub state : after.state ≡ k.state
  pub failures : after.failures ≡ k.failures
  pub next : after.next_attempt ≡ k.next_attempt
  pub settled : settles after source chapters ≡ settles k source chapters
  pub held : held_of after source ≡ held_of k source

only-Stands :
    (c : Call) (why : Text) (chapters : Bool) (k : Read) → Stands c.source chapters k (only c why k)
unfolding only end_claim settles held_of of_source
only-Stands c why chapters k = record {
  state = refl;
  failures = refl;
  next = refl;
  settled = refl;
  held = refl;
}

record_failure-Stands :
    (c : Call) (r : Report) (newer : Bool) (k : Kept)
    → (settles k.row c.source (has_chapters k.chapters) || held_of k.row c.source) ≡ true
    → Stands c.source (has_chapters k.chapters) k.row (record_failure c r newer k)
record_failure-Stands c r newer k h =
    let (why, e) = failure-only c r newer k h in
    rw e (only-Stands c why (has_chapters k.chapters) k.row)

-- A report of a read that failed leaves the title's chapters as they are; and where a read of the same
-- original has settled the title, or holds it for an admin, its state, its failures and its next attempt
-- stay too, and it stays settled, or held.
pub record_kept-Stands :
    (r : Report) (source : Option ℕ × Option ℕ) (rec : Option RecordRead) (said : Option Bool)
    (now : ℕ) (k : Kept)
    → state r ≡ leaves state_failed
    → let after = record_kept r source rec said now k in
      let chapters = has_chapters k.chapters in
      (after.chapters ≡ k.chapters)
      × ((settles k.row source.0 chapters || held_of k.row source.0) ≡ true
          → Stands source.0 chapters k.row after.row)
unfolding record_kept record_as call_of
record_kept-Stands r source rec said now k e =
    let token = trim_space r.token in
    elim (Bool-cases (is_stale token k.row)) [
      | inl s ↦ rw s (
        refl,
        λ h. record { state = refl; failures = refl; next = refl; settled = refl; held = refl },
      )
      | inr s ↦ rw s (
          rw e
            (refl, record_failure-Stands (call_of r source now k.row) r (is_newer token k.row) k))
    ]
