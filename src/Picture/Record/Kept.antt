-- ===== src/Picture/Record/Kept.antt =====
-- What a report leaves of an area, of the claim of its title and of its failures.
use katalog_manager.Base.{
  ℕ, ◌+◌, ◌-◌, ◌*◌, ◌≤◌, ◌≡◌, ◌≢◌, ◌⊎◌, refl, ap, ◌∙◌, Bool, true, false, ◌&&◌, Option, none, some,
  arith, is_some, Bool-cases, inl, inr, if◌then◌else◌,
}
use mathlib.Core.Path.{subst}
use katalog_manager.Base.Text.{Text, trim_space}
use katalog_manager.Base.Backoff.{doubled_lem, le-times_two}
use katalog_manager.Picture.Report.{
  Report, Rect, Size, AreaState, pending, measured, unknown, failed, Taken, leaves, release,
  refused, state, state_of, bad_frame, outside_frame,
}
use katalog_manager.Picture.Report.Frame.{state-state_of}
use katalog_manager.Picture.Area.{
  Area, File, owns, lapsed, owns_release, end_claim, release_area, width, height, backoff, hour,
}
use katalog_manager.Picture.Record.{
  keep_file, fail_area, measure_area, record_as, Named, kept, record_report, record_unless,
  record_kept, Refusal, same_kind, is_told, refusal,
}

abbrev pub is_measured : AreaState → Bool
is_measured measured = true
is_measured _ = false

abbrev pub has_reason : AreaState → Bool
has_reason unknown = true
has_reason failed = true
has_reason _ = false

-- An area that is measured has its frame and itself, and no reason; one that is not has no area; one
-- that is unknown or failed says why.
pub record IsWhole (k : Area) : Type 0 where
  pub area_measured : is_some k.area ≡ is_measured k.state
  pub frame_measured :
      is_measured k.state ≡ true → (is_some k.frame_width && is_some k.frame_height) ≡ true
  pub reason_measured : is_measured k.state ≡ true → is_some k.reason ≡ false
  pub reason_told : has_reason k.state ≡ true → is_some k.reason ≡ true

measured-frame :
    (f : Option Size) (a : Option Rect)
    → state_of f a ≡ leaves measured
    → (is_some a ≡ true) × (is_some (width f) ≡ true) × (is_some (height f) ≡ true)
unfolding state_of bad_frame outside_frame
measured-frame none a h = absurd (cc)
measured-frame (some f) none h = absurd (ground arith)
measured-frame (some f) (some a) h = ground arith

unknown-area : (f : Option Size) (a : Option Rect) → state_of f a ≡ leaves unknown → a ≡ none
unfolding state_of bad_frame outside_frame
unknown-area none a h = absurd (cc)
unknown-area (some f) none h = refl
unknown-area (some f) (some a) h = absurd (ground arith)

state-unknown : (r : Report) → state r ≡ leaves unknown → state_of r.frame r.area ≡ leaves unknown
unfolding state
state-unknown r h = ground arith

state-not_pending : (r : Report) → state r ≢ leaves pending
unfolding state state_of
state-not_pending r h = ground arith

module _ (sampling : Report → Option Text) (r : Report) (item : ℕ) (f : File) (now : ℕ) where
  fail_area-IsWhole :
      (current own lapse : Bool) (k : Area)
      → IsWhole k
      → IsWhole (fail_area sampling r item f now current own lapse k)
  unfolding fail_area end_claim keep_file
  fail_area-IsWhole current own lapse k w = ground arith

  measure_area-IsWhole :
      (own lapse : Bool) (s : AreaState) (k : Area)
      → (s ≡ measured) ⊎ (s ≡ unknown)
      → state r ≡ leaves s
      → IsWhole (measure_area sampling r item f now own lapse s k)
  unfolding measure_area end_claim keep_file
  measure_area-IsWhole own lapse s k (inl e) h =
      let found = measured-frame r.frame r.area (state-state_of r (h ∙ ap leaves e)) in
      rw e (ground arith)
  measure_area-IsWhole own lapse s k (inr e) h =
      let none_found = unknown-area r.frame r.area (state-unknown r (h ∙ ap leaves e)) in
      rw e (ground arith)

  release_area-IsWhole : (lease : ℕ) (k : Area) → IsWhole k → IsWhole (release_area lease now k)
  unfolding release_area
  release_area-IsWhole lease k w = record {
    area_measured = w.area_measured;
    frame_measured = w.frame_measured;
    reason_measured = w.reason_measured;
    reason_told = w.reason_told;
  }

  record_as-IsWhole :
      (lease : ℕ) (current : Bool) (t : Taken) (k : Area)
      → state r ≡ t
      → IsWhole k
      → IsWhole (record_as sampling lease r item f now current t k)
  unfolding record_as
  record_as-IsWhole lease current (refused why) k h w = w
  record_as-IsWhole lease current release k h w = elim (Bool-cases (owns_release r k)) [
    | inl e ↦ rw e (release_area-IsWhole lease k w)
    | inr e ↦ rw e w
  ]
  record_as-IsWhole lease current (leaves failed) k h w =
      fail_area-IsWhole current (owns (trim_space r.token) k) (lapsed (trim_space r.token) k) k w
  record_as-IsWhole lease current (leaves pending) k h w = absurd (state-not_pending r h)
  record_as-IsWhole lease current (leaves measured) k h w =
      measure_area-IsWhole (owns (trim_space r.token) k) (lapsed (trim_space r.token) k) measured k
        (inl refl) h
  record_as-IsWhole lease current (leaves unknown) k h w =
      measure_area-IsWhole (owns (trim_space r.token) k) (lapsed (trim_space r.token) k) unknown k
        (inr refl) h

module _ (sampling : Report → Option Text) (lease : ℕ) (n : Named) (r : Report) (now : ℕ)
    (k k' : Area) where
  record_kept_lem :
      record_kept sampling lease n r now k ≡ kept k'
      → record_as sampling lease r n.item n.file now n.current (state r) k ≡ k'
  unfolding record_kept
  record_kept_lem h = elim (Bool-cases (same_kind n.of_item k.of_item)) [
    | inl e ↦ (let same = rw e at h in cc same)
    | inr e ↦ absurd (let other = rw e at h in cc other)
  ]

  record_unless_lem :
      (o : Option Refusal)
      → record_unless sampling lease n r now o k ≡ kept k'
      → record_as sampling lease r n.item n.file now n.current (state r) k ≡ k'
  unfolding record_unless
  record_unless_lem none h = record_kept_lem h
  record_unless_lem (some why) h = absurd (cc h)

  -- A report that is kept did what it says to the row.
  record_report_lem :
      record_report sampling lease n r now (some k) ≡ kept k'
      → record_as sampling lease r n.item n.file now n.current (state r) k ≡ k'
  unfolding record_report
  record_report_lem h = record_unless_lem (refusal (state r) n) h

-- A report, whatever it says, leaves the area that is kept whole where it was: measured with its frame
-- and its area and no reason, or of no area, saying why when it is unknown or failed.
pub record_report-IsWhole :
    (sampling : Report → Option Text) (lease : ℕ) (n : Named) (r : Report) (now : ℕ) (k k' : Area)
    → IsWhole k
    → record_report sampling lease n r now (some k) ≡ kept k'
    → IsWhole k'
record_report-IsWhole sampling lease n r now k k' w h =
    subst IsWhole (record_report_lem sampling lease n r now k k' h)
      (record_as-IsWhole sampling r n.item n.file now lease n.current (state r) k refl w)

measure-claim :
    (sampling : Report → Option Text) (lease : ℕ) (r : Report) (item : ℕ) (f : File) (now : ℕ)
    (current : Bool) (s : AreaState) (k : Area)
    → let k' = record_as sampling lease r item f now current (leaves s) k in
      let own = owns (trim_space r.token) k in
      (k'.claimed_at ≡ (if own then none else k.claimed_at))
      × (k'.claim_token ≡ (if own then none else k.claim_token))
unfolding record_as measure_area fail_area keep_file end_claim
measure-claim sampling lease r item f now current measured k = (refl, refl)
measure-claim sampling lease r item f now current unknown k = (refl, refl)
measure-claim sampling lease r item f now current pending k = (refl, refl)
measure-claim sampling lease r item f now current failed k =
    let own = owns (trim_space r.token) k in ground arith

-- A report of a measurement or a failure ends the claim that it names, and that one alone: a title
-- whose claim is another's, or that the report names no claim of, stays claimed as it was.
pub record_report-claim :
    (sampling : Report → Option Text) (lease : ℕ) (n : Named) (r : Report) (now : ℕ) (s : AreaState)
    (k k' : Area)
    → state r ≡ leaves s
    → record_report sampling lease n r now (some k) ≡ kept k'
    → let own = owns (trim_space r.token) k in
      (k'.claimed_at ≡ (if own then none else k.claimed_at))
      × (k'.claim_token ≡ (if own then none else k.claim_token))
record_report-claim sampling lease n r now s k k' hs h =
    let made = rw hs at (record_report_lem sampling lease n r now k k' h) in
    rw (← made) (measure-claim sampling lease r n.item n.file now n.current s k)

backoff-bounds : (m : ℕ) → (hour ≤ backoff m) × (backoff m ≤ 7 * 24 * hour)
unfolding backoff
backoff-bounds m = omega (
  arith,
  doubled_lem hour (7 * 24 * hour) m (omega arith) (omega arith),
  le-times_two (m - 1) hour,
)

-- A failure of a measurement, reported of a title whose area is of what plays now, takes nothing of it
-- away: it counts, unless it was counted when its claim's lease ended, and the area, its state, its
-- reason and its next attempt stay.
pub record_report-failure :
    (sampling : Report → Option Text) (lease : ℕ) (n : Named) (r : Report) (now : ℕ) (k k' : Area)
    → state r ≡ leaves failed
    → n.current ≡ true
    → is_told k.state ≡ true
    → record_report sampling lease n r now (some k) ≡ kept k'
    → (k'.area ≡ k.area)
      × (k'.state ≡ k.state)
      × (k'.reason ≡ k.reason)
      × (k'.next_attempt ≡ k.next_attempt)
      × (k'.failures ≡ k.failures + (if lapsed (trim_space r.token) k then 0 else 1))
unfolding record_as fail_area end_claim
record_report-failure sampling lease n r now k k' hs c t h =
    let made = rw hs at (record_report_lem sampling lease n r now k k' h) in
    rw (← made) (ground arith)

-- A failure reported of any other title, not counted before, counts and waits from an hour to a week
-- from now.
pub record_report-backoff :
    (sampling : Report → Option Text) (lease : ℕ) (n : Named) (r : Report) (now : ℕ) (k k' : Area)
    → state r ≡ leaves failed
    → (n.current && is_told k.state) ≡ false
    → lapsed (trim_space r.token) k ≡ false
    → record_report sampling lease n r now (some k) ≡ kept k'
    → (k'.state ≡ failed)
      × (k'.area ≡ none)
      × (k'.failures ≡ k.failures + 1)
      × ((t : ℕ) × (k'.next_attempt ≡ some t) × (now + hour ≤ t) × (t ≤ now + 7 * 24 * hour))
unfolding record_as fail_area end_claim
record_report-backoff sampling lease n r now k k' hs c l h =
    let made = rw hs at (record_report_lem sampling lease n r now k k' h) in
    let (low, high) = backoff-bounds (k.failures + 1) in
    rw (← made) (
      rw (l, c)
        (refl, refl, refl, (now + backoff (k.failures + 1), refl, omega arith, omega arith)))
