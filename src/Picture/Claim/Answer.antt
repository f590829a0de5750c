-- ===== src/Picture/Claim/Answer.antt =====
-- What a claim answers: when titles are handed out, until when, and when to ask again.
use katalog_manager.Base.{
  ℕ, zero, suc, ◌+◌, ◌-◌, ◌*◌, ◌≤◌, ◌<◌, ◌≡◌, ◌⊎◌, refl, Bool, true, false, none, some, List, [],
  ◌∷◌, arith, min, max, length, any, leb, ltb, ◌==◌, Bool-cases, inl, inr,
}
use katalog_manager.Base.Text.{Text, trim_space}
use katalog_manager.Picture.Area.{clip}
use katalog_manager.Picture.Window.{Window, is_whole, contains, closes, next_time}
use katalog_manager.Picture.Window.Opening.{IsPart, closes-holds, next_time-bounds}
use katalog_manager.Picture.Settings.{Settings}
use katalog_manager.Picture.Settings.Sound.{IsSound, OfDay}
use katalog_manager.Picture.Backfill.{Entry, Title, fail, expire}
use katalog_manager.Picture.Candidates.{candidates}
use katalog_manager.Picture.Claim.{
  Catalog, Job, FileOf, at, missing, inflight, recent, hand_out, deadline_of, sooner, answer,
  claim_at_pace, claim, idle, nothing_to_measure, Claim, Why, none_left, nothing_found,
}
use katalog_manager.Picture.Claim.Cases.{room, looked_at, claim-cases, claim_at_pace-cases}
use katalog_manager.Picture.Claim.Pace.{FileOf-cases, hand_out-missing, hand_out-at, items-answer}

abbrev has_file : Catalog → Title → Bool
has_file c t = elim (c.file_of t) [ at path ↦ true | missing why ↦ false ]

abbrev some_at : FileOf → Bool
some_at (at path) = true
some_at (missing why) = false

-- Has one of the candidates a file?
abbrev pub any_file : Catalog → List Title → Bool
any_file c ts = any (λ t. some_at (c.file_of t)) ts

module _ (c : Catalog) (worker now : ℕ) (whole : Bool) (found : List Entry) where
  hand_out-some :
      (ts : List Title) (n : ℕ) (es : List Entry)
      → 1 ≤ n
      → any_file c ts ≡ true
      → 1 ≤ length (hand_out c worker now whole found ts n es).1
  hand_out-some [] n es h f = absurd (cc f)
  hand_out-some (t ∷ ts) zero es h f = absurd (omega arith)
  hand_out-some (t ∷ ts) (suc n) es h f = elim (FileOf-cases (c.file_of t)) [
    | inl (why, e) ↦
        let f' = rw e at f in
        rw (hand_out-missing c worker now whole found n t ts es why e)
          (hand_out-some ts (suc n) (fail t (nothing_to_measure why) now es) h f')
    | inr (path, e) ↦ rw (hand_out-at c worker now whole found n t ts es path e) (omega arith)
  ]

module _ (c : Catalog) (s : Settings) (worker limit : ℕ) (method : Text) (now : ℕ)
    (es : List Entry) where
  -- A claim hands out a title when the backfill is on, its window holds, there is room in flight and in
  -- the hour's rate once the leases that ended are expired, and one of the candidates that are looked
  -- at has a file.
  pub claim-progress :
      s.on ≡ true
      → contains s.window now ≡ true
      → inflight (expire c.late s.lease now es) < s.inflight
      → recent now (expire c.late s.lease now es) < s.rate
      → any_file c (looked_at c s limit method now (expire c.late s.lease now es)) ≡ true
      → 1 ≤ length (claim c s worker limit method now es).1.items
  unfolding claim claim_at_pace looked_at
  claim-progress on holds room rate file =
      let es' = expire c.late s.lease now es in
      let n = min (min (max limit 1) (s.inflight - inflight es')) (s.rate - recent now es') in
      let ts =
        candidates c.costs c.current (clip 32 (trim_space method)) now (n * 8) es' c.titles in
      let d = deadline_of s now in
      let out = hand_out-some c worker now d.1 es' ts n es' (omega arith) file in
      let items = items-answer ts d.0 (hand_out c worker now d.1 es' ts n es').1 in
      let a : leb s.inflight (inflight es') ≡ false = ground arith in
      let b : leb s.rate (recent now es') ≡ false = ground arith in
      let z : (s.rate == 0) ≡ false = ground arith in rw (on, holds, z, a, b, items) out

-- An answer hands out titles and says until when, or hands out none and says why, and when to ask again.
abbrev pub SaysWhen : ℕ → Claim → Type 0
SaysWhen deadline a =
    ((1 ≤ length a.items) × (a.deadline ≡ some deadline) × (a.idle_for ≡ none))
    ⊎ ((a.items ≡ [])
        × (a.deadline ≡ none)
        × ((why : Why) × (a.idle_for ≡ some why))
        × (1 ≤ a.retry_after))

answer-SaysWhen :
    (ts : List Title) (deadline : ℕ) (jobs : List Job) → SaysWhen deadline (answer ts deadline jobs)
unfolding idle
answer-SaysWhen [] deadline [] = inr (refl, refl, (none_left, refl), omega arith)
answer-SaysWhen (t ∷ ts) deadline [] = inr (refl, refl, (nothing_found, refl), omega arith)
answer-SaysWhen [] deadline (j ∷ jobs) = inl (omega arith, refl, refl)
answer-SaysWhen (t ∷ ts) deadline (j ∷ jobs) = inl (omega arith, refl, refl)

-- A time within the lease, until which the window holds.
abbrev HoldsUntil : Settings → ℕ → ℕ → Type 0
HoldsUntil s now d =
    (now < d) × (d ≤ now + s.lease) × ((u : ℕ) → now ≤ u → u < d → contains s.window u ≡ true)

-- An answer that hands out titles until a time within the lease, until which the window holds; or one
-- that hands out none, says why, and when to ask again, in a second at the soonest.
abbrev pub Answers : Settings → ℕ → Claim → Type 0
Answers s now a =
    ((1 ≤ length a.items) × ((d : ℕ) × (a.deadline ≡ some d) × HoldsUntil s now d))
    ⊎ ((a.items ≡ []) × ((why : Why) × (a.idle_for ≡ some why)) × (1 ≤ a.retry_after))

idle-Answers : (s : Settings) (now : ℕ) (why : Why) (after : ℕ) → Answers s now (idle why after)
unfolding idle
idle-Answers s now why after = inr (refl, (why, refl), omega arith)

contains-not_never : (w : Window) (t : ℕ) → contains w t ≡ true → w.never ≡ false
unfolding contains
contains-not_never w t h = ground arith

contains_whole : (w : Window) (t : ℕ) → w.never ≡ false → is_whole w ≡ true → contains w t ≡ true
unfolding contains
contains_whole w t n h = rw (n, h) refl

IsPart-of : (w : Window) → OfDay w → w.never ≡ false → is_whole w ≡ false → IsPart w
IsPart-of w (a, b) n h = record {
  is_set = ground arith;
  holds_some = n;
  differ = ground arith;
  start_in = a;
  end_in = b;
}

sooner-HoldsUntil :
    (s : Settings) (now c : ℕ)
    → now < c
    → 1 ≤ s.lease
    → ((u : ℕ) → now ≤ u → u < c → contains s.window u ≡ true)
    → HoldsUntil s now (sooner (some c) (now + s.lease)).0
sooner-HoldsUntil s now c a l h = elim (Bool-cases (ltb c (now + s.lease))) [
  | inl e ↦ rw e (a, ground arith, h)
  | inr e ↦ rw e (omega arith, omega arith, λ u p q. h u p (ground arith))
]

deadline-HoldsUntil :
    (s : Settings) (now : ℕ)
    → IsSound s
    → contains s.window now ≡ true
    → HoldsUntil s now (deadline_of s now).0
deadline-HoldsUntil s now p h =
    let w = s.window in
    let never = contains-not_never w now h in
    elim (Bool-cases (is_whole w)) [
      | inl e ↦
          let none_closes : closes w now ≡ none = unfold closes in rw (e) refl in
          unfold deadline_of in
          rw none_closes
            (omega (arith, p.lease_long), omega arith, λ u a b. contains_whole w u never e)
      | inr e ↦
          let part = IsPart-of w p.of_day never e in
          let c = next_time w.end now in
          let ends : closes w now ≡ some c = unfold closes in rw (e, never) refl in
          let (after, soon, _) = next_time-bounds w.end now part.end_in in
          unfold deadline_of in
          rw ends (
            sooner-HoldsUntil s now c after (omega (arith, p.lease_long))
              (λ u a b. (closes-holds w now u c part h ends a b).0))
    ]

module _ (c : Catalog) (s : Settings) (worker limit : ℕ) (method : Text) (now : ℕ) where
  Answers-of :
      (a : Claim)
      → HoldsUntil s now (deadline_of s now).0
      → SaysWhen (deadline_of s now).0 a
      → Answers s now a
  Answers-of a h (inl (some_out, until, e)) = inl (some_out, ((deadline_of s now).0, until, h))
  Answers-of a h (inr (none_out, e, why, after)) = inr (none_out, why, after)

  -- With settings that are sound, a claim hands out titles, with a deadline after now and within the
  -- lease, until which the window holds; or it hands out none, says why, and when to ask again: in a
  -- second at the soonest.
  pub claim-Answers :
      (es : List Entry) → IsSound s → Answers s now (claim c s worker limit method now es).1
  claim-Answers es p =
      claim-cases (λ r. Answers s now r.1) c s worker limit method now es
        (λ why after. idle-Answers s now why after)
        (λ holds.
          let es' = expire c.late s.lease now es in
          claim_at_pace-cases (λ r. Answers s now r.1) c s worker limit method now es'
            (λ why after. idle-Answers s now why after)
            (let ts = looked_at c s limit method now es' in
              let jobs =
                (hand_out c worker now (deadline_of s now).1 es' ts (room s limit now es') es').1 in
              Answers-of (answer ts (deadline_of s now).0 jobs) (deadline-HoldsUntil s now p holds)
                (answer-SaysWhen ts (deadline_of s now).0 jobs)))
