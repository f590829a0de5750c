-- ===== src/Picture/Claim/Free.antt =====
-- The titles that are handed out: free ones, of which each is then under a claim of the worker's.
use katalog_manager.Base.{
  ℕ, zero, suc, ◌+◌, ◌-◌, ◌*◌, ◌≤◌, ◌≡◌, refl, Bool, true, false, ◌&&◌, Option, none, some, List,
  [], ◌∷◌, arith, All, ◌==◌, is_some, Bool-cases, inl, inr,
}
use katalog_manager.Base.Choice.{All-choose}
use katalog_manager.Base.Backoff.{doubled_lem, le-times_two}
use katalog_manager.Base.Text.{Text, trim_space}
use katalog_manager.Picture.Area.{clip, backoff, hour}
use katalog_manager.Picture.Settings.{Settings}
use katalog_manager.Picture.Backfill.{
  Entry, Title, fail, claim_title, expire, expire_entry, lapse, find_entry, has_ended,
}
use katalog_manager.Picture.Candidates.{candidates, may_go, is_past, is_candidate, goes_before}
use katalog_manager.Picture.Claim.{
  Catalog, hand_out, deadline_of, claim, idle, nothing_to_measure, Claim,
}
use katalog_manager.Picture.Claim.Cases.{room, looked_at, claim-cases, claim_at_pace-cases}
use katalog_manager.Picture.Claim.Pace.{FileOf-cases, hand_out-missing, hand_out-at, items-answer}

-- The row of a title that is free: under no claim, and not waiting.
abbrev pub IsFree : ℕ → Option Entry → Type 0
IsFree now none = Unit
IsFree now (some e) = (e.area.claimed_at ≡ none) × (is_past now e.area.next_attempt ≡ true)

le-backoff : (failures : ℕ) → hour ≤ backoff failures
unfolding backoff
le-backoff failures =
    rw (doubled_lem hour (7 * 24 * hour) failures (omega arith) (omega arith))
      (omega (arith, le-times_two (failures - 1) hour))

none_of-not : {A : Type 0} (o : Option A) → is_some o ≡ false → o ≡ none
none_of-not none h = refl
none_of-not (some a) h = absurd (cc h)

IsFree-of : (now : ℕ) (o : Option Entry) → may_go now o ≡ true → IsFree now o
IsFree-of now none h = tt
IsFree-of now (some e) h = (none_of-not e.area.claimed_at (ground arith), ground arith)

-- A claim whose lease has just ended waits: its title does not go.
lapse-waits :
    (late : ℕ → Text) (lease now : ℕ) (e : Entry)
    → may_go now (some (record e { area = lapse late lease now e.area })) ≡ false
unfolding lapse
lapse-waits late lease now e = let wait = le-backoff (e.area.failures + 1) in ground arith

expire_entry-id :
    (late : ℕ → Text) (lease now : ℕ) (e : Entry) → (expire_entry late lease now e).id ≡ e.id
expire_entry-id late lease now e = ground arith

expire_entry-IsFree :
    (late : ℕ → Text) (lease now : ℕ) (e : Entry)
    → may_go now (some (expire_entry late lease now e)) ≡ true
    → IsFree now (some e)
expire_entry-IsFree late lease now e h = elim (Bool-cases (has_ended lease now e.area.claimed_at)) [
  | inl q ↦ let h' = rw q at h in let no = lapse-waits late lease now e in absurd (cc (h', no))
  | inr q ↦ let h' = rw q at h in IsFree-of now (some e) h'
]

find_entry-expire :
    (late : ℕ → Text) (lease now id : ℕ) (es : List Entry)
    → may_go now (find_entry id (expire late lease now es)) ≡ true
    → IsFree now (find_entry id es)
unfolding expire
find_entry-expire late lease now id [] h = tt
find_entry-expire late lease now id (e ∷ es) h =
    let h' = rw (expire_entry-id late lease now e) at h in
    elim (Bool-cases (e.id == id)) [
      | inl q ↦ (let h'' = rw q at h' in rw q (expire_entry-IsFree late lease now e h''))
      | inr q ↦ (let h'' = rw q at h' in rw q (find_entry-expire late lease now id es h''))
    ]

and-right : (a b : Bool) → a && b ≡ true → b ≡ true
and-right true b h = h
and-right false b h = absurd (cc h)

All-of {ℓ κ} : {A : Type ℓ} {P : A → Type κ} (xs : List A) → ((x : A) → P x) → All P xs
All-of [] h = tt
All-of (x ∷ xs) h = (h x, All-of xs h)

module _ {κ} (P : ℕ → Type κ) (c : Catalog) (worker now : ℕ) (whole : Bool)
    (found : List Entry) where
  All-hand_out :
      (ts : List Title) (n : ℕ) (es : List Entry)
      → All (λ t. P t.id) ts
      → All (λ j. P j.id) (hand_out c worker now whole found ts n es).1
  All-hand_out [] n es a = unfold hand_out in tt
  All-hand_out (t ∷ ts) zero es a = unfold hand_out in tt
  All-hand_out (t ∷ ts) (suc n) es a = elim (FileOf-cases (c.file_of t)) [
    | inl (why, e) ↦
        rw (hand_out-missing c worker now whole found n t ts es why e)
          (All-hand_out ts (suc n) (fail t (nothing_to_measure why) now es) a.1)
    | inr (path, e) ↦
        rw (hand_out-at c worker now whole found n t ts es path e)
          (a.0, All-hand_out ts n (claim_title t worker (c.token t) now es) a.1)
  ]

module _ (c : Catalog) (s : Settings) (worker limit : ℕ) (method : Text) (now : ℕ) where
  candidate-IsFree :
      (es : List Entry) (m : Text) (t : Title)
      → is_candidate c.current m now (expire c.late s.lease now es) t ≡ true
      → IsFree now (find_entry t.id es)
  unfolding is_candidate
  candidate-IsFree es m t h =
      find_entry-expire c.late s.lease now t.id es
        (and-right _ (may_go now (find_entry t.id (expire c.late s.lease now es))) h)

  candidates-IsFree :
      (n : ℕ) (es : List Entry) (m : Text) (ts : List Title)
      → All
          (λ t. IsFree now (find_entry t.id es))
          (candidates c.costs c.current m now n (expire c.late s.lease now es) ts)
  unfolding candidates
  candidates-IsFree n es m ts =
      let es' = expire c.late s.lease now es in
      All-choose (λ t. IsFree now (find_entry t.id es)) (goes_before c.costs m es') n
        (is_candidate c.current m now es') ts (All-of ts (candidate-IsFree es m))

  -- A title that is handed out was under no claim before, not even one whose lease had just ended, and
  -- was not waiting out a failure or a release.
  pub claim-IsFree :
      (es : List Entry)
      → All (λ j. IsFree now (find_entry j.id es)) (claim c s worker limit method now es).1.items
  claim-IsFree es =
      let P = λ (r : List Entry × Claim). All (λ j. IsFree now (find_entry j.id es)) r.1.items in
      let es' = expire c.late s.lease now es in
      let ts = looked_at c s limit method now es' in
      let n = room s limit now es' in
      let d = deadline_of s now in
      claim-cases P c s worker limit method now es (λ why after. unfold idle in tt)
        (λ holds.
          claim_at_pace-cases P c s worker limit method now es' (λ why after. unfold idle in tt)
            (rw (items-answer ts d.0 (hand_out c worker now d.1 es' ts n es').1) (
              All-hand_out (λ i. IsFree now (find_entry i es)) c worker now d.1 es' ts n es'
                (unfold looked_at in
                  candidates-IsFree (n * 8) es (clip 32 (trim_space method)) c.titles))))
