-- ===== src/Chapters/HandOut/Ready.antt =====
-- internal/chapters/backfill.go: which titles a hand-out may hand out.
use mathlib.Core.Path.{subst}
use katalog_manager.Base.{
  ℕ, zero, suc, ◌≡◌, ◌++◌, ◌||◌, refl, Bool, true, false, Option, none, some, List, [], ◌∷◌, arith,
  ◌+◌, ◌-◌, ◌*◌, All, min, max, Bool-cases, inl, inr, ◌==◌, leb, is_some,
}
use katalog_manager.Base.Text.{Text, codes}
use katalog_manager.Base.Choice.{All-choose}
use katalog_manager.Picture.Window.{closes}
use katalog_manager.Chapters.Read.{Read, is_held, same_source}
use katalog_manager.Chapters.HandOut.{
  Settings, Entry, Tables, Missing, Look, at, Job, find_read, row_allows, is_ready, is_due,
  is_unreadable, waiting, goes_before, look_for, give, pass_over, job_of, expire,
}
use katalog_manager.Chapters.HandOut.Turn.{
  Catalog, hand_out, hand_out_at, hand_out_n, renewed, sooner, inflight, recent, jobs_of,
}
use katalog_manager.Chapters.HandOut.Pace.{
  Look-cases, jobs_of-answer, look_for-slow, look_for-unread, look_for-absent, look_for-at,
}

-- A row of which a title of a source may be handed out.
pub record MayRead (any : Bool) (now source : ℕ) (r : Read) : Type 0 where
  pub unclaimed : r.claimed_at ≡ none
  pub due : is_due now r.next_attempt ≡ true
  pub readable : is_unreadable r.state ≡ false
  pub not_held : is_held r.state ≡ true → same_source r.source (some source) ≡ false
  pub record_read : any ≡ false → same_source r.record_source (some source) ≡ true

is_some-none : {A : Type 0} (o : Option A) → is_some o ≡ false → o ≡ none
is_some-none none e = refl
is_some-none (some a) e = ground arith

row_allows-MayRead :
    (any : Bool) (now source : ℕ) (r : Read)
    → row_allows any now source (some r) ≡ true
    → MayRead any now source r
row_allows-MayRead any now source r h = record {
  unclaimed = is_some-none r.claimed_at (ground arith);
  due = ground arith;
  readable = ground arith;
  not_held = λ e. ground arith;
  record_read = λ e. ground arith;
}

-- A title of the catalog, at the file that was found, and what its row allows, if it has one.
pub record IsReady (look : Missing → Look) (any : Bool) (now : ℕ) (es : List Entry) (j : Job)
    : Type 0 where
  pub title : Missing
  pub same : (j.id ≡ title.id) × (j.source ≡ title.source)
  pub found : look title ≡ at j.path
  pub allowed : (r : Read) → find_read j.id es ≡ some r → MayRead any now j.source r
  pub unread : find_read j.id es ≡ none → any ≡ true

module _ (any : Bool) (now : ℕ) (es : List Entry) (look : Missing → Look) where
  job_of-IsReady :
      (t : Missing) (path token : Text)
      → is_ready any now es t ≡ true
      → look t ≡ at path
      → IsReady look any now es (job_of t path token)
  unfolding is_ready
  job_of-IsReady t path token h found = record {
    title = t;
    same = (refl, refl);
    found = found;
    allowed = λ r e.
        row_allows-MayRead any now t.source r
          (subst (λ o. row_allows any now t.source o ≡ true) e h);
    unread = λ e. subst (λ o. row_allows any now t.source o ≡ true) e h;
  }

  look_for-IsReady :
      (token : Missing → Text) (worker : Text) (cs : List Missing) (n : ℕ) (ts : Tables)
      → All (λ t. is_ready any now es t ≡ true) cs
      → All (IsReady look any now es) (look_for look token worker now cs n ts).jobs
  look_for-IsReady token worker [] n ts a = unfold look_for in tt
  look_for-IsReady token worker (t ∷ cs) zero ts a = unfold look_for in tt
  look_for-IsReady token worker (t ∷ cs) (suc n) ts a = elim (Look-cases (look t)) [
    | inl (why, e) ↦ rw (look_for-slow look token worker now t cs n ts why e) tt
    | inr (inl (why, e)) ↦ rw (look_for-unread look token worker now t cs n ts why e) tt
    | inr (inr (inl (why, e))) ↦ rw (look_for-absent look token worker now t cs n ts why e) (
        look_for-IsReady token worker cs (suc n)
          (pass_over t (codes "nothing to read: " ++ why) now ts) a.1)
    | inr (inr (inr (path, e))) ↦ rw (look_for-at look token worker now t cs n ts path e) (
      job_of-IsReady t path (token t) a.0 e,
      look_for-IsReady token worker cs n (give t worker (token t) now ts) a.1,
    )
  ]

All-self : {A : Type 0} (p : A → Bool) (xs : List A) → All (λ x. p x ≡ true → p x ≡ true) xs
All-self p [] = tt
All-self p (x ∷ xs) = (λ e. e, All-self p xs)

waiting-is_ready :
    (any : Bool) (now n : ℕ) (es : List Entry) (ts : List Missing)
    → All (λ t. is_ready any now es t ≡ true) (waiting any now n es ts)
unfolding waiting
waiting-is_ready any now n es ts =
    All-choose (λ t. is_ready any now es t ≡ true) goes_before n (is_ready any now es) ts
      (All-self (is_ready any now es) ts)

module _ (c : Catalog) (s : Settings) (worker : Text) (limit now : ℕ) where
  hand_out_n-IsReady :
      (n : ℕ) (ts : Tables)
      → All
          (IsReady c.look (s.records == 0) now ts.reads)
          (jobs_of (hand_out_n c s worker n now ts).1)
  unfolding hand_out_n
  hand_out_n-IsReady n ts =
      let any = s.records == 0 in
      let cs = waiting any now (n * 8) ts.reads c.titles in
      let o = look_for c.look c.token worker now cs n ts in
      let same =
        jobs_of-answer (c.stalled || o.unanswered) c.missing cs
          (sooner (closes s.window now) (now + s.lease)) o.jobs in
      rw same (
        look_for-IsReady any now ts.reads c.look c.token worker cs n ts
          (waiting-is_ready any now (n * 8) ts.reads c.titles))

  hand_out_at-IsReady :
      (ts : Tables)
      → All
          (IsReady c.look (s.records == 0) now ts.reads)
          (jobs_of (hand_out_at c s worker limit now ts).1)
  unfolding hand_out_at
  hand_out_at-IsReady ts = elim (Bool-cases (leb s.inflight (inflight ts))) [
    | inl e ↦ rw e tt
    | inr e ↦ rw e (elim (Bool-cases (leb s.rate (recent now ts))) [
      | inl f ↦ rw f tt
      | inr f ↦ rw f (
          hand_out_n-IsReady
            (min (min (max limit 1) (s.inflight - inflight ts)) (s.rate - recent now ts)) ts)
    ])
  ]

  -- Each title that is handed out is at the file that its look found, and by its row, once the leases
  -- that ended are expired, no run holds it, no backoff is left, it is not unreadable or held of this
  -- original, and its original's record was read, unless the catalog reads none. Only then is a title
  -- without a row handed out.
  pub hand_out-IsReady :
      (ts : Tables)
      → All
          (IsReady c.look (s.records == 0) now (expire c.lost s.lease now ts.reads))
          (jobs_of (hand_out c s worker limit now ts).1)
  unfolding hand_out
  hand_out-IsReady ts = elim (Bool-cases (s.rate == 0)) [
    | inl e ↦ rw e tt
    | inr e ↦ rw e (hand_out_at-IsReady (renewed c s now ts))
  ]
