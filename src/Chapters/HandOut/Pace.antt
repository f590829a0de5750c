-- ===== src/Chapters/HandOut/Pace.antt =====
-- internal/chapters/backfill.go: how many titles a hand-out leaves in flight, and how many it hands out.
use katalog_manager.Base.{
  ℕ, zero, suc, ◌+◌, ◌-◌, ◌*◌, ◌≤◌, ◌≡◌, ◌||◌, ◌⊎◌, ◌++◌, refl, Bool, true, false, List, [], ◌∷◌,
  arith, min, max, count, keep, length, inl, inr, ◌==◌,
}
use katalog_manager.Base.Text.{Text, codes}
use katalog_manager.Picture.Window.{closes}
use katalog_manager.Chapters.Read.{Read, new_read}
use katalog_manager.Chapters.Waits.{expire_row, transient_row, hand_out_row}
use katalog_manager.Chapters.HandOut.{
  Settings, Entry, Handed, Tables, Missing, Look, at, absent, slow, unread, Job, Out, expire,
  waiting, look_for, next_title, put_read, pass_over, give, add_job, job_of, no_answer,
}
use katalog_manager.Chapters.HandOut.Turn.{
  Catalog, Answer, sooner, inflight, recent, is_claimed, is_recent, hand_out, hand_out_at,
  hand_out_n, renewed, forget, answer, jobs_of,
}

put_read-count :
    (id now : ℕ) (change : Read → Read) (es : List Entry)
    → count is_claimed (put_read id now change es) ≤ count is_claimed es + 1
unfolding put_read count
put_read-count id now change [] = ground arith
put_read-count id now change (e ∷ es) = ground (arith, put_read-count id now change es)

pass_over-inflight :
    (id now : ℕ) (why : Text) (es : List Entry)
    → count is_claimed (put_read id now (transient_row why now) es) ≤ count is_claimed es
unfolding put_read count transient_row new_read
pass_over-inflight id now why [] = omega arith
pass_over-inflight id now why (e ∷ es) = ground (arith, pass_over-inflight id now why es)

-- What a hand-out keeps of the two counts, with the titles it hands out.
record Paced (now n : ℕ) (before : Tables) (o : Out) : Type 0 where
  claimed : inflight o.tables ≤ inflight before + length o.jobs
  counted : recent now o.tables ≤ recent now before + length o.jobs
  few : length o.jobs ≤ n

pub Look-cases :
    (l : Look)
    → ((why : Text) × (l ≡ slow why))
      ⊎ (((why : Text) × (l ≡ unread why))
          ⊎ (((why : Text) × (l ≡ absent why)) ⊎ ((path : Text) × (l ≡ at path))))
Look-cases (slow why) = inl (why, refl)
Look-cases (unread why) = inr (inl (why, refl))
Look-cases (absent why) = inr (inr (inl (why, refl)))
Look-cases (at path) = inr (inr (inr (path, refl)))

module _ (look : Missing → Look) (token : Missing → Text) (worker : Text) (now : ℕ) where
  stop :
      (n : ℕ) (ts : Tables) → Paced now n ts (record { tables = ts; jobs = []; unanswered = false })
  stop n ts = record { claimed = omega arith; counted = omega arith; few = omega arith }

  module _ (t : Missing) (cs : List Missing) (n : ℕ) (ts : Tables) where
    pub look_for-slow :
        (why : Text)
        → look t ≡ slow why
        → look_for look token worker now (t ∷ cs) (suc n) ts
          ≡ record { tables = pass_over t (no_answer why) now ts; jobs = []; unanswered = true }
    unfolding look_for next_title
    look_for-slow why e = rw e refl

    pub look_for-unread :
        (why : Text)
        → look t ≡ unread why
        → look_for look token worker now (t ∷ cs) (suc n) ts
          ≡ record { tables = ts; jobs = []; unanswered = true }
    unfolding look_for next_title
    look_for-unread why e = rw e refl

    pub look_for-absent :
        (why : Text)
        → look t ≡ absent why
        → look_for look token worker now (t ∷ cs) (suc n) ts
          ≡ look_for look token worker now cs
              (suc n)
              (pass_over t (codes "nothing to read: " ++ why) now ts)
    unfolding look_for next_title
    look_for-absent why e = rw e refl

    pub look_for-at :
        (path : Text)
        → look t ≡ at path
        → look_for look token worker now (t ∷ cs) (suc n) ts
          ≡ add_job
              (job_of t path (token t))
              (look_for look token worker now cs n (give t worker (token t) now ts))
    unfolding look_for next_title
    look_for-at path e = rw e refl

  none_out :
      (n : ℕ) (t : Missing) (why : Text) (ts : Tables)
      → Paced now n ts (record { tables = pass_over t why now ts; jobs = []; unanswered = true })
  unfolding pass_over
  none_out n t why ts = record {
    claimed = omega (arith, pass_over-inflight t.id now why ts.reads);
    counted = omega arith;
    few = omega arith;
  }

  passed :
      (n : ℕ) (t : Missing) (why : Text) (ts : Tables) (o : Out)
      → Paced now n (pass_over t why now ts) o
      → Paced now n ts o
  unfolding pass_over
  passed n t why ts o p = record {
    claimed = omega (arith, pass_over-inflight t.id now why ts.reads, p.claimed);
    counted = p.counted;
    few = p.few;
  }

  given :
      (n : ℕ) (t : Missing) (j : Job) (ts : Tables) (o : Out)
      → Paced now n (give t worker (token t) now ts) o
      → Paced now (suc n) ts (add_job j o)
  unfolding give count
  given n t j ts o p = record {
    claimed =
        omega
          (arith, put_read-count t.id now (hand_out_row worker (token t) now) ts.reads, p.claimed);
    counted = ground (arith, p.counted);
    few = omega (arith, p.few);
  }

  look_for-Paced :
      (cs : List Missing) (n : ℕ) (ts : Tables)
      → Paced now n ts (look_for look token worker now cs n ts)
  look_for-Paced [] n ts = unfold look_for in stop n ts
  look_for-Paced (t ∷ cs) zero ts = unfold look_for in stop zero ts
  look_for-Paced (t ∷ cs) (suc n) ts = elim (Look-cases (look t)) [
    | inl (why, e) ↦ rw (look_for-slow t cs n ts why e) (none_out (suc n) t (no_answer why) ts)
    | inr (inl (why, e)) ↦
        rw (look_for-unread t cs n ts why e)
          (record { claimed = omega arith; counted = omega arith; few = omega arith })
    | inr (inr (inl (why, e))) ↦
        let why' = codes "nothing to read: " ++ why in
        rw (look_for-absent t cs n ts why e)
          (passed (suc n) t why' ts _ (look_for-Paced cs (suc n) (pass_over t why' now ts)))
    | inr (inr (inr (path, e))) ↦ rw (look_for-at t cs n ts path e) (
        given n t (job_of t path (token t)) ts _
          (look_for-Paced cs n (give t worker (token t) now ts)))
  ]

expire-inflight :
    (lost : Text) (lease now : ℕ) (es : List Entry)
    → count is_claimed (expire lost lease now es) ≤ count is_claimed es
unfolding expire count expire_row transient_row
expire-inflight lost lease now [] = omega arith
expire-inflight lost lease now (e ∷ es) = ground (arith, expire-inflight lost lease now es)

forget-recent :
    (now : ℕ) (hs : List Handed) → count (is_recent now) (forget now hs) ≤ count (is_recent now) hs
unfolding forget keep count
forget-recent now [] = omega arith
forget-recent now (h ∷ hs) = ground (arith, forget-recent now hs)

pub jobs_of-answer :
    (silent : Bool) (missing : ℕ) (cs : List Missing) (deadline : ℕ) (js : List Job)
    → jobs_of (answer silent missing cs deadline js) ≡ js
unfolding answer
jobs_of-answer silent missing cs deadline (j ∷ js) = refl
jobs_of-answer true missing cs deadline [] = refl
jobs_of-answer false zero cs deadline [] = refl
jobs_of-answer false (suc m) [] deadline [] = refl
jobs_of-answer false (suc m) (c ∷ cs) deadline [] = refl

-- The tables and the answer of a hand-out keep a pace that starts at two counts.
abbrev KeepsPace : Settings → ℕ → ℕ → ℕ → ℕ → Tables × Answer → Type 0
KeepsPace s limit now before before_recent (ts, a) =
    (inflight ts ≤ max before s.inflight)
    × (recent now ts ≤ max before_recent s.rate)
    × (length (jobs_of a) ≤ max limit 1)

module _ (c : Catalog) (s : Settings) (worker : Text) (limit now : ℕ) where
  hand_out_n-pace :
      (n : ℕ) (ts : Tables)
      → (inflight (hand_out_n c s worker n now ts).0 ≤ inflight ts + n)
        × (recent now (hand_out_n c s worker n now ts).0 ≤ recent now ts + n)
        × (length (jobs_of (hand_out_n c s worker n now ts).1) ≤ n)
  unfolding hand_out_n
  hand_out_n-pace n ts =
      let cs = waiting (s.records == 0) now (n * 8) ts.reads c.titles in
      let o = look_for c.look c.token worker now cs n ts in
      let p = look_for-Paced c.look c.token worker now cs n ts in
      let same =
        jobs_of-answer (c.stalled || o.unanswered) c.missing cs
          (sooner (closes s.window now) (now + s.lease)) o.jobs in
      (omega (arith, p.claimed, p.few), omega (arith, p.counted, p.few), rw same p.few)

  hand_out_at-pace :
      (ts : Tables)
      → KeepsPace s limit now (inflight ts) (recent now ts) (hand_out_at c s worker limit now ts)
  unfolding hand_out_at
  hand_out_at-pace ts =
      let n = min (min (max limit 1) (s.inflight - inflight ts)) (s.rate - recent now ts) in
      let (a, b, d) = hand_out_n-pace n ts in ground arith

  -- A hand-out leaves no more titles in flight than its settings allow, or than there were before it;
  -- no more have been handed out in the last hour, then, than the rate allows, or than had been before
  -- it; and it hands out no more titles than it was asked for, one at least.
  pub hand_out-pace :
      (ts : Tables)
      → (inflight (hand_out c s worker limit now ts).0 ≤ max (inflight ts) s.inflight)
        × (recent now (hand_out c s worker limit now ts).0 ≤ max (recent now ts) s.rate)
        × (length (jobs_of (hand_out c s worker limit now ts).1) ≤ max limit 1)
  unfolding hand_out
  hand_out-pace ts =
      let fewer = expire-inflight c.lost s.lease now ts.reads in
      let kept = forget-recent now ts.claims in
      let (a, b, d) = hand_out_at-pace (renewed c s now ts) in ground arith
