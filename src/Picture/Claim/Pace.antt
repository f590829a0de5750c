-- ===== src/Picture/Claim/Pace.antt =====
-- The pace of the claims: how many titles they leave in flight, and how many they hand out.
use katalog_manager.Base.{
  ℕ, zero, suc, ◌+◌, ◌-◌, ◌*◌, ◌≤◌, ◌≡◌, ◌⊎◌, refl, Bool, false, List, [], ◌∷◌, arith, min, max,
  count, length, inl, inr,
}
use katalog_manager.Base.Text.{Text, trim_space}
use katalog_manager.Picture.Area.{clip}
use katalog_manager.Picture.Record.{new_area}
use katalog_manager.Picture.Settings.{Settings}
use katalog_manager.Picture.Backfill.{
  Entry, Title, put, fail_set, first_failure, fail, claim_title, first_claim, claim_entry, expire,
  lapse,
}
use katalog_manager.Picture.Candidates.{candidates}
use katalog_manager.Picture.Claim.{
  Catalog, Job, FileOf, at, missing, is_claimed, is_recent, inflight, recent, hand_out, deadline_of,
  answer, claim_at_pace, claim, idle, nothing_to_measure, job_of, next_title, Claim,
}

pub FileOf-cases :
    (f : FileOf) → ((why : Text) × (f ≡ missing why)) ⊎ ((path : Text) × (f ≡ at path))
FileOf-cases (missing why) = inl (why, refl)
FileOf-cases (at path) = inr (path, refl)

put-count :
    (p : Entry → Bool) (id : ℕ) (fresh : Entry) (change : Entry → Entry) (es : List Entry)
    → count p (put id fresh change es) ≤ count p es + 1
unfolding put count
put-count p id fresh change [] = ground arith
put-count p id fresh change (e ∷ es) = ground (arith, put-count p id fresh change es)

put-count_kept :
    (p : Entry → Bool) (id : ℕ) (fresh : Entry) (change : Entry → Entry) (es : List Entry)
    → p fresh ≡ false
    → ((e : Entry) → p (change e) ≡ p e)
    → count p (put id fresh change es) ≤ count p es
unfolding put count
put-count_kept p id fresh change [] f k = rw f (omega arith)
put-count_kept p id fresh change (e ∷ es) f k =
    ground (arith, put-count_kept p id fresh change es f k, k e)

-- A test of a row that a failure does not change, and that none added by a failure passes.
pub record IsPaced (p : Entry → Bool) : Type 0 where
  pub none_first : (t : Title) (why : Text) (now : ℕ) → p (first_failure t why now) ≡ false
  pub kept :
      (why : Text) (now : ℕ) (e : Entry) → p (record e { area = fail_set why now e.area }) ≡ p e

is_claimed-IsPaced : IsPaced is_claimed
unfolding first_failure fail_set new_area
is_claimed-IsPaced = record { none_first = λ t why now. refl; kept = λ why now e. refl }

is_recent-IsPaced : (now : ℕ) → IsPaced (is_recent now)
unfolding first_failure fail_set
is_recent-IsPaced now = record { none_first = λ t why now. refl; kept = λ why now e. refl }

fail-count :
    (p : Entry → Bool)
    → IsPaced p
    → (t : Title) (why : Text) (now : ℕ) (es : List Entry)
    → count p (fail t why now es) ≤ count p es
unfolding fail
fail-count p k t why now es =
    put-count_kept p t.id (first_failure t why now)
      (λ e. record e { area = fail_set why now e.area }) es (k.none_first t why now)
      (k.kept why now)

claim_title-count :
    (p : Entry → Bool) (t : Title) (worker : ℕ) (token : Text) (now : ℕ) (es : List Entry)
    → count p (claim_title t worker token now es) ≤ count p es + 1
unfolding claim_title
claim_title-count p t worker token now es =
    put-count p t.id (first_claim t worker token now) (claim_entry worker token now) es

module _ (c : Catalog) (worker now : ℕ) (whole : Bool) (found : List Entry) where
  pub hand_out-missing :
      (n : ℕ) (t : Title) (ts : List Title) (es : List Entry) (why : Text)
      → c.file_of t ≡ missing why
      → hand_out c worker now whole found (t ∷ ts) (suc n) es
        ≡ hand_out c worker now whole found ts (suc n) (fail t (nothing_to_measure why) now es)
  unfolding hand_out next_title
  hand_out-missing n t ts es why e = rw e refl

  pub hand_out-at :
      (n : ℕ) (t : Title) (ts : List Title) (es : List Entry) (path : Text)
      → c.file_of t ≡ at path
      → hand_out c worker now whole found (t ∷ ts) (suc n) es ≡ (
          let rest =
            hand_out c worker now whole found ts n (claim_title t worker (c.token t) now es) in
          (rest.0, job_of c found whole t path ∷ rest.1))
  unfolding hand_out next_title
  hand_out-at n t ts es path e = rw e refl

  hand_out-count :
      (p : Entry → Bool)
      → IsPaced p
      → (ts : List Title) (n : ℕ) (es : List Entry)
      → (count p (hand_out c worker now whole found ts n es).0
          ≤ count p es + length (hand_out c worker now whole found ts n es).1)
        × (length (hand_out c worker now whole found ts n es).1 ≤ n)
  hand_out-count p k [] n es = unfold hand_out in (omega arith, omega arith)
  hand_out-count p k (t ∷ ts) zero es = unfold hand_out in (omega arith, omega arith)
  hand_out-count p k (t ∷ ts) (suc n) es = elim (FileOf-cases (c.file_of t)) [
    | inl (why, e) ↦
        let why' = nothing_to_measure why in
        let (a, b) = hand_out-count p k ts (suc n) (fail t why' now es) in
        let m = fail-count p k t why' now es in
        rw (hand_out-missing n t ts es why e) (omega arith, b)
    | inr (path, e) ↦
        let token = c.token t in
        let (a, b) = hand_out-count p k ts n (claim_title t worker token now es) in
        let m = claim_title-count p t worker token now es in
        rw (hand_out-at n t ts es path e) (omega arith, omega arith)
  ]

expire-inflight :
    (late : ℕ → Text) (lease now : ℕ) (es : List Entry)
    → inflight (expire late lease now es) ≤ inflight es
unfolding expire count lapse
expire-inflight late lease now [] = omega arith
expire-inflight late lease now (e ∷ es) = ground (arith, expire-inflight late lease now es)

expire-recent :
    (late : ℕ → Text) (lease now : ℕ) (es : List Entry)
    → recent now (expire late lease now es) ≡ recent now es
unfolding expire count
expire-recent late lease now [] = refl
expire-recent late lease now (e ∷ es) = ground (arith, expire-recent late lease now es)

pub items-answer :
    (ts : List Title) (deadline : ℕ) (jobs : List Job) → (answer ts deadline jobs).items ≡ jobs
unfolding idle
items-answer [] deadline [] = refl
items-answer (t ∷ ts) deadline [] = refl
items-answer [] deadline (j ∷ jobs) = refl
items-answer (t ∷ ts) deadline (j ∷ jobs) = refl

-- The rows and the answer of a claim keep a pace that starts at two counts.
abbrev KeepsPace : Settings → ℕ → ℕ → ℕ → ℕ → List Entry × Claim → Type 0
KeepsPace s limit now before before_recent (es, a) =
    (inflight es ≤ max before s.inflight)
    × (recent now es ≤ max before_recent s.rate)
    × (length a.items ≤ max limit 1)

module _ (c : Catalog) (s : Settings) (worker limit : ℕ) (method : Text) (now : ℕ) where
  claim_at_pace-pace :
      (es : List Entry)
      → KeepsPace s limit now
          (inflight es)
          (recent now es)
          (claim_at_pace c s worker limit method now es)
  unfolding claim_at_pace idle
  claim_at_pace-pace es =
      let n = min (min (max limit 1) (s.inflight - inflight es)) (s.rate - recent now es) in
      let ts = candidates c.costs c.current (clip 32 (trim_space method)) now (n * 8) es c.titles in
      let d = deadline_of s now in
      let (a, m) = hand_out-count c worker now d.1 es is_claimed is_claimed-IsPaced ts n es in
      let (b, m') =
        hand_out-count c worker now d.1 es (is_recent now) (is_recent-IsPaced now) ts n es in
      let items = items-answer ts d.0 (hand_out c worker now d.1 es ts n es).1 in ground arith

  -- A claim leaves no more titles in flight than its settings allow, or than there were before it; no
  -- more have been handed out in the last hour, then, than the rate allows, or than had been before it;
  -- and it hands out no more titles than it was asked for, one at least.
  pub claim-pace :
      (es : List Entry)
      → (inflight (claim c s worker limit method now es).0 ≤ max (inflight es) s.inflight)
        × (recent now (claim c s worker limit method now es).0 ≤ max (recent now es) s.rate)
        × (length (claim c s worker limit method now es).1.items ≤ max limit 1)
  unfolding claim idle
  claim-pace es =
      let es' = expire c.late s.lease now es in
      let fewer = expire-inflight c.late s.lease now es in
      let same = expire-recent c.late s.lease now es in
      let (a, b, d) = claim_at_pace-pace es' in ground arith
