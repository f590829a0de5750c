-- ===== src/Retry/History.antt =====
-- The step table under these statements, in any order, one at a time: the workers' reports, the sweep's
-- claims, reaping, settled take-ins and putting back, and the admins' retries, resets and re-encodes. Others
-- write it too and are no moves here: the Package action's dispatchedat of internal/itemactions/service.go,
-- the other statements of internal/retry/takein.go, and what deletes an item.
use katalog_manager.Base.{
  ℕ, ◌≡◌, ◌⊎◌, inl, inr, refl, Bool, true, false, Option, none, some, List, [], ◌∷◌, arith, All,
  is_some, ◌==◌,
}
use katalog_manager.Base.Text.{Text}
use katalog_manager.Processing.Vocab.{Step, transcode, pack}
use katalog_manager.Processing.Policy.{Policy, delays}
use katalog_manager.Processing.Table.{
  Row, Report, insert_row, update_row, upsert_rows, update_where, reset_row,
}
use katalog_manager.Processing.Steps.{upsert_with}
use katalog_manager.Retry.Claim.{
  Catalog, Claimed, claim_set, reap_set, claim, claim_due, claim_failed, claim_step, reap, among,
  is_due, by_next_retry, batch,
}
use katalog_manager.Retry.Claim.Once.{has_id}
use katalog_manager.Retry.Claim.Chosen.{HasUniqueIds, among-choose, All-zip, All-pure}
use katalog_manager.Retry.Dispatch.{put_back_set, put_back, is_back}
use katalog_manager.Retry.Reencode.{reset, reencode_set, added_row, is_chain, finish_reset, Busy}
use katalog_manager.Retry.Sweep.{settle_take_ins, is_taken, taken_set}
use katalog_manager.Retry.Invariant.{
  InPolicy, insert_row-InPolicy, update_row-InPolicy, reset_row-InPolicy, claim_set-InPolicy,
  reap_set-InPolicy, taken_set-InPolicy, put_back_set-InPolicy, reencode_set-InPolicy,
  added_row-InPolicy,
}
use katalog_manager.Retry.Holds.{Holds, has_id-upsert_rows, Holds-update_where, Holds-upsert_rows}

-- A statement on the table. A row that one inserts has an id that no row has (gen_random_uuid).
pub data Move (p : Policy) (t u : List Row) : Type 0 where
  report :
      (now id item : ℕ) (s : Step) (rep : Report)
      → has_id t id ≡ false
      → u ≡ upsert_with false now id item s rep p t
      → Move p t u
  reset_steps :
      (now : ℕ) (test : Row → Bool) → u ≡ (update_where test (reset_row now) t).0 → Move p t u
  sweep : (now : ℕ) (c : Catalog) (sources : Bool) → u ≡ (claim_due c sources now t).0 → Move p t u
  retry_failed :
      (now : ℕ) (c : Catalog) (sources : Bool) (only : Option Step)
      → u ≡ (claim_failed c sources only now t).0
      → Move p t u
  retry_step :
      (now item : ℕ) (c : Catalog) (s : Step) → u ≡ (claim_step c p item s now t).0 → Move p t u
  reaps : (now : ℕ) (c : Catalog) (says : Row → Text) → u ≡ (reap says c p now t).0 → Move p t u
  settles :
      (now : ℕ) (ready : Bool) (version_of : ℕ → Option Text) (ids : List ℕ)
      → u ≡ settle_take_ins ready version_of ids now t
      → Move p t u
  puts_back :
      (now again : ℕ) (says : Text) (cs : List Claimed)
      → u ≡ put_back now says again cs t
      → Move p t u
  reencode :
      (now tr_id pack_id item : ℕ)
      → has_id t tr_id ≡ false
      → has_id t pack_id ≡ false
      → (tr_id == pack_id) ≡ false
      → u ≡ (reset p now tr_id pack_id item t).0
      → Move p t u

-- The tables that the empty one leads to.
pub data Reach (p : Policy) : List Row → Type 0 where
  start : Reach p []
  next : {t u : List Row} → Reach p t → Move p t u → Reach p u

is_back-sent : (cs : List Claimed) (r : Row) → is_back cs r ≡ true → is_some r.dispatched ≡ true
is_back-sent cs r h = ground arith

module _ (p : Policy) where
  report-Holds :
      (now id item : ℕ) (s : Step) (rep : Report) (t : List Row)
      → has_id t id ≡ false
      → Holds (InPolicy p) t
      → Holds (InPolicy p) (upsert_with false now id item s rep p t)
  unfolding upsert_with
  report-Holds now id item s rep t f h =
      Holds-upsert_rows (InPolicy p) item s (insert_row now id item s rep (delays p))
        (update_row now rep (delays p)) t (λ r. unfold update_row in refl) (unfold insert_row in f)
        (insert_row-InPolicy p now id item s rep) (update_row-InPolicy p now rep) h

  claim-Holds :
      (c : Catalog) (manual : Bool) (now : ℕ) (chosen t : List Row)
      → All (λ r. among chosen r ≡ true → (manual ≡ true) ⊎ (is_some r.next_retry ≡ true)) t
      → Holds (InPolicy p) t
      → Holds (InPolicy p) (claim c manual now chosen t).0
  unfolding claim
  claim-Holds c manual now chosen t m h =
      Holds-update_where (InPolicy p) (among chosen) (claim_set manual now) t
        (λ r. unfold claim_set in refl)
        (All-zip t (λ r f _ a v. claim_set-InPolicy p now manual r (f a) v) m m) h

  due-scheduled :
      (c : Catalog) (sources : Bool) (now : ℕ) (r : Row)
      → is_due c sources now r ≡ true
      → is_some r.next_retry ≡ true
  unfolding is_due
  due-scheduled c sources now r h = ground arith

  put_back-Holds :
      (now again : ℕ) (says : Text) (cs : List Claimed) (t : List Row)
      → Holds (InPolicy p) t
      → Holds (InPolicy p) (put_back now says again cs t)
  unfolding put_back
  put_back-Holds now again says [] t h = h
  put_back-Holds now again says (c ∷ cs) t h =
      Holds-update_where (InPolicy p) (is_back (c ∷ cs)) (put_back_set now says again) t
        (λ r. unfold put_back_set in refl)
        (All-pure t
          (λ r b v. put_back_set-InPolicy p now says again r (is_back-sent (c ∷ cs) r b) v))
        h

  settle_take_ins-Holds :
      (now : ℕ) (ready : Bool) (version_of : ℕ → Option Text) (ids : List ℕ) (t : List Row)
      → Holds (InPolicy p) t
      → Holds (InPolicy p) (settle_take_ins ready version_of ids now t)
  unfolding settle_take_ins
  settle_take_ins-Holds now false version_of ids t h = h
  settle_take_ins-Holds now true version_of ids t h =
      Holds-update_where (InPolicy p) (is_taken version_of ids) (taken_set version_of now) t
        (λ r. unfold taken_set in refl)
        (All-pure t (λ r _ v. taken_set-InPolicy p now version_of r)) h

  finish_reset-Holds :
      (item : ℕ) (t set : List Row) (o : Option Busy)
      → Holds (InPolicy p) t
      → Holds (InPolicy p) set
      → Holds (InPolicy p) (finish_reset item t set o).0
  unfolding finish_reset
  finish_reset-Holds item t set none h k = k
  finish_reset-Holds item t set (some why) h k = h

  added-Holds :
      (now id item : ℕ) (s : Step) (t : List Row)
      → has_id t id ≡ false
      → Holds (InPolicy p) t
      → Holds (InPolicy p) (upsert_rows item s (added_row now id item s) (λ r. r) t)
  added-Holds now id item s t f h =
      Holds-upsert_rows (InPolicy p) item s (added_row now id item s) (λ r. r) t (λ r. refl)
        (unfold added_row in f) (added_row-InPolicy p now id item s) (λ r v. v) h

  set-Holds :
      (now item : ℕ) (t : List Row)
      → Holds (InPolicy p) t
      → Holds (InPolicy p) (update_where (is_chain item) (reencode_set now) t).0
  set-Holds now item t h =
      Holds-update_where (InPolicy p) (is_chain item) (reencode_set now) t
        (λ r. unfold reencode_set in refl) (All-pure t (λ r _ v. reencode_set-InPolicy p now r)) h

  reset-Holds :
      (now tr_id pack_id item : ℕ) (t : List Row)
      → has_id t tr_id ≡ false
      → has_id t pack_id ≡ false
      → (tr_id == pack_id) ≡ false
      → Holds (InPolicy p) t
      → Holds (InPolicy p) (reset p now tr_id pack_id item t).0
  unfolding reset
  reset-Holds now a b item t fa fb ne h = finish_reset-Holds item t _ _ h (
      set-Holds now item _ (
        added-Holds now b item pack _
          (has_id-upsert_rows (InPolicy p) item transcode (added_row now a item transcode) (λ r. r)
            t b (λ r. refl) (unfold added_row in ne) fb)
          (added-Holds now a item transcode t fa h)))

  Move-Holds : {t u : List Row} → Move p t u → Holds (InPolicy p) t → Holds (InPolicy p) u
  Move-Holds {t} (report now id item s rep f e) h = rw e (report-Holds now id item s rep t f h)
  Move-Holds {t} (reset_steps now test e) h = rw e (
      Holds-update_where (InPolicy p) test (reset_row now) t (λ r. unfold reset_row in refl)
        (All-pure t (λ r _ v. reset_row-InPolicy p now r)) h)
  Move-Holds {t} (sweep now c sources e) h = rw e (
      unfold claim_due in
      claim-Holds c false now _ t
        (All-zip t (λ r f _ a. inr (due-scheduled c sources now r (f a)))
          (among-choose (is_due c sources now) by_next_retry batch t h.1)
          (among-choose (is_due c sources now) by_next_retry batch t h.1))
        h)
  Move-Holds {t} (retry_failed now c sources only e) h =
      rw e (unfold claim_failed in claim-Holds c true now _ t (All-pure t (λ r a. inl refl)) h)
  Move-Holds {t} (retry_step now item c s e) h =
      rw e (unfold claim_step in claim-Holds c true now _ t (All-pure t (λ r a. inl refl)) h)
  Move-Holds {t} (reaps now c says e) h = rw e (
      unfold reap in
      Holds-update_where (InPolicy p) _ (reap_set says p now) t (λ r. unfold reap_set in refl)
        (All-pure t (λ r _ v. reap_set-InPolicy p now says r)) h)
  Move-Holds {t} (settles now ready version_of ids e) h =
      rw e (settle_take_ins-Holds now ready version_of ids t h)
  Move-Holds {t} (puts_back now again says cs e) h = rw e (put_back-Holds now again says cs t h)
  Move-Holds {t} (reencode now a b item fa fb ne e) h = rw e (reset-Holds now a b item t fa fb ne h)

-- In every table that reports, sweeps, settled take-ins, retries, resets, reaps and re-encodes lead to, in any order and
-- at any times, every row is in policy: a retry is scheduled of a failed step alone and only below
-- MaxAttempts failures in a row (or of one started afresh), and a step whose trigger was sent again is
-- not failed and within them too; and no two rows share an id.
pub Reach-InPolicy : (p : Policy) (t : List Row) → Reach p t → All (InPolicy p) t × HasUniqueIds t
Reach-InPolicy p t start = (tt, tt)
Reach-InPolicy p t (next r m) = Move-Holds p m (Reach-InPolicy p _ r)
