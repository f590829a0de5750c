-- ===== src/Retry/Sweep/Ends.antt =====
-- internal/retry/retry.go: the rounds of a sweep's loop.
use katalog_manager.Base.{
  ℕ, zero, suc, ◌+◌, ◌≤◌, ◌<◌, ◌≡◌, refl, Bool, true, false, ◌||◌, Option, some, List, [], ◌∷◌,
  arith, count, length, ltb, Bool-cases, inl, inr, ap, ◌∙◌, sym,
}
use mathlib.Core.Path.{subst}
use katalog_manager.Base.Text.{Text}
use katalog_manager.Processing.Policy.{Policy}
use katalog_manager.Processing.Table.{Row, update_where}
use katalog_manager.Retry.Claim.{
  Catalog, Claimed, batch, claim_due, claim, claim_set, reap, reap_set, is_due,
}
use katalog_manager.Retry.Claim.Chosen.{HasUniqueIds, All-pure}
use katalog_manager.Retry.Claim.Number.{length-claim_due, is_scheduled}
use katalog_manager.Retry.Dispatch.{Message, as_retry, dispatch}
use katalog_manager.Retry.Failed.{is_nonempty}
use katalog_manager.Retry.Failed.Rounds.{dispatch-sent, round_few, round_full}
use katalog_manager.Retry.Holds.{Holds-update_where, KeepsIds}
use katalog_manager.Retry.Sweep.{Swept, sweep, sweep_rounds, settle_take_ins, is_taken, taken_set}

update_where-HasUniqueIds :
    (test : Row → Bool) (set : Row → Row) (rows : List Row)
    → KeepsIds set
    → HasUniqueIds rows
    → HasUniqueIds (update_where test set rows).0
update_where-HasUniqueIds test set rows k u =
    (Holds-update_where (λ r. Unit) test set rows k (All-pure rows (λ r h p. tt))
      (All-pure rows (λ r. tt), u)).1

length-update_where :
    (test : Row → Bool) (set : Row → Row) (rows : List Row)
    → length (update_where test set rows).0 ≡ length rows
unfolding update_where
length-update_where test set [] = refl
length-update_where test set (r ∷ rs) = ground (arith, length-update_where test set rs)

count-le-length : (test : Row → Bool) (rows : List Row) → count test rows ≤ length rows
unfolding count
count-le-length test [] = omega arith
count-le-length test (r ∷ rs) = ground (arith, count-le-length test rs)

claim_due-HasUniqueIds :
    (c : Catalog) (sources : Bool) (now : ℕ) (rows : List Row)
    → HasUniqueIds rows
    → HasUniqueIds (claim_due c sources now rows).0
unfolding claim_due claim
claim_due-HasUniqueIds c sources now rows u =
    update_where-HasUniqueIds _ (claim_set false now) rows (λ r. unfold claim_set in refl) u

settle_take_ins-rows :
    (ready : Bool) (version_of : ℕ → Option Text) (ids : List ℕ) (now : ℕ) (rows : List Row)
    → HasUniqueIds rows
    → HasUniqueIds (settle_take_ins ready version_of ids now rows)
      × (length (settle_take_ins ready version_of ids now rows) ≡ length rows)
unfolding settle_take_ins
settle_take_ins-rows false version_of ids now rows u = (u, refl)
settle_take_ins-rows true version_of ids now rows u = (
  update_where-HasUniqueIds _ (taken_set version_of now) rows (λ r. unfold taken_set in refl) u,
  length-update_where (is_taken version_of ids) (taken_set version_of now) rows,
)

reap-rows :
    (says : Row → Text) (c : Catalog) (p : Policy) (now : ℕ) (rows : List Row)
    → HasUniqueIds rows
    → HasUniqueIds (reap says c p now rows).0 × (length (reap says c p now rows).0 ≡ length rows)
unfolding reap
reap-rows says c p now rows u = (
  update_where-HasUniqueIds _ (reap_set says p now) rows (λ r. unfold reap_set in refl) u,
  length-update_where _ (reap_set says p now) rows,
)

not_held_up : (n : ℕ) (xs : List Claimed) → is_nonempty xs ≡ false → xs ≡ []
not_held_up n [] h = refl
not_held_up n (x ∷ xs) h = cc

module _ (publish : ℕ → List Message → List (Option Text)) (says : Option Text → Text)
    (clock : ℕ → ℕ) (c : Catalog) (sources : Bool) (p : Policy) where
  -- A loop that ends, and with every event sent with no step left that was due at its last claim.
  abbrev Ends : ℕ → ℕ → ℕ → ℕ → List Row → Type 0
  Ends n k reaped sent rows =
      (after : List Row) × (s : Swept) × (sweep_rounds publish says clock c sources p n k reaped
          sent rows
        ≡ some (after, s))
      × (s.held_up ≡ false → count (is_due c sources s.last) after ≡ 0)

  sweep_rounds-Ends :
      (n k reaped sent : ℕ) (rows : List Row)
      → HasUniqueIds rows
      → count is_scheduled rows < n
      → Ends n k reaped sent rows
  unfolding sweep_rounds
  sweep_rounds-Ends zero k reaped sent rows u h = absurd (omega arith)
  sweep_rounds-Ends (suc n) k reaped sent rows u h =
      let now = clock k in
      let due = is_due c sources now in
      let rows' = (claim_due c sources now rows).0 in
      let claimed = (claim_due c sources now rows).1 in
      let d = dispatch (publish k) says as_retry now true p.backoff claimed rows' in
      let (left, left_due, all) = length-claim_due c sources now rows u in
      let same = dispatch-sent (publish k) says as_retry now p.backoff true claimed rows' in
      elim (Bool-cases (ltb (length claimed) batch || is_nonempty d.1.not_sent)) [
        | inl stops ↦ (
          d.0,
          record {
            reaped = reaped;
            sent = sent + d.1.sent;
            last = now;
            held_up = is_nonempty d.1.not_sent;
          },
          rw stops refl,
          λ z.
              let empty = not_held_up 0 d.1.not_sent z in
              let few = round_few (length claimed) d.1.not_sent empty stops in
              ap (count due) (same empty) ∙ omega arith,
        )
        | inr goes ↦
            let (long, empty) = round_full (length claimed) d.1.not_sent goes in
            let kept = same empty in
            let unique =
              subst HasUniqueIds (sym kept) (claim_due-HasUniqueIds c sources now rows u) in
            let fewer : count is_scheduled d.0 ≡ count is_scheduled rows' =
              ap (count is_scheduled) kept in
            let (after, s, e, f) =
              sweep_rounds-Ends n (suc k) reaped (sent + d.1.sent) d.0 unique (omega arith) in
            (after, s, rw goes e, f)
      ]

  -- A sweep that can run, over a table whose ids are unique and that nothing else changes meanwhile, ends
  -- within one round more than there are steps, whichever events can be sent and whatever the times of its
  -- rounds; and where the events of its last round could all be sent, no step is left that was due then.
  pub sweep-ends :
      (timed_out : Row → Text) (ready : Bool) (version_of : ℕ → Option Text) (now : ℕ)
      (rows : List Row)
      → HasUniqueIds rows
      → (after : List Row) × (s : Swept) × (sweep publish says clock c sources p false timed_out
            ready version_of now
            (suc (length rows))
            rows
          ≡ some (after, s))
        × (s.held_up ≡ false → count (is_due c sources s.last) after ≡ 0)
  unfolding sweep
  sweep-ends timed_out ready version_of now rows u =
      let (u', same) = reap-rows timed_out c p now rows u in
      let rows' = (reap timed_out c p now rows).0 in
      let rows'' = settle_take_ins ready version_of [] now rows' in
      let (u'', same') = settle_take_ins-rows ready version_of [] now rows' u' in
      let few = count-le-length is_scheduled rows'' in
      sweep_rounds-Ends (suc (length rows)) 0 (reap timed_out c p now rows).1 0 rows'' u''
        (omega arith)
