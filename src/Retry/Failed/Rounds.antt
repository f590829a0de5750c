-- ===== src/Retry/Failed/Rounds.antt =====
-- The rounds of RetryFailed end, and leave no step to retry when every event could be sent.
use katalog_manager.Base.{
  ℕ, zero, suc, ◌≤◌, ◌<◌, ◌≡◌, refl, Bool, true, false, ◌||◌, Option, some, List, [], ◌∷◌, arith,
  count, length, ltb, Bool-cases, inl, inr, ap, ◌∙◌, sym,
}
use mathlib.Core.Path.{subst}
use katalog_manager.Base.Text.{Text}
use katalog_manager.Processing.Vocab.{Step}
use katalog_manager.Processing.Table.{Row}
use katalog_manager.Retry.Claim.{
  Catalog, Claimed, batch, is_retryable, claim_failed, claim, claim_set,
}
use katalog_manager.Retry.Claim.Chosen.{HasUniqueIds, All-pure}
use katalog_manager.Retry.Claim.Number.{length-claim_failed}
use katalog_manager.Retry.Dispatch.{Message, Mark, as_retry, dispatch, put_back}
use katalog_manager.Retry.Failed.{
  Total, add_round, nothing_yet, is_nonempty, retry_rounds, retry_failed, with_answer, retried_all,
}
use katalog_manager.Retry.Manual.{Room}
use katalog_manager.Retry.Holds.{Holds-update_where}

-- When every event could be sent, dispatch leaves the table as it is.
pub dispatch-sent :
    (publish : List Message → List (Option Text)) (says : Option Text → Text) (how : Mark)
    (now back_off : ℕ) (automatic : Bool) (claimed : List Claimed) (rows : List Row)
    → (dispatch publish says how now automatic back_off claimed rows).1.not_sent ≡ []
    → (dispatch publish says how now automatic back_off claimed rows).0 ≡ rows
unfolding dispatch put_back
dispatch-sent publish says how now back_off automatic [] rows h = refl
dispatch-sent publish says how now back_off automatic (c ∷ cs) rows h = rw h refl

claim_failed-HasUniqueIds :
    (c : Catalog) (sources : Bool) (only : Option Step) (now : ℕ) (rows : List Row)
    → HasUniqueIds rows
    → HasUniqueIds (claim_failed c sources only now rows).0
unfolding claim_failed claim
claim_failed-HasUniqueIds c sources only now rows u =
    (Holds-update_where (λ r. Unit) _ (claim_set true now) rows (λ r. unfold claim_set in refl)
      (All-pure rows (λ r h p. tt)) (All-pure rows (λ r. tt), u)).1

is_nonempty-length : {A : Type 0} (xs : List A) → length xs ≡ 0 → xs ≡ []
is_nonempty-length [] h = refl
is_nonempty-length (x ∷ xs) h = absurd (omega arith)

-- A round after which the loop goes on took a whole batch, all sent; one that ends it with all sent
-- did not.
pub round_few :
    (n : ℕ) (xs : List Claimed) → xs ≡ [] → ltb n batch || is_nonempty xs ≡ true → n < batch
round_few n [] e h = ground arith
round_few n (x ∷ xs) e h = absurd (cc e)

pub round_full :
    (n : ℕ) (xs : List Claimed) → ltb n batch || is_nonempty xs ≡ false → (batch ≤ n) × (xs ≡ [])
round_full n [] h = (ground arith, refl)
round_full n (x ∷ xs) h = absurd (ground arith)

module _ (publish : ℕ → List Message → List (Option Text)) (says : Option Text → Text)
    (clock : ℕ → ℕ) (c : Catalog) (sources : Bool) (only : Option Step) where
  -- A loop that ends, and with every event sent with no step left to retry.
  abbrev Ends : ℕ → ℕ → Total → List Row → Type 0
  Ends n k t rows =
      (after : List Row) × (total : Total) × (retry_rounds publish says clock c sources only n k t
          rows
        ≡ some (after, total))
      × (total.unsent ≡ 0 → count (is_retryable c sources only) after ≡ 0)

  retry_rounds-Ends :
      (n k : ℕ) (t : Total) (rows : List Row)
      → HasUniqueIds rows
      → count (is_retryable c sources only) rows < n
      → Ends n k t rows
  unfolding retry_rounds
  retry_rounds-Ends zero k t rows u h = absurd (omega arith)
  retry_rounds-Ends (suc n) k t rows u h =
      let test = is_retryable c sources only in
      let now = clock k in
      let rows' = (claim_failed c sources only now rows).0 in
      let claimed = (claim_failed c sources only now rows).1 in
      let d = dispatch (publish k) says as_retry now false 0 claimed rows' in
      let (left, all) = length-claim_failed c sources only now rows u in
      let same = dispatch-sent (publish k) says as_retry now 0 false claimed rows' in
      elim (Bool-cases (ltb (length claimed) batch || is_nonempty d.1.not_sent)) [
        | inl stops ↦ (
          d.0,
          add_round d.1 t,
          rw stops refl,
          λ z.
              let empty = is_nonempty-length d.1.not_sent (omega arith) in
              let few = round_few (length claimed) d.1.not_sent empty stops in
              ap (count test) (same empty) ∙ omega arith,
        )
        | inr goes ↦
            let (long, empty) = round_full (length claimed) d.1.not_sent goes in
            let kept = same empty in
            let unique =
              subst HasUniqueIds (sym kept) (claim_failed-HasUniqueIds c sources only now rows u) in
            let fewer : count test d.0 ≡ count test rows' = ap (count test) kept in
            let (after, total, e, f) =
              retry_rounds-Ends n (suc k) (add_round d.1 t) d.0 unique (omega arith) in
            (after, total, rw goes e, f)
      ]

-- RetryFailed, where it can run, ends within one round more than there are steps to retry, whichever
-- events can be sent, of a table whose ids are unique and that nothing else changes; and when every event
-- was sent, none of the steps to retry is left.
pub retry_failed-ends :
    (publish : ℕ → List Message → List (Option Text)) (says : Option Text → Text) (clock : ℕ → ℕ)
    (g : Room) (only : Option Step) (rows : List Row)
    → g.step_table ≡ true
    → g.bus ≡ true
    → HasUniqueIds rows
    → let test = is_retryable g.catalog g.sources only in
      (after : List Row) × (total : Total) × (retry_failed publish says clock g false
          (suc (count test rows))
          only
          rows
        ≡ some (after, retried_all total))
      × (total.unsent ≡ 0 → count test after ≡ 0)
unfolding retry_failed
retry_failed-ends publish says clock g only rows table bus u =
    let n = suc (count (is_retryable g.catalog g.sources only) rows) in
    let (after, total, e, f) =
      retry_rounds-Ends publish says clock g.catalog g.sources only n 0 nothing_yet rows u
        (omega arith) in
    (after, total, rw (table, bus) (ap with_answer e), f)
