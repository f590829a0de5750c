-- ===== src/Retry/Manual/Answers.antt =====
-- A retry that is refused, or that leaves its step alone, changes nothing.
use katalog_manager.Base.{
  ℕ, ◌≡◌, ◌≢◌, ◌⊎◌, refl, sym, ap, ◌∙◌, Bool, true, false, Option, List, [], ◌∷◌, map, keep,
  Bool-cases, Option-cases, inl, inr,
}
use katalog_manager.Base.Text.{Text}
use katalog_manager.Processing.Vocab.{Step}
use katalog_manager.Processing.Policy.{Policy}
use katalog_manager.Processing.Table.{Row, update_where}
use katalog_manager.Retry.Claim.{Catalog, Claimed, claim, claim_step, claim_set, claimed_of, among}
use katalog_manager.Retry.Dispatch.{Message, Outcome, dispatch, as_retry}
use katalog_manager.Retry.Manual.{
  left_alone, Room, WhyNot, retry_claimed, retry_triggered, refuse_retry, sent_answer,
}

-- A statement that meets no row leaves the table.
update_where-none :
    (test : Row → Bool) (set : Row → Row) (rows : List Row)
    → keep test rows ≡ []
    → (update_where test set rows).0 ≡ rows
unfolding keep update_where
update_where-none test set [] h = refl
update_where-none test set (r ∷ rs) h = elim (Bool-cases (test r)) [
  | inl e ↦ absurd (let kept = rw e at h in cc kept)
  | inr e ↦ rw e (rw (update_where-none test set rs (rw e at h)) refl)
]

map-nothing : (f : Row → Claimed) (rows : List Row) → map f rows ≡ [] → rows ≡ []
map-nothing f [] h = refl
map-nothing f (r ∷ rs) h = absurd (cc h)

claim-none :
    (c : Catalog) (manual : Bool) (now : ℕ) (chosen rows : List Row)
    → (claim c manual now chosen rows).1 ≡ []
    → (claim c manual now chosen rows).0 ≡ rows
unfolding claim
claim-none c manual now chosen rows h =
    update_where-none (among chosen) (claim_set manual now) rows (map-nothing (claimed_of c) _ h)

claim_step-none :
    (c : Catalog) (p : Policy) (item : ℕ) (s : Step) (now : ℕ) (rows : List Row)
    → (claim_step c p item s now rows).1 ≡ []
    → (claim_step c p item s now rows).0 ≡ rows
unfolding claim_step
claim_step-none c p item s now rows h = claim-none c true now _ rows h

List-cases : (cs : List Claimed) → (cs ≡ []) ⊎ ((c : Claimed) × (ds : List Claimed) × (cs ≡ c ∷ ds))
List-cases [] = inl refl
List-cases (c ∷ ds) = inr (c, ds, refl)

sent_answer-not_left : (s : Step) (o : Outcome) (why : WhyNot) → sent_answer s o ≢ left_alone why
sent_answer-not_left s o why h = elim (List-cases o.not_sent) [
  | inl e ↦ absurd (let sent = rw e at h in cc sent)
  | inr (c, cs, e) ↦ absurd (let sent = rw e at h in cc sent)
]

module _ (publish : List Message → List (Option Text)) (says : Option Text → Text) (now item : ℕ)
    (s : Step) (rows rows' : List Row) (why : WhyNot) where
  retry_claimed-left :
      (found : List Row × List Claimed)
      → retry_claimed publish says now item s rows found ≡ (rows', left_alone why)
      → (found.1 ≡ []) × (found.0 ≡ rows')
  unfolding retry_claimed
  retry_claimed-left (after, []) h = (refl, ap (λ x. x.0) h)
  retry_claimed-left (after, c ∷ cs) h = absurd (
      sent_answer-not_left s (dispatch publish says as_retry now false 0 (c ∷ cs) after).1 why
        (ap (λ x. x.1) h))

-- A retry that leaves its step alone, saying why, changes no step.
pub retry_triggered-left :
    (publish : List Message → List (Option Text)) (says : Option Text → Text) (g : Room)
    (p : Policy) (now item : ℕ) (s : Step) (rows rows' : List Row) (why : WhyNot)
    → retry_triggered publish says g p now item s rows ≡ (rows', left_alone why)
    → rows' ≡ rows
unfolding retry_triggered
retry_triggered-left publish says g p now item s rows rows' why h =
    elim (Option-cases (refuse_retry g item s)) [
      | inr (answer, e) ↦ (let stays = rw e at h in sym (ap (λ x. x.0) stays))
      | inl e ↦
          let found = claim_step g.catalog p item s now rows in
          let (empty, same) =
            retry_claimed-left publish says now item s rows rows' why found (rw e at h) in
          sym same ∙ claim_step-none g.catalog p item s now rows empty
    ]
