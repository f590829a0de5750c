-- ===== src/Picture/Claim/Accounts.antt =====
-- The rows' claims before and after a claim of the backfill.
use katalog_manager.Base.{
  ℕ, zero, suc, ◌≡◌, ◌⊎◌, refl, ap, ◌∙◌, Bool, true, none, some, List, [], ◌∷◌, arith, any,
  Bool-cases, inl, inr, ◌==◌,
}
use katalog_manager.Base.Text.{Text}
use katalog_manager.Picture.Settings.{Settings}
use katalog_manager.Picture.Backfill.{
  Entry, Title, find_entry, fail, claim_title, expire, expire_entry, has_ended, lapse,
}
use katalog_manager.Picture.Claim.{
  Catalog, Job, hand_out, deadline_of, claim, idle, nothing_to_measure, Claim,
}
use katalog_manager.Picture.Claim.Cases.{room, looked_at, claim-cases, claim_at_pace-cases}
use katalog_manager.Picture.Backfill.Find.{
  claimed_at_of, token_of, fail-claimed_at, fail-token, claim_title-same, claim_title-other,
}
use katalog_manager.Picture.Claim.Pace.{FileOf-cases, hand_out-missing, hand_out-at, items-answer}

-- A title's row is under no claim; or under the claim that it was under; or it is handed out now.
abbrev pub Accounts : ℕ → ℕ → List Entry → List Entry → List Job → Type 0
Accounts now id es es' jobs =
    (claimed_at_of (find_entry id es') ≡ none)
    ⊎ ((claimed_at_of (find_entry id es') ≡ claimed_at_of (find_entry id es))
        × (token_of (find_entry id es') ≡ token_of (find_entry id es)))
    ⊎ ((claimed_at_of (find_entry id es') ≡ some now) × (any (λ j. j.id == id) jobs ≡ true))

module _ (c : Catalog) (worker now : ℕ) (whole : Bool) (found : List Entry) (id : ℕ) where
  hand_out-Accounts :
      (ts : List Title) (n : ℕ) (es : List Entry)
      → Accounts now id es
          (hand_out c worker now whole found ts n es).0
          (hand_out c worker now whole found ts n es).1
  hand_out-Accounts [] n es = unfold hand_out in inr (inl (refl, refl))
  hand_out-Accounts (t ∷ ts) zero es = unfold hand_out in inr (inl (refl, refl))
  hand_out-Accounts (t ∷ ts) (suc n) es = elim (FileOf-cases (c.file_of t)) [
    | inl (why, e) ↦
        let why' = nothing_to_measure why in
        rw (hand_out-missing c worker now whole found n t ts es why e)
          (elim (hand_out-Accounts ts (suc n) (fail t why' now es)) [
            | inl none_left ↦ inl none_left
            | inr (inl (a, b)) ↦
                inr (inl (a ∙ fail-claimed_at t why' now id es, b ∙ fail-token t why' now id es))
            | inr (inr new) ↦ inr (inr new)
          ])
    | inr (path, e) ↦
        let token = c.token t in
        rw (hand_out-at c worker now whole found n t ts es path e)
          (elim (hand_out-Accounts ts n (claim_title t worker token now es)) [
            | inl none_left ↦ inl none_left
            | inr (inl (a, b)) ↦ elim (Bool-cases (t.id == id)) [
              | inl here ↦
                  inr (inr (a ∙ claim_title-same t worker token now id es here, ground arith))
              | inr here ↦
                  let other = claim_title-other t worker token now id es here in
                  inr (inl (a ∙ ap claimed_at_of other, b ∙ ap token_of other))
            ]
            | inr (inr (a, b)) ↦ inr (inr (a, ground arith))
          ])
  ]

expire_entry-id :
    (late : ℕ → Text) (lease now : ℕ) (e : Entry) → (expire_entry late lease now e).id ≡ e.id
expire_entry-id late lease now e = ground arith

-- A claim whose lease ended is gone, and every other is as it was.
expire-Accounts :
    (late : ℕ → Text) (lease now id : ℕ) (es : List Entry)
    → Accounts now id es (expire late lease now es) []
unfolding expire
expire-Accounts late lease now id [] = inl refl
expire-Accounts late lease now id (e ∷ es) = elim (Bool-cases (e.id == id)) [
  | inr q ↦ rw (expire_entry-id late lease now e, q) (expire-Accounts late lease now id es)
  | inl q ↦
      rw (expire_entry-id late lease now e, q)
        (elim (Bool-cases (has_ended lease now e.area.claimed_at)) [
          | inl ended ↦ rw ended (inl (unfold lapse in refl))
          | inr on ↦ rw on (inr (inl (refl, refl)))
        ])
]

then_Accounts :
    (now id : ℕ) (es es' es'' : List Entry) (jobs : List Job)
    → Accounts now id es es' []
    → Accounts now id es' es'' jobs
    → Accounts now id es es'' jobs
then_Accounts now id es es' es'' jobs a (inl b) = inl b
then_Accounts now id es es' es'' jobs a (inr (inr b)) = inr (inr b)
then_Accounts now id es es' es'' jobs (inl a) (inr (inl (b, b'))) = inl (b ∙ a)
then_Accounts now id es es' es'' jobs (inr (inl (a, a'))) (inr (inl (b, b'))) =
    inr (inl (b ∙ a, b' ∙ a'))
then_Accounts now id es es' es'' jobs (inr (inr (a, a'))) (inr (inl b)) = absurd (cc a')

-- After a claim every title is under no claim, or under the claim that it was under, with the token that
-- it had, or it is handed out by this one, and its row is claimed now.
pub claim-Accounts :
    (c : Catalog) (s : Settings) (worker limit : ℕ) (method : Text) (now id : ℕ) (es : List Entry)
    → Accounts now id es
        (claim c s worker limit method now es).0
        (claim c s worker limit method now es).1.items
claim-Accounts c s worker limit method now id es =
    let P = λ (r : List Entry × Claim). Accounts now id es r.0 r.1.items in
    let es' = expire c.late s.lease now es in
    let ended = expire-Accounts c.late s.lease now id es in
    let ts = looked_at c s limit method now es' in
    let n = room s limit now es' in
    let d = deadline_of s now in
    claim-cases P c s worker limit method now es
      (λ why after. unfold idle in inr (inl (refl, refl)))
      (λ holds.
        claim_at_pace-cases P c s worker limit method now es' (λ why after. unfold idle in ended)
          (rw (items-answer ts d.0 (hand_out c worker now d.1 es' ts n es').1) (
            then_Accounts now id es es' (hand_out c worker now d.1 es' ts n es').0
              (hand_out c worker now d.1 es' ts n es').1 ended
              (hand_out-Accounts c worker now d.1 es' id ts n es'))))
