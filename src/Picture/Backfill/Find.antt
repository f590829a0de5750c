-- ===== src/Picture/Backfill/Find.antt =====
-- The row of a title after a failure or a claim is written.
use katalog_manager.Base.{
  ℕ, ◌≡◌, refl, ap, ◌∙◌, Bool, true, false, Option, none, some, List, [], ◌∷◌, arith, Bool-cases,
  inl, inr, ◌==◌, ==_iff, if◌then◌else◌,
}
use katalog_manager.Base.Text.{Text}
use katalog_manager.Picture.Record.{new_area}
use katalog_manager.Picture.Backfill.{
  Entry, Title, find_entry, put, fail, fail_set, first_failure, claim_title, claim_entry,
  first_claim,
}

abbrev or_fresh : Entry → (Entry → Entry) → Option Entry → Entry
or_fresh fresh change none = fresh
or_fresh fresh change (some e) = change e

find_entry-put :
    (k : ℕ) (fresh : Entry) (change : Entry → Entry)
    → fresh.id ≡ k
    → ((e : Entry) → (change e).id ≡ e.id)
    → (id : ℕ) (es : List Entry)
    → find_entry id (put k fresh change es)
      ≡ (if k == id then some (or_fresh fresh change (find_entry id es)) else find_entry id es)
unfolding put
find_entry-put k fresh change f c id [] = rw f refl
find_entry-put k fresh change f c id (e ∷ es) = elim (Bool-cases (e.id == k)) [
  | inl q ↦
      let same : e.id ≡ k = (==_iff e.id k).0 q in
      elim (Bool-cases (k == id)) [
        | inl r ↦
            let here : (e.id == id) ≡ true = ap (λ n. n == id) same ∙ r in
            let there : ((change e).id == id) ≡ true = ap (λ n. n == id) (c e) ∙ here in
            rw (q, r, here, there) refl
        | inr r ↦
            let here : (e.id == id) ≡ false = ap (λ n. n == id) same ∙ r in
            let there : ((change e).id == id) ≡ false = ap (λ n. n == id) (c e) ∙ here in
            rw (q, r, here, there) refl
      ]
  | inr q ↦ elim (Bool-cases (e.id == id)) [
    | inl here ↦ let other : (k == id) ≡ false = ground arith in rw (q, here, other) refl
    | inr here ↦ rw (q, here) (find_entry-put k fresh change f c id es)
  ]
]

-- When the row of a title was claimed, and with what token, if it is.
abbrev pub claimed_at_of : Option Entry → Option ℕ
claimed_at_of none = none
claimed_at_of (some e) = e.area.claimed_at

abbrev pub token_of : Option Entry → Option Text
token_of none = none
token_of (some e) = e.area.claim_token

if_same :
    {A : Type 0} (f : Option Entry → A) (b : Bool) (o o' : Option Entry)
    → f o ≡ f o'
    → f (if b then o else o') ≡ f o'
if_same f true o o' h = h
if_same f false o o' h = refl

module _ (t : Title) (why : Text) (now : ℕ) where
  abbrev failing : Entry → Entry
  failing e = record e { area = fail_set why now e.area }

  failed-claimed_at :
      (o : Option Entry)
      → claimed_at_of (some (or_fresh (first_failure t why now) failing o)) ≡ claimed_at_of o
  unfolding first_failure fail_set new_area
  failed-claimed_at none = refl
  failed-claimed_at (some e) = refl

  failed-token :
      (o : Option Entry)
      → token_of (some (or_fresh (first_failure t why now) failing o)) ≡ token_of o
  unfolding first_failure fail_set new_area
  failed-token none = refl
  failed-token (some e) = refl

  find_entry-fail :
      (id : ℕ) (es : List Entry)
      → find_entry id (fail t why now es) ≡ (
          if t.id == id
          then some (or_fresh (first_failure t why now) failing (find_entry id es))
          else find_entry id es)
  unfolding fail
  find_entry-fail id es =
      find_entry-put t.id (first_failure t why now) failing (unfold first_failure in refl)
        (λ e. refl) id es

  pub fail-claimed_at :
      (id : ℕ) (es : List Entry)
      → claimed_at_of (find_entry id (fail t why now es)) ≡ claimed_at_of (find_entry id es)
  fail-claimed_at id es =
      ap claimed_at_of (find_entry-fail id es)
      ∙ if_same claimed_at_of (t.id == id)
          (some (or_fresh (first_failure t why now) failing (find_entry id es))) (find_entry id es)
          (failed-claimed_at (find_entry id es))

  pub fail-token :
      (id : ℕ) (es : List Entry)
      → token_of (find_entry id (fail t why now es)) ≡ token_of (find_entry id es)
  fail-token id es =
      ap token_of (find_entry-fail id es)
      ∙ if_same token_of (t.id == id)
          (some (or_fresh (first_failure t why now) failing (find_entry id es))) (find_entry id es)
          (failed-token (find_entry id es))

module _ (t : Title) (worker : ℕ) (token : Text) (now id : ℕ) where
  claimed_now :
      (o : Option Entry)
      → claimed_at_of
          (some (or_fresh (first_claim t worker token now) (claim_entry worker token now) o))
        ≡ some now
  unfolding first_claim
  claimed_now none = refl
  claimed_now (some e) = refl

  find_entry-claim_title :
      (es : List Entry)
      → find_entry id (claim_title t worker token now es) ≡ (
          if t.id == id
          then some (
              or_fresh
                (first_claim t worker token now)
                (claim_entry worker token now)
                (find_entry id es))
          else find_entry id es)
  unfolding claim_title
  find_entry-claim_title es =
      find_entry-put t.id (first_claim t worker token now) (claim_entry worker token now)
        (unfold first_claim in refl) (λ e. refl) id es

  pub claim_title-same :
      (es : List Entry)
      → (t.id == id) ≡ true
      → claimed_at_of (find_entry id (claim_title t worker token now es)) ≡ some now
  claim_title-same es e = rw (find_entry-claim_title es, e) (claimed_now (find_entry id es))

  pub claim_title-other :
      (es : List Entry)
      → (t.id == id) ≡ false
      → find_entry id (claim_title t worker token now es) ≡ find_entry id es
  unfolding claim_title
  claim_title-other es e = find_entry-claim_title es ∙ rw e refl
