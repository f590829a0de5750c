-- ===== src/Auth/Rating/Caps.antt =====
-- A cap gone wrong shows less, never more.
use katalog_manager.Base.{
  ℕ, ◌≡◌, ◌≤◌, refl, true, false, none, some, [], ◌∷◌, ◌++◌, arith, ltb, All, if◌then◌else◌,
}
use katalog_manager.Base.Text.{Text}
use katalog_manager.Auth.Rating.{
  Claim, whole, negative_or_fraction, no_number, Viewer, max_rating, claimed_age, whole_years,
  age_of, max_int32, split_cap, last_mark, stream_cap_mark, is_digit, unsigned, after_prefix,
}

-- The years that a claim's value says, 0 for one that says none.
abbrev pub says_years : Claim → ℕ
says_years (whole n) = n
says_years _ = 0

-- A bearer token that has the claim is capped, at no more than the years that the claim says, and at 0
-- if it says none; never above what an int32 holds.
pub max_rating-claim :
    (p : Viewer) (c : Claim)
    → p.stream ≡ false
    → p.claim ≡ some c
    → (age : ℕ) × (max_rating (some p) ≡ some age) × (age ≤ says_years c) × (age ≤ max_int32)
unfolding max_rating claimed_age whole_years age_of
max_rating-claim p (whole n) hs hc =
    rw (hs, hc) ((if ltb max_int32 n then 0 else n), ground arith, ground arith, ground arith)
max_rating-claim p negative_or_fraction hs hc = rw (hs, hc) (0, refl, omega arith, omega arith)
max_rating-claim p no_number hs hc = rw (hs, hc) (0, refl, omega arith, omega arith)

-- No mark begins in a text of digits.
last_mark-digits : (d : Text) → All (λ c. is_digit c ≡ true) d → last_mark stream_cap_mark d ≡ none
unfolding last_mark after_prefix
last_mark-digits [] a = refl
last_mark-digits (c ∷ d) (h, a) = let rest = last_mark-digits d a in rw rest (ground arith)

last_mark-here :
    (d : Text)
    → All (λ c. is_digit c ≡ true) d
    → last_mark stream_cap_mark (stream_cap_mark ++ d) ≡ some ([], d)
unfolding last_mark after_prefix
last_mark-here d a = rw (last_mark-digits d a) refl

last_mark-append :
    (s d : Text)
    → All (λ c. is_digit c ≡ true) d
    → last_mark stream_cap_mark (s ++ (stream_cap_mark ++ d)) ≡ some (s, d)
unfolding last_mark
last_mark-append [] d a = last_mark-here d a
last_mark-append (c ∷ s) d a = rw (last_mark-append s d a) refl

-- The user part of a capped viewer's token, a subject, the mark and an age in digits, is split into
-- that subject and that age, also when the subject holds the mark itself.
pub split_cap-mark :
    (subject age : Text) (n : ℕ)
    → All (λ c. is_digit c ≡ true) age
    → unsigned age ≡ some n
    → split_cap (subject ++ (stream_cap_mark ++ age)) ≡ (subject, some n)
unfolding split_cap age_of
split_cap-mark subject age n a h = rw (last_mark-append subject age a) (rw h refl)
