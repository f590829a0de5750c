-- ===== src/Auth/Rating.antt =====
-- internal/auth/rating.go: the age a caller is capped at.
pub mod Caps
use katalog_manager.Base.{
  ℕ, zero, ◌+◌, ◌-◌, ◌*◌, ◌^◌, Bool, true, false, not, ◌&&◌, ◌||◌, Option, none, some, List, [],
  ◌∷◌, ◌++◌, ltb, leb, ◌==◌, if◌then◌else◌,
}
use katalog_manager.Base.Text.{Text, codes, is_empty}

-- A claim's value, as JSON decodes it: a number is whole and not negative, or not; anything else is
-- no number.
pub data Claim : Type 0 where
  whole : ℕ → Claim
  negative_or_fraction no_number : Claim

-- math.MaxInt32
abbrev pub max_int32 : ℕ
max_int32 = 2147483647

-- wholeYears
unfoldable pub whole_years : Claim → Option ℕ
whole_years (whole n) = if ltb max_int32 n then none else some n
whole_years _ = none

-- What MaxRating reads of a principal.
pub record Viewer : Type 0 where
  pub stream : Bool
  pub stream_cap : Option ℕ
  pub claim : Option Claim

-- MaxRating: the age, none for a caller that is not capped.
unfoldable pub age_of : Option ℕ → ℕ
age_of none = 0
age_of (some age) = age

unfoldable pub claimed_age : Option Claim → Option ℕ
unfolding whole_years age_of
claimed_age none = none
claimed_age (some c) = some (age_of (whole_years c))

unfoldable pub max_rating : Option Viewer → Option ℕ
unfolding claimed_age
max_rating none = none
max_rating (some p) = if p.stream then p.stream_cap else claimed_age p.claim

-- streamCapMark
abbrev pub stream_cap_mark : Text
stream_cap_mark = codes ";max_rating="

-- What follows a prefix, none without it.
unfoldable pub after_prefix : Text → Text → Option Text
after_prefix [] s = some s
after_prefix (c ∷ p) [] = none
after_prefix (c ∷ p) (d ∷ s) = let rest = after_prefix p s in if c == d then rest else none

-- strings.LastIndex of the mark: the text before its last one, and the text after it.
abbrev pub found_here : Option Text → Option (Text × Text)
found_here none = none
found_here (some rest) = some ([], rest)

abbrev pub found_later : ℕ → Option (Text × Text) → Option (Text × Text) → Option (Text × Text)
found_later c (some (before, rest)) here = some (c ∷ before, rest)
found_later c none here = here

unfoldable pub last_mark : Text → Text → Option (Text × Text)
unfolding after_prefix
last_mark mark [] = found_here (after_prefix mark [])
last_mark mark (c ∷ s) = found_later c (last_mark mark s) (found_here (after_prefix mark (c ∷ s)))

-- strconv.Atoi of a text, where it is a whole number of years: at most one sign, digits, and no more
-- than an int64 holds; none where Atoi fails or the number is negative.
abbrev pub is_digit : ℕ → Bool
is_digit c = leb 48 c && leb c 57

abbrev pub digits_from : ℕ → Text → Option ℕ
digits_from n [] = some n
digits_from n (c ∷ s) = if is_digit c then digits_from (n * 10 + (c - 48)) s else none

abbrev pub in_int64 : Option ℕ → Option ℕ
in_int64 none = none
in_int64 (some n) = if ltb n (2 ^ 63) then some n else none

unfoldable pub digits : Text → Option ℕ
digits s = if is_empty s then none else in_int64 (digits_from 0 s)

unfoldable pub unsigned : Text → Option ℕ
unfolding digits
unsigned [] = none
unsigned (c ∷ s) =
    if c == 43
    then digits s
    else if c == 45
    then elim (digits s) [ some zero ↦ some 0 | _ ↦ none ]
    else digits (c ∷ s)

-- splitCap
abbrev pub split_at : Text → Option (Text × Text) → Text × Option ℕ
split_at user none = (user, none)
split_at user (some (subject, age)) = (subject, some (age_of (unsigned age)))

unfoldable pub split_cap : Text → Text × Option ℕ
unfolding last_mark unsigned age_of
split_cap user = split_at user (last_mark stream_cap_mark user)
