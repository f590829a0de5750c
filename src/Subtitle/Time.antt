-- ===== src/Subtitle/Time.antt =====
-- internal/webvtt/webvtt.go: the times of a cue (millis and stamp), in milliseconds, on int64 patterns. A
-- time is the text that timingRE finds: digits, colons, and a dot or a comma.
pub mod Stamp
use katalog_manager.Base.{
  ℕ, zero, suc, ◌+◌, ◌-◌, ◌*◌, ◌/◌, ◌%◌, ◌^◌, Bool, true, false, not, ◌&&◌, Option, none, some,
  List, [], ◌∷◌, ◌++◌, map, length, bind, ltb, leb, ◌==◌, if◌then◌else◌,
}
use katalog_manager.Base.Backoff.{int64_mod, lt_int64}
use katalog_manager.Base.Text.{Text, unsigned}

-- strings.ReplaceAll(s, ",", ".")
unfoldable pub dotted : Text → Text
dotted s = map (λ c. if c == 44 then 46 else c) s

-- What stands before the last of a character, and after it.
abbrev or_here : Text → Bool → ℕ → Option (Text × Text) → Option (Text × Text)
or_here s here c (some (front, back)) = some (c ∷ front, back)
or_here s true c none = some ([], s)
or_here s false c none = none

unfoldable pub split_last : ℕ → Text → Option (Text × Text)
split_last x [] = none
split_last x (c ∷ s) = or_here s (c == x) c (split_last x s)

-- strings.Split
abbrev onto : ℕ → List Text → List Text
onto c [] = (c ∷ []) ∷ []
onto c (f ∷ fs) = (c ∷ f) ∷ fs

unfoldable pub split : ℕ → Text → List Text
split x [] = [] ∷ []
split x (c ∷ s) = let rest = split x s in if c == x then [] ∷ rest else onto c rest

-- for len(frac) < 3 { frac += "0" }
abbrev pub pad_fraction : Text → Text
pad_fraction [] = 48 ∷ 48 ∷ 48 ∷ []
pad_fraction (a ∷ []) = a ∷ 48 ∷ 48 ∷ []
pad_fraction (a ∷ b ∷ []) = a ∷ b ∷ 48 ∷ []
pad_fraction (a ∷ b ∷ c ∷ s) = a ∷ b ∷ c ∷ s

-- The loop over the fields; first is that it is the first.
abbrev add_field : Bool → ℕ → Option ℕ → (ℕ → Option ℕ) → Option ℕ
add_field first secs none next = none
add_field first secs (some n) next =
    let rest = next ((secs * 60 + n) % int64_mod) in if not first && ltb 59 n then none else rest

unfoldable pub seconds_of : Bool → ℕ → List Text → Option ℕ
unfolding unsigned
seconds_of first secs [] = some secs
seconds_of first secs (f ∷ fs) =
    add_field first secs (unsigned f) (λ secs'. seconds_of false secs' fs)

unfoldable pub with_fraction : Option (Text × Text) → Option ℕ
unfolding unsigned seconds_of split
with_fraction none = none
with_fraction (some (front, frac)) = bind (unsigned (pad_fraction frac)) (λ ms.
    bind (seconds_of true 0 (split 58 front)) (λ secs. some ((secs * 1000 + ms) % int64_mod)))

-- millis; none is its error.
unfoldable pub millis : Text → Option ℕ
unfolding dotted split_last with_fraction
millis s = with_fraction (split_last 46 (dotted s))

-- A number's decimal digits, of no more than k of them; of an int64, 19 at most.
unfoldable pub decimal : ℕ → ℕ → Text
decimal zero n = []
decimal (suc k) n =
    let rest = decimal k (n / 10) in if ltb n 10 then (48 + n) ∷ [] else rest ++ (48 + n % 10) ∷ []

abbrev pub zeros : ℕ → Text
zeros zero = []
zeros (suc n) = 48 ∷ zeros n

-- fmt's %0wd of a number, which is below 0 when neg is said and it is not 0.
unfoldable pub padded : ℕ → Bool → ℕ → Text
unfolding decimal
padded w neg n =
    let ds = decimal 19 n in
    if neg && ltb 0 n then 45 ∷ zeros (w - 1 - length ds) ++ ds else zeros (w - length ds) ++ ds

-- The sign and the size of an int64.
abbrev pub is_negative : ℕ → Bool
is_negative ms = leb (2 ^ 63) ms

abbrev pub size : ℕ → ℕ
size ms = if is_negative ms then int64_mod - ms else ms

-- stamp; Go's quotients and remainders are of the size, with the number's sign.
unfoldable pub stamp : ℕ → Text
unfolding padded
stamp ms =
    let neg = is_negative ms in
    let n = size ms in
    padded 2 neg (n / 3600000)
    ++ 58 ∷ padded 2 neg (n % 3600000 / 60000)
    ++ 58 ∷ padded 2 neg (n % 60000 / 1000)
    ++ 46 ∷ padded 3 neg (n % 1000)
