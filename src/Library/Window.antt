-- ===== src/Library/Window.antt =====
-- internal/library/settings.go: the daily window of the re-encode queue, its parser and its test. A
-- time is the minutes since midnight that the service's local clock shows.
pub mod Clock
use katalog_manager.Base.{
  ℕ, ◌+◌, ◌-◌, ◌*◌, Bool, true, false, not, ◌&&◌, ◌||◌, Option, none, some, List, [], ◌∷◌, keep,
  ltb, leb, ◌==◌, if◌then◌else◌,
}
use katalog_manager.Base.Text.{Text, trim_space, is_empty}

-- Window; a zero Window is any time.
pub record Window : Type 0 where
  pub set : Bool
  pub start : ℕ
  pub end : ℕ

abbrev pub any_time : Window
any_time = record { set = false; start = 0; end = 0 }

-- windowRE's classes: a digit up to one given, and its value.
abbrev pub is_digit_to : ℕ → ℕ → Bool
is_digit_to most c = leb 48 c && leb c (48 + most)

-- ([01]\d|2[0-3]):([0-5]\d), without the colon
abbrev pub is_clock : ℕ → ℕ → ℕ → ℕ → Bool
is_clock a b c d =
    ((is_digit_to 1 a && is_digit_to 9 b) || (a == 50 && is_digit_to 3 b))
    && is_digit_to 5 c
    && is_digit_to 9 d

-- at, of two digits each (strconv.Atoi)
abbrev pub at : ℕ → ℕ → ℕ → ℕ → ℕ
at a b c d = ((a - 48) * 10 + (b - 48)) * 60 + ((c - 48) * 10 + (d - 48))

-- windowRE.FindStringSubmatch and the window of what it found
unfoldable pub window_of : Text → Option Window
window_of (a ∷ b ∷ x ∷ c ∷ d ∷ y ∷ e ∷ f ∷ z ∷ g ∷ h ∷ []) =
    if is_clock a b c d && is_clock e f g h && x == 58 && y == 45 && z == 58
    then some (record { set = true; start = at a b c d; end = at e f g h })
    else none
window_of _ = none

-- ParseWindow; none is its error.
unfoldable pub parse_window : Text → Option Window
unfolding window_of
parse_window v =
    let t = trim_space v in
    if is_empty t then some any_time else window_of (keep (λ c. not (c == 32)) t)

-- Contains
unfoldable pub contains : Window → ℕ → Bool
contains w now =
    if not w.set || w.start == w.end
    then true
    else if ltb w.start w.end
    then leb w.start now && ltb now w.end
    else leb w.start now || ltb now w.end
