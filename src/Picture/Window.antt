-- ===== src/Picture/Window.antt =====
-- internal/picture/backfill.go: the daily window of the picture backfill. A time is in nanoseconds
-- since the epoch, in UTC, whose days are all of 24 hours.
pub mod Opening
use katalog_manager.Base.{
  ℕ, ◌+◌, ◌-◌, ◌*◌, ◌/◌, ◌%◌, Bool, true, false, not, ◌&&◌, ◌||◌, Option, none, some, List, [], ◌∷◌,
  keep, ltb, leb, ◌==◌, if◌then◌else◌,
}
use katalog_manager.Base.Text.{Text, trim_space, is_empty}
use katalog_manager.Library.Window.{Window as DailyWindow, window_of}

abbrev pub minute : ℕ
minute = 60000000000

abbrev pub day : ℕ
day = 86400000000000

-- Window; a zero Window is any time, one that never holds is none that could be read.
pub record Window : Type 0 where
  pub set : Bool
  pub never : Bool
  pub start : ℕ
  pub end : ℕ

abbrev pub any_time : Window
any_time = record { set = false; never = false; start = 0; end = 0 }

abbrev pub never_holds : Window
never_holds = record { set = false; never = true; start = 0; end = 0 }

abbrev pub found : Option DailyWindow → Option Window
found none = none
found (some w) = some (record { set = true; never = false; start = w.start; end = w.end })

-- ParseWindow; its expression and its times are those of library.ParseWindow. none is its error.
unfoldable pub parse_window : Text → Option Window
unfolding window_of
parse_window v =
    let t = keep (λ c. not (c == 32)) (trim_space v) in
    if is_empty t then some any_time else found (window_of t)

-- u.Hour()*60 + u.Minute()
abbrev pub minute_of : ℕ → ℕ
minute_of t = t % day / minute

-- A window that is any time.
abbrev pub is_whole : Window → Bool
is_whole w = not w.set || w.start == w.end

-- Contains
unfoldable pub contains : Window → ℕ → Bool
contains w t =
    if w.never
    then false
    else if is_whole w
    then true
    else if ltb w.start w.end
    then leb w.start (minute_of t) && ltb (minute_of t) w.end
    else leb w.start (minute_of t) || ltb (minute_of t) w.end

-- The next time after t that the clock shows m minutes: today's, or tomorrow's if that is past.
unfoldable pub next_time : ℕ → ℕ → ℕ
next_time m t = let at = t - t % day + m * minute in if leb at t then at + day else at

-- Closes; none is the zero time, of a window that never ends.
unfoldable pub closes : Window → ℕ → Option ℕ
unfolding next_time
closes w t = if is_whole w || w.never then none else some (next_time w.end t)

-- Opens
unfoldable pub opens : Window → ℕ → ℕ
unfolding contains next_time
opens w t = if contains w t || w.never then t else next_time w.start t
