-- ===== src/Picture/Settings.antt =====
-- internal/picture/backfill.go: the settings of the picture backfill and how each of their rows is read.
pub mod Sound
use katalog_manager.Base.{
  ℕ, zero, ◌+◌, ◌-◌, ◌*◌, ◌^◌, Bool, true, false, ◌&&◌, ◌||◌, Option, none, some, List, [], ◌∷◌,
  ◌++◌, ltb, leb, ◌==◌, if◌then◌else◌,
}
use katalog_manager.Base.Text.{Text, codes, trim_space, is_empty, unsigned}
use katalog_manager.Picture.Area.{hour, same_text, lower}
use katalog_manager.Picture.Window.{Window, never_holds, minute, parse_window}

-- strconv.Atoi, of a number 0 or more: digits with a sign or none. none is its error, or a number below
-- 0.
abbrev if_zero : Option ℕ → Option ℕ
if_zero (some zero) = some 0
if_zero _ = none

unfoldable pub atoi : Text → Option ℕ
unfolding unsigned
atoi [] = none
atoi (c ∷ s) =
    if c == 43 then unsigned s else if c == 45 then if_zero (unsigned s) else unsigned (c ∷ s)

-- What a setting's value is not.
pub data Expected : Type 0 where
  on_or_off a_window titles titles_an_hour a_duration : Expected

pub record Problem : Type 0 where
  pub key : Text
  pub value : Text
  pub expected : Expected

-- Settings, their problems as they are found.
pub record Settings : Type 0 where
  pub on : Bool
  pub window : Window
  pub inflight : ℕ
  pub rate : ℕ
  pub lease : ℕ
  pub problems : List Problem

-- DefaultSettings
abbrev pub default_window : Window
default_window = record { set = true; never = false; start = 1320; end = 1020 }

abbrev pub default_settings : Settings
default_settings = record {
  on = false;
  window = default_window;
  inflight = 1;
  rate = 240;
  lease = 6 * hour;
  problems = [];
}

-- bad
abbrev pub bad : Text → Text → Expected → Settings → Settings
bad key value expected s = record s {
  problems = s.problems ++ record { key = key; value = value; expected = expected } ∷ [];
}

-- A value that is not read: none is said of one that is empty.
abbrev unread : Text → Text → Text → Expected → Settings → Settings
unread key value v expected s = if is_empty v then s else bad key value expected s

unfoldable pub set_backfill : Text → Text → Settings → Settings
set_backfill key value s =
    let v = trim_space value in
    if same_text (lower v) (codes "on")
    then record s { on = true }
    else if same_text (lower v) (codes "off") || is_empty v
    then record s { on = false }
    else bad key value on_or_off s

abbrev set_window : Text → Text → Option Window → Settings → Settings
set_window key value none s = bad key value a_window (record s { window = never_holds })
set_window key value (some w) s = record s { window = w }

-- The number that a value is, if it is one and from least on.
abbrev from : ℕ → Option ℕ → Option ℕ
from least none = none
from least (some n) = if leb least n then some n else none

abbrev set_inflight : Text → Text → Option ℕ → Settings → Settings
set_inflight key value none s = unread key value (trim_space value) titles s
set_inflight key value (some n) s = record s { inflight = n }

abbrev set_rate : Text → Text → Option ℕ → Settings → Settings
set_rate key value none s = unread key value (trim_space value) titles_an_hour s
set_rate key value (some n) s = record s { rate = n }

abbrev set_lease : Text → Text → Option ℕ → Settings → Settings
set_lease key value none s = unread key value (trim_space value) a_duration s
set_lease key value (some d) s = record s { lease = d }

-- The settings' keys.
pub data Key : Type 0 where
  of_backfill of_window of_inflight of_rate of_lease other_key : Key

abbrev pub key_of : Text → Key
key_of key =
    if same_text key (codes "picture.backfill")
    then of_backfill
    else if same_text key (codes "picture.backfill.window")
    then of_window
    else if same_text key (codes "picture.backfill.inflight")
    then of_inflight
    else if same_text key (codes "picture.backfill.rate")
    then of_rate
    else if same_text key (codes "picture.backfill.lease")
    then of_lease
    else other_key

-- library.ParseDuration reads a duration, by a regular expression and time.ParseDuration: a parameter.
module _ (parse_duration : Text → Option ℕ) where
  unfoldable pub set_key : Key → Text → Text → Settings → Settings
  unfolding set_backfill parse_window atoi
  set_key of_backfill key value s = set_backfill key value s
  set_key of_window key value s = set_window key value (parse_window (trim_space value)) s
  set_key of_inflight key value s = set_inflight key value (from 1 (atoi (trim_space value))) s
  set_key of_rate key value s = set_rate key value (from 0 (atoi (trim_space value))) s
  set_key of_lease key value s =
      set_lease key value (from minute (parse_duration (trim_space value))) s
  set_key other_key key value s = s

  -- set
  unfoldable pub set : Text → Text → Settings → Settings
  unfolding set_key
  set key value s = set_key (key_of key) key value s

  -- ReadSettings, of the rows that its query finds: one of each key, by key.
  unfoldable pub set_all : List (Text × Text) → Settings → Settings
  unfolding set
  set_all [] s = s
  set_all ((key, value) ∷ rows) s = set_all rows (set key value s)

  unfoldable pub read_settings : List (Text × Text) → Settings
  unfolding set_all
  read_settings rows = set_all rows default_settings
