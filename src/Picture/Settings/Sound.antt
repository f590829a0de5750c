-- ===== src/Picture/Settings/Sound.antt =====
-- What the settings are, whatever their rows hold.
use katalog_manager.Base.{
  ℕ, ◌≤◌, ◌<◌, ◌≡◌, Option, none, some, List, [], ◌∷◌, arith, keep, ◌==◌, not, Bool-cases,
  Option-cases, inl, inr,
}
use katalog_manager.Base.Text.{Text, trim_space, is_empty}
use katalog_manager.Library.Window.{window_of}
use katalog_manager.Library.Window.Clock.{window_of-bounds}
use katalog_manager.Picture.Window.{Window, minute, found, parse_window}
use katalog_manager.Picture.Settings.{
  Settings, set_backfill, atoi, from, set, set_all, read_settings, set_key, Key, key_of,
  of_backfill, of_window, of_inflight, of_rate, of_lease, other_key, set_window, set_inflight,
  set_rate, set_lease, default_settings,
}

-- A window's times are of the day.
abbrev pub OfDay : Window → Type 0
OfDay w = (w.start < 1440) × (w.end < 1440)

found-OfDay : (t : Text) (w : Window) → found (window_of t) ≡ some w → OfDay w
found-OfDay t w h = elim (Option-cases (window_of t)) [
  | inl e ↦ (let h' = rw e at h in absurd (cc h'))
  | inr (d, e) ↦ (let h' = rw e at h in let b = window_of-bounds t d e in ground arith)
]

parse_window-OfDay : (v : Text) (w : Window) → parse_window v ≡ some w → OfDay w
unfolding parse_window
parse_window-OfDay v w h = elim (Bool-cases (is_empty (keep (λ c. not (c == 32)) (trim_space v)))) [
  | inl e ↦ (let h' = rw e at h in ground arith)
  | inr e ↦ (let h' = rw e at h in found-OfDay (keep (λ c. not (c == 32)) (trim_space v)) w h')
]

-- What the pace and the leases of the backfill need of its settings.
pub record IsSound (s : Settings) : Type 0 where
  pub of_day : OfDay s.window
  pub some_inflight : 1 ≤ s.inflight
  pub lease_long : minute ≤ s.lease

set_window-IsSound :
    (key value v : Text) (s : Settings)
    → IsSound s
    → IsSound (set_window key value (parse_window v) s)
set_window-IsSound key value v s p = elim (Option-cases (parse_window v)) [
  | inl e ↦ rw e (record {
    of_day = (omega arith, omega arith);
    some_inflight = p.some_inflight;
    lease_long = p.lease_long;
  })
  | inr (w, e) ↦ rw e (record {
    of_day = parse_window-OfDay v w e;
    some_inflight = p.some_inflight;
    lease_long = p.lease_long;
  })
]

set_backfill-IsSound :
    (key value : Text) (s : Settings) → IsSound s → IsSound (set_backfill key value s)
unfolding set_backfill
set_backfill-IsSound key value s p = ground arith

set_inflight-IsSound :
    (key value : Text) (o : Option ℕ) (s : Settings)
    → IsSound s
    → IsSound (set_inflight key value (from 1 o) s)
set_inflight-IsSound key value none s p = ground arith
set_inflight-IsSound key value (some n) s p = ground arith

set_rate-IsSound :
    (key value : Text) (o : Option ℕ) (s : Settings)
    → IsSound s
    → IsSound (set_rate key value (from 0 o) s)
set_rate-IsSound key value none s p = ground arith
set_rate-IsSound key value (some n) s p = ground arith

set_lease-IsSound :
    (key value : Text) (o : Option ℕ) (s : Settings)
    → IsSound s
    → IsSound (set_lease key value (from minute o) s)
set_lease-IsSound key value none s p = ground arith
set_lease-IsSound key value (some n) s p = ground arith

module _ (parse_duration : Text → Option ℕ) where
  set_key-IsSound :
      (k : Key) (key value : Text) (s : Settings)
      → IsSound s
      → IsSound (set_key parse_duration k key value s)
  unfolding set_key
  set_key-IsSound of_backfill key value s p = set_backfill-IsSound key value s p
  set_key-IsSound of_window key value s p = set_window-IsSound key value (trim_space value) s p
  set_key-IsSound of_inflight key value s p =
      set_inflight-IsSound key value (atoi (trim_space value)) s p
  set_key-IsSound of_rate key value s p = set_rate-IsSound key value (atoi (trim_space value)) s p
  set_key-IsSound of_lease key value s p =
      set_lease-IsSound key value (parse_duration (trim_space value)) s p
  set_key-IsSound other_key key value s p = p

  set_all-IsSound :
      (rows : List (Text × Text)) (s : Settings)
      → IsSound s
      → IsSound (set_all parse_duration rows s)
  unfolding set_all
  set_all-IsSound [] s p = p
  set_all-IsSound ((key, value) ∷ rows) s p =
      set_all-IsSound rows (set parse_duration key value s)
        (unfold set in set_key-IsSound (key_of key) key value s p)

  -- Whatever the rows of the settings hold, the settings that are read have a window whose times are of
  -- the day, let one title at least be in flight, and have a lease of a minute or more.
  pub read_settings-IsSound :
      (rows : List (Text × Text)) → IsSound (read_settings parse_duration rows)
  unfolding read_settings
  read_settings-IsSound rows = set_all-IsSound rows default_settings (record {
    of_day = (omega arith, omega arith);
    some_inflight = omega arith;
    lease_long = omega arith;
  })
