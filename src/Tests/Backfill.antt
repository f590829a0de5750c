-- ===== src/Tests/Backfill.antt =====
-- Cases of the picture backfill's theorems.
use katalog_manager.Base.{
  some, ℕ, ◌+◌, ◌*◌, ◌≤◌, ◌≡◌, refl, true, false, Option, none, List, [], ◌∷◌, arith, length, All,
  keep, count, ◌==◌, if◌then◌else◌, map,
}
use katalog_manager.Base.Choice.{choose, sort_by, insert_by}
use katalog_manager.Base.Text.{Text, codes, trim_space, trim_left, trim_right, is_space}
use katalog_manager.Library.Window.{window_of}
use katalog_manager.Picture.Area.{hour, clip}
use katalog_manager.Picture.Window.{day, contains, closes, next_time, parse_window}
use katalog_manager.Picture.Window.Opening.{IsPart}
use katalog_manager.Picture.Settings.{Settings, default_settings, default_window, read_settings}
use katalog_manager.Picture.Settings.Sound.{IsSound, read_settings-IsSound}
use katalog_manager.Picture.Backfill.{Title, movie, find_entry, expire, fail, claim_title, put}
use katalog_manager.Picture.Candidates.{
  candidates, is_candidate, stands, goes_before, told_otherwise,
}
use katalog_manager.Picture.Claim.{
  Catalog, at, missing, claim, claim_at_pace, hand_out, next_title, deadline_of,
}
use katalog_manager.Picture.Claim.Cases.{looked_at}
use katalog_manager.Picture.Claim.Answer.{claim-progress, claim-Answers, Answers, any_file}
use katalog_manager.Picture.Claim.Accounts.{Accounts, claim-Accounts}
use katalog_manager.Picture.Claim.Free.{claim-IsFree, IsFree}

-- 23:00 of the second day, within the default window, and 18:00, which is not.
abbrev late_evening : ℕ
late_evening = day + 23 * hour

abbrev evening : ℕ
evening = day + 18 * hour

default_window-IsPart : IsPart default_window
default_window-IsPart = record {
  is_set = refl;
  holds_some = refl;
  differ = omega arith;
  start_in = omega arith;
  end_in = omega arith;
}

abbrev setting_rows : List (Text × Text)
setting_rows =
    (codes "picture.backfill", codes "on")
    ∷ (codes "picture.backfill.inflight", codes "2")
    ∷ (codes "picture.backfill.window", codes "late")
    ∷ []

abbrev no_duration : Text → Option ℕ
no_duration t = none

read_settings-IsSound_example : IsSound (read_settings no_duration setting_rows)
read_settings-IsSound_example = read_settings-IsSound no_duration setting_rows

abbrev film : Title
film = record {
  id = 1;
  item = 1;
  is_extra = false;
  of_type = movie;
  duration = none;
  original = true;
  frame = 0;
  completed = none;
  rank = 0;
}

-- A catalog of two films, one without a file.
abbrev catalog : Catalog
catalog = record {
  titles = film ∷ record film { id = 2; item = 2 } ∷ [];
  current = [];
  costs = λ e. false;
  file_of = λ t. if t.id == 1 then at (codes "/film") else missing (codes "it has no original");
  token = λ t. codes "token";
  late = λ lease. codes "late";
}

abbrev on : Settings
on = record default_settings { on = true }

on-IsSound : IsSound on
on-IsSound = record {
  of_day = (omega arith, omega arith);
  some_inflight = omega arith;
  lease_long = omega arith;
}

film_looked_at :
    any_file catalog (
      looked_at catalog on 5
        (codes "m")
        late_evening
        (expire catalog.late (6 * hour) late_evening []))
    ≡ true
unfolding looked_at candidates choose sort_by insert_by is_candidate stands goes_before
    told_otherwise keep expire count trim_space trim_left trim_right is_space clip
film_looked_at = refl

claim-progress_example : 1 ≤ length (claim catalog on 7 5 (codes "m") late_evening []).1.items
claim-progress_example =
    claim-progress catalog on 7 5 (codes "m") late_evening [] refl (unfold contains in refl)
      (unfold expire count in omega arith) (unfold expire count in omega arith) film_looked_at

claim-Answers_example : Answers on late_evening (claim catalog on 7 5 (codes "m") late_evening []).1
claim-Answers_example = claim-Answers catalog on 7 5 (codes "m") late_evening [] on-IsSound

claim-IsFree_example :
    All
      (λ j. IsFree late_evening (find_entry j.id []))
      (claim catalog on 7 5 (codes "m") late_evening []).1.items
claim-IsFree_example = claim-IsFree catalog on 7 5 (codes "m") late_evening []

default_window_read : parse_window (codes "22:00-17:00") ≡ some default_window
unfolding parse_window trim_space trim_left trim_right is_space keep window_of
default_window_read = refl

-- The film with a file is handed out, until the window closes.
film_claimed :
    let a = (claim catalog on 7 5 (codes "m") late_evening []).1 in
    (map (λ j. j.id) a.items ≡ 1 ∷ []) × (a.deadline ≡ some (late_evening + 6 * hour))
unfolding claim claim_at_pace candidates choose sort_by insert_by is_candidate stands goes_before
    told_otherwise keep expire count trim_space trim_left trim_right is_space clip contains hand_out
    next_title fail claim_title put deadline_of closes next_time
film_claimed = (refl, refl)

claim-Accounts_example :
    Accounts late_evening 1 []
      (claim catalog on 7 5 (codes "m") late_evening []).0
      (claim catalog on 7 5 (codes "m") late_evening []).1.items
claim-Accounts_example = claim-Accounts catalog on 7 5 (codes "m") late_evening 1 []
