-- ===== src/Tests/HandOut.antt =====
-- Cases of the chapters' hand-out.
use katalog_manager.Base.{
  ℕ, ◌-◌, ◌*◌, ◌≤◌, ◌≡◌, refl, true, false, none, some, [], ◌∷◌, max, length, All, ◌==◌,
  if◌then◌else◌, count, keep,
}
use katalog_manager.Base.Choice.{choose, sort_by, insert_by}
use katalog_manager.Base.Text.{codes}
use katalog_manager.Picture.Area.{hour}
use katalog_manager.Picture.Window.{minute, any_time}
use katalog_manager.Base.Backoff.{doubled, double_while}
use katalog_manager.Chapters.Read.{new_read, backoff}
use katalog_manager.Chapters.Waits.{is_lost, expire_row, transient_row, hand_out_row}
use katalog_manager.Chapters.HandOut.{
  Settings, Tables, Missing, at, absent, expire, waiting, is_ready, goes_before, look_for,
  next_title, pass_over, give, put_read,
}
use katalog_manager.Chapters.HandOut.Turn.{
  Catalog, inflight, recent, hand_out, hand_out_at, hand_out_n, answer, jobs_of, forget,
}
use katalog_manager.Chapters.HandOut.Pace.{hand_out-pace}
use katalog_manager.Chapters.HandOut.Ready.{IsReady, hand_out-IsReady}

abbrev noon : ℕ
noon = 1000 * hour

abbrev two_at_once : Settings
two_at_once = record {
  on = true;
  window = any_time;
  inflight = 2;
  rate = 3;
  records = 60;
  lease = 30 * minute;
}

abbrev film : Missing
film = record { id = 1; is_movie = true; source = 11; duration = none; packaged = true }

abbrev episode : Missing
episode = record { id = 2; is_movie = false; source = 12; duration = none; packaged = true }

abbrev other_film : Missing
other_film = record { id = 3; is_movie = true; source = 13; duration = none; packaged = true }

-- Three titles, of which the film has no original on the disk.
abbrev three_titles : Catalog
three_titles = record {
  titles = episode ∷ film ∷ other_film ∷ [];
  missing = 3;
  look = λ t. if t.id == 1 then absent (codes "gone") else at (codes "/media/film.mkv");
  token = λ t. codes "token";
  lost = codes "its run did not report back within 30m";
  stalled = false;
}

-- The records of all three are read; a run whose lease has ended held the other film.
abbrev three_reads : Tables
three_reads = record {
  reads =
      record { id = 1; read = record (new_read 0) { record_source = some 11 } }
      ∷ record { id = 2; read = record (new_read 0) { record_source = some 12 } }
      ∷ record {
        id = 3;
        read = record (new_read 0) { record_source = some 13; claimed_at = some (noon - hour) };
      }
      ∷ [];
  claims = record { item = 3; at = noon - hour } ∷ [];
}

episode_handed :
    jobs_of (hand_out three_titles two_at_once (codes "w") 4 noon three_reads).1
    ≡ record {
      id = 2;
      is_movie = false;
      path = codes "/media/film.mkv";
      source = 12;
      duration = none;
      token = codes "token";
    }
      ∷ []
unfolding hand_out hand_out_at hand_out_n answer expire waiting is_ready goes_before look_for
    next_title pass_over give put_read choose sort_by insert_by forget count keep is_lost expire_row
    transient_row hand_out_row backoff double_while doubled new_read
episode_handed = refl

hand_out-pace_example :
    let out = hand_out three_titles two_at_once (codes "w") 4 noon three_reads in
    (inflight out.0 ≤ max (inflight three_reads) 2)
    × (recent noon out.0 ≤ max (recent noon three_reads) 3)
    × (length (jobs_of out.1) ≤ max 4 1)
hand_out-pace_example = hand_out-pace three_titles two_at_once (codes "w") 4 noon three_reads

hand_out-IsReady_example :
    All
      (IsReady three_titles.look false noon
        (expire three_titles.lost (30 * minute) noon three_reads.reads))
      (jobs_of (hand_out three_titles two_at_once (codes "w") 4 noon three_reads).1)
hand_out-IsReady_example = hand_out-IsReady three_titles two_at_once (codes "w") 4 noon three_reads
