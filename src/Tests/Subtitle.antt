-- ===== src/Tests/Subtitle.antt =====
-- Cases of the theorems on a subtitle's times, and a run past int64.
use katalog_manager.Base.{◌-◌, ◌^◌, ◌≡◌, refl, some, arith}
use katalog_manager.Base.Text.{codes}
use katalog_manager.Subtitle.Time.{millis, stamp}
use katalog_manager.Subtitle.Time.Stamp.{millis-stamp}

millis-stamp_example : millis (stamp 3723004) ≡ some 3723004
millis-stamp_example = millis-stamp 3723004 (omega arith)

stamp_written : stamp 3723004 ≡ codes "01:02:03.004"
unfolding stamp
stamp_written = refl

-- More hours than int64 has milliseconds for are written as a time below 0.
millis_past : millis (codes "2562047788016:00:00.000") ≡ some (2 ^ 64 - 9223372036851951616)
unfolding millis
millis_past = refl

stamp_past : stamp (2 ^ 64 - 9223372036851951616) ≡ codes "-2562047788014:-25:-51.-616"
unfolding stamp
stamp_past = refl
