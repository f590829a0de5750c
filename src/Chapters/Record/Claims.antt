-- ===== src/Chapters/Record/Claims.antt =====
-- internal/chapters/chapters.go: which claim a report is of.
use katalog_manager.Base.{
  ℕ, Bool, true, false, not, ◌&&◌, Option, none, some, is_some, ltb, if◌then◌else◌,
}
use katalog_manager.Base.Text.{Text, is_empty}
use katalog_manager.Picture.Area.{is_token}
use katalog_manager.Chapters.Read.{Read, ReadState, state_read, state_none, state_held}

-- owns, lapsed and claimed, of the report's token, trimmed.
unfoldable pub owns : Text → Read → Bool
owns token k = not (is_empty token) && is_some k.claimed_at && is_token token k.claim_token

unfoldable pub lapsed : Text → Read → Bool
lapsed token k = not (is_empty token) && is_token token k.lapsed_token

unfoldable pub claimed : Text → Read → Option ℕ
unfolding owns lapsed
claimed token k =
    if owns token k then k.claimed_at else if lapsed token k then k.lapsed_claimed else none

unfoldable pub is_stale : Text → Read → Bool
unfolding owns lapsed
is_stale token k = not (is_empty token) && not (owns token k) && not (lapsed token k)

abbrev is_later : Option ℕ → Option ℕ → Bool
is_later (some c) (some r) = ltb c r
is_later _ r = false

abbrev is_settling : ReadState → Bool
is_settling state_read = true
is_settling state_none = true
is_settling state_held = true
is_settling _ = false

unfoldable pub is_newer : Text → Read → Bool
unfolding claimed
is_newer token k = is_later (claimed token k) k.read_at && is_settling k.state
