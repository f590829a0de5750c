-- ===== src/Chapters/Waits.antt =====
-- internal/chapters/backfill.go: what the backfill sets of a title's read row: a hand-out, a claim whose
-- lease ended (expire), and a title that could not be handed out (transient).
use katalog_manager.Base.{ℕ, ◌+◌, Bool, true, false, none, some, leb, if◌then◌else◌}
use katalog_manager.Base.Text.{Text}
use katalog_manager.Picture.Area.{clip}
use katalog_manager.Chapters.Read.{Read, ReadState, state_pending, state_failed, backoff, add_one}

abbrev pub fails_first : ReadState → ReadState
fails_first state_pending = state_failed
fails_first s = s

abbrev is_open : ReadState → Bool
is_open state_pending = true
is_open state_failed = true
is_open _ = false

-- Its claim is handed out and its lease ended: claimedat <= now - lease.
unfoldable pub is_lost : ℕ → ℕ → Read → Bool
is_lost now lease r = elim r.claimed_at [ none ↦ false | some t ↦ leb (t + lease) now ]

-- expire, of one such title; lost is the reason it gives.
unfoldable pub expire_row : Text → ℕ → Read → Read
expire_row lost now r = record r {
  claimed_at = none;
  claimed_by = none;
  lapsed_token = r.claim_token;
  lapsed_claimed = r.claimed_at;
  claim_token = none;
  transients = add_one r.transients;
  next_attempt = some (now + backoff (add_one r.transients));
  state = fails_first r.state;
  reason = if is_open r.state then some lost else r.reason;
  modified = now;
}

-- transient, of a title with a row; one without has a new row, of the state failed.
unfoldable pub transient_row : Text → ℕ → Read → Read
transient_row why now r = record r {
  reason = some (clip 500 why);
  transients = add_one r.transients;
  next_attempt = some (now + backoff (add_one r.transients));
  modified = now;
  state = fails_first r.state;
}

-- The hand-out of a title to a worker, with its token.
unfoldable pub hand_out_row : Text → Text → ℕ → Read → Read
hand_out_row worker token now r = record r {
  claimed_at = some now;
  claimed_by = some (clip 255 worker);
  claim_token = some token;
  last_claimed = some now;
  attempts = add_one r.attempts;
  modified = now;
}
