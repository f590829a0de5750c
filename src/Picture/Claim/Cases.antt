-- ===== src/Picture/Claim/Cases.antt =====
-- The cases of a claim: none is handed out, or there is room.
use katalog_manager.Base.{ℕ, ◌-◌, ◌*◌, ◌≡◌, true, List, min, max, leb, ◌==◌, Bool-cases, inl, inr}
use katalog_manager.Base.Text.{Text, trim_space}
use katalog_manager.Picture.Area.{clip}
use katalog_manager.Picture.Window.{minute, contains, opens}
use katalog_manager.Picture.Settings.{Settings}
use katalog_manager.Picture.Backfill.{Entry, Title, expire}
use katalog_manager.Picture.Candidates.{candidates}
use katalog_manager.Picture.Claim.{
  Catalog, Job, Why, Claim, inflight, recent, hand_out, deadline_of, answer, claim_at_pace, claim,
  idle, in_flight, rate_reached, until_room, oldest, is_off, outside_window, rate_is_0,
}

-- How many titles there is room for, and the candidates that a claim looks at then.
abbrev pub room : Settings → ℕ → ℕ → List Entry → ℕ
room s limit now es = min (min (max limit 1) (s.inflight - inflight es)) (s.rate - recent now es)

unfoldable pub looked_at : Catalog → Settings → ℕ → Text → ℕ → List Entry → List Title
unfolding candidates
looked_at c s limit method now es =
    candidates c.costs c.current (clip 32 (trim_space method)) now (room s limit now es * 8) es
      c.titles

module _ {κ} (P : List Entry × Claim → Type κ) (c : Catalog) (s : Settings) (worker limit : ℕ)
    (method : Text) (now : ℕ) where
  -- What is handed out when there is room.
  abbrev pub out : List Entry → List Entry × List Job
  out es =
      hand_out c worker now (deadline_of s now).1 es (looked_at c s limit method now es)
        (room s limit now es) es

  pub claim_at_pace-cases :
      (es : List Entry)
      → ((why : Why) (after : ℕ) → P (es, idle why after))
      → P ((out es).0, answer (looked_at c s limit method now es) (deadline_of s now).0 (out es).1)
      → P (claim_at_pace c s worker limit method now es)
  unfolding claim_at_pace looked_at
  claim_at_pace-cases es none_out some_out = elim (Bool-cases (leb s.inflight (inflight es))) [
    | inl full ↦ rw full (none_out (in_flight (inflight es)) minute)
    | inr e ↦ rw e (elim (Bool-cases (leb s.rate (recent now es))) [
      | inl used ↦
          rw used (none_out (rate_reached (recent now es)) (until_room now (oldest now es)))
      | inr e' ↦ rw e' some_out
    ])
  ]

  pub claim-cases :
      (es : List Entry)
      → ((why : Why) (after : ℕ) → P (es, idle why after))
      → (contains s.window now ≡ true
          → P (claim_at_pace c s worker limit method now (expire c.late s.lease now es)))
      → P (claim c s worker limit method now es)
  unfolding claim
  claim-cases es none_out at_pace = elim (Bool-cases s.on) [
    | inr off ↦ rw off (none_out is_off (15 * minute))
    | inl on ↦ rw on (elim (Bool-cases (contains s.window now)) [
      | inr out ↦ rw out (none_out outside_window (opens s.window now - now))
      | inl holds ↦ rw holds (elim (Bool-cases (s.rate == 0)) [
        | inl z ↦ rw z (none_out rate_is_0 (15 * minute))
        | inr z ↦ rw z (at_pace holds)
      ])
    ])
  ]
