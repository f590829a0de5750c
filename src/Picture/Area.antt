-- ===== src/Picture/Area.antt =====
-- internal/picture/picture.go: the row that is kept of a picture area, its waits, and what ends or gives
-- back the claim of it. Times are in nanoseconds.
use katalog_manager.Base.{
  ℕ, ◌+◌, ◌-◌, ◌*◌, Bool, true, false, not, ◌&&◌, ◌||◌, Option, none, some, [], ◌∷◌, max, is_some,
  ltb, leb, ◌==◌, if◌then◌else◌,
}
use katalog_manager.Base.Text.{Text, codes, trim_space, is_empty}
use katalog_manager.Base.Backoff.{doubled}
use katalog_manager.Picture.Report.{
  Report, Size, Rect, Raw, raw_object, ReadKind, kind_none, kind_original, kind_package, MeasuredOn,
  Numbers, AreaState, lt_int32,
}

abbrev pub hour : ℕ
hour = 3600000000000

-- backoff and releaseBackoff
unfoldable pub backoff : ℕ → ℕ
backoff failures = doubled hour (7 * 24 * hour) failures

unfoldable pub release_backoff : ℕ → ℕ
release_backoff releases = doubled (15 * 60000000000) (24 * hour) releases

abbrev pub lease_slack : ℕ
lease_slack = 60000000000

-- clip: the longest beginning of whole characters within n bytes.
abbrev pub utf8_width : ℕ → ℕ
utf8_width c = if ltb c 0x80 then 1 else if ltb c 0x800 then 2 else if ltb c 0x10000 then 3 else 4

unfoldable pub clip : ℕ → Text → Text
clip n [] = []
clip n (c ∷ s) =
    let rest = clip (n - utf8_width c) s in if leb (utf8_width c) n then c ∷ rest else []

-- The file that was measured: an original, a version of an item, an extra's package.
pub record File : Type 0 where
  pub source : Option ℕ
  pub version : Option ℕ
  pub package_id : Option ℕ

-- A row of the areas' table: the measurement, and the claim and the counts of the backfill.
pub record Area : Type 0 where
  pub of_item : Bool
  pub item : ℕ
  pub state : AreaState
  pub frame_width : Option ℕ
  pub frame_height : Option ℕ
  pub area : Option Rect
  pub path : Option Text
  pub file : File
  pub method : Option Text
  pub reason : Option Text
  pub numbers : Numbers
  pub evidence : Option Text
  pub measured_on : Option ReadKind
  pub file_size : Option ℕ
  pub sampling : Option Text
  pub measured_at : Option ℕ
  pub claimed_at : Option ℕ
  pub claimed_by : Option ℕ
  pub claim_token : Option Text
  pub lapsed_token : Option Text
  pub failures : ℕ
  pub releases : ℕ
  pub costly_runs : ℕ
  pub next_attempt : Option ℕ
  pub modified : ℕ

abbrev pub same_text : Text → Text → Bool
same_text [] [] = true
same_text [] (c ∷ s) = false
same_text (c ∷ s) [] = false
same_text (c ∷ s) (d ∷ t) = c == d && same_text s t

-- A token that is kept is the report's.
abbrev pub is_token : Text → Option Text → Bool
is_token token none = false
is_token token (some t) = same_text token t

-- owns, of a report that gives nothing back: it names the claim that the title is under.
unfoldable pub owns : Text → Area → Bool
owns token k =
    not (is_empty token)
    && is_some k.claimed_at
    && (not (is_some k.claim_token) || is_token token k.claim_token)

-- lapsed: it names the claim whose lease ended last.
unfoldable pub lapsed : Text → Area → Bool
lapsed token k = not (is_empty token) && is_token token k.lapsed_token

-- owns, of a release: one without a token also gives back a claim without one.
unfoldable pub owns_release : Report → Area → Bool
unfolding owns
owns_release r k =
    owns (trim_space r.token) k
    || (is_empty r.token && is_some k.claimed_at && not (is_some k.claim_token))

-- claim: what the claim's fields become.
unfoldable pub end_claim : Bool → Bool → Area → Area
end_claim own lapse k = record k {
  claimed_at = if own then none else k.claimed_at;
  claimed_by = if own then none else k.claimed_by;
  claim_token = if own then none else k.claim_token;
  lapsed_token = if lapse then none else k.lapsed_token;
}

-- !now.Before(claimedat.Add(lease - leaseSlack))
abbrev pub had_lease : ℕ → ℕ → Option ℕ → Bool
had_lease lease now none = false
had_lease lease now (some t) = leb (t + lease) (now + lease_slack)

-- GREATEST, which passes over a NULL
abbrev pub greatest : Option ℕ → ℕ → Option ℕ
greatest none t = some t
greatest (some s) t = some (max s t)

-- What a release sets, of the claim's owner.
unfoldable pub release_area : ℕ → ℕ → Area → Area
unfolding release_backoff
release_area lease now k = record k {
  claimed_at = none;
  claimed_by = none;
  claim_token = none;
  releases = k.releases + 1;
  costly_runs = if had_lease lease now k.claimed_at then k.costly_runs + 1 else k.costly_runs;
  next_attempt = greatest k.next_attempt (now + release_backoff (k.releases + 1));
  modified = now;
}

-- measuredOnOf: original or package, and the original's size (a positive int64).
abbrev pub kind_of : Option MeasuredOn → ReadKind
kind_of none = kind_none
kind_of (some m) = m.kind

abbrev pub size_of : Option MeasuredOn → Option ℕ
size_of none = none
size_of (some m) = m.size

-- strings.HasSuffix of a text whose letters are made lower-case (strings.ToLower, of ASCII: no other
-- letter's lower case is one of .m3u8).
abbrev pub to_lower : ℕ → ℕ
to_lower c = if leb 65 c && leb c 90 then c + 32 else c

abbrev pub ends_in : Text → Text → Bool
ends_in suffix [] = same_text suffix []
ends_in suffix (c ∷ s) = same_text suffix (c ∷ s) || ends_in suffix s

abbrev pub lower : Text → Text
lower [] = []
lower (c ∷ s) = to_lower c ∷ lower s

unfoldable pub read_kind : Report → File → ReadKind
read_kind r f = elim (kind_of r.measured_on) [
  | kind_none ↦
      if is_some f.version || is_some f.package_id || ends_in (codes ".m3u8") (lower r.path)
      then kind_package
      else kind_original
  | k ↦ k
]

abbrev pub positive_size : Option ℕ → Option ℕ
positive_size none = none
positive_size (some n) = if leb 1 n && ltb n 0x8000000000000000 then some n else none

unfoldable pub read_size : Report → File → Option ℕ
unfolding read_kind
read_size r f = elim (read_kind r f) [
  | kind_original ↦ positive_size (size_of r.measured_on)
  | _ ↦ none
]

-- rawObject; NULLIF(method, ''); width and height
abbrev pub raw_text : Raw → Option Text
raw_text (raw_object t) = some t
raw_text _ = none

abbrev pub null_if_empty : Text → Option Text
null_if_empty t = if is_empty t then none else some t

abbrev pub size_or_none : ℕ → Option ℕ
size_or_none n = if lt_int32 0 n then some n else none

abbrev pub width : Option Size → Option ℕ
width none = none
width (some s) = size_or_none s.width

abbrev pub height : Option Size → Option ℕ
height none = none
height (some s) = size_or_none s.height
