-- ===== src/Chapters/Report.antt =====
-- internal/chapters/chapters.go: a read that the analyzer reports (Report), the state it would leave its
-- title in (Report.state), and the original it is of (sourceOf, fileOf).
use katalog_manager.Base.{
  ℕ, suc, Bool, true, false, not, ◌&&◌, ◌||◌, Option, none, some, List, [], ◌∷◌, ◌++◌, is_some, ltb,
  ◌==◌, if◌then◌else◌,
}
use katalog_manager.Base.Text.{Text, trim_space, trim_right, is_empty}
use katalog_manager.Base.Backoff.{lt_int64}
use katalog_manager.Base.Choice.{choose}
use katalog_manager.Picture.Report.{lt_int32}
use katalog_manager.Picture.Area.{same_text}
use katalog_manager.Chapters.Title.{Chapter, has_chapters}
use katalog_manager.Chapters.Read.{ReadState, state_read, state_none, state_failed}

-- ReadReport. source_id is the source it names, trimmed: none is the empty text. seconds is the float32
-- of a number that is not negative, none any other (the function seconds).
pub record ReadReport : Type 0 where
  pub path : Text
  pub source_id : Option ℕ
  pub file_size : Option ℕ
  pub found : Option ℕ
  pub error : Text
  pub transient : Bool
  pub note : Text
  pub probe : Text
  pub seconds : Option ℕ

-- Report; its chapters are none where a read failed.
pub record Report : Type 0 where
  pub read : ReadReport
  pub chapters : Option (List Chapter)
  pub token : Text
  pub released : Bool

-- Why a report can't be taken (BadReport).
pub data BadReport : Type 0 where
  no_path negative_found chapters_of_failed no_chapters no_title_read : BadReport
  bad_range : ℕ → BadReport

-- What state answers: "" of a release, a state, or an error.
pub data Outcome : Type 0 where
  release : Outcome
  leaves : ReadState → Outcome
  refused : BadReport → Outcome

abbrev pub is_bad_range : Chapter → Bool
is_bad_range c = lt_int64 c.start_ms 0 || not (lt_int64 c.start_ms c.end_ms)

-- The first chapter without 0 <= start < end, numbered from 1.
unfoldable pub first_bad : ℕ → List Chapter → Option ℕ
first_bad i [] = none
first_bad i (c ∷ cs) = let rest = first_bad (suc i) cs in if is_bad_range c then some i else rest

abbrev pub is_negative : Option ℕ → Bool
is_negative none = false
is_negative (some n) = lt_int32 n 0

unfoldable pub outcome_of : List Chapter → Outcome
unfolding first_bad
outcome_of chs = elim (first_bad 1 chs) [
  | some i ↦ refused (bad_range i)
  | none ↦ if has_chapters chs then leaves state_read else leaves state_none
]

-- The end of state, of a read that did not fail.
abbrev pub found_outcome : Option (List Chapter) → Outcome
found_outcome none = refused no_chapters
found_outcome (some chs) = outcome_of chs

-- Report.state
unfoldable pub state : Report → Outcome
unfolding outcome_of
state r =
    if r.released
    then release
    else if is_empty (trim_space r.read.path)
    then refused no_path
    else if is_negative r.read.found
    then refused negative_found
    else if not (is_empty (trim_space r.read.error))
    then if is_some r.chapters then refused chapters_of_failed else leaves state_failed
    else found_outcome r.chapters

-- The rows that sourceOf and fileOf read: the sources, the item's versions and its playback assets.
pub record Source : Type 0 where
  pub id : ℕ
  pub of_item : Bool
  pub size : Option ℕ

pub record Version : Type 0 where
  pub id : ℕ
  pub dir : Option Text
  pub is_complete : Bool
  pub sources : List ℕ

pub record Asset : Type 0 where
  pub id : ℕ
  pub is_primary : Bool
  pub path : Text
  pub source : Option ℕ
  pub size : Option ℕ

pub record Files : Type 0 where
  pub sources : List Source
  pub versions : List Version
  pub assets : List Asset

-- starts_with(path, rtrim(dir, '/') || '/'), of a folder that is set
abbrev starts_with : Text → Text → Bool
starts_with s [] = true
starts_with [] (c ∷ t) = false
starts_with (d ∷ s) (c ∷ t) = d == c && starts_with s t

unfoldable pub in_dir : Text → Option Text → Bool
in_dir path none = false
in_dir path (some dir) =
    not (is_empty dir) && starts_with path (trim_right (λ c. c == b'/') dir ++ b'/' ∷ [])

abbrev version_before : Version → Version → Bool
version_before a b =
    (a.is_complete && not b.is_complete)
    || (not (b.is_complete && not a.is_complete) && ltb a.id b.id)

abbrev pub head {ℓ} : {A : Type ℓ} → List A → Option A
head [] = none
head (x ∷ xs) = some x

abbrev find_source : (Source → Bool) → List Source → Option Source
find_source test [] = none
find_source test (s ∷ ss) = if test s then some s else find_source test ss

-- s != nil && *s > 0
abbrev pub positive : Option ℕ → Option ℕ → Option ℕ
positive none n = n
positive (some s) n = if lt_int64 0 s then some s else n

abbrev known_size : Files → ℕ → Option ℕ
known_size fs id = elim (find_source (λ s. s.id == id) fs.sources) [ none ↦ none | some s ↦ s.size ]

-- The end of fileOf: the size of the original, where the catalog knows it.
unfoldable pub sized : Files → Option ℕ → Option ℕ → Option ℕ × Option ℕ
sized fs none size = (none, size)
sized fs (some id) size = (some id, positive (known_size fs id) size)

-- fileOf
unfoldable pub file_of : Files → Text → Option ℕ × Option ℕ
unfolding sized in_dir choose
file_of fs path = elim (choose version_before 1 (λ v. in_dir path v.dir) fs.versions) [
  | v ∷ vs ↦ sized fs (head v.sources) none
  | [] ↦
      elim (choose (λ a b. ltb a.id b.id) 1 (λ a. a.is_primary && same_text a.path path)
        fs.assets) [ [] ↦ (none, none) | a ∷ rest ↦ sized fs a.source a.size ]
]

-- sourceOf
unfoldable pub source_of : Files → ReadReport → Option ℕ × Option ℕ
unfolding file_of
source_of fs r = elim r.source_id [
  | none ↦ file_of fs r.path
  | some id ↦ elim (find_source (λ s. s.of_item && s.id == id) fs.sources) [
    | some s ↦ (some id, s.size)
    | none ↦ file_of fs r.path
  ]
]
