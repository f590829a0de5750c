-- ===== src/Processing/Vocab.antt =====
-- internal/processing/steps.go: the words of the step table. A text that is none of them is refused
-- (ErrBadStep, ErrBadStatus) before anything is written, so the rows hold these alone.
use Prim.Native.String.{String}
use text.Mathlib.Text.{◌==◌}
use mathlib.Core.Bool.{Bool, true, false}
use mathlib.Core.Option.{Option, none, some}
use mathlib.Core.List.{List, [], ◌∷◌}
use katalog_manager.Base.{if◌then◌else◌}

pub data Status : Type 0 where
  pending in_progress done failed skipped not_applicable : Status

-- pack is the step "package", which is a reserved word here.
pub data Step : Type 0 where
  scan tmdb tidb chapter chromaprint blackframe silence subtitle transcode pack takein retire : Step

abbrev pub status_name : Status → String
status_name pending = "pending"
status_name in_progress = "in_progress"
status_name done = "done"
status_name failed = "failed"
status_name skipped = "skipped"
status_name not_applicable = "not_applicable"

abbrev pub step_name : Step → String
step_name scan = "scan"
step_name tmdb = "tmdb"
step_name tidb = "tidb"
step_name chapter = "chapter"
step_name chromaprint = "chromaprint"
step_name blackframe = "blackframe"
step_name silence = "silence"
step_name subtitle = "subtitle"
step_name transcode = "transcode"
step_name pack = "package"
step_name takein = "takein"
step_name retire = "retire"

-- StepOrder: every step, in the order the pipeline runs them.
abbrev pub step_order : List Step
step_order =
    scan ∷ tmdb ∷ tidb ∷ chapter ∷ chromaprint ∷ blackframe ∷ silence ∷ subtitle ∷ transcode ∷ pack
    ∷ takein ∷ retire ∷ []

abbrev pub statuses : List Status
statuses = pending ∷ in_progress ∷ done ∷ failed ∷ skipped ∷ not_applicable ∷ []

-- OriginalSteps: the steps whose workers read a title's original.
abbrev pub original_steps : List Step
original_steps =
    chapter ∷ chromaprint ∷ blackframe ∷ silence ∷ subtitle ∷ transcode ∷ pack ∷ takein ∷ []

unfoldable pub find_name {ℓ} : {A : Type ℓ} → (A → String) → String → List A → Option A
find_name name s [] = none
find_name name s (x ∷ xs) = if name x == s then some x else find_name name s xs

-- validSteps[s]: the step that a text names.
unfoldable pub valid_step : String → Option Step
unfolding find_name
valid_step s = find_name step_name s step_order

-- validStatuses[s]
unfoldable pub valid_status : String → Option Status
unfolding find_name
valid_status s = find_name status_name s statuses

abbrev pub is_failed : Status → Bool
is_failed failed = true
is_failed _ = false

abbrev pub is_in_progress : Status → Bool
is_in_progress in_progress = true
is_in_progress _ = false

abbrev pub is_pending : Status → Bool
is_pending pending = true
is_pending _ = false

-- status IN ('done', 'failed', 'skipped'), the statuses that end a run.
abbrev pub ends_run : Status → Bool
ends_run done = true
ends_run failed = true
ends_run skipped = true
ends_run _ = false

-- status IN ('done', 'skipped', 'not_applicable'), which end the failures in a row.
abbrev pub ends_failures : Status → Bool
ends_failures done = true
ends_failures skipped = true
ends_failures not_applicable = true
ends_failures _ = false

abbrev pub is_scan : Step → Bool
is_scan scan = true
is_scan _ = false

unfoldable pub same_step : Step → Step → Bool
same_step scan scan = true
same_step tmdb tmdb = true
same_step tidb tidb = true
same_step chapter chapter = true
same_step chromaprint chromaprint = true
same_step blackframe blackframe = true
same_step silence silence = true
same_step subtitle subtitle = true
same_step transcode transcode = true
same_step pack pack = true
same_step takein takein = true
same_step retire retire = true
same_step _ _ = false
