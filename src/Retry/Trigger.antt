-- ===== src/Retry/Trigger.antt =====
-- internal/retry/retry.go: the event that starts a step's worker (Trigger), and who may be retried.
use katalog_manager.Base.{ℕ, Bool, Option, none, some, List, keep, is_some, ◌&&◌, ltb}
use katalog_manager.Processing.Vocab.{
  Step, scan, tmdb, tidb, chapter, chromaprint, blackframe, silence, subtitle, transcode, pack,
  takein, retire, step_order,
}
use katalog_manager.Processing.Policy.{Policy}

-- The topics of the pipeline's events, as internal/events names them.
pub data Topic : Type 0 where
  discovered enriched analyzed transcoded : Topic

-- The step an event names as the one it unblocks.
pub data Next : Type 0 where
  next_tmdb next_analyze next_transcode next_package next_takein : Next

-- Trigger
unfoldable pub trigger : Step → Option (Topic × Next)
trigger scan = some (discovered, next_tmdb)
trigger tmdb = some (discovered, next_tmdb)
trigger tidb = some (enriched, next_analyze)
trigger chapter = some (enriched, next_analyze)
trigger chromaprint = some (enriched, next_analyze)
trigger blackframe = some (enriched, next_analyze)
trigger silence = some (enriched, next_analyze)
trigger subtitle = some (enriched, next_analyze)
trigger transcode = some (analyzed, next_transcode)
trigger pack = some (transcoded, next_package)
trigger takein = some (transcoded, next_takein)
trigger retire = none

-- triggered
unfoldable pub triggered : List Step
unfolding trigger
triggered = keep (λ s. is_some (trigger s)) step_order

-- automatic: whether the sweep sends due retries and reaps by itself.
unfoldable pub automatic : ℕ → Policy → Bool
automatic interval p = ltb 0 interval && ltb 1 p.max_attempts
