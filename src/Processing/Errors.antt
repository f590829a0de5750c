-- ===== src/Processing/Errors.antt =====
-- internal/processing/errors.go: a step's error as the table keeps it. The texts are valid UTF-8, as
-- strings.ToValidUTF8 leaves them, in code points. Redact is calls of the regexp package alone: a
-- parameter.
pub mod Length
use katalog_manager.Base.{
  ℕ, ◌-◌, Option, none, some, List, [], ◌∷◌, ◌++◌, length, take, ltb, ◌==◌, if◌then◌else◌,
}
use katalog_manager.Base.Text.{Text, trim_space, trim_right, is_empty}

-- MaxErrorLength
abbrev pub max_error_length : ℕ
max_error_length = 500

abbrev pub ellipsis : ℕ
ellipsis = 0x2026

-- A text longer than MaxErrorLength is cut, the spaces at the cut dropped, and ends in an ellipsis.
unfoldable pub cut_error : Text → Text
cut_error s =
    if ltb max_error_length (length s)
    then trim_right (λ c. c == 32) (take (max_error_length - 1) s) ++ (ellipsis ∷ [])
    else s

-- CleanError
unfoldable pub clean_error : (Text → Text) → Text → Option Text
unfolding cut_error
clean_error redact s =
    let t = trim_space (redact s) in if is_empty t then none else some (cut_error t)

-- cleanError, of an error that may be missing
unfoldable pub clean_error? : (Text → Text) → Option Text → Option Text
unfolding clean_error
clean_error? redact none = none
clean_error? redact (some s) = clean_error redact s
