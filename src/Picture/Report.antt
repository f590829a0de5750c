-- ===== src/Picture/Report.antt =====
-- internal/picture/picture.go: a measurement's report, and the state it leaves its title in
-- (Report.state). An int32 is its 32-bit pattern, so that a sum wraps as Go's does.
pub mod Frame
use katalog_manager.Base.{
  ℕ, ◌+◌, ◌%◌, ◌^◌, Bool, true, false, not, ◌&&◌, ◌||◌, Option, none, some, List, [], ◌∷◌, ltb,
  if◌then◌else◌,
}
use katalog_manager.Base.Text.{Text, trim_space, is_empty}

abbrev pub int32_mod : ℕ
int32_mod = 2 ^ 32

-- a < b and a + b of int32 values.
abbrev pub lt_int32 : ℕ → ℕ → Bool
lt_int32 a b = ltb ((a + 2 ^ 31) % int32_mod) ((b + 2 ^ 31) % int32_mod)

abbrev pub add_int32 : ℕ → ℕ → ℕ
add_int32 a b = (a + b) % int32_mod

pub record Size : Type 0 where
  pub width : ℕ
  pub height : ℕ

pub record Rect : Type 0 where
  pub x : ℕ
  pub y : ℕ
  pub width : ℕ
  pub height : ℕ

-- A raw JSON value: none or null, an object as it was written, or anything else.
pub data Raw : Type 0 where
  raw_none raw_other : Raw
  raw_object : Text → Raw

-- What a measurement read; "" is the kind that is not named.
pub data ReadKind : Type 0 where
  kind_none kind_original kind_package kind_other : ReadKind

pub record MeasuredOn : Type 0 where
  pub kind : ReadKind
  pub size : Option ℕ

-- The numbers of a measurement that are kept as they come: samples, informative, durationMs, seconds,
-- cpuSeconds and bytesRead.
pub record Numbers : Type 0 where
  pub samples : Option ℕ
  pub informative : Option ℕ
  pub duration_ms : Option ℕ
  pub seconds : Option ℕ
  pub cpu_seconds : Option ℕ
  pub bytes_read : Option ℕ

pub record Report : Type 0 where
  pub path : Text
  pub method : Text
  pub token : Text
  pub frame : Option Size
  pub area : Option Rect
  pub numbers : Numbers
  pub measured_on : Option MeasuredOn
  pub sampling : Raw
  pub video : Raw
  pub decoder : Text
  pub sides : Raw
  pub reason : Text
  pub error : Text
  pub released : Bool

-- Why a report can't be taken (BadReport), and what a title's state may be.
pub data BadReport : Type 0 where
  no_path no_object bad_kind no_frame outside covered no_own_frame bad_title other_kind : BadReport

pub data AreaState : Type 0 where
  pending measured unknown failed : AreaState

pub data Taken : Type 0 where
  release : Taken
  leaves : AreaState → Taken
  refused : BadReport → Taken

abbrev pub is_object : Raw → Bool
is_object raw_other = false
is_object _ = true

-- The kinds that a report may name: the original's, the package's, or none.
abbrev pub good_kind : Option MeasuredOn → Bool
good_kind none = true
good_kind (some m) = elim m.kind [ kind_other ↦ false | _ ↦ true ]

-- The frame's test, and the area's within it.
unfoldable pub bad_frame : Size → Bool
bad_frame f = not (lt_int32 0 f.width) || not (lt_int32 0 f.height)

unfoldable pub outside_frame : Rect → Size → Bool
outside_frame a f =
    lt_int32 a.x 0
    || lt_int32 a.y 0
    || not (lt_int32 0 a.width)
    || not (lt_int32 0 a.height)
    || lt_int32 f.width (add_int32 a.x a.width)
    || lt_int32 f.height (add_int32 a.y a.height)

-- The end of state: the measurement's frame and area.
unfoldable pub state_of : Option Size → Option Rect → Taken
unfolding bad_frame outside_frame
state_of none a = refused no_frame
state_of (some f) none = if bad_frame f then refused no_frame else leaves unknown
state_of (some f) (some a) =
    if bad_frame f
    then refused no_frame
    else if outside_frame a f
    then refused outside
    else leaves measured

-- Report.state
unfoldable pub state : Report → Taken
unfolding state_of
state r =
    if r.released
    then release
    else if is_empty (trim_space r.path)
    then refused no_path
    else if not (is_object r.sides && is_object r.sampling && is_object r.video)
    then refused no_object
    else if not (good_kind r.measured_on)
    then refused bad_kind
    else if not (is_empty (trim_space r.error))
    then leaves failed
    else state_of r.frame r.area
