-- ===== src/Picture/Report/Frame.antt =====
-- internal/picture/picture.go: the area of a report that is taken as measured, and its frame.
use katalog_manager.Base.{◌+◌, ◌^◌, ◌≤◌, ◌<◌, ◌≡◌, some, arith}
use katalog_manager.Picture.Report.{
  Report, Size, Rect, leaves, measured, state, state_of, bad_frame, outside_frame,
}

state_of-within :
    (f : Size) (a : Rect)
    → state_of (some f) (some a) ≡ leaves measured
    → a.x + a.width < 2 ^ 31
    → a.y + a.height < 2 ^ 31
    → f.width < 2 ^ 31
    → f.height < 2 ^ 31
    → (a.x + a.width ≤ f.width) × (a.y + a.height ≤ f.height) × (0 < a.width) × (0 < a.height)
unfolding state_of outside_frame bad_frame
state_of-within f a h hx hy hw hh = ground arith

pub state-state_of :
    (r : Report) → state r ≡ leaves measured → state_of r.frame r.area ≡ leaves measured
unfolding state
state-state_of r h = ground arith

-- A report that is taken as measured has an area of some width and height within its frame, where the
-- area's edges and the frame's sizes are below 2^31: so long as no sum of two int32 overflows.
pub state-within :
    (r : Report) (f : Size) (a : Rect)
    → r.frame ≡ some f
    → r.area ≡ some a
    → state r ≡ leaves measured
    → a.x + a.width < 2 ^ 31
    → a.y + a.height < 2 ^ 31
    → f.width < 2 ^ 31
    → f.height < 2 ^ 31
    → (a.x + a.width ≤ f.width) × (a.y + a.height ≤ f.height) × (0 < a.width) × (0 < a.height)
state-within r f a hf ha h = state_of-within f a (rw (hf, ha) at (state-state_of r h))
