-- ===== src/Picture/Window/Opening.antt =====
-- When the window opens and closes.
use katalog_manager.Base.{
  ℕ, ◌+◌, ◌≤◌, ◌<◌, ◌≡◌, ◌≢◌, refl, ap, ◌∙◌, true, false, ◌&&◌, ◌||◌, some, arith, ltb, leb,
  Bool-cases, inl, inr, if◌then◌else◌,
}
use katalog_manager.Picture.Window.{Window, day, minute_of, contains, next_time, closes, opens}

-- A window whose times are of the day and that is no whole day.
pub record IsPart (w : Window) : Type 0 where
  pub is_set : w.set ≡ true
  pub holds_some : w.never ≡ false
  pub differ : w.start ≢ w.end
  pub start_in : w.start < 1440
  pub end_in : w.end < 1440

pub next_time-bounds :
    (m t : ℕ)
    → m < 1440
    → (t < next_time m t) × (next_time m t ≤ t + day) × (minute_of (next_time m t) ≡ m)
unfolding next_time
next_time-bounds m t h = ground arith

next_time-not_between :
    (m t u : ℕ) → m < 1440 → t ≤ u → u < next_time m t → minute_of t ≢ m → minute_of u ≢ m
unfolding next_time
next_time-not_between m t u h a b n = ground arith

-- The window at a time of the day.
contains_part :
    (w : Window) (t : ℕ)
    → IsPart w
    → contains w t ≡ (
        if ltb w.start w.end
        then leb w.start (minute_of t) && ltb (minute_of t) w.end
        else leb w.start (minute_of t) || ltb (minute_of t) w.end)
unfolding contains
contains_part w t p = ground arith

module _ (w : Window) (t u : ℕ) (p : IsPart w) where
  holds_on : contains w t ≡ true → t ≤ u → u < next_time w.end t → contains w u ≡ true
  unfolding next_time
  holds_on h a b = rw (contains_part w u p) (let h' = rw (contains_part w t p) at h in ground arith)

  holds_off : contains w t ≡ false → t ≤ u → u < next_time w.start t → contains w u ≡ false
  unfolding next_time
  holds_off h a b =
      rw (contains_part w u p) (let h' = rw (contains_part w t p) at h in ground arith)

  ends_then : contains w (next_time w.end t) ≡ false
  ends_then =
      let (_, _, m) = next_time-bounds w.end t p.end_in in
      rw (contains_part w (next_time w.end t) p) (rw m (ground arith))

  starts_then : contains w (next_time w.start t) ≡ true
  starts_then =
      let (_, _, m) = next_time-bounds w.start t p.start_in in
      rw (contains_part w (next_time w.start t) p) (rw m (ground arith))

-- A window that holds closes later, within a day: it holds at every time before it closes, and not
-- when it does.
pub closes-holds :
    (w : Window) (t u c : ℕ)
    → IsPart w
    → contains w t ≡ true
    → closes w t ≡ some c
    → t ≤ u
    → u < c
    → (contains w u ≡ true) × (contains w c ≡ false) × (t < c) × (c ≤ t + day)
unfolding closes
closes-holds w t u c p h e a b =
    let same : next_time w.end t ≡ c = ground arith in
    let (after, soon, _) = next_time-bounds w.end t p.end_in in
    let off = ends_then w t u p in
    (holds_on w t u p h a (rw same b), rw same at off, rw same at after, rw same at soon)

opens_now : (w : Window) (t : ℕ) → contains w t ≡ true → opens w t ≡ t
unfolding opens
opens_now w t e = rw e refl

opens_next :
    (w : Window) (t : ℕ) → contains w t ≡ false → w.never ≡ false → opens w t ≡ next_time w.start t
unfolding opens
opens_next w t e n = rw (e, n) refl

opens-first : (w : Window) (t u : ℕ) → IsPart w → t ≤ u → u < opens w t → contains w u ≡ false
opens-first w t u p a b = elim (Bool-cases (contains w t)) [
  | inl e ↦ (let b' = rw (opens_now w t e) at b in absurd (omega arith))
  | inr e ↦ (let b' = rw (opens_next w t e p.holds_some) at b in holds_off w t u p e a b')
]

-- A window that is no whole day always opens again: it holds when it is said to open next, which is
-- now or later and within a day from now, and it holds at no time from now until then.
pub opens-holds :
    (w : Window) (t : ℕ)
    → IsPart w
    → (contains w (opens w t) ≡ true)
      × (t ≤ opens w t)
      × (opens w t ≤ t + day)
      × ((u : ℕ) → t ≤ u → u < opens w t → contains w u ≡ false)
opens-holds w t p = elim (Bool-cases (contains w t)) [
  | inl e ↦
      (let now = opens_now w t e in
        (ap (contains w) now ∙ e, omega arith, omega arith, λ u. opens-first w t u p))
  | inr e ↦
      (let (after, soon, _) = next_time-bounds w.start t p.start_in in
        let next = opens_next w t e p.holds_some in
        (
          ap (contains w) next ∙ starts_then w t t p,
          omega arith,
          omega arith,
          λ u. opens-first w t u p,
        ))
]
