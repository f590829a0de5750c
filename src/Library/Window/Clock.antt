-- ===== src/Library/Window/Clock.antt =====
-- The window on the clock's circle, and as it is written.
use katalog_manager.Base.{
  ℕ, ◌+◌, ◌-◌, ◌/◌, ◌%◌, ◌<◌, ◌≡◌, ◌≢◌, refl, sym, ap, Bool, true, false, ◌&&◌, Option, none, some,
  [], ◌∷◌, arith, keep, ltb, ◌==◌, not, Bool-cases, inl, inr,
}
use katalog_manager.Base.Text.{Text, trim_space, trim_left, trim_right, is_space}
use katalog_manager.Library.Window.{Window, parse_window, window_of, contains, is_clock, at}

-- A window that is set and no whole day holds exactly the times that come sooner after its start, on
-- the clock's circle of 1440 minutes, than its end does: also when it goes past midnight.
pub contains-arc :
    (w : Window) (now : ℕ)
    → w.set ≡ true
    → w.start ≢ w.end
    → w.start < 1440
    → w.end < 1440
    → now < 1440
    → contains w now ≡ ltb ((now + 1440 - w.start) % 1440) ((w.end + 1440 - w.start) % 1440)
unfolding contains
contains-arc w now s ne a b n = ground arith

abbrev start_of : Option Window → ℕ
start_of none = 0
start_of (some w) = w.start

abbrev end_of : Option Window → ℕ
end_of none = 0
end_of (some w) = w.end

at-bound : (a b c d : ℕ) → is_clock a b c d ≡ true → at a b c d < 1440
at-bound a b c d h = ground arith

both-clocks : (p q x y z : Bool) → p && q && x && y && z ≡ true → (p ≡ true) × (q ≡ true)
both-clocks true true x y z h = (refl, refl)
both-clocks true false x y z h = absurd (cc h)
both-clocks false q x y z h = absurd (cc h)

-- The times of a window that is read are of the day.
pub window_of-bounds :
    (t : Text) (w : Window) → window_of t ≡ some w → (w.start < 1440) × (w.end < 1440)
unfolding window_of
window_of-bounds ([]) w k = absurd (cc k)
window_of-bounds (a ∷ []) w k = absurd (cc k)
window_of-bounds (a ∷ b ∷ []) w k = absurd (cc k)
window_of-bounds (a ∷ b ∷ x ∷ []) w k = absurd (cc k)
window_of-bounds (a ∷ b ∷ x ∷ c ∷ []) w k = absurd (cc k)
window_of-bounds (a ∷ b ∷ x ∷ c ∷ d ∷ []) w k = absurd (cc k)
window_of-bounds (a ∷ b ∷ x ∷ c ∷ d ∷ y ∷ []) w k = absurd (cc k)
window_of-bounds (a ∷ b ∷ x ∷ c ∷ d ∷ y ∷ e ∷ []) w k = absurd (cc k)
window_of-bounds (a ∷ b ∷ x ∷ c ∷ d ∷ y ∷ e ∷ f ∷ []) w k = absurd (cc k)
window_of-bounds (a ∷ b ∷ x ∷ c ∷ d ∷ y ∷ e ∷ f ∷ z ∷ []) w k = absurd (cc k)
window_of-bounds (a ∷ b ∷ x ∷ c ∷ d ∷ y ∷ e ∷ f ∷ z ∷ g ∷ []) w k = absurd (cc k)
window_of-bounds (a ∷ b ∷ x ∷ c ∷ d ∷ y ∷ e ∷ f ∷ z ∷ g ∷ h ∷ []) w k =
    elim (Bool-cases (is_clock a b c d && is_clock e f g h && x == 58 && y == 45 && z == 58)) [
      | inl q ↦
          let k' = rw q at k in
          let (p, r) =
            both-clocks (is_clock a b c d) (is_clock e f g h) (x == 58) (y == 45) (z == 58) q in
          (
            rw (sym (ap start_of k')) (at-bound a b c d p),
            rw (sym (ap end_of k')) (at-bound e f g h r),
          )
      | inr q ↦ let k' = rw q at k in absurd (cc k')
    ]
window_of-bounds (a ∷ b ∷ x ∷ c ∷ d ∷ y ∷ e ∷ f ∷ z ∷ g ∷ h ∷ i ∷ t) w k = absurd (cc k)

-- The two digits of a number below 100, and a time as HH:MM.
abbrev pub clock_text : ℕ → Text → Text
clock_text t rest =
    (48 + t / 60 / 10) ∷ (48 + t / 60 % 10) ∷ 58 ∷ (48 + t % 60 / 10) ∷ (48 + t % 60 % 10) ∷ rest

abbrev pub window_text : ℕ → ℕ → Text
window_text start end = clock_text start (45 ∷ clock_text end [])

is_clock-digits :
    (t : ℕ)
    → t < 1440
    → is_clock (48 + t / 60 / 10) (48 + t / 60 % 10) (48 + t % 60 / 10) (48 + t % 60 % 10) ≡ true
is_clock-digits t h = ground arith

at-digits :
    (t : ℕ) → at (48 + t / 60 / 10) (48 + t / 60 % 10) (48 + t % 60 / 10) (48 + t % 60 % 10) ≡ t
at-digits t = omega arith

-- A character of a clock's time is no space, and is kept.
is_space-digit : (d : ℕ) → d < 11 → is_space (48 + d) ≡ false
unfolding is_space
is_space-digit d h = ground arith

keep-digit :
    (d : ℕ) (s : Text)
    → keep (λ c. not (c == 32)) ((48 + d) ∷ s) ≡ (48 + d) ∷ keep (λ c. not (c == 32)) s
unfolding keep
keep-digit d s = ground arith

keep-clock_text :
    (t : ℕ) (rest : Text)
    → keep (λ c. not (c == 32)) (clock_text t rest) ≡ clock_text t (keep (λ c. not (c == 32)) rest)
keep-clock_text t rest =
    rw
      (
        keep-digit (t / 60 / 10),
        keep-digit (t / 60 % 10),
        keep-digit 10,
        keep-digit (t % 60 / 10),
        keep-digit (t % 60 % 10),
      )
      refl

-- A text that begins and ends with a character that is no space is not trimmed.
trim_space-window_text : (a b : ℕ) → a < 1440 → trim_space (window_text a b) ≡ window_text a b
unfolding trim_space trim_left trim_right
trim_space-window_text a b h =
    rw (is_space-digit (a / 60 / 10) (omega arith), is_space-digit (b % 60 % 10) (omega arith)) refl

window_of-window_text :
    (a b : ℕ)
    → a < 1440
    → b < 1440
    → window_of (window_text a b) ≡ some (record { set = true; start = a; end = b })
unfolding window_of
window_of-window_text a b ha hb =
    rw (is_clock-digits a ha, is_clock-digits b hb, at-digits a, at-digits b) refl

-- A window written HH:MM-HH:MM, of two times of the day, is read back as it was written.
pub parse_window-window_text :
    (start end : ℕ)
    → start < 1440
    → end < 1440
    → parse_window (window_text start end) ≡ some (record { set = true; start = start; end = end })
unfolding parse_window
parse_window-window_text a b ha hb =
    rw (trim_space-window_text a b ha, keep-clock_text a (45 ∷ clock_text b []))
      (unfold keep in rw (keep-clock_text b []) (unfold keep in window_of-window_text a b ha hb))
