-- ===== src/Chapters/Title/Clean.antt =====
-- internal/chapters/chapters.go: what CleanTitle leaves of a title.
use katalog_manager.Base.{
  ℕ, ◌≤◌, ◌≡◌, refl, Bool, false, ◌&&◌, Option, none, some, [], ◌∷◌, inl, inr, length, take, All,
  length-take-le, Bool-cases, Option-cases, ltb, arith,
}
use katalog_manager.Base.Text.{Text, trim_space, trim_left, trim_right, is_space, is_empty}
use katalog_manager.Base.Choice.{All-take}
use katalog_manager.Chapters.Title.{
  clean_rune, map_runes, cut_title, clean_text, clean_title, title_max,
}

abbrev head_is : (ℕ → Bool) → Text → Bool
head_is p [] = false
head_is p (c ∷ s) = p c

module _ (p : ℕ → Bool) where
  head-trim_left : (s : Text) → head_is p (trim_left p s) ≡ false
  unfolding trim_left
  head-trim_left [] = refl
  head-trim_left (c ∷ s) = elim (Bool-cases (p c)) [
    | inl e ↦ rw e (head-trim_left s)
    | inr e ↦ rw e e
  ]

  trim_left-fixed : (s : Text) → head_is p s ≡ false → trim_left p s ≡ s
  unfolding trim_left
  trim_left-fixed [] h = refl
  trim_left-fixed (c ∷ s) h = rw h refl

  head-trim_right : (s : Text) → head_is p s ≡ false → head_is p (trim_right p s) ≡ false
  unfolding trim_right
  head-trim_right [] h = refl
  head-trim_right (c ∷ s) h = ground arith

  trim_right_idem : (s : Text) → trim_right p (trim_right p s) ≡ trim_right p s
  unfolding trim_right
  trim_right_idem [] = refl
  trim_right_idem (c ∷ s) = elim (Bool-cases (is_empty (trim_right p s) && p c)) [
    | inl e ↦ rw e refl
    | inr e ↦ rw e (rw (trim_right_idem s) (rw e refl))
  ]

  length-trim_left-le : (s : Text) → length (trim_left p s) ≤ length s
  unfolding trim_left
  length-trim_left-le [] = omega arith
  length-trim_left-le (c ∷ s) = ground (arith, length-trim_left-le s)

  length-trim_right-le : (s : Text) → length (trim_right p s) ≤ length s
  unfolding trim_right
  length-trim_right-le [] = omega arith
  length-trim_right-le (c ∷ s) = ground (arith, length-trim_right-le s)

module _ (p : ℕ → Bool) (P : ℕ → Type 0) where
  All-trim_left : (s : Text) → All P s → All P (trim_left p s)
  unfolding trim_left
  All-trim_left [] a = tt
  All-trim_left (c ∷ s) a = elim (Bool-cases (p c)) [
    | inl e ↦ rw e (All-trim_left s a.1)
    | inr e ↦ rw e a
  ]

  All-trim_right : (s : Text) → All P s → All P (trim_right p s)
  unfolding trim_right
  All-trim_right [] a = tt
  All-trim_right (c ∷ s) a = elim (Bool-cases (is_empty (trim_right p s) && p c)) [
    | inl e ↦ rw e tt
    | inr e ↦ rw e (a.0, All-trim_right s a.1)
  ]

trim_space_idem : (s : Text) → trim_space (trim_space s) ≡ trim_space s
unfolding trim_space
trim_space_idem s =
    let h = head-trim_right is_space (trim_left is_space s) (head-trim_left is_space s) in
    rw (trim_left-fixed is_space (trim_right is_space (trim_left is_space s)) h)
      (trim_right_idem is_space (trim_left is_space s))

length-trim_space-le : (s : Text) → length (trim_space s) ≤ length s
unfolding trim_space
length-trim_space-le s =
    omega
      (arith, length-trim_right-le is_space (trim_left is_space s), length-trim_left-le is_space s)

-- A character that CleanTitle leaves as it is.
abbrev pub IsKept : ℕ → Type 0
IsKept c = clean_rune c ≡ some c

clean_rune-IsKept : (c d : ℕ) → clean_rune c ≡ some d → IsKept d
unfolding clean_rune
clean_rune-IsKept c d h = ground arith

All-map_runes : (s : Text) → All IsKept (map_runes clean_rune s)
unfolding map_runes
All-map_runes [] = tt
All-map_runes (c ∷ s) = elim (Option-cases (clean_rune c)) [
  | inl e ↦ rw e (All-map_runes s)
  | inr (d, e) ↦ rw e (clean_rune-IsKept c d e, All-map_runes s)
]

map_runes-fixed : (s : Text) → All IsKept s → map_runes clean_rune s ≡ s
unfolding map_runes
map_runes-fixed [] a = refl
map_runes-fixed (c ∷ s) a = rw (a.0, map_runes-fixed s a.1) refl

All-trim_space : (s : Text) → All IsKept s → All IsKept (trim_space s)
unfolding trim_space
All-trim_space s a =
    All-trim_right is_space IsKept (trim_left is_space s) (All-trim_left is_space IsKept s a)

-- A title within the column, of characters CleanTitle leaves, without spaces around it.
pub record IsClean (u : Text) : Type 0 where
  pub fits : length u ≤ title_max
  pub kept : All IsKept u
  pub trimmed : trim_space u ≡ u

cut_title-IsClean : (s : Text) → All IsKept s → trim_space s ≡ s → IsClean (cut_title s)
unfolding cut_title
cut_title-IsClean s a t = elim (Bool-cases (ltb title_max (length s))) [
  | inl e ↦ rw e (record {
    fits = omega (arith, length-trim_space-le (take title_max s), length-take-le title_max s);
    kept = All-trim_space (take title_max s) (All-take IsKept title_max s a);
    trimmed = trim_space_idem (take title_max s);
  })
  | inr e ↦ rw e (record { fits = ground arith; kept = a; trimmed = t })
]

pub clean_text-IsClean : (t : Text) → IsClean (clean_text t)
unfolding clean_text
clean_text-IsClean t =
    let s = map_runes clean_rune t in
    cut_title-IsClean (trim_space s) (All-trim_space s (All-map_runes t)) (trim_space_idem s)

cut_title-fixed : (u : Text) → length u ≤ title_max → cut_title u ≡ u
unfolding cut_title
cut_title-fixed u h = ground arith

pub clean_text-fixed : (u : Text) → IsClean u → clean_text u ≡ u
unfolding clean_text
clean_text-fixed u h = rw (map_runes-fixed u h.kept, h.trimmed) (cut_title-fixed u h.fits)

title_of : (u : Text) → IsClean u → is_empty u ≡ false → clean_title (some u) ≡ some u
unfolding clean_title
title_of u h e = rw (clean_text-fixed u h) (rw e refl)

clean_title-text :
    (t u : Text) → clean_title (some t) ≡ some u → (clean_text t ≡ u) × (is_empty u ≡ false)
unfolding clean_title
clean_title-text t u h = elim (Bool-cases (is_empty (clean_text t))) [
  | inl e ↦ ground (arith, e, h)
  | inr e ↦ let same : clean_text t ≡ u = ground (arith, e, h) in (same, rw same at e)
]

-- What CleanTitle keeps of a title is at most 120 characters, none of them a control character it
-- leaves out or changes, with no space at either end and not empty; and CleanTitle leaves it as it is.
pub clean_title-IsClean :
    (t u : Text)
    → clean_title (some t) ≡ some u
    → IsClean u × (is_empty u ≡ false) × (clean_title (some u) ≡ some u)
clean_title-IsClean t u h =
    let (same, e) = clean_title-text t u h in
    let clean : IsClean u = rw same at (clean_text-IsClean t) in (clean, e, title_of u clean e)

idem_of :
    (t : Option Text)
    → ((u : Text) → t ≡ some u → IsClean u × (is_empty u ≡ false) × (clean_title (some u) ≡ some u))
    → clean_title t ≡ t
unfolding clean_title
idem_of none h = refl
idem_of (some u) h = (h u refl).2

-- So it is the same to keep a title twice.
pub clean_title_idem : (t : Option Text) → clean_title (clean_title t) ≡ clean_title t
unfolding clean_title
clean_title_idem none = refl
clean_title_idem (some t) = idem_of (clean_title (some t)) (clean_title-IsClean t)
