-- ===== src/Processing/Errors/Length.antt =====
-- What a kept error looks like.
use katalog_manager.Base.{
  ℕ, ◌+◌, ◌≤◌, ◌≡◌, refl, ◌↔◌, Bool, true, false, none, some, [], ◌∷◌, ◌++◌, arith, length, take,
  All, length-append, length-take-le, Bool-cases, inl, inr, ◌==◌, ltb,
}
use katalog_manager.Base.Text.{Text, is_space, trim_left, trim_right, trim_space, is_empty}
use katalog_manager.Processing.Errors.{cut_error, clean_error, ellipsis, max_error_length}

length-trim_right-le : (p : ℕ → Bool) (s : Text) → length (trim_right p s) ≤ length s
unfolding trim_right
length-trim_right-le p [] = omega arith
length-trim_right-le p (c ∷ s) = ground (arith, length-trim_right-le p s)

cut_le :
    (n : ℕ) (p : ℕ → Bool) (s : Text) → length (trim_right p (take n s) ++ ellipsis ∷ []) ≤ n + 1
cut_le n p s = omega (
  arith,
  length-append {0} (trim_right p (take n s)) (ellipsis ∷ []),
  length-trim_right-le p (take n s),
  length-take-le {0} n s,
)

leb_of_not_ltb : (a b : ℕ) → ltb a b ≡ false → b ≤ a
leb_of_not_ltb a b h = ground arith

cut_error-le : (s : Text) → length (cut_error s) ≤ max_error_length
unfolding cut_error
cut_error-le s = elim (Bool-cases (ltb max_error_length (length s))) [
  | inl e ↦ rw e (cut_le 499 (λ c. c == 32) s)
  | inr e ↦ rw e (leb_of_not_ltb _ _ e)
]

is_empty-snoc : (xs : Text) (c : ℕ) → is_empty (xs ++ c ∷ []) ≡ false
is_empty-snoc [] c = refl
is_empty-snoc (x ∷ xs) c = refl

is_empty-cut_error : (s : Text) → is_empty s ≡ false → is_empty (cut_error s) ≡ false
unfolding cut_error
is_empty-cut_error s h = elim (Bool-cases (ltb max_error_length (length s))) [
  | inl e ↦ rw e (is_empty-snoc _ ellipsis)
  | inr e ↦ rw e h
]

length-pos : (s : Text) → is_empty s ≡ false → 1 ≤ length s
length-pos [] h = cc
length-pos (c ∷ s) h = omega arith

trim_right-empty :
    (p : ℕ → Bool) (s : Text) → (is_empty (trim_right p s) ≡ true) ↔ All (λ c. p c ≡ true) s
unfolding trim_right
trim_right-empty p [] = (λ h. tt, λ h. refl)
trim_right-empty p (c ∷ s) = (
  λ h. (ground arith, (trim_right-empty p s).0 (ground arith)),
  λ (here, there). ground (arith, (trim_right-empty p s).1 there),
)

trim_left-All :
    (p : ℕ → Bool) (s : Text) → All (λ c. p c ≡ true) (trim_left p s) ↔ All (λ c. p c ≡ true) s
unfolding trim_left
trim_left-All p [] = (λ h. h, λ h. h)
trim_left-All p (c ∷ s) = elim (Bool-cases (p c)) [
  | inl e ↦
      rw e (λ h. (refl, (trim_left-All p s).0 h), λ (here, there). (trim_left-All p s).1 there)
  | inr e ↦ rw e (λ (here, there). absurd (cc), λ (here, there). absurd (cc))
]

trim_space-empty : (s : Text) → (is_empty (trim_space s) ≡ true) ↔ All (λ c. is_space c ≡ true) s
unfolding trim_space
trim_space-empty s = (
  λ h. (trim_left-All is_space s).0 ((trim_right-empty is_space (trim_left is_space s)).0 h),
  λ h. (trim_right-empty is_space (trim_left is_space s)).1 ((trim_left-All is_space s).1 h),
)

module _ (redact : Text → Text) (s : Text) where
  clean_error-empty : is_empty (trim_space (redact s)) ≡ true → clean_error redact s ≡ none
  unfolding clean_error
  clean_error-empty e = rw e

  clean_error-some :
      is_empty (trim_space (redact s)) ≡ false
      → clean_error redact s ≡ some (cut_error (trim_space (redact s)))
  unfolding clean_error
  clean_error-some e = rw e

module _ (redact : Text → Text) (s : Text) where
  clean_error-length :
      (t : Text) → clean_error redact s ≡ some t → (1 ≤ length t) × (length t ≤ max_error_length)
  clean_error-length t h = elim (Bool-cases (is_empty (trim_space (redact s)))) [
    | inl e ↦ absurd (let missing = clean_error-empty redact s e in cc)
    | inr e ↦
        let kept = clean_error-some redact s e in
        let filled = length-pos (cut_error (trim_space (redact s))) (is_empty-cut_error _ e) in
        let short = cut_error-le (trim_space (redact s)) in ground arith
  ]

-- An error that is kept has 1 to 500 characters.
pub clean_error-bounds :
    (redact : Text → Text) (s t : Text)
    → clean_error redact s ≡ some t
    → (1 ≤ length t) × (length t ≤ max_error_length)
clean_error-bounds redact s t h = clean_error-length redact s t h

-- An error is missing exactly when nothing but spaces is left of it once its credentials are redacted.
pub clean_error-none :
    (redact : Text → Text) (s : Text)
    → (clean_error redact s ≡ none) ↔ All (λ c. is_space c ≡ true) (redact s)
clean_error-none redact s = elim (Bool-cases (is_empty (trim_space (redact s)))) [
  | inl e ↦ (λ h. (trim_space-empty (redact s)).0 e, λ h. clean_error-empty redact s e)
  | inr e ↦
      let kept = clean_error-some redact s e in
      (λ h. cc kept, λ h. cc ((trim_space-empty (redact s)).1 h))
]
