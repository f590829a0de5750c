-- ===== src/Subtitle/Time/Stamp.antt =====
-- A time is read back as it is written.
use katalog_manager.Base.{
  ℕ, suc, ◌+◌, ◌*◌, ◌/◌, ◌%◌, ◌≤◌, ◌<◌, ◌≡◌, refl, true, false, none, some, [], ◌∷◌, ◌++◌, arith,
  All, ap, ◌∙◌, ◌⊎◌, bind, ltb, ◌==◌, ltb→lt, Bool-cases, inl, inr,
}
use katalog_manager.Base.Backoff.{int64_mod}
use katalog_manager.Base.Text.{Text, unsigned}
use katalog_manager.Subtitle.Time.{
  millis, stamp, decimal, padded, seconds_of, with_fraction, is_negative, dotted, split_last, split,
}

decimal_one : (k n : ℕ) → n < 10 → decimal (suc k) n ≡ (48 + n) ∷ []
unfolding decimal
decimal_one k n h = let e : ltb n 10 ≡ true = ground arith in rw e refl

decimal_more : (k n : ℕ) → 10 ≤ n → decimal (suc k) n ≡ decimal k (n / 10) ++ (48 + n % 10) ∷ []
unfolding decimal
decimal_more k n h = let e : ltb n 10 ≡ false = ground arith in rw e refl

padded-two : (n : ℕ) → n < 100 → padded 2 false n ≡ (48 + n / 10) ∷ (48 + n % 10) ∷ []
unfolding padded
padded-two n h = elim (Bool-cases (ltb n 10)) [
  | inl e ↦ rw (decimal_one 18 n (ltb→lt n 10 e)) (ground arith)
  | inr e ↦ rw (decimal_more 18 n (ground arith), decimal_one 17 (n / 10) (ground arith)) refl
]

padded-three :
    (n : ℕ) → n < 1000 → padded 3 false n ≡ (48 + n / 100) ∷ (48 + n / 10 % 10) ∷ (48 + n % 10) ∷ []
unfolding padded
padded-three n h = elim (Bool-cases (ltb n 10)) [
  | inl e ↦ rw (decimal_one 18 n (ltb→lt n 10 e)) (ground arith)
  | inr e ↦ elim (Bool-cases (ltb n 100)) [
    | inl f ↦
        rw (decimal_more 18 n (ground arith), decimal_one 17 (n / 10) (ground arith)) (ground arith)
    | inr f ↦
        rw
          (
            decimal_more 18 n (ground arith),
            decimal_more 17 (n / 10) (ground arith),
            decimal_one 16 (n / 10 / 10) (ground arith),
          )
          (ground arith)
  ]
]

-- The text of a time below 100 hours.
stamp_text :
    (ms : ℕ)
    → ms < 360000000
    → stamp ms
      ≡ (48 + ms / 3600000 / 10)
        ∷ (48 + ms / 3600000 % 10)
        ∷ 58
        ∷ (48 + ms % 3600000 / 60000 / 10)
        ∷ (48 + ms % 3600000 / 60000 % 10)
        ∷ 58
        ∷ (48 + ms % 60000 / 1000 / 10)
        ∷ (48 + ms % 60000 / 1000 % 10)
        ∷ 46
        ∷ (48 + ms % 1000 / 100)
        ∷ (48 + ms % 1000 / 10 % 10)
        ∷ (48 + ms % 1000 % 10)
        ∷ []
unfolding stamp
stamp_text ms h =
    let sign : is_negative ms ≡ false = ground arith in
    rw
      (
        sign,
        padded-two (ms / 3600000) (omega arith),
        padded-two (ms % 3600000 / 60000) (omega arith),
        padded-two (ms % 60000 / 1000) (omega arith),
        padded-three (ms % 1000) (omega arith),
      )
      refl

dotted_lem : (s : Text) → All (λ c. (c == 44) ≡ false) s → dotted s ≡ s
unfolding dotted
dotted_lem [] a = refl
dotted_lem (c ∷ s) (h, a) = rw h (ap (λ t. c ∷ t) (dotted_lem s a))

split_last-append :
    (front frac : Text)
    → split_last 46 frac ≡ none
    → split_last 46 (front ++ 46 ∷ frac) ≡ some (front, frac)
unfolding split_last
split_last-append [] frac h = rw h refl
split_last-append (c ∷ front) frac h = rw (split_last-append front frac h) refl

split_last-none : (s : Text) → All (λ c. (c == 46) ≡ false) s → split_last 46 s ≡ none
unfolding split_last
split_last-none [] a = refl
split_last-none (c ∷ s) (h, a) = rw (h, split_last-none s a) refl

split-append :
    (f s : Text) → All (λ c. (c == 58) ≡ false) f → split 58 (f ++ 58 ∷ s) ≡ f ∷ split 58 s
unfolding split
split-append [] s a = refl
split-append (c ∷ f) s (h, a) = rw (h, split-append f s a) refl

split-field : (f : Text) → All (λ c. (c == 58) ≡ false) f → split 58 f ≡ f ∷ []
unfolding split
split-field [] a = refl
split-field (c ∷ f) (h, a) = rw (h, split-field f a) refl

-- A digit is none of the characters that end a field.
other_than : (x d : ℕ) → d < 10 → (x < 48) ⊎ (57 < x) → (48 + d == x) ≡ false
other_than x d h (inl a) = ground arith
other_than x d h (inr a) = ground arith

abbrev two : ℕ → ℕ → Text
two a b = (48 + a) ∷ (48 + b) ∷ []

unsigned-two : (a b : ℕ) → a < 10 → b < 10 → unsigned (two a b) ≡ some (a * 10 + b)
unfolding unsigned
unsigned-two a b pa pb = ground arith

unsigned-three :
    (a b c : ℕ)
    → a < 10
    → b < 10
    → c < 10
    → unsigned ((48 + a) ∷ (48 + b) ∷ (48 + c) ∷ []) ≡ some (a * 100 + b * 10 + c)
unfolding unsigned
unsigned-three a b c pa pb pc = ground arith

module _ (a b c d e f : ℕ) (pa : a < 10) (pb : b < 10) (pc : c < 6) (pd : d < 10) (pe : e < 6)
    (pf : f < 10) where
  split-clock :
      split 58 (two a b ++ 58 ∷ two c d ++ 58 ∷ two e f) ≡ two a b ∷ two c d ∷ two e f ∷ []
  split-clock =
      let no = λ (x : ℕ) (h : x < 10). other_than 58 x h (inr (omega arith)) in
      split-append (two a b) (two c d ++ 58 ∷ two e f) (no a pa, (no b pb, tt))
      ∙ ap (λ r. two a b ∷ r)
          (split-append (two c d) (two e f) (no c (omega arith), (no d pd, tt))
            ∙ ap (λ r. two c d ∷ r) (split-field (two e f) (no e (omega arith), (no f pf, tt))))

  seconds_of-clock :
      seconds_of true 0 (two a b ∷ two c d ∷ two e f ∷ [])
      ≡ some (((a * 10 + b) * 60 + (c * 10 + d)) * 60 + (e * 10 + f))
  unfolding seconds_of
  seconds_of-clock =
      rw
        (
          unsigned-two a b pa pb,
          unsigned-two c d (omega arith) pd,
          unsigned-two e f (omega arith) pf,
        )
        (ground arith)

  millis-clock :
      (g h i : ℕ)
      → g < 10
      → h < 10
      → i < 10
      → millis (two a b ++ 58 ∷ two c d ++ 58 ∷ two e f ++ 46 ∷ (48 + g) ∷ (48 + h) ∷ (48 + i) ∷ [])
        ≡ some (
            (((a * 10 + b) * 60 + (c * 10 + d)) * 60 + (e * 10 + f)) * 1000
            + (g * 100 + h * 10 + i))
  unfolding millis with_fraction
  millis-clock g h i pg ph pi =
      let front = two a b ++ 58 ∷ two c d ++ 58 ∷ two e f in
      let frac = (48 + g) ∷ (48 + h) ∷ (48 + i) ∷ [] in
      let comma = λ (x : ℕ) (l : x < 10). other_than 44 x l (inl (omega arith)) in
      let dot = λ (x : ℕ) (l : x < 10). other_than 46 x l (inl (omega arith)) in
      let same : dotted (front ++ 46 ∷ frac) ≡ front ++ 46 ∷ frac =
        dotted_lem (front ++ 46 ∷ frac) (
          comma a pa,
          (
            comma b pb,
            (
              refl,
              (
                comma c (omega arith),
                (
                  comma d pd,
                  (
                    refl,
                    (
                      comma e (omega arith),
                      (comma f pf, (refl, (comma g pg, (comma h ph, (comma i pi, tt))))),
                    ),
                  ),
                ),
              ),
            ),
          ),
        ) in
      let last : split_last 46 (front ++ 46 ∷ frac) ≡ some (front, frac) =
        split_last-append front frac
          (split_last-none frac (dot g pg, (dot h ph, (dot i pi, tt)))) in
      let ms = g * 100 + h * 10 + i in
      let sum = λ (secs : ℕ). some ((secs * 1000 + ms) % int64_mod) in
      ap (λ t. with_fraction (split_last 46 t)) same
      ∙ ap with_fraction last
      ∙ ap
          (λ o. bind o (λ m.
            bind (seconds_of true 0 (split 58 front))
              (λ secs. some ((secs * 1000 + m) % int64_mod))))
          (unsigned-three g h i pg ph pi)
      ∙ ap (λ fs. bind (seconds_of true 0 fs) sum) split-clock
      ∙ ap (λ o. bind o sum) seconds_of-clock
      ∙ ap some (omega arith)

-- A time below 100 hours, written as a cue's, is read back as it was.
pub millis-stamp : (ms : ℕ) → ms < 360000000 → millis (stamp ms) ≡ some ms
millis-stamp ms h =
    ap millis (stamp_text ms h)
    ∙ millis-clock (ms / 3600000 / 10) (ms / 3600000 % 10) (ms % 3600000 / 60000 / 10)
        (ms % 3600000 / 60000 % 10) (ms % 60000 / 1000 / 10) (ms % 60000 / 1000 % 10) (omega arith)
        (omega arith) (omega arith) (omega arith) (omega arith) (omega arith) (ms % 1000 / 100)
        (ms % 1000 / 10 % 10) (ms % 1000 % 10) (omega arith) (omega arith) (omega arith)
    ∙ ap some (omega arith)
