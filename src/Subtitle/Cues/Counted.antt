-- ===== src/Subtitle/Cues/Counted.antt =====
-- What a WebVTT text that is taken keeps of its lines, and how many cues it counts.
use katalog_manager.Base.{
  ℕ, suc, ◌≤◌, ◌≡◌, refl, ap, sym, ◌∙◌, Option, List, [], ◌∷◌, arith, count, length, Bool-cases,
  inl, inr, ◌==◌,
}
use katalog_manager.Base.Text.{Text, trim_right}
use katalog_manager.Subtitle.Time.{split}
use katalog_manager.Subtitle.Cues.{
  Taken, takes, refuses, holds_arrow, fix_line, fix_lines, prepend, after_line, from_webvtt,
  with_cues, is_webvtt,
}

cues_of : Taken (Text × ℕ) → ℕ
cues_of (refuses why) = 0
cues_of (takes (out, n)) = n

module _ (timing : Text → Option (Text × Text × Text)) where
  -- Lines that keep their number, of which the cues are those with an arrow.
  abbrev Counts : List Text → Taken (List Text × ℕ) → Type 0
  Counts lines (refuses why) = Unit
  Counts lines (takes (ls, cues)) = (length ls ≡ length lines) × (cues ≡ count holds_arrow lines)

  prepend-Counts :
      (line new : Text) (lines : List Text) (n : ℕ) (rest : Taken (List Text × ℕ))
      → n ≡ count holds_arrow (line ∷ [])
      → Counts lines rest
      → Counts (line ∷ lines) (prepend new n rest)
  unfolding count
  prepend-Counts line new lines n (refuses why) e h = tt
  prepend-Counts line new lines n (takes (ls, cues)) e (a, b) = (omega arith, omega arith)

  after_line-Counts :
      (line : Text) (lines : List Text) (new : Taken Text) (rest : Taken (List Text × ℕ))
      → 1 ≡ count holds_arrow (line ∷ [])
      → Counts lines rest
      → Counts (line ∷ lines) (after_line new rest)
  after_line-Counts line lines (refuses why) rest e h = tt
  after_line-Counts line lines (takes new) rest e h = prepend-Counts line new lines 1 rest e h

  fix_lines-Counts : (i : ℕ) (lines : List Text) → Counts lines (fix_lines timing i lines)
  unfolding fix_lines
  fix_lines-Counts i [] = unfold count in (refl, refl)
  fix_lines-Counts i (line ∷ lines) =
      let rest = fix_lines-Counts (suc i) lines in
      elim (Bool-cases (holds_arrow line)) [
        | inl e ↦
            let one : 1 ≡ count holds_arrow (line ∷ []) = unfold count in rw e refl in
            rw e (
              after_line-Counts line lines (fix_line timing i line) (fix_lines timing (suc i) lines)
                one rest)
        | inr e ↦
            let zero_of : 0 ≡ count holds_arrow (line ∷ []) = unfold count in rw e refl in
            rw e (prepend-Counts line line lines 0 (fix_lines timing (suc i) lines) zero_of rest)
      ]

  with_cues_lem :
      (lines : List Text) (r : Taken (List Text × ℕ)) (out : Text) (cues : ℕ)
      → Counts lines r
      → with_cues r ≡ takes (out, cues)
      → (cues ≡ count holds_arrow lines) × (1 ≤ cues)
  with_cues_lem lines (refuses why) out cues k h = absurd (cc h)
  with_cues_lem lines (takes (ls, n)) out cues (a, b) h = elim (Bool-cases (n == 0)) [
    | inl z ↦ (let h' = rw z at h in absurd (cc h'))
    | inr z ↦
        (let h' = rw z at h in
          let same : n ≡ cues = unfold cues_of in ap cues_of h' in (sym same ∙ b, ground arith))
  ]

  -- A WebVTT text that is taken has as many cues as its lines that hold an arrow, one at least.
  from_webvtt-cues :
      (text out : Text) (cues : ℕ)
      → from_webvtt timing text ≡ takes (out, cues)
      → (cues ≡ count holds_arrow (split 10 (trim_right (λ c. c == 10) text))) × (1 ≤ cues)
  unfolding from_webvtt
  from_webvtt-cues text out cues h =
      let lines = split 10 (trim_right (λ c. c == 10) text) in
      elim (Bool-cases (is_webvtt text)) [
        | inl e ↦
            (let h' = rw e at h in
              with_cues_lem lines (fix_lines timing 1 lines) out cues (fix_lines-Counts 1 lines) h')
        | inr e ↦ (let h' = rw e at h in absurd (cc h'))
      ]
