-- ===== src/Chapters/Marks/Nothing.antt =====
-- internal/chapters/records.go: when a source record says that its original holds no chapter.
use katalog_manager.Base.{
  ℕ, ◌≡◌, refl, inl, inr, true, false, Option, none, some, List, [], ◌∷◌, length, ◌==◌, Bool-cases,
  arith,
}
use katalog_manager.Base.Text.{Text}
use katalog_manager.Chapters.Title.{Chapter, has_chapters}
use katalog_manager.Chapters.Take.{RecordRead, says}
use katalog_manager.Chapters.Marks.{
  Mark, Probe, interpret, interpret_marks, interpret_none, read_of, count_note, chapters_of,
  past_end, shifted, shifted_of, read_shifted, end_of, is_nonempty, interpret_list,
}

-- Its end is known, and no mark starts at it or after.
abbrev pub EndsAfter : List Mark → Option ℕ → Type 0
EndsAfter marks none = ⊥
EndsAfter marks (some e) = past_end marks e ≡ false

-- The record says, and holds no chapter.
SaysNone : RecordRead → Type 0
SaysNone r = (says r ≡ true) × (has_chapters r.chapters ≡ false)

length-some :
    (cs : List Chapter) (ms : List Mark)
    → (length cs == length ms) ≡ true
    → is_nonempty ms ≡ true
    → has_chapters cs ≡ true
length-some [] [] e h = cc
length-some [] (m ∷ ms) e h = ground arith
length-some (c ∷ cs) ms e h = refl

shifted_of-some :
    (end : ℕ) (marks : List Mark) (out : Option (List Mark)) (chs : List Chapter)
    → shifted_of end (length marks) out ≡ some chs
    → is_nonempty marks ≡ true
    → has_chapters chs ≡ true
shifted_of-some end marks none chs e h = cc
shifted_of-some end marks (some out) chs e h =
    elim (Bool-cases (length (chapters_of out (some end)) == length marks)) [
      | inl l ↦
          let f = length-some (chapters_of out (some end)) marks l h in ground (arith, l, e, f)
      | inr l ↦ ground (arith, l, e)
    ]

not_held :
    (n m : ℕ) (chs : List Chapter) (note text : Text)
    → ¬ SaysNone (read_of n chs note (count_note m text))
unfolding SaysNone says read_of count_note
not_held n m chs note text (s, h) = cc

shut :
    (chs : List Chapter) (n : ℕ) (note : Text)
    → has_chapters chs ≡ true
    → ¬ (has_chapters (read_of n chs note []).chapters ≡ false)
unfolding read_of
shut chs n note e h = cc

read_shifted-nonempty :
    (end : ℕ) (marks : List Mark) (o : Option (List Chapter))
    → ((chs : List Chapter) → o ≡ some chs → has_chapters chs ≡ true)
    → ¬ SaysNone (read_shifted marks o)
unfolding SaysNone
read_shifted-nonempty end marks none f h = not_held _ _ _ _ _ h
read_shifted-nonempty end marks (some chs) f (s, h) = shut chs _ _ (f chs refl) h

shifted-some :
    (marks : List Mark) (end : ℕ) (chs : List Chapter)
    → shifted marks end ≡ some chs
    → is_nonempty marks ≡ true
    → has_chapters chs ≡ true
unfolding shifted
shifted-some marks end chs e h = shifted_of-some end marks _ chs e h

past_read :
    (marks : List Mark) (end : ℕ)
    → past_end marks end ≡ true
    → SaysNone (interpret_none marks (some end))
    → SaysNone (read_shifted marks (shifted marks end))
unfolding interpret_none
past_read marks end p h = rw p at h

some_left :
    (marks : List Mark) (end : Option ℕ)
    → has_chapters (chapters_of marks end) ≡ true
    → ¬ SaysNone (interpret_marks marks end)
unfolding interpret_marks SaysNone read_of
some_left marks end e (s, h) = ground (arith, e, h)

interpret_none-EndsAfter :
    (marks : List Mark) (end : Option ℕ)
    → is_nonempty marks ≡ true
    → SaysNone (interpret_none marks end)
    → EndsAfter marks end
unfolding interpret_none
interpret_none-EndsAfter marks none m h = not_held _ _ _ _ _ h
interpret_none-EndsAfter marks (some e) m h = elim (Bool-cases (past_end marks e)) [
  | inl p ↦ absurd (
      read_shifted-nonempty e marks (shifted marks e) (λ chs q. shifted-some marks e chs q m)
        (past_read marks e p h))
  | inr p ↦ p
]

interpret_marks-EndsAfter :
    (marks : List Mark) (end : Option ℕ)
    → is_nonempty marks ≡ true
    → SaysNone (interpret_marks marks end)
    → EndsAfter marks end
unfolding interpret_marks
interpret_marks-EndsAfter marks end m h = elim (Bool-cases (has_chapters (chapters_of marks end))) [
  | inl e ↦ absurd (some_left marks end e h)
  | inr e ↦ interpret_none-EndsAfter marks end m (rw (e, m) at h)
]

list_lem :
    (o : Option (List Mark)) (end : Option ℕ)
    → SaysNone (interpret_list o end)
    → (marks : List Mark) × (o ≡ some marks) × (is_nonempty marks ≡ true → EndsAfter marks end)
unfolding SaysNone says read_of
list_lem none end (s, h) = absurd (cc)
list_lem (some marks) end h = (marks, refl, λ m. interpret_marks-EndsAfter marks end m h)

-- When the record of a probe says what its original's chapters are, and says none, the probe has a list
-- of chapters, and this is empty, or the file's end is known and no mark starts at it or after: marks that
-- lie past the file's end are never taken for no chapters.
pub interpret-EndsAfter :
    (p : Probe)
    → says (interpret p) ≡ true
    → has_chapters (interpret p).chapters ≡ false
    → (marks : List Mark) × (p.chapters ≡ some marks)
      × (is_nonempty marks ≡ true → EndsAfter marks (end_of p))
unfolding interpret SaysNone
interpret-EndsAfter p s h = list_lem p.chapters (end_of p) (s, h)
