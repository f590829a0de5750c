-- ===== src/Chapters/Read/Settled.antt =====
-- db/migrations/055_chapter_reads.sql: the view of the titles that miss their chapters, in SQL's logic of
-- three values, and what NeedsOriginal (internal/chapters/chapters.go) reads of it.
use katalog_manager.Base.{
  ℕ, ◌≡◌, Bool, true, false, not, ◌&&◌, ◌||◌, Option, none, some, is_some, List, ◌==◌, arith,
}
use katalog_manager.Chapters.Title.{Chapter, has_chapters}
use katalog_manager.Chapters.Read.{
  Read, ReadState, state_none, state_unreadable, is_held, settles, held_of, of_source,
}

-- A truth value of SQL; none is NULL.
abbrev pub Truth : Type 0
Truth = Option Bool

abbrev pub sql_and : Truth → Truth → Truth
sql_and (some false) b = some false
sql_and (some true) b = b
sql_and none (some false) = some false
sql_and none b = none

abbrev pub sql_or : Truth → Truth → Truth
sql_or (some true) b = some true
sql_or (some false) b = b
sql_or none (some true) = some true
sql_or none b = none

-- COALESCE(..., false)
abbrev pub is_true : Truth → Bool
is_true (some b) = b
is_true none = false

abbrev pub sql_equal : Option ℕ → ℕ → Truth
sql_equal none s = none
sql_equal (some r) s = some (r == s)

abbrev pub is_distinct : Option ℕ → ℕ → Bool
is_distinct none s = true
is_distinct (some r) s = not (r == s)

abbrev is_none_state : ReadState → Bool
is_none_state state_none = true
is_none_state _ = false

abbrev is_unreadable : ReadState → Bool
is_unreadable state_unreadable = true
is_unreadable _ = false

-- The columns of the row that the view joins: all NULL for a title without one.
abbrev column : (Read → Bool) → Option Read → Truth
column f none = none
column f (some r) = some (f r)

abbrev source_column : (Read → Option ℕ) → Option Read → Option ℕ
source_column f none = none
source_column f (some r) = f r

abbrev state_is_distinct : Option Read → Bool
state_is_distinct none = true
state_is_distinct (some r) = not (is_held r.state)

-- The condition of the view under its last AND NOT: a read settled the title of its original cur.
unfoldable pub view_settles : Option Read → ℕ → Bool → Bool
view_settles r cur chapters = is_true (
    sql_and (some (state_is_distinct r || is_distinct (source_column (λ k. k.source) r) cur)) (
      sql_or
        (sql_or (sql_and (sql_equal (source_column (λ k. k.rows_source) r) cur) (some chapters)) (
          sql_and
            (sql_and
              (sql_and (sql_equal (source_column (λ k. k.source) r) cur)
                (column (λ k. is_none_state k.state) r))
              (column (λ k. k.confirmed) r))
            (some (not chapters))))
        (sql_and
          (sql_and (sql_equal (source_column (λ k. k.source) r) cur)
            (column (λ k. is_unreadable k.state) r))
          (some (is_some (source_column (λ k. k.accepted_at) r))))))

-- What the compliance check's record says: of which source it is, and whether that has chapters.
pub record Record : Type 0 where
  pub source : Option ℕ
  pub says : Truth

abbrev says_none : Option Record → ℕ → Truth
says_none none cur = none
says_none (some c) cur =
    sql_and (sql_and (sql_equal c.source cur) (some (is_some c.says)))
      (elim c.says [ none ↦ none | some b ↦ some (not b) ])

-- The condition before it: the record says that the original holds none, and the catalog holds none.
unfoldable pub record_settles : Option Record → Option Read → ℕ → Bool → Bool
record_settles c r cur chapters = is_true (
    sql_and (sql_and (says_none c cur) (some (not chapters)))
      (some (state_is_distinct r || is_distinct (source_column (λ k. k.source) r) cur)))

-- NeedsOriginal of a movie or an episode whose current original is current, of the source named (none
-- is "").
unfoldable pub needs_original :
    Option Record → Option Read → Option ℕ → List Chapter → Option ℕ → Bool
unfolding view_settles record_settles
needs_original c r none chs source = false
needs_original c r (some cur) chs source =
    (not (is_some source) || not (is_distinct source cur))
    && not (record_settles c r cur (has_chapters chs))
    && not (view_settles r cur (has_chapters chs))

-- A read settles a title's original, as the service reckons it, exactly when the view's condition does.
pub settles-view_settles :
    (r : Read) (cur : ℕ) (chapters : Bool)
    → settles r (some cur) chapters ≡ view_settles (some r) cur chapters
unfolding settles view_settles held_of of_source
settles-view_settles r cur chapters = ground arith
