-- ===== src/Chapters/Steps/Written.antt =====
-- internal/chapters: the chapters of a title, and those it keeps to undo, are as they are read back.
use katalog_manager.Base.{All, Option, none, some, List}
use katalog_manager.Chapters.Title.{Chapter}
use katalog_manager.Chapters.Title.Kept.{InOrder, IsClean}
use katalog_manager.Chapters.Read.{Replaced, Kept}
use katalog_manager.Chapters.Take.Keeps.{undo}

-- Chapters in the order of their ordinals and starts, each with a title as CleanTitle keeps it.
pub record AreWritten (chs : List Chapter) : Type 0 where
  pub order : InOrder chs
  pub titles : All IsClean chs

abbrev UndoIsWritten : Option Replaced → Type 0
UndoIsWritten none = Unit
UndoIsWritten (some u) = AreWritten u.chapters

pub record IsWritten (k : Kept) : Type 0 where
  pub chapters : AreWritten k.chapters
  pub undo : UndoIsWritten k.row.replaced
