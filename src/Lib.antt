-- ===== src/Lib.antt =====
-- katalog-manager's pipeline: the step table, its retries, the queue of titles to encode again, and
-- the services beside it.
--
-- katalog-manager keeps the catalog of a media platform. A title goes through the steps of a
-- pipeline, which workers run and report; the catalog keeps each step's status, runs, failures and
-- retry in one table (internal/processing/steps.go). The service heals the pipeline itself
-- (internal/retry): a sweep claims the failed steps whose retry is due, takes silent ones for
-- failed runs, and sends the events that start their workers again, putting back those whose event
-- could not be sent. An admin retries steps by hand, encodes a title again, and queues titles to be
-- encoded again, which a pass over the queue sends as its settings allow.
--
-- Base holds what the parts share: Base.Tests the Boolean tests and options, Base.Lists and
-- Base.Counting lists over the native numbers, Base.Choice the rows that a query chooses, Base.Text
-- Go's trimming of texts, Base.Backoff the wait that doubles, on int64 patterns.
--
-- Processing is internal/processing. Processing.Vocab has the steps and statuses (steps.go),
-- Processing.Policy the retry policy (policy.go), Processing.Errors the errors that are kept
-- (errors.go), Processing.Table the rows and what the SQL statements set of them, Processing.Steps
-- the operations Upsert, PromoteTranscodeToPackage and ResetForItems.
--
-- Library is internal/library: Library.Window the daily window of settings.go.
--
-- Retry is internal/retry. Retry.Trigger has the event of each step, Retry.Claim the claims and the
-- reaper (retry.go, manual.go), Retry.Dispatch the events sent (retry.go), Retry.Reencode the reset
-- of a title's transcode and package (reencode.go), Retry.Queue the queue (queue.go):
-- Retry.Queue.Finish finishSent, Retry.Queue.Send sendQueued, Retry.Queue.Drain DrainQueue,
-- Retry.Queue.Enqueue EnqueueReencode and ClearReencodeQueue; Retry.Manual RetryStep and
-- Retry.Failed RetryFailed (manual.go), Retry.Sweep Sweep, with settleTakeIns (takein.go).
-- Retry.Invariant and Retry.History put their statements together on one step table.
--
-- Picture is internal/picture: Picture.Report an analyzer's report of a title's picture area, on
-- int32 patterns, Picture.Area the row that the catalog keeps of it, and Picture.Record what a
-- report does to that row (picture.go). The rest is the backfill (backfill.go), which hands the
-- titles to measure out to the analyzer: Picture.Settings its settings, Picture.Window the daily
-- window, Picture.Backfill the rows as it writes them (expire, fail), Picture.Candidates the titles
-- that a claim looks at (candidatesSQL), Picture.Claim Claim, with what it reads in a Catalog.
--
-- Chapters is internal/chapters: Chapters.Title a chapter and its title, Chapters.Read a title's
-- last read and what it settles (chapters.go), Chapters.Take how a read takes the chapters in the
-- catalog, Chapters.Report an analyzer's report, Chapters.Record what it does to the title's row
-- and chapters, Chapters.Marks the marks of a source record's probe (records.go),
-- Chapters.FromRecord FromRecord, Chapters.Waits the backfill's updates of a row, Chapters.HandOut
-- its hand-out to a worker (HandOut.Turn handOut whole), Chapters.Decisions an admin's accept and
-- revert (backfill.go), and Chapters.Steps all of these as steps of one title. A title is its read
-- row and its chapters in the order in which they are read back, with int64 and int32 values as
-- patterns. Chapters.Read.Settled also has the view of db/migrations/055_chapter_reads.sql, in
-- SQL's logic of three values.
--
-- Compliance is internal/compliance: Compliance.Order the orders of the report (order.go), the page
-- after a cursor (report.go) and the loop of the export over the pages (export.go); its bound of
-- pages is one more than the rows. Subtitle is internal/webvtt: Subtitle.Time the times of a cue,
-- Subtitle.Cues a WebVTT text (webvtt.go). Stream is internal/stream: the broker of the event
-- stream, whose clients act one at a time (stream.go).
--
-- Auth is internal/auth: Auth.Access who may call what (access.go), Auth.Rating the age a viewer is
-- capped at (rating.go). Tests has small cases of all of these.
--
-- A table is a list of rows; a statement on it is a function of the rows, the time now, and what it
-- reads elsewhere (Catalog, World, Gate). A row that another transaction holds is skipped where the
-- statement says so (held). Each statement is atomic, as Postgres has it; an interleaving is a
-- sequence of them (Retry.History). Ids are numbers, which are compared only; times are numbers of
-- one clock.
--
-- Loops are structural, but for the policy's list of waits, which has one round for each of
-- MaxAttempts as its fuel: the loop ends at MaxAttempts, so that is enough. RetryFailed's rounds,
-- the sweep's and the export's pages have a bound of their own, with a theorem that one more than
-- the steps to retry, the steps, or the rows is enough. The waits of the retries and of the areas
-- are 64-bit patterns, compared as signed numbers; where a theorem speaks of a valid policy its
-- longest wait is at most 2^62 nanoseconds, 146 years.
--
-- Parameters stand for what is not in the repository's Go code or is only called: Postgres, with
-- its comparison of values, the publisher's answers, json.Marshal, what regexp finds and redacts,
-- generated ids and tokens (those of chapters are drawn from a stream that a title carries), and,
-- of the backfill, the titles of its query, the view of current areas, the files that are looked up
-- on the disk and library.ParseDuration; of the chapters, what the library finds of a source
-- record, and the compliance check's word on it. Not modelled are the database's own errors but the
-- missing columns of migration 033, the HTTP, GraphQL and store layers, the clients of web
-- services, and the scanner's and library's file operations.
pub mod Base
pub mod Processing
pub mod Library
pub mod Retry
pub mod Picture
pub mod Chapters
pub mod Compliance
pub mod Subtitle
pub mod Stream
pub mod Auth
pub mod Tests
