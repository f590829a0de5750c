-- ===== src/Processing/Steps/Promotion.antt =====
-- What PromoteTranscodeToPackage does to the table.
use katalog_manager.Base.{ℕ, ◌≡◌, ◌≢◌, refl, true, false, none, some, ◌++◌, arith, ◌∙◌, ◌⊎◌}
use Prim.Native.String.{String}
use katalog_manager.Base.Text.{Text, codes}
use katalog_manager.Processing.Vocab.{
  Status, pack, pending, done, skipped, not_applicable, valid_step, valid_status,
}
use katalog_manager.Processing.Errors.{clean_error?}
use katalog_manager.Processing.Table.{Row, upserted, update_row, find_row}
use katalog_manager.Processing.Table.Keys.{same_key_refl}
use katalog_manager.Processing.Steps.{Steps, ok, upsert, promote_transcode_to_package}
use katalog_manager.Processing.Steps.Operations.{find_row-upsert}

valid_package : valid_step "package" ≡ some pack
unfolding valid_step
valid_package = refl

valid_pending : valid_status "pending" ≡ some pending
unfolding valid_status
valid_pending = refl

promotes_by_upsert :
    (redact : Text → Text) (now id item : ℕ) (transcode_status : String) (s : Steps) (w : Status)
    → valid_status transcode_status ≡ some w
    → (w ≡ done) ⊎ ((w ≡ not_applicable) ⊎ (w ≡ skipped))
    → promote_transcode_to_package redact now id item transcode_status s
      ≡ upsert redact now id item "package" "pending" none
          (some (codes "auto-promoted after transcode=" ++ codes transcode_status))
          s
unfolding promote_transcode_to_package
promotes_by_upsert redact now id item transcode_status s w hw d =
    rw (hw, promote_transcode_to_package) (ground arith)

-- A transcode that is done, does not apply or was skipped puts the title's package in wait again,
-- with no run counted and none of its failures forgotten: its row is as it was but for its status,
-- its error and details, a retry or a trigger that was under way, and when it was written.
pub promote_transcode_to_package_lem :
    (redact : Text → Text) (now id item : ℕ) (transcode_status : String) (s : Steps) (w : Status)
    (r : Row)
    → s.migrated ≡ true
    → s.legacy ≡ false
    → valid_status transcode_status ≡ some w
    → (w ≡ done) ⊎ ((w ≡ not_applicable) ⊎ (w ≡ skipped))
    → find_row item pack s.rows ≡ some r
    → (s' : Steps) × (promote_transcode_to_package redact now id item transcode_status s ≡ ok s')
      × (find_row item pack s'.rows
          ≡ some (record r {
            status = pending;
            modified = some now;
            error = none;
            details = some (codes "auto-promoted after transcode=" ++ codes transcode_status);
            next_retry = none;
            dispatched = none;
          }))
promote_transcode_to_package_lem redact now id item transcode_status s w r m l hw d hr =
    let text = codes "auto-promoted after transcode=" ++ codes transcode_status in
    let (s', written, found) =
      find_row-upsert redact now id item "package" "pending" none (some text) s pack pending item
        pack m l valid_package valid_pending in
    (
      s',
      promotes_by_upsert redact now id item transcode_status s w hw d ∙ written,
      found ∙ rw (same_key_refl item pack, hr) (unfold upserted update_row clean_error? in refl),
    )

-- A transcode in any other state promotes nothing.
pub promote_transcode_to_package_else :
    (redact : Text → Text) (now id item : ℕ) (transcode_status : String) (s : Steps)
    → valid_status transcode_status ≢ some done
    → valid_status transcode_status ≢ some not_applicable
    → valid_status transcode_status ≢ some skipped
    → promote_transcode_to_package redact now id item transcode_status s ≡ ok s
unfolding promote_transcode_to_package
promote_transcode_to_package_else redact now id item ts s d n k = ground arith
