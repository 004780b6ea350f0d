-- ===== src/Cli/Sync.antt =====
-- cmdSync of cmd/rsb/main.go, over the session `R`. What filepath.Walk finds under a directory for a
-- destination is the parameter `walk`, `session` is NewSession, and `utf8` gives the bytes of a string.
pub mod DryRun
pub mod Report
use rsb.Prelude.{
  ℕ, String, Bool, true, false, Bytes, List, [], ◌∷◌, ◌++◌, Option, none, some, Try, length, ltb,
  map, ◌==◌, ◌⧺◌, if◌then◌else◌,
}
use rsb.Client.Paths.{PathSpec, parse_path}
use rsb.Client.Sync.{Entry, Remote, SyncResult, Synced, refused, done, sync}

-- The loop over the arguments: whether --dry-run is there, and the others.
unfoldable pub sync_args : List String → Bool → List String → Bool × List String
sync_args [] dry_run positional = (dry_run, positional)
sync_args (a ∷ args) dry_run positional =
    let dry = sync_args args true positional in
    let next = sync_args args dry_run (positional ++ a ∷ []) in
    if a == "--dry-run" then dry else next

-- How the command ends: with a message and 1, never, or with the result, the state of the session, and
-- the exit code.
pub data Ended (S : Type 0) : Type 0 where
  failed : String → Ended S
  hangs : Ended S
  ended : SyncResult → S → ℕ → Ended S

module _ (R : Remote) where
  -- `if len(res.Failed) > 0`
  unfoldable pub ended_with : Synced R → Ended R.State
  ended_with (refused e) = failed ("sync: " ⧺ e)
  ended_with (done none) = hangs
  ended_with (done (some (res, s))) = ended res s (if ltb 0 (length res.failed) then 1 else 0)

  unfoldable pub sync_positional :
      (String → Bytes)
      → (String → PathSpec → List Entry)
      → (Bytes → Try R.State)
      → Bool
      → List String
      → Ended R.State
  unfolding ended_with
  sync_positional utf8 walk session dry_run (src ∷ dst ∷ _) =
      let spec = parse_path (utf8 dst) in
      ended_with (sync R (walk src spec) spec dry_run (session spec.host))
  sync_positional utf8 walk session dry_run _ =
      failed "usage: rsb sync <localDir> <host:remoteDir> [--dry-run]"

  unfoldable pub cmd_sync :
      (String → Bytes)
      → (String → PathSpec → List Entry)
      → (Bytes → Try R.State)
      → List String
      → Ended R.State
  unfolding sync_positional sync_args
  cmd_sync utf8 walk session args =
      let (dry_run, positional) = sync_args args false [] in
      sync_positional utf8 walk session dry_run positional

-- The lines on stderr about one file.
abbrev pub upload_line : String → String
upload_line rel = "  upload  " ⧺ rel

abbrev pub skip_line : String → String
skip_line rel = "  skip    " ⧺ rel

abbrev pub fail_line : String × String → String
fail_line (path, e) = "  FAIL    " ⧺ (path ⧺ (": " ⧺ e))

module _ (itoa : ℕ → String) where
  unfoldable pub summary : Bool → SyncResult → String
  summary dry_run res =
      itoa (length res.uploaded)
      ⧺ (" uploaded, "
          ⧺ (itoa (length res.skipped)
              ⧺ (" skipped"
                  ⧺ ((if ltb 0 (length res.failed)
                        then ", " ⧺ (itoa (length res.failed) ⧺ " failed")
                        else "")
                      ⧺ (if dry_run then " (dry-run)" else "")))))

  -- What is printed for a result. The order of the failed files is left open by Go; here they come in
  -- the order of the map.
  unfoldable pub report : Bool → SyncResult → List String
  unfolding summary
  report dry_run res =
      map upload_line res.uploaded
      ++ (map skip_line res.skipped
          ++ (map fail_line res.failed ++ ("rsb: " ⧺ summary dry_run res) ∷ []))

  -- The lines on stderr and the exit code; fatalf's are one line and 1.
  unfoldable pub printed : {S : Type 0} → Bool → Ended S → Option (List String × ℕ)
  unfolding report
  printed dry_run (failed e) = some (("rsb: " ⧺ e) ∷ [], 1)
  printed dry_run hangs = none
  printed dry_run (ended res s code) = some (report dry_run res, code)

  -- cmdSync as the process `rsb sync` shows it.
  unfoldable pub run_sync :
      (R : Remote)
      → (String → Bytes)
      → (String → PathSpec → List Entry)
      → (Bytes → Try R.State)
      → List String
      → Option (List String × ℕ)
  unfolding printed
  run_sync R utf8 walk session args =
      printed (sync_args args false []).0 (cmd_sync R utf8 walk session args)
