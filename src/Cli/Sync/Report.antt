-- ===== src/Cli/Sync/Report.antt =====
-- What `rsb sync` prints, and its exit code.
use mathlib.Core.List.{Memᴰ}
use mathlib.Core.List.Memᴰ
use rsb.Prelude.{
  ℕ, arith, lt→ltb, String, Bool, false, ◌≡◌, refl, subst, Bytes, List, [], ◌∷◌, Option, none, some,
  Try, ok, err, length, ltb, map, All, Bool-cases, inl, inr, if◌then◌else◌,
}
use rsb.Prelude.Dict.{Dict}
use rsb.Client.Paths.{PathSpec, is_remote, parse_path}
use rsb.Client.Sync.{
  LocalFile, Entry, unreadable, directory, file, Remote, SyncResult, done, no_files, sync_entries,
  started, sync,
}
use rsb.Client.Sync.Plan.{rel_of}
use rsb.Client.Sync.Accounted.{
  IsFailed, Accounted, is_directory, is_uploaded, is_skipped, is_failed, is_unreadable, After,
  sync_entries-After,
}
use rsb.Cli.Sync.{
  ended_with, sync_args, sync_positional, cmd_sync, upload_line, skip_line, report, printed,
  run_sync,
}

-- The entry is no failure, and if it is a file it is listed as uploaded or as skipped.
pub data Moved (dry_run : Bool) (lines : List String) : Entry → Type 0 where
  moved_directory : Moved dry_run lines directory
  moved_uploaded :
      {f : LocalFile} → Memᴰ (upload_line (rel_of dry_run f)) lines → Moved dry_run lines (file f)
  moved_skipped : {f : LocalFile} → Memᴰ (skip_line f.rel) lines → Moved dry_run lines (file f)

module _ (itoa : ℕ → String) (dry_run : Bool) where
  Accounted-Moved :
      (res : SyncResult) (entry : Entry)
      → res.failed ≡ []
      → Accounted dry_run res entry
      → Moved dry_run (report itoa dry_run res) entry
  unfolding report
  Accounted-Moved res directory none_failed is_directory = moved_directory
  Accounted-Moved res (file f) none_failed (is_uploaded h) =
      moved_uploaded (Memᴰ.append_left _ (Memᴰ.map upload_line h))
  Accounted-Moved res (file f) none_failed (is_skipped h) =
      moved_skipped (
        Memᴰ.append_right (map upload_line res.uploaded)
          (Memᴰ.append_left _ (Memᴰ.map skip_line h)))
  Accounted-Moved res (file f) none_failed (is_failed h) =
      absurd (Memᴰ.not-nil (subst (IsFailed f.rel) none_failed h).1)
  Accounted-Moved res (unreadable path e) none_failed (is_unreadable h) =
      absurd (Memᴰ.not-nil (subst (IsFailed path) none_failed h).1)

  All-Moved :
      (res : SyncResult) (entries : List Entry)
      → res.failed ≡ []
      → All (Accounted dry_run res) entries
      → All (Moved dry_run (report itoa dry_run res)) entries
  All-Moved res [] none_failed h = tt
  All-Moved res (entry ∷ entries) none_failed h =
      (Accounted-Moved res entry none_failed h.0, All-Moved res entries none_failed h.1)

  nothing_failed :
      {lines : List String} (res : SyncResult) (entries : List Entry) (failures : Dict String)
      → res.failed ≡ failures
      → ◌≡◌ {A = Option (List String × ℕ)}
          (some (report itoa dry_run res, if ltb 0 (length failures) then 1 else 0))
          (some (lines, 0))
      → All (Accounted dry_run res) entries
      → All (Moved dry_run lines) entries
  nothing_failed res entries [] none_failed e h =
      subst (λ (lines : List String). All (Moved dry_run lines) entries) (cc e)
        (All-Moved res entries none_failed h)
  nothing_failed res entries (first ∷ others) some_failed e h =
      absurd (cc (rw (lt→ltb 0 (length (first ∷ others)) (omega arith)) at e))

  module _ (R : Remote) where
    ended_with-Moved :
        {lines : List String} (entries : List Entry) (o : Option (SyncResult × R.State))
        → After R dry_run entries no_files o
        → printed itoa dry_run (ended_with R (done o)) ≡ some (lines, 0)
        → All (Moved dry_run lines) entries
    unfolding printed ended_with
    ended_with-Moved entries none after e = absurd (cc e)
    ended_with-Moved entries (some (res, s)) after e =
        nothing_failed res entries res.failed refl e (after.accounts res s refl)

    started-Moved :
        {lines : List String} (entries : List Entry) (t : Try R.State)
        → printed itoa dry_run (ended_with R (started R dry_run entries t)) ≡ some (lines, 0)
        → All (Moved dry_run lines) entries
    unfolding started printed ended_with
    started-Moved entries (err e) h = absurd (cc h)
    started-Moved entries (ok s) h =
        ended_with-Moved entries (sync_entries R dry_run entries no_files s)
          (sync_entries-After R dry_run entries no_files s) h

    sync-Moved :
        {lines : List String} (entries : List Entry) (dst : PathSpec) (t : Try R.State)
        → printed itoa dry_run (ended_with R (sync R entries dst dry_run t)) ≡ some (lines, 0)
        → All (Moved dry_run lines) entries
    unfolding sync printed ended_with
    sync-Moved entries dst t h = elim (Bool-cases (is_remote dst)) [
      | inl remote ↦ started-Moved entries t (rw remote at h)
      | inr local ↦ absurd (cc (rw local at h))
    ]

-- An rsb sync of a directory that exits with 0, on any host: no entry of the walk was unreadable, and
-- for each file there is a line that says that it was uploaded, or one that says that it was skipped.
pub run_sync-Moved :
    (itoa : ℕ → String) (R : Remote) (utf8 : String → Bytes) (walk : String → PathSpec → List Entry)
    (session : Bytes → Try R.State) (args rest lines : List String) (dry_run : Bool)
    (src dst : String)
    → sync_args args false [] ≡ (dry_run, src ∷ dst ∷ rest)
    → run_sync itoa R utf8 walk session args ≡ some (lines, 0)
    → All (Moved dry_run lines) (walk src (parse_path (utf8 dst)))
unfolding run_sync cmd_sync sync_positional
run_sync-Moved itoa R utf8 walk session args rest lines dry_run src dst parsed h =
    let spec = parse_path (utf8 dst) in
    sync-Moved itoa dry_run R (walk src spec) spec (session spec.host) (rw parsed at h)
