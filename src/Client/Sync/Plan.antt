-- ===== src/Client/Sync/Plan.antt =====
-- What a sync relies on and what it is to do: the interface of a session, and the plan of a walk.
use rsb.Prelude.{
  ◌≤◌, ◌*◌, String, Bool, true, false, ◌≡◌, refl, ◌≢◌, Bytes, List, [], ◌∷◌, ◌++◌, ◌⧺◌, Option,
  none, some, Try, ok, err, length, ltb, All, map, if◌then◌else◌, not, eqb, arith,
}
use rsb.Prelude.Dict.{Dict}
use rsb.Protocol.{FileStat}
use rsb.Agent.Put.{tmp_of}
use rsb.Client.Transfer.{buffer_size}
use rsb.Client.Sync.{
  LocalFile, Entry, unreadable, file, Remote, SyncResult, no_files, need_upload, add_failed,
}

-- A file that the walk and the upload see alike, with a modification time that the host can be given, and
-- of no more bytes than fit in 62 chunks.
pub record Steady (f : LocalFile) : Type 0 where
  pub content : Bytes
  pub readable : f.local ≡ ok (content, none)
  pub sized : f.size ≡ length content
  pub timed : ltb 0 f.mtime ≡ true
  pub small : length content ≤ 62 * buffer_size

-- Two files that are not in each other's way on the host, nor in that of the temporary files.
pub record Apart (f g : LocalFile) : Type 0 where
  pub differ : g.remote ≢ f.remote
  pub no_tmp : g.remote ≢ tmp_of f.remote

abbrev pub files_of : List Entry → List LocalFile
files_of [] = []
files_of (file f ∷ es) = f ∷ files_of es
files_of (_ ∷ es) = files_of es

abbrev pub AllApart : List LocalFile → Type 0
AllApart [] = Unit
AllApart (f ∷ fs) = All (λ g. Apart f g × Apart g f) fs × AllApart fs

-- What a sync relies on, in a state that is ready: a question about a file is answered, and an upload
-- of a steady file is done, after which the host is ready again, its copy is current and all other files
-- are as they were.
pub record IsLawful (R : Remote) (Ready : R.State → Type 0) : Type 0 where
  pub answers :
      (f : LocalFile) (s : R.State)
      → Ready s
      → Steady f
      → (st : Try FileStat) × (R.stat f.remote s ≡ some st)
  pub uploads :
      (f : LocalFile) (s : R.State)
      → Ready s
      → Steady f
      → (s' : R.State) × (Ready s'
          × ((R.put f s ≡ some (none, s'))
              × (((st : Try FileStat) × ((R.stat f.remote s' ≡ some st)
                      × (need_upload f st ≡ false)))
                  × ((g : LocalFile)
                      → Steady g
                      → Apart f g
                      → R.stat g.remote s' ≡ R.stat g.remote s))))

-- Whether a host's answer says that it has the file as it is here: a file, and not a directory, with the
-- size and with the modification time of this one.
pub holds_copy : LocalFile → Try FileStat → Bool
holds_copy f (err e) = false
holds_copy f (ok st) =
    if st.exists
    then (if st.is_dir
        then false
        else if eqb st.size f.size
        then eqb st.mod_time f.mtime
        else false)
    else false

pub need_upload-holds_copy :
    (f : LocalFile) (t : Try FileStat) → need_upload f t ≡ not (holds_copy f t)
unfolding need_upload holds_copy
need_upload-holds_copy f (err e) = refl
need_upload-holds_copy f (ok st) = ground arith

pub wanted_by : LocalFile → Option (Try FileStat) → Bool
unfolding holds_copy
wanted_by f none = false
wanted_by f (some st) = not (holds_copy f st)

-- Whether a file is to be sent, by what the host answers.
unfoldable pub wanted : (R : Remote) → LocalFile → R.State → Bool
unfolding wanted_by
wanted R f s = wanted_by f (R.stat f.remote s)

unfoldable pub plan : (R : Remote) → Bool → R.State → List LocalFile → List LocalFile
plan R want s [] = []
plan R want s (f ∷ fs) =
    let rest = plan R want s fs in
    if wanted R f s then (if want then f ∷ rest else rest) else (if want then rest else f ∷ rest)

abbrev pub rel_of : Bool → LocalFile → String
rel_of dry_run f = if dry_run then f.rel ⧺ " (dry-run)" else f.rel

-- The walk's own failures.
abbrev pub walk_failures : List Entry → Dict String → Dict String
walk_failures [] failed = failed
walk_failures (unreadable path e ∷ es) failed =
    walk_failures es (add_failed path e (record no_files { failed = failed })).failed
walk_failures (_ ∷ es) failed = walk_failures es failed

-- The result of a run by its plan.
abbrev pub by_plan : (R : Remote) → Bool → List Entry → SyncResult → R.State → SyncResult
by_plan R dry_run es res s = record {
  uploaded = res.uploaded ++ map (rel_of dry_run) (plan R true s (files_of es));
  skipped = res.skipped ++ map (λ (f : LocalFile). f.rel) (plan R false s (files_of es));
  failed = walk_failures es res.failed;
}

-- All files of the walk skipped, and the walk's own failures.
abbrev pub all_skipped : List Entry → SyncResult
all_skipped es = record {
  uploaded = [];
  skipped = map (λ (f : LocalFile). f.rel) (files_of es);
  failed = walk_failures es [];
}
