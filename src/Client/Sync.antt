-- ===== src/Client/Sync.antt =====
-- Sync of internal/client/files.go, over what a session offers: the interface `Remote`. The walk of the
-- local directory is the list of what filepath.Walk hands to its callback, each file with its relative
-- and its remote path. An operation that never returns is `none`, and so is then the whole of Sync.
pub mod Plan
pub mod Handled
pub mod Laws
pub mod OnAgent
pub mod Twice
pub mod Stuck
pub mod Accounted
use rsb.Prelude.{
  ℕ, String, Bool, true, false, not, ◌&&◌, Bytes, List, [], ◌∷◌, ◌++◌, ◌⧺◌, Option, none, some, Try,
  ok, err, eqb, if◌then◌else◌,
}
use rsb.Prelude.Dict.{Dict, insert}
use rsb.Protocol.{FileStat}
use rsb.Client.Paths.{PathSpec, is_remote}

-- A local file: `rel` is its path in the directory, `remote` its path on the host; the size, the mode
-- and the time are those that the walk found, `local` is what opening and reading it gives.
pub record LocalFile : Type 0 where
  pub rel : String
  pub remote : String
  pub size : ℕ
  pub mode : ℕ
  pub mtime : ℕ
  pub local : Try (Bytes × Option String)

pub data Entry : Type 0 where
  unreadable : String → String → Entry
  directory : Entry
  file : LocalFile → Entry

-- What a session to a host offers: FileStat, and FilePut with its error if there is one.
pub record Remote : Type 1 where
  pub State : Type 0
  pub stat : String → State → Option (Try FileStat)
  pub put : LocalFile → State → Option (Option String × State)

pub record SyncResult : Type 0 where
  pub uploaded : List String
  pub skipped : List String
  pub failed : Dict String

abbrev pub no_files : SyncResult
no_files = record { uploaded = []; skipped = []; failed = [] }

-- The size and time heuristic.
unfoldable pub need_upload : LocalFile → Try FileStat → Bool
need_upload f (err e) = true
need_upload f (ok st) =
    not (st.exists && (not st.is_dir && (eqb st.size f.size && eqb st.mod_time f.mtime)))

abbrev pub add_uploaded : String → SyncResult → SyncResult
add_uploaded rel res = record res { uploaded = res.uploaded ++ rel ∷ [] }

abbrev pub add_skipped : String → SyncResult → SyncResult
add_skipped rel res = record res { skipped = res.skipped ++ rel ∷ [] }

abbrev pub add_failed : String → String → SyncResult → SyncResult
add_failed rel e res = record res { failed = insert rel e res.failed }

unfoldable pub after_put :
    {S : Type 0} → LocalFile → SyncResult → Option (Option String × S) → Option (SyncResult × S)
after_put f res none = none
after_put f res (some (some e, s)) = some (add_failed f.rel e res, s)
after_put f res (some (none, s)) = some (add_uploaded f.rel res, s)

module _ (R : Remote) where
  unfoldable pub decided :
      Bool
      → LocalFile
      → SyncResult
      → R.State
      → Option (Try FileStat)
      → Option (SyncResult × R.State)
  decided dry_run f res s none = none
  decided dry_run f res s (some st) =
      if not (need_upload f st)
      then some (add_skipped f.rel res, s)
      else if dry_run
      then some (add_uploaded (f.rel ⧺ " (dry-run)") res, s)
      else after_put f res (R.put f s)

  -- The callback of the walk, for a file.
  unfoldable pub sync_file : Bool → LocalFile → SyncResult → R.State → Option (SyncResult × R.State)
  sync_file dry_run f res s = decided dry_run f res s (R.stat f.remote s)

  unfoldable pub and_then :
      Option (SyncResult × R.State)
      → (SyncResult → R.State → Option (SyncResult × R.State))
      → Option (SyncResult × R.State)
  and_then none next = none
  and_then (some (res, s)) next = next res s

  unfoldable pub sync_entries :
      Bool → List Entry → SyncResult → R.State → Option (SyncResult × R.State)
  sync_entries dry_run [] res s = some (res, s)
  sync_entries dry_run (unreadable path e ∷ es) res s =
      sync_entries dry_run es (add_failed path e res) s
  sync_entries dry_run (directory ∷ es) res s = sync_entries dry_run es res s
  sync_entries dry_run (file f ∷ es) res s =
      and_then (sync_file dry_run f res s) (sync_entries dry_run es)

  pub data Synced : Type 0 where
    refused : String → Synced
    done : Option (SyncResult × R.State) → Synced

  unfoldable pub started : Bool → List Entry → Try R.State → Synced
  started dry_run entries (err e) = refused e
  started dry_run entries (ok s) = done (sync_entries dry_run entries no_files s)

  -- Sync; `session` is what NewSession gives for the host.
  unfoldable pub sync : List Entry → PathSpec → Bool → Try R.State → Synced
  unfolding started
  sync entries dst dry_run session =
      if not (is_remote dst)
      then refused "sync destination must be remote (host:path)"
      else started dry_run entries session
