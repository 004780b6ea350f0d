-- ===== src/Cli/Cp.antt =====
-- cmdCp of cmd/rsb/main.go, over the session `R`. `utf8` gives the bytes of a string, `text` the
-- string of bytes, `session` is
-- NewSession, `get` FileGet of a path in it, and `here` what this machine answers for the two paths.
pub mod Back
use rsb.Prelude.{String, Bytes, List, [], ◌∷◌, ◌⧺◌, Option, none, some, Try, if◌then◌else◌}
use rsb.Client.Paths.{PathSpec, parse_path, is_remote}
use rsb.Client.Transfer.{Download}
use rsb.Client.Sync.{Remote}
use rsb.Client.Copy.{Copied, refused, downloaded, uploaded, Local, cp}

-- How the command ends: with a message and 1, never, with the local file that was written, or with the
-- session behind an upload.
pub data Ended (S : Type 0) : Type 0 where
  failed : String → Ended S
  hangs : Ended S
  saved : Option Bytes → Ended S
  sent : S → Ended S

unfoldable pub ended_with : {S : Type 0} → Copied S → Ended S
ended_with (refused e) = failed ("cp: " ⧺ e)
ended_with (downloaded (some e) file) = failed ("cp: " ⧺ e)
ended_with (downloaded none file) = saved file
ended_with (uploaded none) = hangs
ended_with (uploaded (some (some e, s))) = failed ("cp: " ⧺ e)
ended_with (uploaded (some (none, s))) = sent s

module _ (R : Remote) (utf8 : String → Bytes) (text : Bytes → String)
    (get : Bytes → R.State → Download) where
  -- The host that CP opens its session to.
  abbrev pub host_of : PathSpec → PathSpec → Bytes
  host_of src dst = if is_remote src then src.host else dst.host

  unfoldable pub copy_between : PathSpec → PathSpec → (Bytes → Try R.State) → Local → Ended R.State
  unfolding ended_with
  copy_between src dst session here =
      ended_with (cp R text src dst (session (host_of src dst)) (get src.path) here)

  unfoldable pub cmd_cp : List String → (Bytes → Try R.State) → Local → Ended R.State
  unfolding copy_between
  cmd_cp (src ∷ dst ∷ _) session here =
      copy_between (parse_path (utf8 src)) (parse_path (utf8 dst)) session here
  cmd_cp _ session here =
      failed "usage: rsb cp <src> <dst>\n  e.g. rsb cp local.py prod:/opt/app/x.py"
