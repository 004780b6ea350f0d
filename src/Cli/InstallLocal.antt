-- ===== src/Cli/InstallLocal.antt =====
-- cmdInstallLocal of cmd/rsb/main.go, on a disk of files and symbolic links. The directories of a path
-- are no links. Paths are put together by `/`, as the command does.
pub mod Linked
pub mod Lost
use rsb.Prelude.{
  ℕ, zero, suc, String, Bytes, List, [], ◌∷◌, ◌⧺◌, Option, none, some, Try, ok, err, ◌==◌,
  if◌then◌else◌,
}
use rsb.Prelude.Dict.{Dict, lookup, insert, delete}

pub data Node : Type 0 where
  file : Bytes → Node
  link : String → Node

abbrev pub Disk : Type 0
Disk = Dict Node

-- os.Stat, as the content of the file behind the links; `fuel` is how many links the system follows.
unfoldable pub stat_node : (String → Option Bytes) → Option Node → Option Bytes
stat_node follow none = none
stat_node follow (some (file content)) = some content
stat_node follow (some (link target)) = follow target

unfoldable pub stat : ℕ → Disk → String → Option Bytes
unfolding stat_node
stat zero disk p = none
stat (suc fuel) disk p = stat_node (stat fuel disk) (lookup p disk)

-- What the system refuses: making the directory, and making a link at a path.
pub record Faults : Type 0 where
  pub mkdir : Option String
  pub symlink : String → Option String

abbrev pub no_faults : Faults
no_faults = record { mkdir = none; symlink = λ p. none }

abbrev pub programs : List String
programs = "rsb" ∷ "rsb-daemon" ∷ "rsb-agent" ∷ []

abbrev pub at : String → String → String
at dir name = dir ⧺ ("/" ⧺ name)

module _ (faults : Faults) (links : ℕ) (dir bin_dir : String) where
  linked : String → Option String → Disk → Option String × Disk
  linked name (some e) disk =
      (some ("symlink " ⧺ (at bin_dir name ⧺ (" -> " ⧺ (at dir name ⧺ (": " ⧺ e))))), disk)
  linked name none disk = (none, insert (at bin_dir name) (link (at dir name)) disk)

  -- One round: the source must be there, and the old link is removed.
  unfoldable pub link_one : String → Option Bytes → Disk → Option String × Disk
  unfolding linked
  link_one name none disk = (some ("source missing: " ⧺ at dir name), disk)
  link_one name (some content) disk =
      linked name (faults.symlink (at bin_dir name)) (delete (at bin_dir name) disk)

  unfoldable pub and_then :
      Option String × Disk → (Disk → Option String × Disk) → Option String × Disk
  and_then (some e, disk) next = (some e, disk)
  and_then (none, disk) next = next disk

  -- The loop; the first error ends the command.
  unfoldable pub link_all : List String → Disk → Option String × Disk
  unfolding and_then
  link_all [] disk = (none, disk)
  link_all (name ∷ names) disk =
      and_then (link_one name (stat links disk (at dir name)) disk) (link_all names)

  made_dir : Option String → Disk → Option String × Disk
  made_dir (some e) disk = (some ("mkdir " ⧺ (bin_dir ⧺ (": " ⧺ e))), disk)
  made_dir none disk = link_all programs disk

-- cmdInstallLocal: `dir` is LocalPlatformDir and `home` Home.
with_home : Faults → ℕ → String → String → Disk → Option String × Disk
unfolding made_dir
with_home faults links dir home disk =
    if home == ""
    then (some "cannot find rsb home (set RSB_HOME or run from install dir)", disk)
    else made_dir faults links dir (home ⧺ "/bin") faults.mkdir disk

unfoldable pub cmd_install_local : Faults → ℕ → Try String → String → Disk → Option String × Disk
unfolding with_home
cmd_install_local faults links (err e) home disk =
    (some ("cannot find platform binaries: " ⧺ e), disk)
cmd_install_local faults links (ok dir) home disk = with_home faults links dir home disk
