-- ===== src/Tests/Syncs.antt =====
-- A sync of a small directory to an agent that has one of its two files.
use rsb.Prelude.{
  arith, All, ◌+◌, ◌≤◌, length, if◌then◌else◌, distinct, Try, String, true, false, ◌≡◌, refl, Bytes,
  List, [], ◌∷◌, ◌++◌, none, some, ok, err, ◌==◌,
}
use rsb.Prelude.Dict.{insert, lookup}
use rsb.Agent.Run.{stat_answer}
use rsb.Protocol.{zero_request, Request, request}
use rsb.Agent.Get.{result_ok}
use rsb.Agent.Put.{no_faults, put_opened}
use rsb.Agent.Put.Landed.{Replaced}
use rsb.Client.Paths.{PathSpec, is_remote, parse_path, strip_prefix, split_colon}
use rsb.Client.Transfer.{put_frames, await_stat}
use rsb.Client.Sync.{
  and_then, sync_file, decided, SyncResult, LocalFile, Entry, unreadable, directory, file, no_files,
  sync, done, sync_entries, need_upload,
}
use rsb.Client.Sync.Plan.{Steady, Apart, files_of, AllApart, by_plan, all_skipped}
use rsb.Client.Sync.OnAgent.{Host, agent_remote, stat_on}
use rsb.Daemon.{client_in_size}
use rsb.Client.Transfer.{put_frames}
use rsb.Client.Sync.Twice.{Fits, sync-agent_twice}
use rsb.Cli.Sync.{cmd_sync, ended}
use rsb.Cli.Sync.DryRun.{cmd_sync-dry}
use rsb.Client.Copy.{Local}
use rsb.Cli.Cp.{saved, sent}
use rsb.Cli.Cp.Back.{run_cp, cmd_cp-back}
use rsb.Client.Sync.Stuck.{put_opened-crossed}

abbrev digest : Bytes → String
digest [] = "0"
digest (b ∷ bs) = "1"

abbrev fresh : LocalFile
fresh = record {
  rel = "a";
  remote = "/d/a";
  size = 2;
  mode = 420;
  mtime = 7;
  local = ok (65 ∷ 66 ∷ [], none);
}

abbrev known : LocalFile
known = record {
  rel = "b";
  remote = "/d/b";
  size = 1;
  mode = 420;
  mtime = 5;
  local = ok (67 ∷ [], none);
}

abbrev unopened : LocalFile
unopened = record {
  rel = "c";
  remote = "/d/c";
  size = 1;
  mode = 0;
  mtime = 5;
  local = err "denied";
}

abbrev entries : List Entry
entries = directory ∷ file fresh ∷ unreadable "/l/x" "denied" ∷ file known ∷ []

abbrev host : Host
host = record {
  disk = ("/d/b", record { content = 67 ∷ []; mode = 420; mtime = 5 }) ∷ [];
  in_put = false;
}

abbrev destination : PathSpec
destination = record { host = b'w' ∷ []; path = b'/' ∷ b'd' ∷ [] }

fresh-Steady : Steady fresh
fresh-Steady = record {
  content = 65 ∷ 66 ∷ [];
  readable = refl;
  sized = refl;
  timed = refl;
  small = omega arith;
}

known-Steady : Steady known
known-Steady = record {
  content = 67 ∷ [];
  readable = refl;
  sized = refl;
  timed = refl;
  small = omega arith;
}

known-Apart : Apart known fresh
known-Apart = record { differ = distinct _ _ refl; no_tmp = distinct _ _ refl }

fresh-Apart : Apart fresh known
fresh-Apart = record { differ = distinct _ _ refl; no_tmp = distinct _ _ refl }

entries-AllApart : AllApart (files_of entries)
entries-AllApart = (((fresh-Apart, known-Apart), tt), (tt, tt))

sync-agent_twice_example :
    (h' : Host) × ((sync
          (agent_remote digest no_faults "EOF" "i")
          entries
          destination
          false
          (ok host)
        ≡ done (
            some
              (by_plan (agent_remote digest no_faults "EOF" "i") false entries no_files host, h')))
      × (sync (agent_remote digest no_faults "EOF" "i") entries destination false (ok h')
          ≡ done (some (all_skipped entries, h')))
      × All (Fits digest "i") (files_of entries))
unfolding is_remote
sync-agent_twice_example =
    sync-agent_twice digest no_faults "EOF" "i" entries destination host refl refl refl refl refl
      (fresh-Steady, (known-Steady, tt)) entries-AllApart

abbrev given_up : Request
given_up = record zero_request { id = "i"; path = "/d/c"; atomic_put = true; mtime = 5 }

put_opened-crossed_example :
    ((put_opened digest no_faults "EOF"
        (put_frames digest "i" (err "denied")
          ++ request zero_request ∷ put_frames digest "j" (ok (65 ∷ [], none))
          ++ [])
        given_up
        "/d/c"
        host.disk).reply
      ≡ result_ok "i")
    × Replaced digest no_faults given_up "/d/c"
        (65 ∷ [])
        "1"
        host.disk
        (put_opened digest no_faults "EOF"
          (put_frames digest "i" (err "denied")
            ++ request zero_request ∷ put_frames digest "j" (ok (65 ∷ [], none))
            ++ [])
          given_up
          "/d/c"
          host.disk).disk
    × ((put_opened digest no_faults "EOF"
          (put_frames digest "i" (err "denied")
            ++ request zero_request ∷ put_frames digest "j" (ok (65 ∷ [], none))
            ++ [])
          given_up
          "/d/c"
          host.disk).unread
        ≡ [])
put_opened-crossed_example =
    put_opened-crossed digest no_faults "EOF" "i" "j" "denied" (65 ∷ []) zero_request given_up
      "/d/c" host.disk refl refl refl

abbrev pc : PathSpec
pc = record { host = []; path = b'/' ∷ b'l' ∷ [] }

abbrev source : Local
source = record { create_fault = none; before = none; source = ok (false, fresh) }

abbrev target : Local
target = record { create_fault = none; before = some (1 ∷ 2 ∷ 3 ∷ []); source = err "not used" }

utf8 : String → Bytes
utf8 s = b'w' ∷ b':' ∷ b'/' ∷ b'd' ∷ []

walk : String → PathSpec → List Entry
walk src dst = entries

session : Bytes → Try Host
session name = ok host

abbrev listed : SyncResult
listed = record {
  uploaded = "a (dry-run)" ∷ [];
  skipped = "b" ∷ [];
  failed = ("/l/x", "denied") ∷ [];
}

abbrev dry_line : List String
dry_line = "./l" ∷ "--dry-run" ∷ "w:/d" ∷ []

dry_line-ended :
    cmd_sync (agent_remote digest no_faults "EOF" "i") utf8 walk session dry_line
    ≡ ended listed host 1
unfolding cmd_sync sync is_remote parse_path strip_prefix utf8 split_colon session sync_entries walk
    and_then sync_file decided stat_on need_upload await_stat stat_answer lookup insert
dry_line-ended = refl

cmd_sync-dry_example : (name : Bytes) × (session name ≡ ok host)
cmd_sync-dry_example =
    cmd_sync-dry (agent_remote digest no_faults "EOF" "i") utf8 walk session ("./l" ∷ [])
      ("w:/d" ∷ []) listed host 1 dry_line-ended

-- `w:/d/a` is the file on the host, `a` the local one.
abbrev path_bytes : Bytes
path_bytes = b'/' ∷ b'd' ∷ b'/' ∷ b'a' ∷ []

abbrev arg_bytes : String → Bytes
arg_bytes s = if s == "a" then b'a' ∷ [] else b'w' ∷ b':' ∷ path_bytes

abbrev text : Bytes → String
text bs = "/d/a"

cmd_cp-back_example :
    (h' : Host) × (run_cp digest no_faults "EOF" "i" arg_bytes text
        ("a" ∷ "w:/d/a" ∷ [])
        host
        source
      ≡ sent h')
    × (run_cp digest no_faults "EOF" "i" arg_bytes text ("w:/d/a" ∷ "a" ∷ []) h' target
        ≡ saved (some (65 ∷ 66 ∷ [])))
    × (1 + length (put_frames digest "i" fresh.local) ≤ client_in_size)
unfolding parse_path is_remote strip_prefix split_colon
cmd_cp-back_example =
    cmd_cp-back digest no_faults "EOF" "i" arg_bytes text fresh (65 ∷ 66 ∷ []) (b'w' ∷ [])
      path_bytes "a" "a" "w:/d/a" host source target refl refl refl
      (record { some_host = λ h. absurd (cc h); no_colon = (refl, tt); no_drive = refl })
      (omega arith) refl refl refl refl refl refl
