-- ===== src/Cli/Cp/Back.antt =====
-- Two commands, there and back.
use rsb.Prelude.{
  ◌≤◌, ◌*◌, ◌+◌, length, String, true, false, ◌≡◌, refl, ap, Bytes, List, [], ◌∷◌, ◌++◌, none, some,
  ok, arith,
}
use rsb.Agent.Put.{Faults}
use rsb.Daemon.{client_in_size}
use rsb.Client.Transfer.{buffer_size, put_frames}
use rsb.Client.Transfer.Uploads.{put_frames-fit}
use rsb.Client.Paths.{PathSpec, parse_path, is_remote, IsHost, parse_path-host}
use rsb.Client.Sync.{LocalFile}
use rsb.Client.Sync.OnAgent.{Host, agent_remote}
use rsb.Client.Copy.{Local}
use rsb.Client.Copy.RoundTrip.{get_on, cp-back}
use rsb.Cli.Cp.{Ended, saved, sent, ended_with, copy_between, cmd_cp}

remote-named :
    (host path : Bytes) → IsHost host path → is_remote (record { host = host; path = path }) ≡ true
unfolding is_remote
remote-named [] path h = absurd (h.some_host refl)
remote-named (b ∷ host) path h = ground arith

module _ (digest : Bytes → String) (faults : Faults) (closed id : String) (utf8 : String → Bytes)
    (text : Bytes → String) where
  -- `rsb cp` of a file of this machine or of a healthy agent's host; `text` is the string of its bytes.
  abbrev pub run_cp : List String → Host → Local → Ended Host
  run_cp args h here =
      cmd_cp (agent_remote digest faults closed id) utf8 text
        (λ path. get_on digest faults closed id (text path)) args (λ host. ok h) here

  -- `rsb cp` of a local file of at most 62 chunks, which is read without an error, to `host:path`, an
  -- absolute path of a healthy agent, and `rsb cp` back from there to a local path that can be created,
  -- over a connection of the daemon that is given no other frames, whose queue then has room for all
  -- frames of the upload: both end with no error, and the second file has the bytes of the first,
  -- whatever it held before.
  pub cmd_cp-back :
      (f : LocalFile) (content host path : Bytes) (from to there : String) (h : Host) (l l' : Local)
      → is_remote (parse_path (utf8 from)) ≡ false
      → is_remote (parse_path (utf8 to)) ≡ false
      → utf8 there ≡ host ++ b':' ∷ path
      → IsHost host path
      → length content ≤ 62 * buffer_size
      → faults.writes ≡ []
      → faults.rename ≡ none
      → h.in_put ≡ false
      → f.local ≡ ok (content, none)
      → l.source ≡ ok (false, f)
      → l'.create_fault ≡ none
      → (h' : Host) × (run_cp (from ∷ there ∷ []) h l ≡ sent h')
        × (run_cp (there ∷ to ∷ []) h' l' ≡ saved (some content))
        × (1 + length (put_frames digest id f.local) ≤ client_in_size)
  unfolding cmd_cp copy_between
  cmd_cp-back f content host path from to there h l l' from_here to_here written is small writes
        rename ready readable source creates =
      let spec : PathSpec = record { host = host; path = path } in
      let (h', (gone, back)) =
        cp-back digest faults closed id text f content (parse_path (utf8 from))
          (parse_path (utf8 to)) spec h
          (get_on digest faults closed id (text (parse_path (utf8 from)).path)) l l' from_here
          to_here (remote-named host path is) writes rename ready readable source creates in
      (
        h',
        rw (written, parse_path-host host path is) (ap ended_with gone),
        rw (written, parse_path-host host path is) (ap ended_with back),
        rw readable (put_frames-fit digest id content small),
      )
