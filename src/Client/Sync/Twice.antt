-- ===== src/Client/Sync/Twice.antt =====
-- Sync to a healthy agent, as a run, a dry run and a second run.
use rsb.Prelude.{
  ◌+◌, ◌≤◌, length, ◌∷◌, String, true, false, ◌≡◌, refl, Bytes, List, [], none, some, ok, All,
}
use rsb.Agent.Put.{Faults}
use rsb.Daemon.{client_in_size}
use rsb.Client.Transfer.{put_frames}
use rsb.Client.Transfer.Uploads.{put_frames-fit}
use rsb.Client.Paths.{PathSpec, is_remote}
use rsb.Client.Sync.{LocalFile, Entry, no_files, sync, done}
use rsb.Client.Sync.Plan.{Steady, files_of, AllApart, by_plan, all_skipped}
use rsb.Client.Sync.Laws.{sync_entries_twice, sync_entries_dry}
use rsb.Client.Sync.OnAgent.{Host, agent_remote, Ready, agent_remote-IsLawful}

-- The request and the chunks of a file fit in the empty queue of a connection of the daemon.
abbrev pub Fits : (Bytes → String) → String → LocalFile → Type 0
Fits digest id f = 1 + length (put_frames digest id f.local) ≤ client_in_size

All-Fits :
    (digest : Bytes → String) (id : String) (fs : List LocalFile)
    → All Steady fs
    → All (Fits digest id) fs
All-Fits digest id [] steady = tt
All-Fits digest id (f ∷ fs) (s, steady) =
    (rw (s.readable) (put_frames-fit digest id s.content s.small), All-Fits digest id fs steady)

module _ (digest : Bytes → String) (faults : Faults) (closed id : String) where
  -- Sync to an absolute directory of a healthy agent, of files that are read without an error, have a
  -- modification time and at most 62 chunks, and are not in each other's way, over a connection of the
  -- daemon that is given no other frames, whose queue then has room for all frames of each upload: a real
  -- run returns, it uploads exactly the files of which the host has no copy with the same size and time
  -- and skips the others, in order, and a second run skips every file, with no failure but the walk's
  -- own, and leaves the host as it was.
  pub sync-agent_twice :
      (es : List Entry) (dst : PathSpec) (h : Host)
      → is_remote dst ≡ true
      → faults.writes ≡ []
      → faults.rename ≡ none
      → faults.chtimes_fails ≡ false
      → h.in_put ≡ false
      → All Steady (files_of es)
      → AllApart (files_of es)
      → (h' : Host) × ((sync (agent_remote digest faults closed id) es dst false (ok h)
            ≡ done (some (by_plan (agent_remote digest faults closed id) false es no_files h, h')))
          × (sync (agent_remote digest faults closed id) es dst false (ok h')
              ≡ done (some (all_skipped es, h')))
          × All (Fits digest id) (files_of es))
  unfolding sync
  sync-agent_twice es dst h remote writes rename times r steady apart =
      let (h', (first, second)) =
        sync_entries_twice (agent_remote digest faults closed id) (Ready digest faults closed id)
          (agent_remote-IsLawful digest faults closed id writes rename times) es h r steady apart in
      (
        h',
        (
          rw (remote, first) refl,
          rw (remote, second) refl,
          All-Fits digest id (files_of es) steady,
        ),
      )

  -- A dry run of Sync to an absolute directory of a healthy agent, of files that are read without an
  -- error, have a modification time and are not in each other's way: it returns, it lists as to be
  -- uploaded exactly the files that the host lacks or has with another size or time and as skipped the
  -- others, in order, and leaves the host as it was.
  pub sync-agent_dry :
      (es : List Entry) (dst : PathSpec) (h : Host)
      → is_remote dst ≡ true
      → faults.writes ≡ []
      → faults.rename ≡ none
      → faults.chtimes_fails ≡ false
      → h.in_put ≡ false
      → All Steady (files_of es)
      → AllApart (files_of es)
      → sync (agent_remote digest faults closed id) es dst true (ok h)
        ≡ done (some (by_plan (agent_remote digest faults closed id) true es no_files h, h))
  unfolding sync
  sync-agent_dry es dst h remote writes rename times r steady apart =
      rw
        (
          remote,
          sync_entries_dry (agent_remote digest faults closed id) (Ready digest faults closed id)
              (agent_remote-IsLawful digest faults closed id writes rename times) es h r steady
              apart,
        )
        refl
