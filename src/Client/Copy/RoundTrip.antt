-- ===== src/Client/Copy/RoundTrip.antt =====
-- A file that is copied to a host and back.
use rsb.Prelude.{String, true, false, ◌≡◌, refl, ap, Bytes, [], ◌++◌, none, some, ok}
use rsb.Prelude.Dict.{lookup}
use rsb.Agent.Put.{File, Faults}
use rsb.Client.Paths.{PathSpec, is_remote}
use rsb.Client.Transfer.{FileGetOptions, Download, get_request, file_get, no_result}
use rsb.Client.Transfer.Downloads.{file_get-get_frames}
use rsb.Client.Sync.{LocalFile}
use rsb.Client.Sync.OnAgent.{Host, agent_remote, put_out, put_out-Landed, put_on-ok, Landed}
use rsb.Client.Copy.{Local, uploaded, downloaded, created, cp, open_on, get_reply}

abbrev pub no_limits : FileGetOptions
no_limits = record { line_start = 0; line_end = 0; max_bytes = 0 }

module _ (digest : Bytes → String) (faults : Faults) (closed id : String) where
  -- FileGet against handleFileGet, for an absolute path of a host that is in no upload.
  abbrev pub get_on : String → Host → Download
  get_on p h =
      file_get digest closed
        (get_reply digest (get_request id p "" no_limits) (open_on (lookup p h.disk)) ++ []) []
        no_result

  get_on-there :
      (p : String) (h : Host) (file : File) (content : Bytes)
      → lookup p h.disk ≡ some file
      → file.content ≡ content
      → ((get_on p h).failure ≡ none) × ((get_on p h).written ≡ content)
  get_on-there p h file content there same =
      let got = file_get-get_frames digest closed id p "" 0 content [] in
      rw (there, same) (ap (λ (d : Download). d.failure) got, ap (λ (d : Download). d.written) got)

  -- A local file that is read without an error is copied by CP to an absolute path of a healthy agent,
  -- with no error, and a second CP back from there, into a local file that can be created, ends with no
  -- error and with the same bytes, whatever that file held before.
  pub cp-back :
      (text : Bytes → String) (f : LocalFile) (content : Bytes) (here back there : PathSpec)
      (h : Host) (get : Host → Download) (l l' : Local)
      → is_remote here ≡ false
      → is_remote back ≡ false
      → is_remote there ≡ true
      → faults.writes ≡ []
      → faults.rename ≡ none
      → h.in_put ≡ false
      → f.local ≡ ok (content, none)
      → l.source ≡ ok (false, f)
      → l'.create_fault ≡ none
      → (h' : Host) × ((cp (agent_remote digest faults closed id) text here there (ok h) get l
            ≡ uploaded (some (none, h')))
          × (cp
                (agent_remote digest faults closed id)
                text
                there
                back
                (ok h')
                (get_on (text there.path))
                l'
              ≡ downloaded none (some content)))
  unfolding cp created Landed
  cp-back text f content here back there h get l l' local local' remote writes rename ready readable
        source creates =
      let g = record f { remote = text there.path } in
      let landed = put_out-Landed digest faults closed id g h.disk content writes rename readable in
      let h' : Host = record {
        disk = (put_out digest faults closed id g h.disk).disk;
        in_put = false;
      } in
      let (no_failure, whole) =
        get_on-there g.remote h' landed.1.file content landed.1.there landed.1.content in
      (
        h',
        (
          rw (local, remote, source)
              (ap uploaded (put_on-ok digest faults closed id g h content ready readable landed.0)),
          rw (local', remote, creates) (rw (no_failure, whole) refl),
        ),
      )
