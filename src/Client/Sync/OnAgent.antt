-- ===== src/Client/Sync/OnAgent.antt =====
-- A session to an agent, as the client's FileStat and FilePut and the agent's handleFileStat and
-- handleFilePutSync make it together, for absolute paths, which resolvePath gives back as they are, on
-- a host where directories and files can be made and written, and for a daemon that passes every frame
-- on. An upload that the client gives up, since it cannot open or read its file, sends no last chunk: the
-- agent then goes on with its loop over the chunks, which skips every request (`receive_request`), so
-- while the connection lasts no later request is answered under its own id.
use rsb.Prelude.{
  String, Bool, true, false, ◌≡◌, refl, sym, ap, ◌∙◌, Bytes, List, [], ◌∷◌, ◌++◌, Option, none,
  some, Try, ok, err, arith, length, if◌then◌else◌, subst, append-nil,
}
use rsb.Prelude.Dict.{lookup, insert}
use rsb.Protocol.{Message, Request, FileStat, request}
use rsb.Agent.Put.{File, Disk, Faults, Put, tmp_of, opened_file, put_opened, receive}
use rsb.Agent.Put.Landed.{Replaced}
use rsb.Agent.Run.{stat_answer}
use rsb.Client.Transfer.{put_request, put_frames, stat_request, await_stat, await_reply}
use rsb.Client.Transfer.Uploads.{put_opened-put_frames}
use rsb.Client.Sync.{LocalFile, Remote, need_upload}
use rsb.Client.Sync.Plan.{Steady, IsLawful}

-- The host behind a session; `in_put` says that the agent is in an upload that was given up.
pub record Host : Type 0 where
  pub disk : Disk
  pub in_put : Bool

-- os.Stat of a file.
abbrev pub disk_stat : Option File → Option FileStat
disk_stat none = none
disk_stat (some f) = some (record {
  id = "";
  exists = true;
  size = length f.content;
  mod_time = f.mtime;
  mode = f.mode;
  is_dir = false;
})

-- The agent skips a request while it is in an upload.
receive_request :
    (closed : String) (writes : List (Option String)) (req : Request) (rest : List Message)
    (acc : Bytes)
    → receive closed writes (request req ∷ rest) acc ≡ receive closed writes rest acc
unfolding receive
receive_request closed writes req rest acc = refl

module _ (digest : Bytes → String) (faults : Faults) (closed id : String) where
  -- FileStat against handleFileStat.
  unfoldable pub stat_on : String → Host → Option (Try FileStat)
  stat_on p h =
      if h.in_put
      then none
      else some (
          await_stat closed (stat_answer (stat_request id p "") (disk_stat (lookup p h.disk)) ∷ []))

  pub upload_of : LocalFile → Request
  upload_of f = put_request id f.remote "" f.mode true f.mtime

  pub put_out : LocalFile → Disk → Put
  unfolding upload_of
  put_out f disk =
      put_opened digest faults closed (put_frames digest id f.local) (upload_of f) f.remote disk

  -- The disk while the agent is in an upload of these bytes.
  abbrev pub given_up : LocalFile → Bytes → Disk → Disk
  given_up f bytes disk =
      let tmp = opened_file (lookup (tmp_of f.remote) disk) f.mode faults.now in
      insert (tmp_of f.remote) (record tmp { content = bytes }) disk

  unfoldable pub put_local : LocalFile → Try (Bytes × Option String) → Host → Option String × Host
  unfolding put_out
  put_local f (err e) h = (some e, record { disk = given_up f [] h.disk; in_put = true })
  put_local f (ok (bytes, some e)) h =
      (some e, record { disk = given_up f bytes h.disk; in_put = true })
  put_local f (ok (bytes, none)) h =
      let out = put_out f h.disk in
      (await_reply closed (out.reply ∷ []), record h { disk = out.disk })

  -- FilePut against handleFilePutSync.
  unfoldable pub put_on : LocalFile → Host → Option (Option String × Host)
  unfolding put_local
  put_on f h = if h.in_put then none else some (put_local f f.local h)

  abbrev pub agent_remote : Remote
  agent_remote = record { State = Host; stat = stat_on; put = put_on }

  abbrev pub Ready : Host → Type 0
  Ready h = h.in_put ≡ false

  stat_on-lookup :
      (p : String) (h h' : Host)
      → h.in_put ≡ false
      → h'.in_put ≡ false
      → lookup p h'.disk ≡ lookup p h.disk
      → stat_on p h' ≡ stat_on p h
  unfolding stat_on
  stat_on-lookup p h h' r r' e = rw (r, r', e) refl

  record Current (f : LocalFile) (h : Host) : Type 0 where
    file : File
    there : lookup f.remote h.disk ≡ some file
    size : length file.content ≡ f.size
    time : file.mtime ≡ f.mtime

  need_upload-Current :
      (f : LocalFile) (h : Host)
      → h.in_put ≡ false
      → Current f h
      → (st : Try FileStat) × ((stat_on f.remote h ≡ some st) × (need_upload f st ≡ false))
  unfolding stat_on stat_answer await_stat need_upload
  need_upload-Current f h r c = rw (r, c.there) (_, (refl, ground (arith, c.size, c.time)))

  -- An upload that is done.
  unfoldable pub Landed : LocalFile → Disk → Bytes → Put → Type 0
  Landed f disk content out =
      (await_reply closed (out.reply ∷ []) ≡ none)
      × Replaced digest faults (upload_of f) f.remote content (digest content) disk out.disk

  pub put_out-Landed :
      (f : LocalFile) (disk : Disk) (content : Bytes)
      → faults.writes ≡ []
      → faults.rename ≡ none
      → f.local ≡ ok (content, none)
      → Landed f disk content (put_out f disk)
  unfolding put_out upload_of await_reply Landed
  put_out-Landed f disk content writes rename readable =
      let frames = put_frames digest id (ok (content, none)) in
      let same : frames ++ [] ≡ put_frames digest id f.local =
        append-nil frames ∙ ap (put_frames digest id) (sym readable) in
      let (reply, replaced, unread) =
        put_opened-put_frames digest faults closed id content [] (upload_of f) f.remote disk refl
          writes rename in
      subst
        (λ (m : List Message).
          Landed f disk content (put_opened digest faults closed m (upload_of f) f.remote disk))
        same (ap (λ (m : Message). await_reply closed (m ∷ [])) reply, replaced)

  pub put_on-ok :
      (f : LocalFile) (h : Host) (content : Bytes)
      → h.in_put ≡ false
      → f.local ≡ ok (content, none)
      → await_reply closed ((put_out f h.disk).reply ∷ []) ≡ none
      → put_on f h ≡ some (none, record { disk = (put_out f h.disk).disk; in_put = false })
  unfolding put_on put_local
  put_on-ok f h content r readable reply =
      let after : Disk = (put_out f h.disk).disk in
      ap (λ (b : Bool). if b then none else some (put_local f f.local h)) r
      ∙ ap (λ (l : Try (Bytes × Option String)). some (put_local f l h)) readable
      ∙ ap (λ (e : Option String). some (e, record h { disk = after })) reply
      ∙ ap (λ (b : Bool). some (none, record { disk = after; in_put = b })) r

  Replaced-Current :
      {before disk : Disk} (f : LocalFile) (steady : Steady f) (h : Host)
      → h.disk ≡ disk
      → faults.chtimes_fails ≡ false
      → Replaced digest faults
          (upload_of f)
          f.remote
          steady.content
          (digest steady.content)
          before
          disk
      → Current f h
  unfolding upload_of
  Replaced-Current {before} {disk} f steady h e times r = record {
    file = r.file;
    there = ap (lookup f.remote) e ∙ r.there;
    size = ap length r.content ∙ sym steady.sized;
    time = r.mtime steady.timed times;
  }

  -- A session to a healthy agent is one that a sync can rely on: on a host where no write and no rename
  -- fails and where a file can be given a time, and that is in no upload, a question about a file is
  -- answered, and an upload of a steady file is done, after which the host is again in no upload, the
  -- copy is current, and the answers about all files that are not in its way are the same.
  pub agent_remote-IsLawful :
      faults.writes ≡ []
      → faults.rename ≡ none
      → faults.chtimes_fails ≡ false
      → IsLawful agent_remote Ready
  unfolding stat_on Landed
  agent_remote-IsLawful writes rename times = record {
    answers = λ f h r steady. rw r (_, refl);
    uploads = λ f h r steady.
        let landed : Landed f h.disk steady.content (put_out f h.disk) =
          put_out-Landed f h.disk steady.content writes rename steady.readable in
        let after : Host = record { disk = (put_out f h.disk).disk; in_put = false } in
        (
          after,
          (
            refl,
            (
              put_on-ok f h steady.content r steady.readable landed.0,
              (
                need_upload-Current f after refl
                    (Replaced-Current f steady after refl times landed.1),
                λ g _ apart.
                    stat_on-lookup g.remote h after r refl
                      (landed.1.others g.remote apart.differ apart.no_tmp),
              ),
            ),
          ),
        );
  }
