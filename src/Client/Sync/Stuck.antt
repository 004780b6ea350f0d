-- ===== src/Client/Sync/Stuck.antt =====
-- The other clients of a host once FilePut has given up an upload, at the local file.
use rsb.Prelude.{String, true, ◌≡◌, Bytes, [], ◌∷◌, ◌++◌, none, ok, err}
use rsb.Protocol.{Request, request}
use rsb.Agent.Get.{result_ok}
use rsb.Agent.Put.{Disk, Faults, receive, put_opened}
use rsb.Agent.Put.Landed.{Replaced}
use rsb.Client.Transfer.{put_frames}
use rsb.Client.Transfer.Uploads.{put_opened-put_frames}

-- On the connection that all clients of a host share, the agent takes what follows an upload that the
-- client gave up before its first chunk, since the local file cannot be opened, for that upload: the
-- next client's request is skipped, and its file, whole and checked, replaces the file at the first
-- client's path, which is answered with the result; nobody is answered under the next client's id.
pub put_opened-crossed :
    (digest : Bytes → String) (faults : Faults) (closed id other : String) (e : String)
    (content : Bytes) (next req : Request) (p : String) (disk : Disk)
    → req.atomic_put ≡ true
    → faults.writes ≡ []
    → faults.rename ≡ none
    → let out =
        put_opened digest faults closed
          (put_frames digest id (err e)
            ++ request next ∷ put_frames digest other (ok (content, none))
            ++ [])
          req
          p
          disk in
      (out.reply ≡ result_ok req.id)
      × Replaced digest faults req p content (digest content) disk out.disk
      × (out.unread ≡ [])
unfolding put_frames receive put_opened
put_opened-crossed digest faults closed id other e content next req p disk atomic writes rename =
    put_opened-put_frames digest faults closed other content [] req p disk atomic writes rename
