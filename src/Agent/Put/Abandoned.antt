-- ===== src/Agent/Put/Abandoned.antt =====
-- What an upload does to the frames of others on the same connection.
use rsb.Prelude.{
  String, ◌≡◌, refl, inl, inr, ap, ◌∙◌, Bytes, List, [], ◌∷◌, ◌++◌, Option, none, Bool-cases, ◌⧺◌,
}
use rsb.Protocol.{Message, Request, file_chunk}
use rsb.Agent.Get.{error_for}
use rsb.Agent.Put.{Disk, Faults, broken, receive, after_receive, put_opened}
use rsb.Agent.Put.Stream.{
  done_sha, relabel, receive_more, receive-relabel, no_chunk_fault, no_writes_after,
}

receive-no_done :
    (closed : String) (ms : List Message) (acc : Bytes)
    → done_sha ms ≡ none
    → receive closed [] ms acc ≡ (broken ("stream read: " ⧺ closed), [])
unfolding receive
receive-no_done closed [] acc h = refl
receive-no_done closed (file_chunk c ∷ rest) acc h = elim (Bool-cases c.done) [
  | inl last ↦ absurd (cc (rw last at h))
  | inr more ↦
      receive_more closed [] c rest acc (no_chunk_fault c.payload) more
      ∙ rw (no_writes_after c.payload)
          (receive-no_done closed rest (acc ++ c.payload) (rw more at h))
]
receive-no_done closed (_ ∷ rest) acc h = receive-no_done closed rest acc h

-- An upload whose client never sends a last chunk, with no write error: the agent reads every frame
-- up to the end of the connection, the requests among them too, and replies only then, with the
-- error of that read.
pub put_opened-no_done :
    (digest : Bytes → String) (faults : Faults) (closed : String) (frames : List Message)
    (req : Request) (p : String) (disk : Disk)
    → faults.writes ≡ []
    → done_sha frames ≡ none
    → let out = put_opened digest faults closed frames req p disk in
      (out.reply ≡ error_for req.id ("stream read: " ⧺ closed)) × (out.unread ≡ [])
unfolding put_opened after_receive
put_opened-no_done digest faults closed frames req p disk writes h =
    let got : receive closed faults.writes frames [] ≡ (broken ("stream read: " ⧺ closed), []) =
      ap (λ (w : List (Option String)). receive closed w frames []) writes
      ∙ receive-no_done closed frames [] h in
    rw got (refl, refl)

-- The agent looks at no id of a chunk: taking out what is no chunk, and putting the chunks of
-- every upload under one id, changes neither the reply nor the disk.
pub put_opened-relabel :
    (digest : Bytes → String) (faults : Faults) (closed id : String) (frames : List Message)
    (req : Request) (p : String) (disk : Disk)
    → let mixed = put_opened digest faults closed frames req p disk in
      let own = put_opened digest faults closed (relabel id frames) req p disk in
      (own.reply ≡ mixed.reply) × (own.disk ≡ mixed.disk)
unfolding put_opened
put_opened-relabel digest faults closed id frames req p disk =
    let same = receive-relabel id closed faults.writes frames [] in rw same (refl, refl)
