-- ===== src/Tests/Files.antt =====
-- Downloads and uploads of small files, with a stand-in for the digest.
use rsb.Prelude.{String, true, false, ◌≡◌, refl, Bytes, List, [], ◌∷◌, ◌++◌, ◌⧺◌, none, ok}
use rsb.Protocol.{Message, Request, zero_request, cancel}
use rsb.Agent.Get.{get_frames, data_chunk, last_chunk, result_ok, error_for}
use rsb.Agent.Put.{File, Disk, no_faults, put_opened, receive}
use rsb.Agent.Put.Stream.{done_sha}
use rsb.Agent.Put.Landed.{Replaced}
use rsb.Agent.Put.Atomic.{PutOutcome, put_opened-Outcome}
use rsb.Agent.Put.Abandoned.{put_opened-no_done}
use rsb.Client.Transfer.{file_get, get_request, put_frames, no_result}
use rsb.Client.Transfer.Downloads.{file_get-get_frames}
use rsb.Client.Transfer.Uploads.{put_opened-put_frames}

abbrev digest : Bytes → String
digest [] = "0"
digest (b ∷ bs) = "1" ⧺ digest bs

abbrev text : Bytes
text = 65 ∷ 10 ∷ 66 ∷ []

abbrev old_file : File
old_file = record { content = 1 ∷ []; mode = 420; mtime = 5 }

abbrev disk : Disk
disk = ("/etc/motd", old_file) ∷ ("/etc/hosts", old_file) ∷ []

abbrev put_request : Request
put_request = record zero_request {
  id = "p1";
  path = "/etc/motd";
  atomic_put = true;
  mode = 420;
  mtime = 77;
}

abbrev get_lines : Request
get_lines = record zero_request { id = "g1"; line_start = 2; line_end = 2 }

abbrev get_whole : Request
get_whole = record zero_request { id = "g1"; max_bytes = 2 }

abbrev piece : String → Bytes → Message
piece id bytes = data_chunk id bytes

abbrev upload : List Message
upload = piece "p1" (65 ∷ []) ∷ cancel (record { id = "x" }) ∷ last_chunk "p1" false "11" ∷ []

file_get-get_frames_example :
    file_get digest "EOF"
      (get_frames digest
          (get_request "g1" "/etc/motd" "" (record { line_start = 0; line_end = 0; max_bytes = 2 }))
          (record { content = text; fault = none })
        ++ upload)
      []
      no_result
    ≡ record {
      written = 65 ∷ 10 ∷ [];
      res = record { sha256 = "110"; truncated = true };
      failure = none;
      unread = upload;
    }
file_get-get_frames_example = file_get-get_frames digest "EOF" "g1" "/etc/motd" "" 2 text upload

put_opened-Outcome_example :
    PutOutcome digest no_faults put_request "/etc/motd"
      (receive "EOF" [] upload []).0
      disk
      (put_opened digest no_faults "EOF" upload put_request "/etc/motd" disk).reply
      (put_opened digest no_faults "EOF" upload put_request "/etc/motd" disk).disk
put_opened-Outcome_example =
    put_opened-Outcome digest no_faults "EOF" upload put_request "/etc/motd" disk refl

put_opened-put_frames_example :
    ((put_opened digest no_faults "EOF"
        (put_frames digest "p1" (ok (text, none)) ++ upload)
        put_request
        "/etc/motd"
        disk).reply
      ≡ result_ok "p1")
    × Replaced digest no_faults put_request "/etc/motd" text "1110" disk
        (put_opened digest no_faults "EOF"
          (put_frames digest "p1" (ok (text, none)) ++ upload)
          put_request
          "/etc/motd"
          disk).disk
    × ((put_opened digest no_faults "EOF"
          (put_frames digest "p1" (ok (text, none)) ++ upload)
          put_request
          "/etc/motd"
          disk).unread
        ≡ upload)
put_opened-put_frames_example =
    put_opened-put_frames digest no_faults "EOF" "p1" text upload put_request "/etc/motd" disk refl
      refl refl

abbrev unfinished : List Message
unfinished = piece "p1" (65 ∷ []) ∷ cancel (record { id = "x" }) ∷ []

nothing_done : done_sha unfinished ≡ none
nothing_done = refl

put_opened-no_done_example :
    ((put_opened digest no_faults "EOF" unfinished put_request "/etc/motd" disk).reply
      ≡ error_for "p1" "stream read: EOF")
    × ((put_opened digest no_faults "EOF" unfinished put_request "/etc/motd" disk).unread ≡ [])
put_opened-no_done_example =
    put_opened-no_done digest no_faults "EOF" unfinished put_request "/etc/motd" disk refl
      nothing_done
