-- ===== src/Client/Transfer/Downloads.antt =====
-- A download end to end: the client's loop over the frames that the agent sends.
use rsb.Prelude.{
  ℕ, String, Bool, ◌≡◌, refl, ap, ◌∙◌, Bytes, List, [], ◌∷◌, ◌++◌, none, arith, concat, map,
  append_assoc, append-nil, ltb, leb, ◌&&◌, length, take, if◌then◌else◌, eq_refl,
}
use rsb.Protocol.{Message, Request}
use rsb.Agent.Get.{
  data_chunk, last_chunk, result_ok, get_frames, End, finished, capped, failed, out_of_fuel,
  closing, OpenFile, read_chunks,
}
use rsb.Agent.Get.Frames.{get_frames_whole}
use rsb.Client.Transfer.{
  Download, FileGetOptions, get_request, FileGetResult, no_result, verify, file_get,
}

file_get-chunks :
    (digest : Bytes → String) (closed id : String) (chunks : List Bytes) (rest : List Message)
    (written : Bytes) (res : FileGetResult)
    → file_get digest closed (map (data_chunk id) chunks ++ rest) written res
      ≡ file_get digest closed rest (written ++ concat chunks) res
unfolding file_get
file_get-chunks digest closed id [] rest written res = rw append-nil
file_get-chunks digest closed id (c ∷ cs) rest written res =
    file_get-chunks digest closed id cs rest (written ++ c) res
    ∙ rw (append_assoc written c (concat cs))

verify_ok :
    (digest : Bytes → String) (written : Bytes) (truncated : Bool)
    → verify digest written (record { sha256 = digest written; truncated = truncated }) ≡ none
unfolding verify
verify_ok digest written truncated = ground (arith, eq_refl (digest written))

-- The client's loop over the frames of a download that the agent ends regularly.
file_get-closing :
    (digest : Bytes → String) (closed id : String) (chunks : List Bytes) (truncated : Bool)
    (rest : List Message)
    → file_get digest closed
        ((map (data_chunk id) chunks
            ++ last_chunk id truncated (digest (concat chunks)) ∷ result_ok id ∷ [])
          ++ rest)
        []
        no_result
      ≡ record {
        written = concat chunks;
        res = record { sha256 = digest (concat chunks); truncated = truncated };
        failure = none;
        unread = rest;
      }
unfolding file_get
file_get-closing digest closed id chunks truncated rest = rw append_assoc (
    file_get-chunks digest closed id chunks _ [] no_result
    ∙ rw (append-nil, verify_ok digest (concat chunks) truncated))

-- A whole-file download, with or without a byte cap, of a file that the agent reads with no error:
-- the client writes the first `max_bytes` bytes (all of them with no cap), reports no error and the
-- digest of what it wrote, says `truncated` exactly if there is a cap that the file's size reaches,
-- and leaves the frames behind the result unread.
pub file_get-get_frames :
    (digest : Bytes → String) (closed id path cwd : String) (max_bytes : ℕ) (content : Bytes)
    (rest : List Message)
    → let opts : FileGetOptions = record { line_start = 0; line_end = 0; max_bytes = max_bytes } in
      let kept = if ltb 0 max_bytes then take max_bytes content else content in
      file_get digest closed
        (get_frames digest
            (get_request id path cwd opts)
            (record { content = content; fault = none })
          ++ rest)
        []
        no_result
      ≡ record {
        written = kept;
        res = record {
          sha256 = digest kept;
          truncated = ltb 0 max_bytes && leb max_bytes (length content);
        };
        failure = none;
        unread = rest;
      }
file_get-get_frames digest closed id path cwd max_bytes content rest =
    let opts : FileGetOptions = record { line_start = 0; line_end = 0; max_bytes = max_bytes } in
    let (chunks, same, sizes, frames) =
      get_frames_whole digest (get_request id path cwd opts) content refl refl in
    rw (← same) (
      ap (λ (ms : List Message). file_get digest closed (ms ++ rest) [] no_result) frames
      ∙ file_get-closing digest closed id chunks (ltb 0 max_bytes && leb max_bytes (length content))
          rest)

file_get-ending :
    (digest : Bytes → String) (closed id : String) (chunks : List Bytes) (ending : End)
    (written : Bytes)
    → (file_get digest closed (closing digest id chunks ending) written no_result).written ≡ written
unfolding file_get closing
file_get-ending digest closed id chunks finished written = rw append-nil
file_get-ending digest closed id chunks capped written = rw append-nil
file_get-ending digest closed id chunks (failed reason) written = refl
file_get-ending digest closed id chunks out_of_fuel written = refl

-- However the agent's reading of a file ends, the client has written the data of its chunks.
pub file_get-written :
    (digest : Bytes → String) (closed : String) (req : Request) (file : OpenFile)
    → (file_get digest closed (get_frames digest req file) [] no_result).written
      ≡ concat (read_chunks req file).0
unfolding get_frames
file_get-written digest closed req file =
    let r = read_chunks req file in
    ap (λ (d : Download). d.written)
      (file_get-chunks digest closed req.id r.0 (closing digest req.id r.0 r.1) [] no_result)
    ∙ file_get-ending digest closed req.id r.0 r.1 (concat r.0)
