-- ===== src/Client/Transfer.antt =====
-- FileStat, FileGet and FilePut of internal/client/files.go, as loops over the frames that the
-- session delivers; `closed` is the error of the read behind them. The id of the request, which
-- fileID draws from the clock and a counter, is an argument, and so are the local file's bytes.
pub mod Downloads
pub mod Uploads
use rsb.Prelude.{
  ℕ, zero, suc, ◌+◌, ◌*◌, String, Bool, true, false, not, ◌&&◌, Bytes, List, [], ◌∷◌, ◌++◌, ◌⧺◌,
  Option, none, some, Try, ok, err, length, take, drop, eqb, ltb, ◌==◌, if◌then◌else◌, map, concat,
}
use rsb.Protocol.{
  Message, Request, FileChunk, FileStat, zero_request, request, file_chunk, file_stat, result,
  error,
}

pub record FileGetOptions : Type 0 where
  pub line_start : ℕ
  pub line_end : ℕ
  pub max_bytes : ℕ

pub record FileGetResult : Type 0 where
  pub sha256 : String
  pub truncated : Bool

-- What a download leaves: the bytes written to the caller's writer, the result, the error if there
-- is one, and the frames not read.
pub record Download : Type 0 where
  pub written : Bytes
  pub res : FileGetResult
  pub failure : Option String
  pub unread : List Message

abbrev pub no_result : FileGetResult
no_result = record { sha256 = ""; truncated = false }

abbrev pub get_request : String → String → String → FileGetOptions → Request
get_request id remote_path cwd opts = record zero_request {
  id = id;
  type = "file_get";
  scope = "host";
  path = remote_path;
  cwd = cwd;
  line_start = opts.line_start;
  line_end = opts.line_end;
  max_bytes = opts.max_bytes;
}

-- The check at the Result frame.
unfoldable pub verify : (Bytes → String) → Bytes → FileGetResult → Option String
verify digest written res =
    let local_sha = digest written in
    if not (res.sha256 == "") && (not (res.sha256 == local_sha) && not res.truncated)
    then some ("sha256 mismatch on download: agent " ⧺ (res.sha256 ⧺ (" != local " ⧺ local_sha)))
    else none

-- The loop of FileGet, from what is written so far.
unfoldable pub file_get :
    (Bytes → String) → String → List Message → Bytes → FileGetResult → Download
unfolding verify
file_get digest closed [] written res = record {
  written = written;
  res = res;
  failure = some closed;
  unread = [];
}
file_get digest closed (file_chunk c ∷ rest) written res =
    file_get digest closed rest (written ++ c.payload)
      (if c.done then record { sha256 = c.sha256; truncated = c.truncated } else res)
file_get digest closed (result r ∷ rest) written res = record {
  written = written;
  res = res;
  failure = verify digest written res;
  unread = rest;
}
file_get digest closed (error e ∷ rest) written res = record {
  written = written;
  res = res;
  failure = some e.reason;
  unread = rest;
}
file_get digest closed (_ ∷ rest) written res = file_get digest closed rest written res

abbrev pub put_request : String → String → String → ℕ → Bool → ℕ → Request
put_request id remote_path cwd mode atomic mtime = record zero_request {
  id = id;
  type = "file_put";
  scope = "host";
  path = remote_path;
  cwd = cwd;
  mode = mode;
  mtime = mtime;
  atomic_put = atomic;
}

abbrev pub buffer_size : ℕ
buffer_size = 64 * 1024

-- The reads of the local file, 64 KiB at a time. One unit of fuel is one round.
unfoldable pub read_local : ℕ → Bytes → List Bytes
read_local zero bytes = []
read_local (suc fuel) bytes =
    let chunk = take buffer_size bytes in
    let later = read_local fuel (drop buffer_size bytes) in
    if eqb (length chunk) 0 then [] else chunk ∷ later

abbrev pub chunk_of : String → Bytes → Message
chunk_of id bytes =
    file_chunk (record { id = id; payload = bytes; done = false; sha256 = ""; truncated = false })

abbrev pub final_chunk : String → String → Message
final_chunk id sha =
    file_chunk (record { id = id; payload = []; done = true; sha256 = sha; truncated = false })

-- The frames that FilePut sends behind its request. A local file that cannot be opened, or whose
-- read fails behind `bytes`, ends the upload there, with no final chunk.
unfoldable pub put_frames : (Bytes → String) → String → Try (Bytes × Option String) → List Message
put_frames digest id (err e) = []
put_frames digest id (ok (bytes, fault)) =
    let chunks = read_local (length bytes + 1) bytes in
    map (chunk_of id) chunks
    ++ elim fault [ none ↦ final_chunk id (digest (concat chunks)) ∷ [] | some e ↦ [] ]

-- The wait for the agent's reply: the error, if there is one.
unfoldable pub await_reply : String → List Message → Option String
await_reply closed [] = some closed
await_reply closed (result r ∷ rest) = none
await_reply closed (error e ∷ rest) = some e.reason
await_reply closed (_ ∷ rest) = await_reply closed rest

abbrev pub stat_request : String → String → String → Request
stat_request id remote_path cwd = record zero_request {
  id = id;
  type = "file_stat";
  scope = "host";
  path = remote_path;
  cwd = cwd;
}

-- The loop of FileStat.
unfoldable pub await_stat : String → List Message → Try FileStat
await_stat closed [] = err closed
await_stat closed (file_stat st ∷ rest) = ok st
await_stat closed (error e ∷ rest) = err e.reason
await_stat closed (_ ∷ rest) = await_stat closed rest
