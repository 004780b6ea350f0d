-- ===== src/Agent/Put.antt =====
-- handleFilePutSync of cmd/rsb-agent/files.go, over a file system that is a map from paths to
-- files. The frames that the read loop will deliver are a list; `closed` is the error text of the
-- read behind them. What may fail in the system calls is the record `Faults`. Directories, the
-- umask and the bytes of a write that fails half way are not modelled.
pub mod Stream
pub mod Landed
pub mod Atomic
pub mod Abandoned
use rsb.Prelude.{
  ℕ, ◌+◌, String, Bool, true, false, not, ◌&&◌, Bytes, List, [], ◌∷◌, ◌++◌, ◌⧺◌, Option, none, some,
  Try, ok, err, length, ltb, ◌==◌, if◌then◌else◌,
}
use rsb.Prelude.Dict.{Dict, lookup, insert, delete}
use rsb.Protocol.{Message, Request, FileChunk, file_chunk}
use rsb.Agent.{Agent, Host, resolve_path, write_frame}
use rsb.Agent.Get.{error_for, result_ok}

pub record File : Type 0 where
  pub content : Bytes
  pub mode : ℕ
  pub mtime : ℕ

abbrev pub Disk : Type 0
Disk = Dict File

-- `writes` has an entry for each Write call in turn; past its end they succeed. `now` is the time
-- that a new file gets.
pub record Faults : Type 0 where
  pub mkdir : Option String
  pub create : Option String
  pub writes : List (Option String)
  pub rename : Option String
  pub chtimes_fails : Bool
  pub now : ℕ

abbrev pub no_faults : Faults
no_faults = record {
  mkdir = none;
  create = none;
  writes = [];
  rename = none;
  chtimes_fails = false;
  now = 0;
}

-- How the loop over the chunks ends: with the data and the client's checksum, or with an error.
pub data Received : Type 0 where
  complete : Bytes → String → Received
  broken : String → Received

-- The next write call.
pub write_fault : List (Option String) → Option String
write_fault [] = none
write_fault (w ∷ ws) = w

pub later_writes : List (Option String) → List (Option String)
later_writes [] = []
later_writes (w ∷ ws) = ws

-- One chunk: the error of its write, if it has data.
unfoldable pub chunk_fault : Bytes → List (Option String) → Option String
unfolding write_fault
chunk_fault payload writes = if ltb 0 (length payload) then write_fault writes else none

unfoldable pub writes_after : Bytes → List (Option String) → List (Option String)
unfolding later_writes
writes_after payload writes = if ltb 0 (length payload) then later_writes writes else writes

-- The loop `for !gotFinal`, from the bytes `acc` that are written, with the frames that it leaves.
unfoldable pub receive :
    String → List (Option String) → List Message → Bytes → Received × List Message
receive closed writes [] acc = (broken ("stream read: " ⧺ closed), [])
receive closed writes (file_chunk c ∷ rest) acc = elim (chunk_fault c.payload writes) [
  | some e ↦ (broken ("write: " ⧺ e), rest)
  | none ↦ elim c.done [
    | true ↦ (complete (acc ++ c.payload) c.sha256, rest)
    | false ↦ receive closed (writes_after c.payload writes) rest (acc ++ c.payload)
  ]
]
receive closed writes (_ ∷ rest) acc = receive closed writes rest acc

-- The file that OpenFile leaves under O_CREATE | O_TRUNC: an old file keeps its mode.
unfoldable pub opened_file : Option File → ℕ → ℕ → File
opened_file none mode now = record { content = []; mode = mode; mtime = now }
opened_file (some f) mode now = record { content = []; mode = f.mode; mtime = now }

-- os.Rename
pub renamed : Option File → String → String → Disk → Disk
renamed none old new disk = disk
renamed (some f) old new disk = insert new f (delete old disk)

-- os.Chtimes
touched : Option File → String → ℕ → Disk → Disk
touched none p mtime disk = disk
touched (some f) p mtime disk = insert p (record f { mtime = mtime }) disk

abbrev pub tmp_of : String → String
tmp_of p = p ⧺ ".rsbtmp"

abbrev pub target_of : Request → String → String
target_of req p = if req.atomic_put then tmp_of p else p

-- `if req.Mtime > 0`
pub set_mtime : Faults → Request → String → Disk → Disk
unfolding touched
set_mtime faults req p disk =
    if ltb 0 req.mtime && not faults.chtimes_fails
    then touched (lookup p disk) p req.mtime disk
    else disk

unfoldable pub rename_into : Option String → Faults → Request → String → Disk → Message × Disk
unfolding renamed set_mtime
rename_into (some e) faults req p disk = (error_for req.id ("rename: " ⧺ e), delete (tmp_of p) disk)
rename_into none faults req p disk =
    (result_ok req.id, set_mtime faults req p (renamed (lookup (tmp_of p) disk) (tmp_of p) p disk))

-- From the closed file on: the reply, and the disk.
unfoldable pub finish_put :
    (Bytes → String) → Faults → Request → String → Bytes → String → Disk → Message × Disk
unfolding rename_into
finish_put digest faults req p bytes client_sha disk =
    if not (client_sha == "") && not (digest bytes == client_sha)
    then (error_for req.id "sha256 mismatch", delete (target_of req p) disk)
    else if req.atomic_put
    then rename_into faults.rename faults req p disk
    else (result_ok req.id, set_mtime faults req p disk)

-- From the opened target on. The bytes are in the file once the loop is done.
unfoldable pub after_receive :
    (Bytes → String) → Faults → Request → String → File → Received → Disk → Message × Disk
after_receive digest faults req p f (broken e) disk =
    (error_for req.id e, delete (target_of req p) disk)
after_receive digest faults req p f (complete bytes sha) disk =
    finish_put digest faults req p bytes sha
      (insert (target_of req p) (record f { content = bytes }) disk)

-- The outcome of a put: the reply, the disk, and the frames left unread.
pub record Put : Type 0 where
  pub reply : Message
  pub disk : Disk
  pub unread : List Message

-- os.MkdirAll, then os.OpenFile: the error of the first that fails.
pub opening_fault : Option String → Option String → Option String
opening_fault (some e) create = some ("mkdir: " ⧺ e)
opening_fault none (some e) = some ("create: " ⧺ e)
opening_fault none none = none

-- With the target open.
unfoldable pub put_opened :
    (Bytes → String) → Faults → String → List Message → Request → String → Disk → Put
unfolding opened_file
put_opened digest faults closed frames req p disk =
    let f = opened_file (lookup (target_of req p) disk) req.mode faults.now in
    let r = receive closed faults.writes frames [] in
    let out = after_receive digest faults req p f r.0 (insert (target_of req p) f disk) in
    record { reply = out.0; disk = out.1; unread = r.1 }

-- With the path resolved.
unfoldable pub put_at :
    (Bytes → String) → Faults → String → List Message → Request → String → Disk → Put
unfolding opening_fault
put_at digest faults closed frames req p disk = elim (opening_fault faults.mkdir faults.create) [
  | some e ↦ record { reply = error_for req.id e; disk = disk; unread = frames }
  | none ↦ put_opened digest faults closed frames req p disk
]

unfoldable pub put_resolved :
    (Bytes → String) → Faults → String → List Message → Request → Try String → Disk → Put
unfolding put_at put_opened after_receive finish_put receive chunk_fault writes_after
put_resolved digest faults closed frames req (ok p) disk =
    put_at digest faults closed frames req p disk
put_resolved digest faults closed frames req (err e) disk = record {
  reply = error_for req.id e;
  disk = disk;
  unread = frames;
}

-- handleFilePutSync: the agent, the disk, and the frames that the read loop goes on with.
unfoldable pub handle_file_put :
    (Bytes → String)
    → Host
    → Faults
    → String
    → List Message
    → Request
    → Agent
    → Disk
    → Agent × Disk × List Message
unfolding put_resolved resolve_path
handle_file_put digest host faults closed frames req a disk =
    let (p, a') = resolve_path host req a in
    let out = put_resolved digest faults closed frames req p disk in
    (write_frame out.reply a', out.disk, out.unread)
