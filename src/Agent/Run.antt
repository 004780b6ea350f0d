-- ===== src/Agent/Run.antt =====
-- The read loop of cmd/rsb-agent/main.go, and handleFileStat of files.go. What the loop launches in a
-- goroutine is pending until `complete` runs it, which may be between any two frames.
pub mod Dispatch
pub mod Loop
use rsb.Prelude.{
  ℕ, zero, suc, String, Bool, true, false, Bytes, List, [], ◌∷◌, ◌++◌, ◌⧺◌, Option, none, some, Try,
  ok, err, length, ◌==◌, ◌||◌, if◌then◌else◌,
}
use rsb.Prelude.Dict.{lookup}
use rsb.Protocol.{
  Message, Request, FileStat, request, stdin, end_stdin, cancel, file_stat, hello, protocol_version,
}
use rsb.Agent.{Agent, Host, write_frame, resolve_path}
use rsb.Agent.Get.{OpenFile, error_for, handle_file_get}
use rsb.Agent.Put.{Disk, File, Faults, handle_file_put}
use rsb.Agent.Exec.{System, dispatch_exec, handle_exec}
use rsb.Agent.Stdin.{
  Table, register_running, unregister_running, feed_stdin, close_stdin, cancel_req,
}

-- What a run depends on: the system, the digest, os.Open and os.Stat on a disk, the faults of the
-- uploads, and the error of the read that ends the loop.
pub record World : Type 0 where
  pub sys : System
  pub digest : Bytes → String
  pub open_file : Disk → String → Try OpenFile
  pub stat_file : Disk → String → Option FileStat
  pub faults : Faults
  pub closed : String

pub record State : Type 0 where
  pub agent : Agent
  pub table : Table
  pub disk : Disk
  pub pending : List Request

-- handleFileStat: a file that cannot be inspected is reported as missing, not as an error.
unfoldable pub stat_answer : Request → Option FileStat → Message
stat_answer req none =
    file_stat
      (record { id = req.id; exists = false; size = 0; mod_time = 0; mode = 0; is_dir = false })
stat_answer req (some st) = file_stat (record st { id = req.id; exists = true })

unfoldable pub stat_reply : World → Request → Disk → Try String → Message
stat_reply w req disk (err e) = error_for req.id e
stat_reply w req disk (ok p) = stat_answer req (w.stat_file disk p)

unfoldable pub handle_file_stat : World → Request → State → State
handle_file_stat w req s =
    let (p, a) = resolve_path w.sys.host req s.agent in
    record s { agent = write_frame (stat_reply w req s.disk p) a }

-- The part of dispatchExec that the loop runs itself: an empty argv is answered, and else the
-- request is registered before its goroutine starts.
unfoldable pub launch_exec : World → Request → List String → State → State
launch_exec w req [] s = record s { agent = dispatch_exec w.sys req s.agent }
launch_exec w req (_ ∷ _) s = record s {
  table = register_running req.id s.table;
  pending = s.pending ++ req ∷ [];
}

-- The frames left after a frame: those that an upload does not take.
unfoldable pub put_sync : World → Request → List Message → State → State × List Message
put_sync w req frames s =
    let out = handle_file_put w.digest w.sys.host w.faults w.closed frames req s.agent s.disk in
    (record s { agent = out.0; disk = out.1 }, out.2)

-- `switch req.Type`
unfoldable pub serve : World → Request → List Message → State → State × List Message
serve w req frames s =
    if req.type == "exec" || req.type == ""
    then (launch_exec w req req.argv s, frames)
    else if req.type == "file_stat"
    then (handle_file_stat w req s, frames)
    else if req.type == "file_get"
    then (record s { pending = s.pending ++ req ∷ [] }, frames)
    else if req.type == "file_put"
    then put_sync w req frames s
    else (
      record s {
        agent = write_frame (error_for req.id ("unsupported request type: " ⧺ req.type)) s.agent;
      },
      frames,
    )

-- `switch f.Kind`
unfoldable pub dispatch : World → Message → List Message → State → State × List Message
dispatch w (request req) frames s = serve w req frames s
dispatch w (stdin c) frames s = (record s { table = feed_stdin c.id c.payload s.table }, frames)
dispatch w (end_stdin e) frames s = (record s { table = close_stdin e.id s.table }, frames)
dispatch w (cancel c) frames s = (record s { table = cancel_req c.id s.table }, frames)
dispatch w _ frames s = (s, frames)

-- The loop, up to the end of the stream; one unit of fuel is one frame that it reads itself.
unfoldable pub read_loop : ℕ → World → List Message → State → State
read_loop zero w frames s = s
read_loop (suc fuel) w [] s = s
read_loop (suc fuel) w (m ∷ ms) s = let out = dispatch w m ms s in read_loop fuel w out.1 out.0

-- run, from the Hello on
unfoldable pub run : World → List Message → State → State
run w frames s =
    let greeting : Message = hello (record {
      version = protocol_version;
      caps = "exec" ∷ "sessions" ∷ "stream_stdin" ∷ "cancel" ∷ "files" ∷ [];
    }) in
    read_loop (length frames) w frames (record s { agent = write_frame greeting s.agent })

-- The goroutine of a pending request.
unfoldable pub complete : World → Request → State → State
complete w req s =
    if req.type == "file_get"
    then record s { agent = handle_file_get w.digest (w.open_file s.disk) w.sys.host req s.agent }
    else record s {
      agent = handle_exec w.sys req s.agent;
      table = unregister_running req.id s.table;
    }
