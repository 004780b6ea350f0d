-- ===== src/Agent/Exec.antt =====
-- handleExec and dispatchExec of cmd/rsb-agent/main.go. A request runs under the lock of its
-- session, so it is one step of the agent; requests of different sessions may run in any order.
-- What the operating system does with a command is the record `System`.
pub mod Replies
pub mod Isolation
pub mod Launch
pub mod Answer
use rsb.Prelude.{
  ℕ, ◌+◌, String, Bool, true, false, not, ◌&&◌, Bytes, List, [], ◌∷◌, ◌++◌, ◌⧺◌, Option, none, some,
  Try, ok, err, length, ltb, eqb, ◌==◌, if◌then◌else◌, map,
}
use rsb.Prelude.Dict.{Dict, lookup, insert}
use rsb.Prelude.Int.{ℤ, pos, negsuc, is_zero}
use rsb.Protocol.{Message, Request, Result, Output, output, result}
use rsb.Agent.{
  Agent, Session, empty_session, Host, write_frame, resolve_session, persist_session, insert_all,
  resolve_cwd, or_else,
}
use rsb.Agent.Get.{error_for}

-- How a started process ends for cmd.Wait: well, with an exit status and perhaps the name of the
-- signal that ended it, or with an error that is no ExitError.
pub data Wait : Type 0 where
  exited_ok : Wait
  exit_error : ℤ → Option String → Wait
  wait_failed : Wait

-- What exec.Cmd is given.
pub record Command : Type 0 where
  pub bin : String
  pub args : List String
  pub env : List String
  pub dir : String
  pub stdin_closed : Bool

-- A command's run: what the output streamers read from its two pipes, in the order in which the frames
-- are written, whether the deadline passed, and the time that it took. cmd.Wait is called while they
-- read, and closes the pipes, so that `outputs` may be less than what the process has written.
pub record Run : Type 0 where
  pub outputs : List (String × Bytes)
  pub wait : Wait
  pub deadline : Bool
  pub duration_ms : ℕ

-- The operating system, the PATH and the docker adapter. `pipes` is the error of the first pipe
-- that cannot be made; `start` is cmd.Start and what follows it.
pub record System : Type 0 where
  pub host : Host
  pub stat : String → Option String
  pub look_path : String → Try String
  pub environ : List String
  pub build_argv : String → List String → Try (List String)
  pub pipes : Command → Option String
  pub start : Command → Try Run

-- Effective cwd: the request's, else the session's.
abbrev pub effective_cwd : Request → Session → String
effective_cwd req sess = or_else req.cwd sess.cwd

-- `req.Session != "" && len(req.Argv) > 0 && req.Argv[0] == "cd"`
unfoldable pub is_cd : Request → List String → Bool
is_cd req [] = false
is_cd req (a ∷ rest) = not (req.session == "") && a == "cd"

-- The target of a `cd`.
cd_target : List String → String → String
cd_target (a ∷ target ∷ rest) cwd = target
cd_target _ cwd = cwd

-- What follows os.Stat of the target.
unfoldable pub checked : Option String → String → Try String
checked (some e) abs = err ("cd: " ⧺ e)
checked none abs = ok abs

-- What a `cd` comes to: the new directory, or the reason why not.
unfoldable pub cd_to : System → Request → Session → Try String
unfolding cd_target
cd_to sys req sess =
    let target = cd_target req.argv (effective_cwd req sess) in
    let abs = resolve_cwd sys.host target (effective_cwd req sess) in
    if abs == "" then err ("cd: cannot resolve " ⧺ target) else checked (sys.stat abs) abs

abbrev pub result_of : String → ℤ → String → ℕ → Message
result_of id code signal ms =
    result (record { id = id; exit_code = code; signal = signal; duration_ms = ms })

-- `sess.cwd = abs`, in the table
unfoldable pub set_cwd : Request → Session → String → Agent → Agent
set_cwd req sess abs a = record a {
  sessions = insert req.session (record sess { cwd = abs }) a.sessions;
}

unfoldable pub exec_cd : Try String → Request → Session → Agent → Agent
unfolding set_cwd write_frame
exec_cd (err reason) req sess a = write_frame (error_for req.id reason) a
exec_cd (ok abs) req sess a = write_frame (result_of req.id (pos 0) "" 0) (set_cwd req sess abs a)

-- The docker adapter's answer.
unfoldable pub rewritten : Try (List String) → Try (List String)
rewritten (ok argv) = ok argv
rewritten (err e) = err ("container: " ⧺ e)

-- The argv to run: through the docker adapter if there is a container.
unfoldable pub effective_argv : System → Request → Try (List String)
effective_argv sys req =
    if req.container == "" then ok req.argv else rewritten (sys.build_argv req.container req.argv)

-- envMap: the session's variables, then the request's.
unfoldable pub env_map : Request → Session → Dict String
unfolding insert_all
env_map req sess = insert_all req.env (insert_all sess.env [])

abbrev pub env_entry : String × String → String
env_entry (k, v) = k ⧺ ("=" ⧺ v)

abbrev pub command : System → Request → Session → String → List String → Command
command sys req sess bin argv = record {
  bin = bin;
  args = argv;
  env = sys.environ ++ map env_entry (env_map req sess);
  dir =
      if not (effective_cwd req sess == "") && req.container == ""
      then effective_cwd req sess
      else "";
  stdin_closed = req.stdin_closed;
}

-- What follows exec.LookPath of `prog`.
unfoldable pub looked_up :
    Try String → System → Request → Session → String → List String → Try Command
looked_up (err e) sys req sess prog args = err ("executable not found in PATH: " ⧺ prog)
looked_up (ok bin) sys req sess prog args = ok (command sys req sess bin (prog ∷ args))

-- The command, from its argv on; the adapter's argv is not empty.
unfoldable pub command_of : System → Request → Session → Try (List String) → Try Command
unfolding looked_up
command_of sys req sess (err e) = err e
command_of sys req sess (ok []) = err "executable not found in PATH: "
command_of sys req sess (ok (prog ∷ args)) = looked_up (sys.look_path prog) sys req sess prog args

-- Everything up to the pipes: the command, or the reason for an error frame.
unfoldable pub prepare : System → Request → Session → Try Command
prepare sys req sess = command_of sys req sess (effective_argv sys req)

-- The `switch` that fills in the exit code and the signal.
unfoldable pub exit_of : Run → ℤ × String
exit_of run = if run.deadline then (negsuc 0, "TIMEOUT") else elim run.wait [
  | exited_ok ↦ (pos 0, "")
  | exit_error code none ↦ (code, "")
  | exit_error code (some signal) ↦ (code, signal)
  | wait_failed ↦ (pos 1, "")
]

-- streamPipe, for both streams of a run
unfoldable pub write_outputs : String → List (String × Bytes) → Agent → Agent
unfolding write_frame
write_outputs id [] a = a
write_outputs id ((stream, bytes) ∷ rest) a =
    write_outputs id rest
      (write_frame (output (record { id = id; stream = stream; payload = bytes })) a)

-- From the end of the process on.
unfoldable pub finish_exec : Request → Session → Run → Agent → Agent
unfolding write_outputs write_frame
finish_exec req sess run a =
    let (code, signal) = exit_of run in
    let a' =
      write_frame (result_of req.id code signal run.duration_ms)
        (write_outputs req.id run.outputs a) in
    if is_zero code then persist_session req (effective_cwd req sess) a' else a'

-- What follows cmd.Start.
unfoldable pub started : Try Run → Request → Session → Agent → Agent
unfolding write_frame
started (err e) req sess a = write_frame (error_for req.id ("start: " ⧺ e)) a
started (ok run) req sess a = finish_exec req sess run a

-- What follows the making of the pipes.
unfoldable pub piped : Option String → Try Run → Request → Session → Agent → Agent
unfolding write_frame
piped (some reason) start req sess a = write_frame (error_for req.id reason) a
piped none start req sess a = started start req sess a

unfoldable pub exec_prepared : System → Request → Session → Try Command → Agent → Agent
unfolding write_frame
exec_prepared sys req sess (err reason) a = write_frame (error_for req.id reason) a
exec_prepared sys req sess (ok cmd) a = piped (sys.pipes cmd) (sys.start cmd) req sess a

-- handleExec
unfoldable pub handle_exec : System → Request → Agent → Agent
handle_exec sys req a =
    let r = resolve_session req a in
    if is_cd req req.argv
    then exec_cd (cd_to sys req r.0) req r.0 r.1
    else exec_prepared sys req r.0 (prepare sys req r.0) r.1

-- dispatchExec, past its check of the type: the empty argv
unfoldable pub dispatch_argv : System → Request → List String → Agent → Agent
unfolding write_frame
dispatch_argv sys req [] a = write_frame (error_for req.id "argv is empty") a
dispatch_argv sys req (x ∷ xs) a = handle_exec sys req a

-- dispatchExec; the table of running requests is in Agent.Stdin.
unfoldable pub dispatch_exec : System → Request → Agent → Agent
unfolding dispatch_argv write_frame
dispatch_exec sys req a =
    if not (req.type == "exec") && not (req.type == "")
    then write_frame (error_for req.id ("unsupported type: " ⧺ req.type)) a
    else dispatch_argv sys req req.argv a
