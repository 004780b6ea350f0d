-- ===== src/Service.antt =====
-- The daemon as a process of the machine: New of internal/daemon/daemon.go and main of
-- cmd/rsb-daemon/main.go up to Serve, and cmdDaemon of cmd/rsb/main.go with processAlive and killPID,
-- which manage it. A machine is its processes, by their PIDs, the PID file and the socket's path. The
-- listener of package net removes the socket's path when it closes, whoever made the file there.
pub mod Pid
pub mod Manage
pub mod Shutdown
use rsb.Prelude.{
  ℕ, ◌<◌, String, Bool, true, false, ◌&&◌, Bytes, List, [], ◌∷◌, ◌⧺◌, Option, none, some, Try, ok,
  err, eqb, ltb, ◌==◌, if◌then◌else◌,
}
use rsb.Prelude.Int.{ℤ, pos, negsuc}
use rsb.Service.Pid.{fmt_pid, read_pid}

-- `socket` is the process whose listener made the file at the socket's path; it may be gone.
pub record Machine : Type 0 where
  pub alive : ℕ → Bool
  pub listening : ℕ → Bool
  pub socket : Option ℕ
  pub pid_file : Try Bytes

abbrev pub set_at : ℕ → Bool → (ℕ → Bool) → ℕ → Bool
set_at p b f q = if eqb p q then b else f q

-- What the system answers to New and main: the errors of mkdir and listen, and whether the PID file is
-- written.
pub record Faults : Type 0 where
  pub mkdir : Option String
  pub listen : Option String
  pub writes_pid : Bool

abbrev pub no_faults : Faults
no_faults = record { mkdir = none; listen = none; writes_pid = true }

-- Where a file is not there.
abbrev pub no_file : Try Bytes
no_file = err "no such file or directory"

-- net.Listen, behind the removal of what stood at the path.
listened : ℕ → Option String → Machine → Option String × Machine
listened pid (some e) m = (some ("listen: " ⧺ e), record m { socket = none })
listened pid none m =
    (none, record m { socket = some pid; listening = set_at pid true m.listening })

made_dir : ℕ → Faults → Option String → Machine → Option String × Machine
unfolding listened
made_dir pid faults (some e) m = (some ("mkdir runtime: " ⧺ e), m)
made_dir pid faults none m = listened pid faults.listen m

-- New, in the process `pid`
unfoldable pub new_daemon : Faults → ℕ → Machine → Option String × Machine
unfolding made_dir
new_daemon faults pid m = made_dir pid faults faults.mkdir m

pid_text : Option Bytes → Try Bytes
pid_text none = no_file
pid_text (some content) = ok content

write_pid : Bool → ℕ → Machine → Machine
unfolding pid_text
write_pid false pid m = m
write_pid true pid m = record m { pid_file = pid_text (fmt_pid pid) }

-- log.Fatalf ends the process.
serving : Faults → ℕ → Option String × Machine → Machine
unfolding write_pid
serving faults pid (some e, m) = record m { alive = set_at pid false m.alive }
serving faults pid (none, m) = write_pid faults.writes_pid pid m

-- A new process `pid` that runs main up to Serve.
unfoldable pub start : Faults → ℕ → Machine → Machine
unfolding serving new_daemon
start faults pid m =
    serving faults pid (new_daemon faults pid (record m { alive = set_at pid true m.alive }))

-- A process once SIGTERM has ended it; a daemon's listener closes.
unfoldable pub terminated : ℕ → Machine → Machine
terminated pid m =
    if m.listening pid
    then record m {
      alive = set_at pid false m.alive;
      listening = set_at pid false m.listening;
      socket = none;
    }
    else record m { alive = set_at pid false m.alive }

-- A process that ends without a handler: the socket's path and the PID file stay.
unfoldable pub crashed : ℕ → Machine → Machine
crashed pid m = record m {
  alive = set_at pid false m.alive;
  listening = set_at pid false m.listening;
}

unfoldable pub process_alive : ℤ → Machine → Bool
process_alive (pos pid) m = m.alive pid
process_alive (negsuc n) m = false

unfoldable pub kill_pid : ℤ → Machine → Option String × Machine
unfolding terminated
kill_pid (negsuc n) m = (some "no such process", m)
kill_pid (pos pid) m = if m.alive pid then (none, terminated pid m) else (some "no such process", m)

-- What the command says on stderr; `failed` exits with 1.
pub data Said : Type 0 where
  already_running : ℤ → Said
  starts_on_demand : Said
  none_running : Said
  stopped : ℤ → Said
  running : ℤ → Said
  not_running : Said
  failed : String → Said

-- `pid > 0`
unfoldable pub is_pid : ℤ → Bool
is_pid (pos n) = ltb 0 n
is_pid (negsuc n) = false

unfoldable pub after_kill : ℤ → Option String × Machine → Said × Machine
after_kill pid (some e, m) = (failed ("stop: " ⧺ e), m)
after_kill pid (none, m) = (stopped pid, record m { pid_file = no_file })

unfoldable pub stop : ℤ → Machine → Said × Machine
unfolding kill_pid after_kill is_pid
stop pid m = if is_pid pid then after_kill pid (kill_pid pid m) else (none_running, m)

unfoldable pub status : ℤ → Machine → Said
unfolding is_pid process_alive
status pid m = if is_pid pid && process_alive pid m then running pid else not_running

unfoldable pub do_action : String → Machine → Said × Machine
unfolding stop status is_pid process_alive
do_action action m =
    let pid = read_pid m.pid_file in
    if action == "start"
    then (if is_pid pid && process_alive pid m then already_running pid else starts_on_demand, m)
    else if action == "stop"
    then stop pid m
    else if action == "status"
    then (status pid m, m)
    else (failed ("unknown daemon action: " ⧺ (action ⧺ " (use start|stop|status)")), m)

unfoldable pub cmd_daemon : List String → Machine → Said × Machine
unfolding do_action
cmd_daemon [] m = do_action "status" m
cmd_daemon (action ∷ _) m = do_action action m

-- net.Dial on the socket's path
pub data Dialled : Type 0 where
  connected : ℕ → Dialled
  missing : Dialled
  refused : Dialled

unfoldable pub dial_at : Option ℕ → Machine → Dialled
dial_at none m = missing
dial_at (some pid) m = if m.listening pid then connected pid else refused

unfoldable pub dial : Machine → Dialled
unfolding dial_at
dial m = dial_at m.socket m
