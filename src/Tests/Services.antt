-- ===== src/Tests/Services.antt =====
-- Daemons that are started and stopped, and the links of an installation.
use rsb.Prelude.{
  inl, inr, Bool-cases, ltb, ℕ, String, true, false, ◌≡◌, ◌≢◌, refl, inr, Bytes, [], ◌∷◌, ◌⧺◌,
  Option, none, some, ◌+◌, ok, err, arith, eqb, ◌==◌, if◌then◌else◌, distinct, All,
}
use rsb.Prelude.Dict.{lookup}
use rsb.Prelude.Int.{pos, negsuc}
use rsb.Paths.{Os, is_home, resolve_home, local_platform_dir}
use rsb.Service
use rsb.Service.{
  running, Machine, no_faults, no_file, start, dial, missing, refused, none_running, not_running,
  cmd_daemon,
}
use rsb.Service.Pid.{itoa_loop, itoa, fmt_pid, read_pid}
use rsb.Service.Pid.RoundTrip.{read_pid-fmt_pid}
use rsb.Service.Manage.{stopping, status_line, stop-orphan, Managed}
use rsb.Service.Shutdown.{
  accepting, Process, Step, Steps, here, next, started, Ordered, Steps-Ordered, exits_early,
}
use rsb.Client.Start.{dial_or_start, Reply}
use rsb.Client.Start.Wait.{dial_or_start_ends}
use rsb.Client.Start.Reached.{on_machine, dial_or_start-Managed, Clocked, at_time}
use rsb.Cli.InstallLocal
use rsb.Cli.InstallLocal.{Disk, file, link, stat, programs, at, cmd_install_local}
use rsb.Cli.InstallLocal.Linked.{cmd_install_local-linked}
use rsb.Cli.InstallLocal.Lost.{Lost, cmd_install_local-Lost}

fmt_pid_text : fmt_pid 4207 ≡ some (b'4' ∷ b'2' ∷ b'0' ∷ b'7' ∷ 10 ∷ [])
unfolding fmt_pid itoa itoa_loop
fmt_pid_text = refl

read_pid_negative : read_pid (ok (b' ' ∷ b'-' ∷ b'1' ∷ 10 ∷ [])) ≡ negsuc 0
unfolding read_pid
read_pid_negative = refl

read_pid-fmt_pid_example :
    (content : Bytes) × (fmt_pid 4207 ≡ some content) × (read_pid (ok content) ≡ pos 4207)
read_pid-fmt_pid_example = read_pid-fmt_pid 4207 (omega arith) (omega arith)

-- A daemon runs as 10, which is behind the socket.
abbrev machine : Machine
machine = record {
  alive = λ p. eqb p 10;
  listening = λ p. eqb p 10;
  socket = some 10;
  pid_file = no_file;
}

stop-orphan_example :
    let both = start no_faults 20 machine in
    let left = (stopping both).1 in
    (dial both ≡ Service.connected 20)
    × (cmd_daemon status_line both ≡ (Service.running (pos 20), both))
    × ((stopping both).0 ≡ Service.stopped (pos 20))
    × (left.alive 20 ≡ false)
    × (left.alive 10 ≡ true)
    × (left.listening 10 ≡ true)
    × (dial left ≡ missing)
    × ((cmd_daemon status_line left).0 ≡ not_running)
    × (stopping left ≡ (none_running, left))
stop-orphan_example =
    stop-orphan 10 20 machine (omega arith) (omega arith) (λ h. omega (arith, h)) refl refl

-- A client is taken, and the signal comes.
abbrev at_work : Process
at_work = record started { loop = accepting; clients = 1 }

Steps-Ordered_example : Ordered at_work
Steps-Ordered_example =
    Steps-Ordered (next (next here refl (Step.accept refl refl refl)) refl (Step.serve refl refl))

exits_early_example :
    (q : Process) × Steps at_work q
    × (q.exited ≡ true)
    × (q.clients ≡ 1)
    × (q.conns_open ≡ true)
    × (q.pid_file ≡ true)
exits_early_example = exits_early at_work refl refl refl

abbrev dead : Machine
dead = record { alive = λ p. false; listening = λ p. false; socket = some 10; pid_file = no_file }

abbrev clocked : Clocked
clocked = record { machine = dead; ready = none; time = 0 }

-- Every sleep lasts 57 ms, and every dial 2 ms.
abbrev late : ℕ → ℕ
late t = 7

abbrev lag : ℕ → ℕ
lag t = 2

dead_socket : dial dead ≡ refused
unfolding dial
dead_socket = refl

dial_or_start-Managed_example :
    (reply : Reply (on_machine 20 late lag 200)) × (dial_or_start
        (on_machine 20 late lag 200)
        102
        "/opt/rsb-daemon"
        clocked
      ≡ some reply)
    × (reply.conn ≡ ok 20)
    × Managed 20 reply.state.machine
dial_or_start-Managed_example =
    dial_or_start-Managed 20 late lag "/opt/rsb-daemon" 200 5 dead 0 (omega arith) (omega arith)
      (distinct "/opt/rsb-daemon" "" refl) (omega arith) (λ t. omega arith) (inr dead_socket)

at_time-time : (m : Machine) (ready : Option ℕ) (t : ℕ) → (at_time 20 late lag m ready t).time ≡ t
unfolding at_time
at_time-time m none t = refl
at_time-time m (some ready) t = elim (Bool-cases (ltb t ready)) [
  | inl e ↦ rw e refl
  | inr e ↦ rw e refl
]

-- The daemon takes longer than the client waits.
dial_or_start_ends_example :
    (reply : Reply (on_machine 20 late lag 9000)) × (dial_or_start
        (on_machine 20 late lag 9000)
        102
        "/opt/rsb-daemon"
        clocked
      ≡ some reply)
dial_or_start_ends_example =
    dial_or_start_ends (on_machine 20 late lag 9000) "/opt/rsb-daemon" clocked (λ (s : Clocked).
      let end = s.time + lag s.time + 50 + late s.time in
      let same = at_time-time s.machine s.ready end in rw same (omega arith))

abbrev content : String → Bytes
content name = if name == "rsb" then 1 ∷ [] else if name == "rsb-agent" then 2 ∷ [] else 3 ∷ []

abbrev in_platform : Disk
in_platform =
    ("/h/bin/p/rsb", file (1 ∷ []))
    ∷ ("/h/bin/p/rsb-agent", file (2 ∷ []))
    ∷ ("/h/bin/p/rsb-daemon", file (3 ∷ []))
    ∷ ("/h/bin/rsb", link "/old")
    ∷ []

cmd_install_local-linked_example :
    let r = cmd_install_local InstallLocal.no_faults 40 (ok "/h/bin/p") "/h" in_platform in
    (r.0 ≡ none)
    × All (λ n. stat 41 r.1 (at "/h/bin" n) ≡ some (content n)) programs
    × ((p : String) → All (λ l. at "/h/bin" l ≢ p) programs → lookup p r.1 ≡ lookup p in_platform)
unfolding lookup
cmd_install_local-linked_example =
    let apart = λ (l n : String) (e : (at "/h/bin" l == at "/h/bin/p" n) ≡ false).
      distinct (at "/h/bin" l) (at "/h/bin/p" n) e in
    cmd_install_local-linked 39 "/h/bin/p" "/h" content in_platform (distinct "/h" "" refl)
      (refl, (refl, (refl, tt)))
      (
        (
          apart "rsb" "rsb" refl,
          (apart "rsb" "rsb-daemon" refl, (apart "rsb" "rsb-agent" refl, tt)),
        ),
        (
          (
            apart "rsb-daemon" "rsb" refl,
            (apart "rsb-daemon" "rsb-daemon" refl, (apart "rsb-daemon" "rsb-agent" refl, tt)),
          ),
          (
            (
              apart "rsb-agent" "rsb" refl,
              (apart "rsb-agent" "rsb-daemon" refl, (apart "rsb-agent" "rsb-agent" refl, tt)),
            ),
            tt,
          ),
        ),
      )

abbrev in_bin : Disk
in_bin =
    ("/h/bin/rsb", file (1 ∷ []))
    ∷ ("/h/bin/rsb-agent", file (2 ∷ []))
    ∷ ("/h/bin/rsb-daemon", file (3 ∷ []))
    ∷ []

-- The home is /h, with no directory for the platform.
abbrev os : Os
os = record {
  rsb_home = "/h";
  executable = err "none";
  eval_symlinks = ok;
  dir = λ p. p;
  join = λ d p. d ⧺ ("/" ⧺ p);
  abs = ok;
  is_dir = λ p. p == "/h/bin";
  is_file = λ p. false;
  goos = "linux";
  goarch = "amd64";
}

home_is : resolve_home os ≡ "/h"
unfolding resolve_home is_home
home_is = refl

cmd_install_local-Lost_example :
    let r = cmd_install_local InstallLocal.no_faults 40 (local_platform_dir os) "/h" in_bin in
    (r.0 ≡ none) × Lost "/h/bin" programs r.1
unfolding lookup
cmd_install_local-Lost_example =
    cmd_install_local-Lost os 39 "/h" content in_bin (distinct "/h" "" refl) home_is refl refl refl
      (refl, (refl, (refl, tt)))
