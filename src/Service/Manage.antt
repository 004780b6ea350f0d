-- ===== src/Service/Manage.antt =====
-- `rsb daemon` against the daemons that were started.
use rsb.Prelude.{
  ℕ, ◌^◌, ◌<◌, String, Bool, true, false, ◌≡◌, ◌≢◌, refl, ap, ◌∙◌, List, [], ◌∷◌, none, some, arith,
  lt→ltb,
}
use rsb.Prelude.Int.{pos}
use rsb.Service.Pid.{read_pid}
use rsb.Service.Pid.RoundTrip.{read_pid-fmt_pid}
use rsb.Service.{
  Machine, set_at, no_faults, no_file, start, terminated, Said, running, stopped, not_running,
  none_running, cmd_daemon, connected, missing, dial, stop, status, is_pid, process_alive, kill_pid,
  after_kill,
}

set_at_self : (p : ℕ) (b : Bool) (f : ℕ → Bool) → set_at p b f p ≡ b
set_at_self p b f = ground arith

set_at_other : (p q : ℕ) (b : Bool) (f : ℕ → Bool) → p ≢ q → set_at p b f q ≡ f q
set_at_other p q b f h = ground arith

-- What a start with no fault leaves.
record Started (pid : ℕ) (before after : Machine) : Type 0 where
  alive : after.alive ≡ set_at pid true before.alive
  listening : after.listening ≡ set_at pid true before.listening
  socket : after.socket ≡ some pid
  pid_file : read_pid after.pid_file ≡ pos pid

start-Started :
    (pid : ℕ) (m : Machine) → 0 < pid → pid < 2 ^ 63 → Started pid m (start no_faults pid m)
unfolding start
start-Started pid m some_pid fits =
    let (content, written, back) = read_pid-fmt_pid pid some_pid fits in
    record { alive = refl; listening = refl; socket = refl; pid_file = rw written back }

abbrev pub status_line : List String
status_line = "status" ∷ []

abbrev pub stop_line : List String
stop_line = "stop" ∷ []

-- `rsb daemon stop`, and the machine behind it.
abbrev pub stopping : Machine → Said × Machine
stopping m = cmd_daemon stop_line m

-- With a live process behind the PID file, `status` and `stop` are about that process.
status-running :
    (pid : ℕ) (m : Machine)
    → 0 < pid
    → read_pid m.pid_file ≡ pos pid
    → m.alive pid ≡ true
    → cmd_daemon status_line m ≡ (running (pos pid), m)
unfolding cmd_daemon status is_pid process_alive
status-running pid m some_pid reads lives = rw reads (ground arith)

stop-stopped :
    (pid : ℕ) (m : Machine)
    → 0 < pid
    → read_pid m.pid_file ≡ pos pid
    → m.alive pid ≡ true
    → stopping m ≡ (stopped (pos pid), record (terminated pid m) { pid_file = no_file })
unfolding cmd_daemon stop is_pid kill_pid after_kill
stop-stopped pid m some_pid reads lives = rw reads (rw (lt→ltb 0 pid some_pid, lives) refl)

no_pid : (m : Machine) → m.pid_file ≡ no_file → (cmd_daemon status_line m).0 ≡ not_running
unfolding cmd_daemon status is_pid process_alive read_pid
no_pid m gone = rw gone refl

-- A daemon that `status` and `stop` find, and a client reaches.
pub record Managed (pid : ℕ) (m : Machine) : Type 0 where
  pub shown : cmd_daemon status_line m ≡ (running (pos pid), m)
  pub reached : dial m ≡ connected pid
  pub said : (stopping m).0 ≡ stopped (pos pid)
  pub ended : (stopping m).1.alive pid ≡ false
  pub others : (q : ℕ) → pid ≢ q → (stopping m).1.alive q ≡ m.alive q
  pub unreached : dial (stopping m).1 ≡ missing
  pub hidden : (cmd_daemon status_line (stopping m).1).0 ≡ not_running

terminated-listening :
    (pid : ℕ) (m : Machine)
    → m.listening pid ≡ true
    → terminated pid m ≡ record m {
      alive = set_at pid false m.alive;
      listening = set_at pid false m.listening;
      socket = none;
    }
unfolding terminated
terminated-listening pid m listens = rw listens refl

-- What is left of the machine when its daemon is stopped.
abbrev left_by : ℕ → Machine → Machine
left_by pid m = record {
  alive = set_at pid false m.alive;
  listening = set_at pid false m.listening;
  socket = none;
  pid_file = no_file;
}

record Stopped (pid : ℕ) (m : Machine) : Type 0 where
  lives : m.alive pid ≡ true
  listens : m.listening pid ≡ true
  stops : stopping m ≡ (stopped (pos pid), left_by pid m)

Started-stop : (pid : ℕ) (m m' : Machine) → 0 < pid → Started pid m m' → Stopped pid m'
Started-stop pid m m' some_pid s =
    let lives : m'.alive pid ≡ true = rw (s.alive) (set_at_self pid true m.alive) in
    let listens : m'.listening pid ≡ true = rw (s.listening) (set_at_self pid true m.listening) in
    record {
      lives = lives;
      listens = listens;
      stops =
          stop-stopped pid m' some_pid s.pid_file lives
          ∙ ap (λ (x : Machine). (stopped (pos pid), record x { pid_file = no_file }))
              (terminated-listening pid m' listens);
    }

-- A daemon that was started with no fault, on any machine, is the one that `rsb daemon status` shows
-- and that a client reaches; `rsb daemon stop` ends it and no other process, and behind it no client
-- reaches a daemon and `status` shows none.
pub start-Managed :
    (pid : ℕ) (m : Machine) → 0 < pid → pid < 2 ^ 63 → Managed pid (start no_faults pid m)
unfolding dial
start-Managed pid m some_pid fits =
    let m' = start no_faults pid m in
    let s = start-Started pid m some_pid fits in
    let e = Started-stop pid m m' some_pid s in
    record {
      shown = status-running pid m' some_pid s.pid_file e.lives;
      reached = rw (s.socket) (rw (e.listens) refl);
      said = rw (e.stops) refl;
      ended = rw (e.stops) (set_at_self pid false m'.alive);
      others = λ q ne. rw (e.stops) (set_at_other pid q false m'.alive ne);
      unreached = rw (e.stops) refl;
      hidden = rw (e.stops) (no_pid _ refl);
    }

stop_none : (m : Machine) → m.pid_file ≡ no_file → stopping m ≡ (none_running, m)
unfolding cmd_daemon stop is_pid read_pid
stop_none m gone = simp (gone) refl

-- Two daemons: where one runs and listens and another is started, the second takes the socket and the
-- PID file: a client reaches it and `status` shows it; and `rsb daemon stop` ends that one. The first
-- still runs and listens, but no client reaches it, `status` shows none, and a further `stop` finds none
-- to end.
pub stop-orphan :
    (first second : ℕ) (m : Machine)
    → 0 < second
    → second < 2 ^ 63
    → second ≢ first
    → m.alive first ≡ true
    → m.listening first ≡ true
    → let both = start no_faults second m in
      let left = (stopping both).1 in
      (dial both ≡ connected second)
      × (cmd_daemon status_line both ≡ (running (pos second), both))
      × ((stopping both).0 ≡ stopped (pos second))
      × (left.alive second ≡ false)
      × (left.alive first ≡ true)
      × (left.listening first ≡ true)
      × (dial left ≡ missing)
      × ((cmd_daemon status_line left).0 ≡ not_running)
      × (stopping left ≡ (none_running, left))
unfolding dial
stop-orphan first second m some_second fits differ lives listens =
    let m' = start no_faults second m in
    let s = start-Started second m some_second fits in
    let e = Started-stop second m m' some_second s in
    let managed = start-Managed second m some_second fits in
    rw (e.stops) (
      managed.reached,
      managed.shown,
      refl,
      set_at_self second false m'.alive,
      set_at_other second first false m'.alive differ
          ∙ rw (s.alive) (set_at_other second first true m.alive differ ∙ lives),
      set_at_other second first false m'.listening differ
          ∙ rw (s.listening) (set_at_other second first true m.listening differ ∙ listens),
      refl,
      no_pid _ refl,
      stop_none _ refl,
    )
