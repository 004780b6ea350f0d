-- ===== src/Service/Shutdown.antt =====
-- The end of the daemon's process: Serve and Close of internal/daemon/daemon.go, which run in two
-- goroutines of main in cmd/rsb-daemon/main.go, and the sessions of the clients. The process ends when
-- main returns, whatever the other goroutines do.
use rsb.Prelude.{ℕ, suc, ◌+◌, ◌≤◌, Bool, true, false, ◌≡◌, refl, ◌⊎◌, arith}

-- Serve: in Accept, behind an Accept that gave a connection, or returned.
pub data Loop : Type 0 where
  accepting : Loop
  accepted : Loop
  returned : Loop

-- The goroutine of the signal: in front of Close, in its wait for the clients, behind the close of the
-- host connections, and behind the removal of the PID file.
pub data Closer : Type 0 where
  waiting : Closer
  draining : Closer
  dropped : Closer
  finished : Closer

pub record Process : Type 0 where
  pub loop : Loop
  pub closer : Closer
  pub listener_open : Bool
  pub clients : ℕ
  pub timed_out : Bool
  pub conns_open : Bool
  pub pid_file : Bool
  pub exited : Bool
  pub panicked : Bool

-- One step of a process that has not ended.
pub data Step (p p' : Process) : Type 0 where
  accept :
      p.loop ≡ accepting → p.listener_open ≡ true → p' ≡ record p { loop = accepted } → Step p p'
  -- d.clients.Add(1), and the goroutine of serveClient
  serve :
      p.loop ≡ accepted → p' ≡ record p { loop = accepting; clients = p.clients + 1 } → Step p p'
  -- a session whose client goes away with no reply outstanding
  leave : (n : ℕ) → p.clients ≡ suc n → p' ≡ record p { clients = n } → Step p p'
  -- a session whose client goes away while a reply is outstanding: bridge closes writeCh, and the
  -- goroutine of the reply sends on it
  panic : (n : ℕ) → p.clients ≡ suc n → p' ≡ record p { exited = true; panicked = true } → Step p p'
  signal :
      p.closer ≡ waiting → p' ≡ record p { closer = draining; listener_open = false } → Step p p'
  -- the 10 seconds of Close
  expire : p.closer ≡ draining → p' ≡ record p { timed_out = true } → Step p p'
  drop_conns :
      p.closer ≡ draining
      → (p.clients ≡ 0) ⊎ (p.timed_out ≡ true)
      → p' ≡ record p { closer = dropped; conns_open = false }
      → Step p p'
  remove_pid :
      p.closer ≡ dropped → p' ≡ record p { closer = finished; pid_file = false } → Step p p'
  -- Accept fails with net.ErrClosed
  serve_returns :
      p.loop ≡ accepting → p.listener_open ≡ false → p' ≡ record p { loop = returned } → Step p p'
  exit : p.loop ≡ returned → p' ≡ record p { exited = true } → Step p p'

pub data Steps (p : Process) : Process → Type 0 where
  here : Steps p p
  next : {m t : Process} → Steps p m → m.exited ≡ false → Step m t → Steps p t

-- Behind `New`, with the PID file written.
abbrev pub started : Process
started = record {
  loop = accepting;
  closer = waiting;
  listener_open = true;
  clients = 0;
  timed_out = false;
  conns_open = true;
  pid_file = true;
  exited = false;
  panicked = false;
}

-- What is behind what.
pub record Ordered (p : Process) : Type 0 where
  pub at_work : p.closer ≡ waiting → p.listener_open ≡ true
  pub told : p.listener_open ≡ true → p.closer ≡ waiting
  pub in_drain : p.closer ≡ draining → p.conns_open ≡ true
  pub dropped_all : p.closer ≡ dropped → p.conns_open ≡ false
  pub shut : p.conns_open ≡ false → p.listener_open ≡ false
  pub removed : p.pid_file ≡ false → p.conns_open ≡ false
  pub left : p.loop ≡ returned → p.listener_open ≡ false
  pub gone : p.exited ≡ true → (p.loop ≡ returned) ⊎ (p.panicked ≡ true)

Step-Ordered : {p p' : Process} → p.exited ≡ false → Step p p' → Ordered p → Ordered p'
Step-Ordered runs (accept l o e) v = ground arith
Step-Ordered runs (serve l e) v = ground arith
Step-Ordered runs (leave n c e) v = ground arith
Step-Ordered runs (panic n c e) v = ground arith
Step-Ordered runs (signal c e) v = ground arith
Step-Ordered runs (expire c e) v = ground arith
Step-Ordered runs (drop_conns c w e) v = ground arith
Step-Ordered runs (remove_pid c e) v = ground arith
Step-Ordered runs (serve_returns l o e) v = ground arith
Step-Ordered runs (exit l e) v = ground arith

-- The clients that the process serves, with one that Accept has just given.
abbrev pub busy_with : Loop → ℕ → ℕ
busy_with accepted n = n + 1
busy_with accepting n = n
busy_with returned n = n

abbrev pub busy : Process → ℕ
busy p = busy_with p.loop p.clients

Step-busy :
    {p p' : Process}
    → Step p p'
    → p.listener_open ≡ false
    → (p'.listener_open ≡ false) × (busy p' ≤ busy p)
Step-busy (accept l o e) shut = ground arith
Step-busy (serve l e) shut = ground arith
Step-busy (leave n c e) shut = ground arith
Step-busy (panic n c e) shut = ground arith
Step-busy (signal c e) shut = ground arith
Step-busy (expire c e) shut = ground arith
Step-busy (drop_conns c w e) shut = ground arith
Step-busy (remove_pid c e) shut = ground arith
Step-busy (serve_returns l o e) shut = ground arith
Step-busy (exit l e) shut = ground arith

-- Whatever the order in which Serve, the goroutine of the signal and the sessions go on: the listener is
-- open exactly until the signal; the host connections are closed only behind it, the PID file is removed
-- only behind these, and the process ends only behind the listener's close, or by the panic of a session
-- whose client goes away while a reply is outstanding.
pub Steps-Ordered : {p : Process} → Steps started p → Ordered p
Steps-Ordered here = record {
  at_work = λ e. refl;
  told = λ e. refl;
  in_drain = λ e. refl;
  dropped_all = λ e. absurd (cc e);
  shut = λ e. absurd (cc e);
  removed = λ e. absurd (cc e);
  left = λ e. absurd (cc e);
  gone = λ e. absurd (cc e);
}
Steps-Ordered (next steps runs step) = Step-Ordered runs step (Steps-Ordered steps)

-- Once the listener is closed no order of steps adds a client: those that are served, with one that
-- Accept has just given, only get fewer.
pub Steps-busy :
    {p q : Process}
    → Steps p q
    → p.listener_open ≡ false
    → (q.listener_open ≡ false) × (busy q ≤ busy p)
Steps-busy here shut = (shut, omega arith)
Steps-busy (next steps runs step) shut =
    let (still, fewer) = Steps-busy steps shut in
    let (closed, less) = Step-busy step still in (closed, omega (arith, fewer, less))

-- In every state in which the daemon runs, no signal has come and Serve is in Accept, a signal can lead
-- to the end of the process with all its clients still served, its host connections open and its PID
-- file in place: main returns once Serve has, and does not wait for Close.
pub exits_early :
    (p : Process)
    → p.exited ≡ false
    → p.loop ≡ accepting
    → p.closer ≡ waiting
    → (q : Process) × Steps p q
      × (q.exited ≡ true)
      × (q.clients ≡ p.clients)
      × (q.conns_open ≡ p.conns_open)
      × (q.pid_file ≡ p.pid_file)
exits_early p runs l c =
    let told = record p { closer = draining; listener_open = false } in
    let left = record told { loop = returned } in
    (
      record left { exited = true },
      next (next (next here runs (signal c refl)) runs (serve_returns l refl refl)) runs
          (exit refl refl),
      refl,
      refl,
      refl,
      refl,
    )
