-- ===== src/Client/Start.antt =====
-- dialOrStart and startDaemon of internal/client/client.go. What dialling, starting a process and waiting
-- do to the machine is the interface `World`.
pub mod Wait
pub mod Reached
use rsb.Prelude.{
  ℕ, zero, suc, ◌+◌, String, Bool, ◌⧺◌, Option, none, some, Try, ok, err, ltb, ◌==◌, if◌then◌else◌,
}

-- How net.Dial ends: with a connection, with an error that says that no such file is there, or with
-- another.
pub data Dialled (C : Type 0) : Type 0 where
  connected : C → Dialled C
  missing : Dialled C
  failed : String → Dialled C

-- The machine as the client meets it: `remove` is os.Remove of the socket, `start` cmd.Start of a
-- program, `sleep` a time.Sleep of 50 ms, `now` the clock in ms. `mkdir` and `open_log` are the errors
-- of the runtime directory and of the log file.
pub record World : Type 1 where
  pub State : Type 0
  pub Conn : Type 0
  pub dial : State → Dialled Conn
  pub remove : State → State
  pub mkdir : Option String
  pub open_log : Option String
  pub start : String → State → Option String × State
  pub sleep : State → State
  pub now : State → ℕ

module _ (W : World) where
  after_log : String → Option String → W.State → Option String × W.State
  after_log bin (some e) s = (some e, s)
  after_log bin none s = W.start bin s

  after_mkdir : String → Option String → W.State → Option String × W.State
  unfolding after_log
  after_mkdir bin (some e) s = (some ("mkdir runtime: " ⧺ e), s)
  after_mkdir bin none s =
      if bin == "" then (some "rsb-daemon binary not found", s) else after_log bin W.open_log s

  -- startDaemon; `bin` is what findDaemonBinary gives.
  unfoldable pub start_daemon : String → W.State → Option String × W.State
  unfolding after_mkdir
  start_daemon bin s = after_mkdir bin W.mkdir s

  -- What the caller gets, and the machine behind it.
  pub record Reply : Type 0 where
    pub conn : Try W.Conn
    pub state : W.State

  abbrev pub late : ℕ → W.State → Bool
  late deadline s = ltb deadline (W.now s)

  unfoldable pub give_up : ℕ → String → W.State → Option Reply
  give_up deadline e s =
      if late deadline s
      then some (record { conn = err ("daemon didn't come up: " ⧺ e); state = s })
      else none

  -- One round of the wait for the daemon: what ends it, if anything does.
  unfoldable pub wait_round : ℕ → Dialled W.Conn → W.State → Option Reply
  unfolding give_up
  wait_round deadline (connected c) s = some (record { conn = ok c; state = s })
  wait_round deadline missing s = give_up deadline "no such file or directory" s
  wait_round deadline (failed e) s = give_up deadline e s

  or_later : Option Reply → Option Reply → Option Reply
  or_later (some r) later = some r
  or_later none later = later

  -- The loop, on fuel: `none` is no result yet.
  unfoldable pub wait_loop : ℕ → ℕ → W.State → Option Reply
  unfolding or_later
  wait_loop zero deadline s = none
  wait_loop (suc fuel) deadline s =
      let later = wait_loop fuel deadline (W.sleep s) in
      or_later (wait_round deadline (W.dial s) s) later

  unfoldable pub after_start : ℕ → Option String × W.State → Option Reply
  after_start fuel (some e, s) = some (record { conn = err ("start daemon: " ⧺ e); state = s })
  after_start fuel (none, s) = wait_loop fuel (W.now s + 5000) s

  unfoldable pub first_dial : ℕ → String → Dialled W.Conn → W.State → Option Reply
  unfolding after_start
  first_dial fuel bin (connected c) s = some (record { conn = ok c; state = s })
  first_dial fuel bin missing s = after_start fuel (start_daemon bin s)
  first_dial fuel bin (failed e) s = after_start fuel (start_daemon bin (W.remove s))

  unfoldable pub dial_or_start : ℕ → String → W.State → Option Reply
  unfolding first_dial
  dial_or_start fuel bin s = first_dial fuel bin (W.dial s) s
