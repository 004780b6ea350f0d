-- ===== src/Client/Exec.antt =====
-- Exec of internal/client/client.go from the handshake on: what it makes of the frames that arrive,
-- with its inactivity timer. One read is launched at a time, and an Output frame launches the next;
-- a state in which none is launched can only run into the timer.
pub mod Outcome
pub mod Shared
pub mod Whole
pub mod Answered
use rsb.Prelude.{
  contains, ◌||◌, ℕ, ◌+◌, ◌*◌, String, Bool, true, false, Bytes, List, [], ◌∷◌, ◌++◌, ◌⧺◌, Option,
  none, some, not, ◌&&◌, ◌==◌, if◌then◌else◌, ltb,
}
use rsb.Prelude.Int.{ℤ, pos, negsuc, is_neg}
use rsb.Protocol.{Output, Result, Error, kind_output, kind_result, kind_error}
use rsb.Protocol.Wire.{Frame, ReadError, eof}

-- json.Unmarshal into each of the bodies that Exec reads, and strings.ToLower.
pub record Decoders : Type 0 where
  pub as_output : Bytes → Option Output
  pub as_result : Bytes → Option Result
  pub as_error : Bytes → Option Error
  pub to_lower : String → String

-- What the `select` meets next, when a read is launched: a frame, a failed read, or nothing before
-- the deadline.
pub data Arrival : Type 0 where
  frame : Frame → Arrival
  read_failed : ReadError → Arrival
  silence : Arrival

-- What Exec returns, and what it wrote before. `failure` is the returned error.
pub record Finished : Type 0 where
  pub exit_code : ℤ
  pub failure : Option String
  pub stdout : Bytes
  pub stderr : Bytes
  pub notices : List String

pub record Streams : Type 0 where
  pub stdout : Bytes
  pub stderr : Bytes

abbrev pub finished : ℤ → Option String → Streams → List String → Finished
finished code failure s notices = record {
  exit_code = code;
  failure = failure;
  stdout = s.stdout;
  stderr = s.stderr;
  notices = notices;
}

-- Where the deadline passes; `wait` is its message.
unfoldable pub timed_out : String → Streams → Finished
timed_out wait s = finished (pos 124) (some wait) s []

unfoldable pub broken : ReadError → Streams → Finished
broken eof s = finished (pos 1) (some "daemon closed connection without result") s []
broken e s = finished (pos 0) (some "read response") s []

-- A negative exit code: 124 after a timeout, 137 after another signal.
unfoldable pub normalized : Result → ℤ
normalized r =
    if is_neg r.exit_code then (if r.signal == "TIMEOUT" then pos 124 else pos 137) else r.exit_code

exit_of : Option Result → ℤ
exit_of none = negsuc 0
exit_of (some r) = normalized r

unfoldable pub is_stale_agent_container_error : (String → String) → String → Bool
is_stale_agent_container_error to_lower reason =
    let low = to_lower reason in
    contains low "nsenter"
    && (contains low "permission denied" || contains low "operation not permitted")

abbrev pub stale_hint : String
stale_hint =
    "rsb: this looks like a STALE remote agent (old versions default to nsenter).\n      fix: rsb ensure <host> --force   # upgrades the agent to docker-exec-default\n      workaround: rsb exec <host> --argv '[\"docker\",\"exec\",\"<container>\",\"cmd\"]'"

pub notices_of : (String → String) → Option Error → List String
unfolding is_stale_agent_container_error
notices_of to_lower none = []
notices_of to_lower (some e) =
    ("rsb: agent error: " ⧺ e.reason)
    ∷ (if is_stale_agent_container_error to_lower e.reason then stale_hint ∷ [] else [])

unfoldable pub put_output : Output → Streams → Streams
put_output o s =
    if o.stream == "stdout"
    then record s { stdout = s.stdout ++ o.payload }
    else record s { stderr = s.stderr ++ o.payload }

-- The streams behind an Output frame; nothing when its body does not decode, and then no read is
-- launched.
written : Option Output → Streams → Option Streams
written none s = none
written (some o) s = some (put_output o s)

-- What a frame that ends the loop leads to. `wait` is the timeout's message.
ended : Decoders → String → Frame → Streams → Finished
unfolding exit_of notices_of
ended d wait f s =
    if f.kind == kind_result
    then finished (exit_of (d.as_result f.body)) none s []
    else if f.kind == kind_error
    then finished (pos 1) none s (notices_of d.to_lower (d.as_error f.body))
    else timed_out wait s

module _ (d : Decoders) (wait : String) where
  go_on : Option Streams → (Streams → Finished) → Streams → Finished
  go_on none rest s = timed_out wait s
  go_on (some s') rest s = rest s'

  -- The loop; nothing arriving any more is silence.
  unfoldable pub exec_loop : List Arrival → Streams → Finished
  unfolding go_on written ended
  exec_loop [] s = timed_out wait s
  exec_loop (silence ∷ later) s = timed_out wait s
  exec_loop (read_failed e ∷ later) s = broken e s
  exec_loop (frame f ∷ later) s =
      let more = exec_loop later in
      if f.kind == kind_output
      then go_on (written (d.as_output f.body) s) more s
      else ended d wait f s

-- clientTimeout in milliseconds; `inactivity` is RSB_INACTIVITY_TIMEOUT as Atoi reads it.
inactivity_seconds : Option ℤ → ℕ
inactivity_seconds (some (pos n)) = if ltb 0 n then n else 60
inactivity_seconds (some (negsuc n)) = 60
inactivity_seconds none = 60

unfoldable pub client_timeout : Option ℤ → ℕ → ℕ
unfolding inactivity_seconds
client_timeout inactivity timeout_ms =
    if ltb 0 timeout_ms then timeout_ms + 5000 else inactivity_seconds inactivity * 1000
