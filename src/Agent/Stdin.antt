-- ===== src/Agent/Stdin.antt =====
-- The stdin and cancel routing of cmd/rsb-agent/main.go: the table of running requests, the channel
-- of a request, and the pump that drains it into the process. The channel is a list, oldest chunk
-- first. `select` may pick any ready case, so the pump is a relation; the read loop's operations
-- are functions, and may come between any two steps of the pump.
pub mod Pump
pub mod Full
pub mod Table
use rsb.Prelude.{
  ℕ, String, Bool, true, false, Bytes, List, [], ◌∷◌, ◌++◌, Option, none, some, length, ltb, ◌≡◌,
  if◌then◌else◌,
}
use rsb.Prelude.Dict.{Dict, lookup, insert, delete}

-- make(chan []byte, 16)
abbrev pub channel_size : ℕ
channel_size = 16

-- A runningReq with its pump. `fed` holds the chunks that the channel has taken so far, and
-- `fed_at_eof` what it had taken when EOF was first signalled; both only serve to state what the
-- pump does. `lost` says that a write to the process has failed.
pub record RunningReq : Type 0 where
  pub stdin_ch : List Bytes
  pub eof_closed : Bool
  pub cancelled : Bool
  pub eof : Bool
  pub pipe_closed : Bool
  pub written : List Bytes
  pub lost : Bool
  pub fed : List Bytes
  pub fed_at_eof : List Bytes

-- newRunningReq
abbrev pub new_running_req : RunningReq
new_running_req = record {
  stdin_ch = [];
  eof_closed = false;
  cancelled = false;
  eof = false;
  pipe_closed = false;
  written = [];
  lost = false;
  fed = [];
  fed_at_eof = [];
}

-- The non-blocking send of feedStdin: a chunk for a full channel is dropped.
unfoldable pub send_chunk : Bytes → RunningReq → RunningReq
send_chunk chunk rr =
    if ltb (length rr.stdin_ch) channel_size
    then record rr { stdin_ch = rr.stdin_ch ++ chunk ∷ []; fed = rr.fed ++ chunk ∷ [] }
    else rr

-- signalEOF: eofOnce
unfoldable pub signal_eof : RunningReq → RunningReq
signal_eof rr = if rr.eof_closed then rr else record rr { eof_closed = true; fed_at_eof = rr.fed }

abbrev pub Table : Type 0
Table = Dict RunningReq

unfoldable pub register_running : String → Table → Table
register_running id t = insert id new_running_req t

unfoldable pub unregister_running : String → Table → Table
unregister_running id t = delete id t

on_running : Option RunningReq → (RunningReq → RunningReq) → String → Table → Table
on_running none f id t = t
on_running (some rr) f id t = insert id (f rr) t

unfoldable pub feed_stdin : String → Bytes → Table → Table
unfolding on_running
feed_stdin id chunk t = on_running (lookup id t) (send_chunk chunk) id t

unfoldable pub close_stdin : String → Table → Table
unfolding on_running
close_stdin id t = on_running (lookup id t) signal_eof id t

unfoldable pub cancel_req : String → Table → Table
unfolding on_running
cancel_req id t = on_running (lookup id t) (λ rr. record rr { cancelled = true }) id t

-- One step of pumpStdin and of drainStdinCh, or of the read loop and handleExec on the request.
pub data Step (s t : RunningReq) : Type 0 where
  -- the read loop delivers a chunk
  feed : (chunk : Bytes) → t ≡ send_chunk chunk s → Step s t
  -- EndStdin, or the end of the process
  end_input : t ≡ signal_eof s → Step s t
  -- a chunk is taken, by the `select` or by the drain, and written
  pump :
      (chunk : Bytes) (rest : List Bytes)
      → s.pipe_closed ≡ false
      → s.stdin_ch ≡ chunk ∷ rest
      → t ≡ record s { stdin_ch = rest; written = s.written ++ chunk ∷ [] }
      → Step s t
  -- the process has closed its end: the chunk is gone, and the pump goes on
  skip :
      (chunk : Bytes) (rest : List Bytes)
      → s.pipe_closed ≡ false
      → s.stdin_ch ≡ chunk ∷ rest
      → t ≡ record s { stdin_ch = rest; lost = true }
      → Step s t
  -- another error of the write: the pump returns
  fail :
      (chunk : Bytes) (rest : List Bytes)
      → s.pipe_closed ≡ false
      → s.stdin_ch ≡ chunk ∷ rest
      → t ≡ record s { stdin_ch = rest; lost = true; pipe_closed = true }
      → Step s t
  -- the `select` sees EOF
  see_eof : s.pipe_closed ≡ false → s.eof_closed ≡ true → t ≡ record s { eof = true } → Step s t
  -- the drain finds the channel empty, and the pipe is closed
  finish :
      s.pipe_closed ≡ false
      → s.eof ≡ true
      → s.stdin_ch ≡ []
      → t ≡ record s { pipe_closed = true }
      → Step s t

pub data Steps (s : RunningReq) : RunningReq → Type 0 where
  here : Steps s s
  next : {t u : RunningReq} → Steps s t → Step t u → Steps s u
