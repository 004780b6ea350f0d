-- ===== src/Client/Repl.antt =====
-- Repl, parseArgv and runOneCommand of internal/client/repl.go, over the lines that the scanner gives,
-- the frames that come on the connection (`closed` is the error of the read behind them) and the error
-- of each write of a request. strings.TrimSpace, json.Unmarshal into []string and the ids are parameters.
-- A connection that cannot be dialled or attached is left out, and so is the scanner's own error.
use Prim.Native.String.{slice, len}
use text.Mathlib.Text.{starts_with, find?}
use rsb.Prelude.{
  ℕ, ◌+◌, String, true, Bytes, List, [], ◌∷◌, ◌++◌, ◌⧺◌, Option, none, some, Try, ok, err, length,
  ◌==◌, if◌then◌else◌,
}
use rsb.Prelude.Int.{ℤ, is_zero}
use rsb.Protocol.{
  Request, Output, Result, Error, zero_request, kind_output, kind_result, kind_error,
}
use rsb.Protocol.Wire.{Frame}
use rsb.Client.Exec.{Decoders}

-- What the user sees: a prompt, bytes of the command's two streams, its exit code if it is not 0, and
-- messages on stderr.
pub data Shown : Type 0 where
  prompt : String → Shown
  to_out : Bytes → Shown
  to_err : Bytes → Shown
  exit_code : ℤ → Shown
  message : String → Shown

pub record Context : Type 0 where
  pub session : String
  pub container : String

pub record State : Type 0 where
  pub context : Context
  pub sent : List Request
  pub shown : List Shown
  pub frames : List Frame

-- `prompt`
abbrev pub prompt_of : String → Context → String
prompt_of host c =
    let where_at = if c.container == "" then host else host ⧺ ("/" ⧺ c.container) in
    if c.session == ""
    then "[" ⧺ (where_at ⧺ "] ")
    else "[" ⧺ (where_at ⧺ (":" ⧺ (c.session ⧺ "] ")))

-- A line behind its colon, by its first space.
pub data Meta : Type 0 where
  quit : Meta
  session_to : Option String → Meta
  container_to : Option String → Meta
  unknown : String → Meta

meta_named : String → Option String → Meta
meta_named name arg =
    if name == "quit"
    then quit
    else if name == "exit"
    then quit
    else if name == "session"
    then session_to arg
    else if name == "container"
    then container_to arg
    else unknown name

split_meta : String → Option ℕ → Meta
unfolding meta_named
split_meta s none = meta_named s none
split_meta s (some i) = meta_named (slice s 0 i) (some (slice s (i + 1) (len s)))

unfoldable pub meta_of : String → Meta
unfolding split_meta
meta_of s = split_meta s (find? s " ")

trim_dot : String → String
trim_dot line = if starts_with line "." then slice line 1 (len line) else line

json_argv : Try (List String) → Try (List String)
json_argv (err e) = err ("invalid argv JSON: " ⧺ e)
json_argv (ok []) = err "empty argv"
json_argv (ok (a ∷ argv)) = ok (a ∷ argv)

-- The frames of a command up to its Result or Error: what is shown, and the frames left.
module _ (decode : Decoders) (closed : String) where
  unfoldable output_shown : Option Output → List Shown
  output_shown none = []
  output_shown (some o) = (if o.stream == "stdout" then to_out o.payload else to_err o.payload) ∷ []

  unfoldable result_shown : Option Result → List Shown
  result_shown none = []
  result_shown (some r) = if is_zero r.exit_code then [] else exit_code r.exit_code ∷ []

  unfoldable error_shown : Option Error → List Shown
  error_shown none = []
  error_shown (some e) = message ("rsb: agent: " ⧺ e.reason) ∷ []

  unfoldable run_one_command : List Frame → List Shown × List Frame
  unfolding output_shown result_shown error_shown
  run_one_command [] = (message ("rsb: read: " ⧺ closed) ∷ [], [])
  run_one_command (f ∷ fs) =
      let later = run_one_command fs in
      if f.kind == kind_output
      then (output_shown (decode.as_output f.body) ++ later.0, later.1)
      else if f.kind == kind_result
      then (result_shown (decode.as_result f.body), fs)
      else if f.kind == kind_error
      then (error_shown (decode.as_error f.body), fs)
      else later

module _ (as_argv : String → Try (List String)) (trim : String → String) where
  unfoldable pub parse_argv : String → Try (List String)
  unfolding json_argv trim_dot
  parse_argv line =
      let trimmed = trim (trim_dot line) in
      if starts_with trimmed "[" then json_argv (as_argv trimmed) else ok ("sh" ∷ "-c" ∷ line ∷ [])

abbrev pub exec_of : String → Context → List String → Request
exec_of id c argv = record zero_request {
  id = id;
  type = "exec";
  argv = argv;
  session = c.session;
  container = c.container;
  stdin_closed = true;
}

-- What a run depends on: `id` and `send_fault` are for the request after so many others.
pub record Setting : Type 0 where
  pub host : String
  pub decode : Decoders
  pub closed : String
  pub as_argv : String → Try (List String)
  pub trim : String → String
  pub id : ℕ → String
  pub send_fault : ℕ → Option String

module _ (S : Setting) where
  abbrev pub prompted : Context → List Shown → List Shown
  prompted c shown = shown ++ prompt (prompt_of S.host c) ∷ []

  -- A meta command other than quit: the context behind it, and its message.
  unfoldable pub context_after : Meta → Context → Context
  context_after quit c = c
  context_after (session_to none) c = c
  context_after (session_to (some name)) c = record c { session = S.trim name }
  context_after (container_to none) c = record c { container = "" }
  context_after (container_to (some name)) c = record c { container = S.trim name }
  context_after (unknown name) c = c

  meta_message : Meta → List Shown
  meta_message (unknown name) = message ("unknown command: :" ⧺ name) ∷ []
  meta_message _ = []

  unfoldable after_meta : Meta → State → State
  unfolding context_after meta_message
  after_meta m s =
      let c = context_after m s.context in
      record s { context = c; shown = prompted c (s.shown ++ meta_message m) }

  -- With the argv and the error of the write: the state, and the exit code if the loop ends there.
  unfoldable sent_request : Request → Option String → State → State × Option ℕ
  unfolding run_one_command
  sent_request req (some e) s =
      (record s { shown = s.shown ++ message ("rsb: send: " ⧺ e) ∷ [] }, some 1)
  sent_request req none s =
      let r = run_one_command S.decode S.closed s.frames in
      (
        record s {
          sent = s.sent ++ req ∷ [];
          shown = prompted s.context (s.shown ++ r.0);
          frames = r.1;
        },
        none,
      )

  unfoldable run_argv : Try (List String) → State → State × Option ℕ
  unfolding sent_request
  run_argv (err e) s =
      (record s { shown = prompted s.context (s.shown ++ message ("rsb: " ⧺ e) ∷ []) }, none)
  run_argv (ok argv) s =
      let n = length s.sent in sent_request (exec_of (S.id n) s.context argv) (S.send_fault n) s

  unfoldable run_meta : Meta → State → State × Option ℕ
  unfolding after_meta
  run_meta quit s = (s, some 0)
  run_meta (session_to name) s = (after_meta (session_to name) s, none)
  run_meta (container_to name) s = (after_meta (container_to name) s, none)
  run_meta (unknown name) s = (after_meta (unknown name) s, none)

  -- One line, trimmed.
  unfoldable run_line : String → State → State × Option ℕ
  unfolding run_meta run_argv meta_of parse_argv
  run_line line s =
      if line == ""
      then (record s { shown = prompted s.context s.shown }, none)
      else if starts_with line ":"
      then run_meta (meta_of (slice line 1 (len line))) s
      else run_argv (parse_argv S.as_argv S.trim line) s

  unfoldable pub goes_on : State × Option ℕ → (State → State × ℕ) → State × ℕ
  goes_on (s, none) next = next s
  goes_on (s, some code) next = (s, code)

  -- The loop over the lines of the input: the last state, and the exit code.
  unfoldable repl_loop : List String → State → State × ℕ
  unfolding run_line goes_on
  repl_loop [] s = (s, 0)
  repl_loop (line ∷ lines) s = goes_on (run_line (S.trim line) s) (repl_loop lines)

  -- From the Hello on.
  unfoldable pub repl : String → List String → List Frame → State × ℕ
  unfolding repl_loop
  repl session lines frames =
      let c : Context = record { session = session; container = "" } in
      repl_loop lines (record {
        context = c;
        sent = [];
        shown = prompt (prompt_of S.host c) ∷ [];
        frames = frames;
      })
