-- ===== src/Cli/Exec.antt =====
-- cmdExec of cmd/rsb/main.go up to the call of client.Exec: from the arguments to the host and the
-- request. json.Unmarshal into []string, strconv.Atoi with its error ignored, and the new id are
-- parameters; a negative timeout is not modelled. An error is the text behind "rsb: " on stderr, after
-- which the process exits with 1.
pub mod Args
pub mod Started
use Prim.Native.String.{slice, len}
use text.Mathlib.Text.{starts_with, find?}
use rsb.Prelude.{
  ℕ, ◌+◌, String, Bool, true, false, not, ◌&&◌, List, [], ◌∷◌, ◌++◌, ◌⧺◌, Option, none, some, Try,
  ok, err, length, ltb, eqb, ◌==◌, if◌then◌else◌,
}
use rsb.Prelude.Dict.{Dict, insert}
use rsb.Protocol.{Request, zero_request}

-- The `host` and the `rest` behind the optional first argument.
abbrev pub local_or_named : String → List String → String × List String
local_or_named a rest =
    if a == "--local"
    then ("local", rest)
    else if starts_with a "-"
    then ("local", a ∷ rest)
    else (a, rest)

unfoldable pub take_host : List String → String × List String
take_host [] = ("local", [])
take_host (a ∷ rest) = local_or_named a rest

-- The variables that the flags set.
pub record ExecFlags : Type 0 where
  pub argv_str : String
  pub argv_rest : List String
  pub cwd : String
  pub env_flags : List String
  pub timeout_ms : ℕ
  pub session : String
  pub container : String
  pub stdin_flag : Bool

abbrev pub no_flags : ExecFlags
no_flags = record {
  argv_str = "";
  argv_rest = [];
  cwd = "";
  env_flags = [];
  timeout_ms = 0;
  session = "";
  container = "";
  stdin_flag = false;
}

-- The flags with a value, and how an argument of the loop is read.
pub data Valued : Type 0 where
  argv_flag : Valued
  cwd_flag : Valued
  env_flag : Valued
  timeout_flag : Valued
  session_flag : Valued
  container_flag : Valued

pub data Flag : Type 0 where
  dashes : Flag
  valued : Valued → Flag
  switch_stdin : Flag
  unknown : Flag

unfoldable pub flag_of : String → Flag
flag_of a =
    if a == "--"
    then dashes
    else if a == "--argv"
    then valued argv_flag
    else if a == "--cwd"
    then valued cwd_flag
    else if a == "--env"
    then valued env_flag
    else if a == "--timeout"
    then valued timeout_flag
    else if a == "--session"
    then valued session_flag
    else if a == "--container"
    then valued container_flag
    else if a == "--stdin"
    then switch_stdin
    else unknown

module _ (atoi : String → ℕ) where
  abbrev pub set_flag : Valued → String → ExecFlags → ExecFlags
  set_flag argv_flag v o = record o { argv_str = v }
  set_flag cwd_flag v o = record o { cwd = v }
  set_flag env_flag v o = record o { env_flags = o.env_flags ++ v ∷ [] }
  set_flag timeout_flag v o = record o { timeout_ms = atoi v }
  set_flag session_flag v o = record o { session = v }
  set_flag container_flag v o = record o { container = v }

  -- The loop over the flags. `pending` is the flag whose value the `i++` goes on to; a flag at the end
  -- of the list has none.
  unfoldable pub exec_flags : Option Valued → List String → ExecFlags → Try ExecFlags
  exec_flags pending [] o = ok o
  exec_flags (some f) (v ∷ rest) o = exec_flags none rest (set_flag f v o)
  exec_flags none (a ∷ rest) o = elim (flag_of a) [
    | dashes ↦ ok (record o { argv_rest = rest })
    | valued f ↦ exec_flags (some f) rest o
    | switch_stdin ↦ exec_flags none rest (record o { stdin_flag = true })
    | unknown ↦ err ("unknown flag: " ⧺ (a ⧺ " (use -- to pass a raw command)"))
  ]

invalid_json : Try (List String) → Try (List String)
invalid_json (ok argv) = ok argv
invalid_json (err e) = err ("invalid --argv JSON: " ⧺ e)

-- `if len(argv) == 0`
unfoldable pub some_argv : Try (List String) → Try (List String)
some_argv (err e) = err e
some_argv (ok []) = err "argv is empty"
some_argv (ok (a ∷ argv)) = ok (a ∷ argv)

-- Exactly one of the two forms.
unfoldable pub argv_of : (String → Try (List String)) → ExecFlags → Try (List String)
unfolding some_argv invalid_json
argv_of as_argv o = some_argv (
    if not (o.argv_str == "") && ltb 0 (length o.argv_rest)
    then err "specify either --argv '<json>' OR -- <cmd>, not both"
    else if not (o.argv_str == "")
    then invalid_json (as_argv o.argv_str)
    else if ltb 0 (length o.argv_rest)
    then ok o.argv_rest
    else err
        "argv is required: rsb exec <host> --argv '<json>'   OR   rsb exec <host> -- cmd args...")

-- `K=V`, by its first equals sign.
set_env : String → Option ℕ → Dict String → Try (Dict String)
set_env kv none m = err ("bad --env " ⧺ (kv ⧺ " (want K=V)"))
set_env kv (some j) m = ok (insert (slice kv 0 j) (slice kv (j + 1) (len kv)) m)

env_next : Try (Dict String) → (Dict String → Try (Dict String)) → Try (Dict String)
env_next (err e) next = err e
env_next (ok m) next = next m

unfoldable pub env_map : List String → Dict String → Try (Dict String)
unfolding set_env env_next
env_map [] m = ok m
env_map (kv ∷ flags) m = env_next (set_env kv (find? kv "=") m) (env_map flags)

-- The call of client.Exec: the host, the request, and whether stdin is piped.
pub record ExecCall : Type 0 where
  pub host : String
  pub req : Request
  pub stdin : Bool

abbrev pub exec_request : String → ExecFlags → List String → Dict String → Request
exec_request id o argv env = record zero_request {
  id = id;
  type = "exec";
  argv = argv;
  cwd = o.cwd;
  env = env;
  timeout_ms = o.timeout_ms;
  session = o.session;
  container = o.container;
}

unfoldable pub with_env :
    String → String → ExecFlags → List String → Try (Dict String) → Try ExecCall
with_env host id o argv (err e) = err e
with_env host id o argv (ok env) =
    ok (record { host = host; req = exec_request id o argv env; stdin = o.stdin_flag })

unfoldable pub with_argv : String → String → ExecFlags → Try (List String) → Try ExecCall
unfolding with_env
with_argv host id o (err e) = err e
with_argv host id o (ok argv) = with_env host id o argv (env_map o.env_flags [])

unfoldable pub with_flags :
    (String → Try (List String)) → String → String → Try ExecFlags → Try ExecCall
unfolding with_argv
with_flags as_argv host id (err e) = err e
with_flags as_argv host id (ok o) = with_argv host id o (argv_of as_argv o)

unfoldable pub cmd_exec :
    (String → Try (List String)) → (String → ℕ) → String → List String → Try ExecCall
unfolding with_flags take_host
cmd_exec as_argv atoi id args =
    let (host, rest) = take_host args in
    with_flags as_argv host id (exec_flags atoi none rest no_flags)
