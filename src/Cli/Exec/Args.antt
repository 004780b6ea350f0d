-- ===== src/Cli/Exec/Args.antt =====
-- What a written command line is read as.
use Prim.Native.String.{slice, len}
use text.Mathlib.Text.{starts_with, find?}
use text.Mathlib.TextPositions.{len-append, slice-append_left, slice-append_right}
use text.Mathlib.TextLemmas.{append_assoc as text_assoc}
use rsb.Prelude.{
  ◌+◌, ◌≢◌, ◌⧺◌, some, All, append-nil, ℕ, String, true, false, ◌≡◌, refl, sym, ap, ◌∙◌, List, [],
  ◌∷◌, ◌++◌, none, Try, ok, arith, length, lt→ltb, ◌==◌, eq_iff, append_assoc, Bool-cases, inl, inr,
}
use rsb.Prelude.Dict.{Dict, insert}
use rsb.Prelude.Dict.Last.{inserted}
use rsb.Protocol.{zero_request}
use rsb.Cli.{main, help, run, exec, wants_help, is_help, run_or_help}
use rsb.Cli.Exec.{
  ExecFlags, no_flags, flag_of, exec_flags, argv_of, env_map, take_host, cmd_exec, with_flags,
  with_argv, with_env, some_argv,
}

-- An option of `rsb exec` but for --argv, and how it is written.
pub data Given : Type 0 where
  cwd_is : String → Given
  env_is : String → String → Given
  timeout_is : String → Given
  session_is : String → Given
  container_is : String → Given
  with_stdin : Given

abbrev pub written : Given → List String
written (cwd_is v) = "--cwd" ∷ v ∷ []
written (env_is k v) = "--env" ∷ (k ⧺ ("=" ⧺ v)) ∷ []
written (timeout_is v) = "--timeout" ∷ v ∷ []
written (session_is v) = "--session" ∷ v ∷ []
written (container_is v) = "--container" ∷ v ∷ []
written with_stdin = "--stdin" ∷ []

abbrev pub written_all : List Given → List String
written_all [] = []
written_all (g ∷ gs) = written g ++ written_all gs

-- The variables that are given, in order.
abbrev pub variables : List Given → List (String × String)
variables [] = []
variables (env_is k v ∷ gs) = (k, v) ∷ variables gs
variables (_ ∷ gs) = variables gs

-- The first equals sign of a variable is the one behind its name.
abbrev pub Named : String × String → Type 0
Named (k, v) = find? (k ⧺ ("=" ⧺ v)) "=" ≡ some (len k)

abbrev env_words : List (String × String) → List String
env_words [] = []
env_words ((k, v) ∷ vs) = (k ⧺ ("=" ⧺ v)) ∷ env_words vs

-- No word asks for help.
abbrev pub NoHelp : List String → Type 0
NoHelp args = All (λ a. (a ≢ "-h") × (a ≢ "--help") × (a ≢ "help")) args

-- The words that wantsHelp lets through.
pub help_free : (args : List String) → wants_help args ≡ false → NoHelp args
unfolding wants_help is_help
help_free [] none_there = tt
help_free (a ∷ args) none_there = elim (Bool-cases (is_help a)) [
  | inl e ↦ absurd (cc (rw e at none_there))
  | inr e ↦ (
    (λ h. absurd (cc (rw h at e)), λ h. absurd (cc (rw h at e)), λ h. absurd (cc (rw h at e))),
    help_free args (rw e at none_there),
  )
]

wants_help-NoHelp : (args : List String) → NoHelp args → wants_help args ≡ false
unfolding wants_help is_help
wants_help-NoHelp [] none_there = refl
wants_help-NoHelp (a ∷ args) ((short, long, word), none_there) = ground (
  arith,
  eq_iff a "-h",
  eq_iff a "--help",
  eq_iff a "help",
  short,
  long,
  word,
  wants_help-NoHelp args none_there,
)

main-NoHelp : (args : List String) → NoHelp args → main ("exec" ∷ args) ≡ run exec args
unfolding main run_or_help
main-NoHelp args none_there = rw (wants_help-NoHelp args none_there) refl

slice_name : (k v : String) → slice (k ⧺ ("=" ⧺ v)) 0 (len k) ≡ k
slice_name k v = slice-append_left k ("=" ⧺ v)

slice_value : (k v : String) → slice (k ⧺ ("=" ⧺ v)) (len k + 1) (len (k ⧺ ("=" ⧺ v))) ≡ v
slice_value k v =
    let name = k ⧺ "=" in
    let whole : name ⧺ v ≡ k ⧺ ("=" ⧺ v) = text_assoc k "=" v in
    let end = len name + len v in
    ap (λ (e : ℕ). slice (k ⧺ ("=" ⧺ v)) (len k + 1) e) (ap len (sym whole) ∙ len-append name v)
    ∙ ap (λ (b : ℕ). slice (k ⧺ ("=" ⧺ v)) b end) (sym (len-append k "="))
    ∙ ap (λ (w : String). slice w (len name) end) (sym whole)
    ∙ slice-append_right name v

env_map-words :
    (vs : List (String × String)) (m : Dict String)
    → All Named vs
    → env_map (env_words vs) m ≡ ok (inserted vs m)
unfolding env_map
env_map-words [] m named = refl
env_map-words ((k, v) ∷ vs) m (here, named) =
    rw (here, slice_name k v, slice_value k v) (env_map-words vs (insert k v m) named)

module _ (atoi : String → ℕ) where
  abbrev pub meant : Given → ExecFlags → ExecFlags
  meant (cwd_is v) o = record o { cwd = v }
  meant (env_is k v) o = record o { env_flags = o.env_flags ++ (k ⧺ ("=" ⧺ v)) ∷ [] }
  meant (timeout_is v) o = record o { timeout_ms = atoi v }
  meant (session_is v) o = record o { session = v }
  meant (container_is v) o = record o { container = v }
  meant with_stdin o = record o { stdin_flag = true }

  abbrev pub meant_all : List Given → ExecFlags → ExecFlags
  meant_all [] o = o
  meant_all (g ∷ gs) o = meant_all gs (meant g o)

  exec_flags-given :
      (g : Given) (rest : List String) (o : ExecFlags)
      → exec_flags atoi none (written g ++ rest) o ≡ exec_flags atoi none rest (meant g o)
  unfolding exec_flags flag_of
  exec_flags-given (cwd_is v) rest o = refl
  exec_flags-given (env_is k v) rest o = refl
  exec_flags-given (timeout_is v) rest o = refl
  exec_flags-given (session_is v) rest o = refl
  exec_flags-given (container_is v) rest o = refl
  exec_flags-given with_stdin rest o = refl

  exec_flags-written :
      (gs : List Given) (rest : List String) (o : ExecFlags)
      → exec_flags atoi none (written_all gs ++ rest) o ≡ exec_flags atoi none rest (meant_all gs o)
  exec_flags-written [] rest o = refl
  exec_flags-written (g ∷ gs) rest o =
      rw (append_assoc (written g) (written_all gs) rest)
        (exec_flags-given g (written_all gs ++ rest) o ∙ exec_flags-written gs rest (meant g o))

  argv_str-meant : (g : Given) (o : ExecFlags) → (meant g o).argv_str ≡ o.argv_str
  argv_str-meant (cwd_is v) o = refl
  argv_str-meant (env_is k v) o = refl
  argv_str-meant (timeout_is v) o = refl
  argv_str-meant (session_is v) o = refl
  argv_str-meant (container_is v) o = refl
  argv_str-meant with_stdin o = refl

  argv_str-meant_all : (gs : List Given) (o : ExecFlags) → (meant_all gs o).argv_str ≡ o.argv_str
  argv_str-meant_all [] o = refl
  argv_str-meant_all (g ∷ gs) o = argv_str-meant_all gs (meant g o) ∙ argv_str-meant g o

  env_flags-meant_all :
      (gs : List Given) (o : ExecFlags)
      → (meant_all gs o).env_flags ≡ o.env_flags ++ env_words (variables gs)
  env_flags-meant_all [] o = sym (append-nil o.env_flags)
  env_flags-meant_all (cwd_is v ∷ gs) o = env_flags-meant_all gs (meant (cwd_is v) o)
  env_flags-meant_all (env_is k v ∷ gs) o =
      env_flags-meant_all gs (meant (env_is k v) o)
      ∙ append_assoc o.env_flags ((k ⧺ ("=" ⧺ v)) ∷ []) (env_words (variables gs))
  env_flags-meant_all (timeout_is v ∷ gs) o = env_flags-meant_all gs (meant (timeout_is v) o)
  env_flags-meant_all (session_is v ∷ gs) o = env_flags-meant_all gs (meant (session_is v) o)
  env_flags-meant_all (container_is v ∷ gs) o = env_flags-meant_all gs (meant (container_is v) o)
  env_flags-meant_all (with_stdin ∷ gs) o = env_flags-meant_all gs (meant with_stdin o)

pub named_host :
    (host : String) (rest : List String)
    → starts_with host "-" ≡ false
    → take_host (host ∷ rest) ≡ (host, rest)
unfolding take_host
named_host host rest named = elim (Bool-cases (host == "--local")) [
  | inl e ↦
      let same : host ≡ "--local" = ground (arith, eq_iff host "--local", e) in
      absurd (cc (sym (ap (λ (h : String). starts_with h "-") same) ∙ named))
  | inr e ↦ rw (e, named) refl
]

argv_of_rest :
    (as_argv : String → Try (List String)) (o : ExecFlags) (a : String) (argv : List String)
    → o.argv_str ≡ ""
    → o.argv_rest ≡ a ∷ argv
    → argv_of as_argv o ≡ ok (a ∷ argv)
unfolding argv_of some_argv
argv_of_rest as_argv o a argv none_given rest =
    simp (none_given, rest, lt→ltb 0 (length (a ∷ argv)) (omega arith))

-- A command line of `rsb exec` that names a host, gives options but --argv in any number and order, and
-- then a command behind `--`, where no word is a help word and no name of a variable has an equals sign,
-- is not taken for a question for help, and is read back: the host, a request with the last value of each
-- option and with the variables of the --env options as its environment, inserted in order, and as argv
-- the command, word for word.
pub cmd_exec-written :
    (as_argv : String → Try (List String)) (atoi : String → ℕ) (id host : String) (gs : List Given)
    (a : String) (argv : List String)
    → starts_with host "-" ≡ false
    → All Named (variables gs)
    → NoHelp (host ∷ written_all gs ++ "--" ∷ a ∷ argv)
    → let args = host ∷ written_all gs ++ "--" ∷ a ∷ argv in
      let o = meant_all atoi gs no_flags in
      (main ("exec" ∷ args) ≡ run exec args)
      × (cmd_exec as_argv atoi id args
          ≡ ok (record {
            host = host;
            req = record zero_request {
              id = id;
              type = "exec";
              argv = a ∷ argv;
              cwd = o.cwd;
              env = inserted (variables gs) [];
              timeout_ms = o.timeout_ms;
              session = o.session;
              container = o.container;
            };
            stdin = o.stdin_flag;
          }))
unfolding cmd_exec exec_flags flag_of with_flags with_argv with_env
cmd_exec-written as_argv atoi id host gs a argv named vars none_there =
    let o = meant_all atoi gs no_flags in
    let o' : ExecFlags = record o { argv_rest = a ∷ argv } in
    let given : argv_of as_argv o' ≡ ok (a ∷ argv) =
      argv_of_rest as_argv o' a argv (argv_str-meant_all atoi gs no_flags) refl in
    let envs : env_map o.env_flags [] ≡ ok (inserted (variables gs) []) =
      rw (env_flags-meant_all atoi gs no_flags) (env_map-words (variables gs) [] vars) in
    (
      main-NoHelp (host ∷ written_all gs ++ "--" ∷ a ∷ argv) none_there,
      rw
          (
            named_host host (written_all gs ++ "--" ∷ a ∷ argv) named,
            exec_flags-written atoi gs ("--" ∷ a ∷ argv) no_flags,
            given,
            envs,
          )
          refl,
    )

wants_help-anywhere :
    (before : List String) (h : String) (after : List String)
    → is_help h ≡ true
    → wants_help (before ++ h ∷ after) ≡ true
unfolding wants_help
wants_help-anywhere [] h after e = rw e refl
wants_help-anywhere (b ∷ before) h after e = elim (Bool-cases (is_help b)) [
  | inl here ↦ rw here refl
  | inr not_here ↦ rw not_here (wants_help-anywhere before h after e)
]

-- A word -h, --help or help anywhere behind `exec`, also in the command behind `--`, makes main print
-- its own help for exec and run nothing.
pub main-exec_help :
    (before : List String) (h : String) (after : List String)
    → is_help h ≡ true
    → main ("exec" ∷ before ++ h ∷ after) ≡ help exec
unfolding main run_or_help
main-exec_help before h after e = rw (wants_help-anywhere before h after e) refl
