-- ===== src/Cli/Exec/Started.antt =====
-- From the command line to the process that the agent starts.
use text.Mathlib.Text.{starts_with}
use rsb.Prelude.{
  not, ◌&&◌, ◌⧺◌, map, All, arith, none, ℕ, String, Bool, true, false, ◌≡◌, refl, ap, ◌∙◌, List, [],
  ◌∷◌, ◌++◌, Try, ok, ◌==◌, eq_iff, if◌then◌else◌,
}
use rsb.Prelude.Dict.{Dict, lookup, insert}
use rsb.Prelude.Dict.Last.{last_value, inserted, lookup-inserted, lookup-inserted_map}
use rsb.Protocol.{Request, zero_request}
use rsb.Agent.{Session, insert_all}
use rsb.Agent.Exec.{
  System, Command, env_map, effective_cwd, prepare, effective_argv, command_of, looked_up, command,
  rewritten,
}
use rsb.Cli.{main, run, exec}
use rsb.Cli.Exec.{ExecCall, no_flags, cmd_exec}
use rsb.Cli.Exec.Args.{Given, written_all, meant_all, variables, Named, NoHelp, cmd_exec-written}

found :
    (sys : System) (req : Request) (sess : Session) (a : String) (argv : List String) (bin : String)
    → req.container ≡ ""
    → req.argv ≡ a ∷ argv
    → sys.look_path a ≡ ok bin
    → prepare sys req sess ≡ ok (command sys req sess bin (a ∷ argv))
unfolding prepare effective_argv command_of looked_up
found sys req sess a argv bin none_asked words look =
    let b : (req.container == "") ≡ true = (eq_iff req.container "").1 none_asked in
    let direct : effective_argv sys req ≡ ok (a ∷ argv) =
      ap
        (λ (x : Bool). if x then ok req.argv else rewritten (sys.build_argv req.container req.argv))
        b
      ∙ ap ok words in
    ap (command_of sys req sess) direct
    ∙ ap (λ (l : Try String). looked_up l sys req sess a argv) look

-- The command that is started runs `program` with `argv`, in the directory of --cwd or else of the session, with the
-- variables of the agent and behind them, for each name, the value of the last --env option that has it, or
-- else that of the session.
pub record Started (sys : System) (sess : Session) (program cwd : String)
    (vars : List (String × String)) (argv : List String) (cmd : Command) : Type 0 where
  pub merged : Dict String
  pub bin : cmd.bin ≡ program
  pub args : cmd.args ≡ argv
  pub dir : cmd.dir ≡ (if cwd == "" then sess.cwd else cwd)
  pub env : cmd.env ≡ sys.environ ++ map (λ (e : String × String). e.0 ⧺ ("=" ⧺ e.1)) merged
  pub values : (k : String) → lookup k merged ≡ last_value k vars (last_value k sess.env none)

insert_all-inserted :
    (ps : List (String × String)) (m : Dict String) → insert_all ps m ≡ inserted ps m
unfolding insert_all
insert_all-inserted [] m = refl
insert_all-inserted ((k, v) ∷ ps) m = insert_all-inserted ps (insert k v m)

env_map-values :
    (k : String) (vars : List (String × String)) (req : Request) (sess : Session)
    → req.env ≡ inserted vars []
    → lookup k (env_map req sess) ≡ last_value k vars (last_value k sess.env none)
unfolding env_map lookup
env_map-values k vars req sess e =
    let base = insert_all sess.env [] in
    let merged : insert_all req.env base ≡ inserted (inserted vars []) base =
      ap (λ (m : Dict String). insert_all m base) e ∙ insert_all-inserted (inserted vars []) base in
    let of_session : lookup k base ≡ last_value k sess.env none =
      ap (lookup k) (insert_all-inserted sess.env []) ∙ lookup-inserted k sess.env [] in
    ap (lookup k) merged ∙ lookup-inserted_map k vars base ∙ ap (last_value k vars) of_session

-- Without a container the directory is --cwd's, or else the session's.
started_in :
    (req : Request) (sess : Session)
    → req.container ≡ ""
    → (if not (effective_cwd req sess == "") && req.container == ""
        then effective_cwd req sess
        else "")
      ≡ (if req.cwd == "" then sess.cwd else req.cwd)
started_in req sess direct =
    ground (arith, eq_iff req.container "", eq_iff req.cwd "", eq_iff sess.cwd "", direct)

-- A command line of `rsb exec` that names a host, gives options but --argv and no container, and then a
-- command behind `--` whose first word is in the agent's PATH, where no word is a help word and no name of
-- a variable has an equals sign: main runs exec on it, which reads it as a request for which the agent,
-- unless it takes it for a cd of a session, prepares a process of that program with the words of the
-- command, unchanged, in the directory of --cwd or else of the session, with the variables of the agent
-- and behind them, for each name, the value of the last --env option that has it, or else the session's.
pub cmd_exec-Started :
    (as_argv : String → Try (List String)) (atoi : String → ℕ) (id host : String) (gs : List Given)
    (a : String) (argv : List String) (sys : System) (sess : Session) (bin : String)
    → starts_with host "-" ≡ false
    → All Named (variables gs)
    → NoHelp (host ∷ written_all gs ++ "--" ∷ a ∷ argv)
    → (meant_all atoi gs no_flags).container ≡ ""
    → sys.look_path a ≡ ok bin
    → let args = host ∷ written_all gs ++ "--" ∷ a ∷ argv in
      (call : ExecCall) × (main ("exec" ∷ args) ≡ run exec args)
      × (cmd_exec as_argv atoi id args ≡ ok call)
      × ((cmd : Command) × (prepare sys call.req sess ≡ ok cmd)
          × Started sys sess bin (meant_all atoi gs no_flags).cwd (variables gs) (a ∷ argv) cmd)
cmd_exec-Started as_argv atoi id host gs a argv sys sess bin named vars none_there no_container
      look =
    let o = meant_all atoi gs no_flags in
    let req : Request = record zero_request {
      id = id;
      type = "exec";
      argv = a ∷ argv;
      cwd = o.cwd;
      env = inserted (variables gs) [];
      timeout_ms = o.timeout_ms;
      session = o.session;
      container = o.container;
    } in
    let (ran, read) = cmd_exec-written as_argv atoi id host gs a argv named vars none_there in
    (
      record { host = host; req = req; stdin = o.stdin_flag },
      ran,
      read,
      (
        command sys req sess bin (a ∷ argv),
        found sys req sess a argv bin no_container refl look,
        record {
          merged = env_map req sess;
          bin = refl;
          args = refl;
          dir = started_in req sess no_container;
          env = refl;
          values = λ k. env_map-values k (variables gs) req sess refl;
        },
      ),
    )
