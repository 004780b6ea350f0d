-- ===== src/Agent/Exec/Launch.antt =====
-- What the operating system is asked to run.
use rsb.Prelude.{
  String, true, false, not, ◌&&◌, ◌≡◌, ◌≢◌, inl, inr, ap, ◌∙◌, List, [], ◌∷◌, ◌++◌, Option, none,
  some, Try, ok, err, arith, Bool-cases, ◌==◌, eq_iff, if◌then◌else◌, map,
}
use rsb.Protocol.{Request}
use rsb.Agent.{Agent, Session, resolve_cwd}
use rsb.Agent.Exec.{
  System, Command, effective_cwd, is_cd, checked, cd_to, cd_target, effective_argv, env_map,
  env_entry, command, looked_up, rewritten, command_of, prepare, handle_exec,
}
use rsb.Agent.Exec.Isolation.{session_of, cd-session_of}

-- A command that runs `argv` with the variables of the request and its session.
record Runs (sys : System) (req : Request) (sess : Session) (argv : List String) (cmd : Command)
    : Type 0 where
  pub args : cmd.args ≡ argv
  pub env : cmd.env ≡ sys.environ ++ map env_entry (env_map req sess)
  pub dir : cmd.dir ≡ (
      if not (effective_cwd req sess == "") && req.container == ""
      then effective_cwd req sess
      else "")
  pub stdin_closed : cmd.stdin_closed ≡ req.stdin_closed

looked_up-Runs :
    (look : Try String) (sys : System) (req : Request) (sess : Session) (prog : String)
    (args : List String) {cmd : Command}
    → looked_up look sys req sess prog args ≡ ok cmd
    → Runs sys req sess (prog ∷ args) cmd
unfolding looked_up
looked_up-Runs (err e) sys req sess prog args h = absurd (cc h)
looked_up-Runs (ok bin) sys req sess prog args {cmd} h =
    let e : cmd ≡ command sys req sess bin (prog ∷ args) = cc h in
    record {
      args = ap (λ (c : Command). c.args) e;
      env = ap (λ (c : Command). c.env) e;
      dir = ap (λ (c : Command). c.dir) e;
      stdin_closed = ap (λ (c : Command). c.stdin_closed) e;
    }

command_of-Runs :
    (sys : System) (req : Request) (sess : Session) (argv : List String) {cmd : Command}
    → command_of sys req sess (ok argv) ≡ ok cmd
    → Runs sys req sess argv cmd
unfolding command_of
command_of-Runs sys req sess [] h = absurd (cc h)
command_of-Runs sys req sess (prog ∷ args) h =
    looked_up-Runs (sys.look_path prog) sys req sess prog args h

-- Without a container the command that is started has exactly the argv of the request, the
-- environment of the agent with the variables of the session and the request behind it, and the
-- request's directory or else the session's.
prepare-Runs :
    (sys : System) (req : Request) (sess : Session) {cmd : Command}
    → req.container ≡ ""
    → prepare sys req sess ≡ ok cmd
    → Runs sys req sess req.argv cmd
unfolding prepare effective_argv
prepare-Runs sys req sess none_asked h =
    let b : (req.container == "") ≡ true = (eq_iff req.container "").1 none_asked in
    command_of-Runs sys req sess req.argv (simp b at h)

-- A command that is started for a container has the argv that the docker adapter gives, and no
-- directory.
pub prepare-container :
    (sys : System) (req : Request) (sess : Session) (argv : List String) {cmd : Command}
    → req.container ≢ ""
    → sys.build_argv req.container req.argv ≡ ok argv
    → prepare sys req sess ≡ ok cmd
    → (cmd.args ≡ argv) × (cmd.dir ≡ "")
unfolding prepare effective_argv rewritten
prepare-container sys req sess argv {cmd} asked built h =
    let b : (req.container == "") ≡ false = ground (arith, eq_iff req.container "") in
    let r : Runs sys req sess argv cmd = command_of-Runs sys req sess argv (simp (b, built) at h) in
    (r.args, ground (arith, r.dir))

checked-ok : (o : Option String) (x : String) {y : String} → checked o x ≡ ok y → x ≡ y
unfolding checked
checked-ok (some e) x h = absurd (cc h)
checked-ok none x h = cc h

cd_to-ne :
    (sys : System) (req : Request) (sess : Session) {abs : String}
    → cd_to sys req sess ≡ ok abs
    → (abs == "") ≡ false
unfolding cd_to
cd_to-ne sys req sess {abs} h =
    let cwd = effective_cwd req sess in
    let target = resolve_cwd sys.host (cd_target req.argv cwd) cwd in
    elim (Bool-cases (target == "")) [
      | inl bad ↦ absurd (cc (rw bad at h))
      | inr fine ↦ rw (checked-ok (sys.stat target) target (rw fine at h)) at fine
    ]

-- A `cd` sticks: after one that is answered without an error, a request of the same session that
-- sets no directory of its own and asks for no container is started in the resolved target, and
-- with its own argv.
pub prepare_after_cd :
    (sys : System) (req next : Request) (a : Agent) (abs : String) {cmd : Command}
    → is_cd req req.argv ≡ true
    → cd_to sys req (session_of req.session a) ≡ ok abs
    → next.session ≡ req.session
    → next.cwd ≡ ""
    → next.container ≡ ""
    → prepare sys next (session_of next.session (handle_exec sys req a)) ≡ ok cmd
    → (cmd.dir ≡ abs) × (cmd.args ≡ next.argv)
prepare_after_cd sys req next a abs {cmd} cd to same no_cwd no_container h =
    let sess = session_of next.session (handle_exec sys req a) in
    let after : sess ≡ record { cwd = abs; env = (session_of req.session a).env } =
      ap (λ (n : String). session_of n (handle_exec sys req a)) same
      ∙ cd-session_of sys req a abs cd to in
    let unset : (next.cwd == "") ≡ true = (eq_iff next.cwd "").1 no_cwd in
    let none_asked : (next.container == "") ≡ true = (eq_iff next.container "").1 no_container in
    let there : effective_cwd next sess ≡ abs = rw unset (ap (λ (s : Session). s.cwd) after) in
    let fits = cd_to-ne sys req (session_of req.session a) to in
    let r = prepare-Runs sys next sess no_container h in
    (r.dir ∙ rw (there, fits, none_asked), r.args)
