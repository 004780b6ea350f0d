-- ===== src/Tests/Commands.antt =====
-- Exec requests on a small system: two commands are on its PATH.
use rsb.Prelude.{
  String, true, false, ◌≡◌, refl, List, [], ◌∷◌, ◌⧺◌, none, Try, ok, err, if◌then◌else◌, ◌==◌, ◌||◌,
}
use rsb.Prelude.Dict.{lookup, insert}
use rsb.Protocol.{Request, zero_request}
use rsb.Agent.{Agent, Session, resolve_cwd, or_empty, resolve_session, store_new, write_frame}
use rsb.Agent.Put.{no_faults}
use rsb.Agent.Run.{World, State}
use rsb.Agent.Exec.{
  System, Command, exited_ok, is_cd, cd_to, checked, handle_exec, prepare, looked_up, env_map,
  command_of, effective_argv, rewritten, exec_cd, set_cwd,
}
use rsb.Agent.Exec.Isolation.{session_of, Others, handle_exec-Others}
use rsb.Cli.Exec.{ExecCall, cmd_exec}
use rsb.Cli.{main, run, exec, wants_help, is_help}
use rsb.Cli.Exec.Args.{session_is, env_is, help_free}
use rsb.Cli.Exec.Started.{Started, cmd_exec-Started}
use rsb.Agent.Exec.Launch.{prepare_after_cd}

look_path : String → Try String
look_path bin = if bin == "ls" || bin == "docker" then ok ("/bin/" ⧺ bin) else err "not found"

in_docker : String → List String → Try (List String)
in_docker container argv = ok ("docker" ∷ "exec" ∷ container ∷ argv)

abbrev sys : System
sys = record {
  host = record { getwd = ok "/root"; home = ok "/home/u"; join = λ a b. a ⧺ ("/" ⧺ b) };
  stat = λ p. none;
  look_path = look_path;
  environ = "PATH=/bin" ∷ [];
  build_argv = in_docker;
  pipes = λ c. none;
  start = λ c. ok (record {
    outputs = ("stdout", 104 ∷ []) ∷ [];
    wait = exited_ok;
    deadline = false;
    duration_ms = 3;
  });
}

abbrev agent : Agent
agent = record {
  sessions =
      ("s", record { cwd = "/srv"; env = ("A", "1") ∷ [] })
      ∷ ("t", record { cwd = "/tmp"; env = [] })
      ∷ [];
  out = [];
}

abbrev list_files : Request
list_files = record zero_request { id = "r1"; session = "s"; argv = "ls" ∷ "-l" ∷ [] }

abbrev list_inside : Request
list_inside = record list_files { container = "box" }

abbrev change_dir : Request
change_dir = record zero_request { id = "r0"; session = "s"; argv = "cd" ∷ "/var" ∷ [] }

abbrev in_srv : Session
in_srv = record { cwd = "/srv"; env = ("A", "1") ∷ [] }

abbrev listing : Command
listing = record {
  bin = "/bin/ls";
  args = "ls" ∷ "-l" ∷ [];
  env = "PATH=/bin" ∷ "A=1" ∷ [];
  dir = "/srv";
  stdin_closed = false;
}

handle_exec-Others_example : Others "s" agent (handle_exec sys change_dir agent)
handle_exec-Others_example = handle_exec-Others sys change_dir agent

is_a_cd : is_cd change_dir change_dir.argv ≡ true
unfolding is_cd
is_a_cd = refl

cd_done : cd_to sys change_dir (session_of "s" agent) ≡ ok "/var"
unfolding cd_to or_empty resolve_cwd checked lookup
cd_done = refl

listing_prepared : prepare sys list_files in_srv ≡ ok listing
unfolding prepare effective_argv look_path looked_up command_of env_map insert
listing_prepared = refl

abbrev inside : Command
inside = record listing {
  bin = "/bin/docker";
  args = "docker" ∷ "exec" ∷ "box" ∷ "ls" ∷ "-l" ∷ [];
  dir = "";
}

inside_prepared : prepare sys list_inside in_srv ≡ ok inside
unfolding prepare effective_argv look_path looked_up command_of rewritten in_docker env_map insert
inside_prepared = refl

abbrev listing_there : Command
listing_there = record listing { dir = "/var" }

listing_there_prepared :
    prepare sys list_files (session_of "s" (handle_exec sys change_dir agent)) ≡ ok listing_there
unfolding prepare effective_argv look_path looked_up command_of handle_exec is_cd exec_cd set_cwd
    cd_to or_empty resolve_cwd checked lookup insert resolve_session store_new write_frame env_map
listing_there_prepared = refl

prepare_after_cd_example : (listing_there.dir ≡ "/var") × (listing_there.args ≡ "ls" ∷ "-l" ∷ [])
prepare_after_cd_example =
    prepare_after_cd sys change_dir list_files agent "/var" is_a_cd cd_done refl refl refl
      listing_there_prepared

abbrev world : World
world = record {
  sys = sys;
  digest = λ bytes. "0";
  open_file = λ disk p. err "no such file";
  stat_file = λ disk p. none;
  faults = no_faults;
  closed = "EOF";
}

abbrev state : State
state = record { agent = agent; table = []; disk = []; pending = [] }

abbrev stat_file : Request
stat_file = record zero_request { id = "r2"; type = "file_stat"; path = "/etc/motd" }

no_json : String → Try (List String)
no_json s = err "no JSON"

abbrev ls_words : List String
ls_words = "web" ∷ "--session" ∷ "s" ∷ "--env" ∷ "K=v" ∷ "--" ∷ "ls" ∷ "a b" ∷ "$HOME" ∷ []

cmd_exec-Started_example :
    (call : ExecCall) × (main ("exec" ∷ ls_words) ≡ run exec ls_words)
    × (cmd_exec no_json (λ s. 0) "i" ls_words ≡ ok call)
    × ((cmd : Command) × (prepare sys call.req in_srv ≡ ok cmd)
        × Started sys in_srv "/bin/ls" "" (("K", "v") ∷ []) ("ls" ∷ "a b" ∷ "$HOME" ∷ []) cmd)
unfolding look_path wants_help is_help
cmd_exec-Started_example =
    cmd_exec-Started no_json (λ s. 0) "i" "web" (session_is "s" ∷ env_is "K" "v" ∷ []) "ls"
      ("a b" ∷ "$HOME" ∷ []) sys in_srv "/bin/ls" refl (refl, tt) (help_free ls_words refl) refl
      refl
