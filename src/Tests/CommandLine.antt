-- ===== src/Tests/CommandLine.antt =====
-- Command lines, a doctor's answers, and the discovery of the home.
use rsb.Prelude.{
  ℕ, String, true, false, ◌≡◌, refl, List, [], ◌∷◌, none, some, Try, ok, err, ◌==◌, ◌||◌, ◌⧺◌,
  if◌then◌else◌,
}
use rsb.Prelude.Dict.{insert}
use rsb.Protocol.{zero_request}
use rsb.Cli.{main, run, exec}
use rsb.Cli.Exec.{cmd_exec}
use rsb.Cli.Exec.Args.{cwd_is, env_is, with_stdin, NoHelp, help_free, cmd_exec-written}
use rsb.Paths.{Os, is_home, resolve_home}
use rsb.Cli.Doctor.{Asked, passed, is_remote_host, doctor}

abbrev as_argv : String → Try (List String)
as_argv s = err "no JSON"

abbrev atoi : String → ℕ
atoi s = 0

abbrev exec_words : List String
exec_words =
    "web" ∷ "--cwd" ∷ "/srv" ∷ "--env" ∷ "K=a=b" ∷ "--stdin" ∷ "--" ∷ "echo" ∷ "--cwd" ∷ "--" ∷ []

exec_words-NoHelp : NoHelp exec_words
unfolding rsb.Cli.wants_help rsb.Cli.is_help
exec_words-NoHelp = help_free exec_words refl

cmd_exec-written_example :
    (main ("exec" ∷ exec_words) ≡ run exec exec_words)
    × (cmd_exec as_argv atoi "i" exec_words
        ≡ ok (record {
          host = "web";
          req = record zero_request {
            id = "i";
            type = "exec";
            argv = "echo" ∷ "--cwd" ∷ "--" ∷ [];
            cwd = "/srv";
            env = ("K", "a=b") ∷ [];
          };
          stdin = true;
        }))
unfolding insert
cmd_exec-written_example =
    cmd_exec-written as_argv atoi "i" "web" (cwd_is "/srv" ∷ env_is "K" "a=b" ∷ with_stdin ∷ [])
      "echo" ("--cwd" ∷ "--" ∷ []) refl (refl, tt) exec_words-NoHelp

abbrev dir_of : String → String
dir_of p =
    if p == "/usr/local/bin/rsb"
    then "/usr/local/bin"
    else if p == "/usr/local/bin"
    then "/usr/local"
    else "/usr"

abbrev os : Os
os = record {
  rsb_home = "";
  executable = ok "/usr/local/bin/rsb";
  eval_symlinks = ok;
  dir = dir_of;
  join = λ d p. d ⧺ ("/" ⧺ p);
  abs = ok;
  is_dir = λ p. p == "/usr/local/bin" || p == "/usr/bin";
  is_file = λ p. false;
  goos = "linux";
  goarch = "amd64";
}

-- A directory above with a bin directory is taken for the home.
home_above : resolve_home os ≡ "/usr"
unfolding resolve_home is_home
home_above = refl

abbrev asked : Asked
asked = record {
  home = "/home/rsb";
  platform_dir = ok "/home/rsb/bin/linux-amd64";
  is_file = λ p. true;
  daemon_runs = false;
  reach = ok "rsb-ssh-ok";
  has_agent = true;
  local_bin = "/home/rsb/bin/linux-amd64/rsb-agent";
  local_hash = "ab";
  remote_hash = some "ab";
  remote_docker = none;
  docker_found = true;
  docker_info = none;
  docker_exec = none;
}

doctor_passes : passed (doctor asked "web" "") ≡ true
unfolding passed is_remote_host doctor
doctor_passes = refl
