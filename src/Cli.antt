-- ===== src/Cli.antt =====
-- main and wantsHelp of cmd/rsb/main.go: which command an argument list runs. The list is without the
-- program's name; the texts that the helps print are not modelled.
pub mod Exec
pub mod Ensure
pub mod Cat
pub mod Doctor
pub mod Search
pub mod Sync
pub mod Cp
pub mod InstallLocal
pub mod Repl
pub mod AgentVersion
use rsb.Prelude.{String, Bool, true, false, ◌||◌, List, [], ◌∷◌, ◌==◌, if◌then◌else◌}

pub data Command : Type 0 where
  exec : Command
  cp : Command
  sync : Command
  repl : Command
  daemon : Command
  ensure : Command
  doctor : Command
  install_local : Command
  agent_version : Command
  cat : Command
  grep : Command

-- What main does. `misused` and `unknown` print the usage on stderr and exit with 2.
pub data Invoked : Type 0 where
  misused : Invoked
  usage : Invoked
  version : Invoked
  unknown : String → Invoked
  help : Command → Invoked
  run : Command → List String → Invoked

-- "-h", "--help", "help"
unfoldable pub is_help : String → Bool
is_help a = a == "-h" || (a == "--help" || a == "help")

unfoldable pub wants_help : List String → Bool
unfolding is_help
wants_help [] = false
wants_help (a ∷ args) = if is_help a then true else wants_help args

unfoldable pub run_or_help : Command → List String → Invoked
unfolding wants_help
run_or_help c args = if wants_help args then help c else run c args

-- `switch os.Args[1]`
unfoldable pub main : List String → Invoked
unfolding is_help run_or_help
main [] = misused
main (name ∷ args) =
    if is_help name
    then usage
    else if name == "exec"
    then run_or_help exec args
    else if name == "cp"
    then run_or_help cp args
    else if name == "sync"
    then run_or_help sync args
    else if name == "repl"
    then run_or_help repl args
    else if name == "daemon"
    then run_or_help daemon args
    else if name == "ensure"
    then run_or_help ensure args
    else if name == "doctor"
    then run_or_help doctor args
    else if name == "install-local"
    then run_or_help install_local args
    else if name == "agent-version"
    then run_or_help agent_version args
    else if name == "cat"
    then run_or_help cat args
    else if name == "grep"
    then run_or_help grep args
    else if name == "version" || (name == "-v" || name == "--version")
    then version
    else unknown name
