-- ===== src/Cli/AgentVersion.antt =====
-- cmdAgentVersion of cmd/rsb/main.go, and the --version of main of cmd/rsb-agent/main.go. `run` is
-- exec.Command with Output, `trim` strings.TrimSpace.
use rsb.Prelude.{
  contains, String, Bool, ◌||◌, List, [], ◌∷◌, ◌⧺◌, Try, ok, err, ◌==◌, if◌then◌else◌,
}
use rsb.Cli.Ensure.{agent_path, ssh}
use rsb.Cli.Exec.{take_host}

-- What the agent's process does: it prints its version and ends, or it serves the protocol.
pub data AgentMain : Type 0 where
  prints : String → AgentMain
  serves : AgentMain

-- The version, and `protocol` for its number, are those of the build.
unfoldable pub agent_main : String → String → String → List String → AgentMain
agent_main version protocol built [] = serves
agent_main version protocol built (a ∷ _) =
    if a == "--version" || a == "-v"
    then prints
        ("rsb-agent " ⧺ (version ⧺ (" (protocol v" ⧺ (protocol ⧺ (") built " ⧺ (built ⧺ "\n"))))))
    else serves

-- A process that ended: its output, or its error with what it wrote to stderr.
pub data Ran : Type 0 where
  printed : String → Ran
  broken : String → String → Ran

-- What the command ends with: the agent's version, an error with or without the advice to install the
-- agent, or no agent of this machine.
pub data Ended : Type 0 where
  shown : String → String → Ended
  no_version : String → Bool → Ended
  no_agent : String → Ended

unfoldable pub version_of : (String → String) → String → Ran → Ended
version_of trim host (printed out) = shown host (trim out)
version_of trim host (broken e stderr) =
    no_version e (contains stderr "No such file" || contains stderr "not found")

module _ (trim : String → String) (run : List String → Ran) where
  local_version : Try String → Ended
  unfolding version_of
  local_version (err e) = no_agent ("cannot find local agent: " ⧺ e)
  local_version (ok dir) = version_of trim "local" (run ((dir ⧺ "/rsb-agent") ∷ "--version" ∷ []))

  -- `platform_dir` is LocalPlatformDir.
  unfoldable pub cmd_agent_version : Try String → List String → Ended
  unfolding local_version version_of
  cmd_agent_version platform_dir args =
      let host = (take_host args).0 in
      if host == "local"
      then local_version platform_dir
      else version_of trim host (run (ssh host (agent_path ⧺ " --version")))
