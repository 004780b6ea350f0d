-- ===== src/Daemon/Spawn.antt =====
-- openHostConn and handshakeError of internal/daemon/daemon.go: the start of a host's agent and
-- its first frame. What the processes answer is the record `Spawn`;
-- strings.ToLower and TrimSpace are the record `Texts`.
pub mod Opened
use rsb.Prelude.{
  contains, String, Bool, not, ◌||◌, Bytes, List, [], ◌∷◌, ◌⧺◌, Option, none, some, Try, ok, err,
  ◌==◌, if◌then◌else◌,
}
use rsb.Protocol.{kind_hello}
use rsb.Protocol.Wire.{Frame}
use rsb.Daemon.{HostConn, new_conn}

pub record Texts : Type 0 where
  pub to_lower : String → String
  pub trim : String → String

-- For a command line: the errors of its pipes and of its start, the first frame that is read from its
-- stdout, and what it has written to stderr by then. `local_agent` is findLocalAgent.
pub record Spawn : Type 0 where
  pub local_agent : String
  pub pipes : List String → Option String
  pub start : List String → Option String
  pub first_frame : List String → Try Frame
  pub stderr : List String → String

-- What ssh says when it is not let in.
unfoldable pub denied : String → Bool
denied low =
    contains low "permission denied" || (contains low "publickey" || contains low "password")

-- The message for a host whose agent has not said Hello: `e` is the error of the read, `stderr` what
-- the process wrote.
unfoldable pub handshake_error : Texts → String → String → String → String
handshake_error texts host e stderr =
    let low = texts.to_lower stderr in
    let detail = texts.trim stderr in
    if denied low
    then "SSH authentication failed for "
      ⧺ (host
          ⧺ ("\nrsb daemon runs ssh non-interactively and cannot prompt for a password.\n"
              ⧺ ("fix: configure an SSH key (ssh-copy-id "
                  ⧺ (host ⧺ (") or use ssh-agent\ndetail: " ⧺ detail)))))
    else if contains low "connection refused"
    then "connection refused to "
      ⧺ (host ⧺ (" (SSH not running or wrong port?)\ndetail: " ⧺ detail))
    else if contains low "could not resolve" || contains low "no such host"
    then "cannot resolve host " ⧺ (host ⧺ ("\ndetail: " ⧺ detail))
    else if not (detail == "")
    then "agent handshake failed for " ⧺ (host ⧺ ("\n" ⧺ detail))
    else "agent handshake failed for " ⧺ (host ⧺ (": " ⧺ e))

-- readHello on the first frame of the agent's stdout
unfoldable pub read_hello : Try Frame → Try Bytes
read_hello (err reason) = err reason
read_hello (ok f) =
    if f.kind == kind_hello then ok f.body else err ("expected hello, got " ⧺ f.kind)

module _ (texts : Texts) (spawn : Spawn) where
  unfoldable pub said_hello : String → String → Try Bytes → Try HostConn
  unfolding handshake_error
  said_hello host stderr (err reason) = err (handshake_error texts host reason stderr)
  said_hello host stderr (ok hello) = ok (new_conn hello)

  unfoldable pub after_start : String → List String → Option String → Try HostConn
  unfolding said_hello read_hello
  after_start host argv (some e) = err ("start agent: " ⧺ e)
  after_start host argv none =
      said_hello host (spawn.stderr argv) (read_hello (spawn.first_frame argv))

  unfoldable pub after_pipes : String → List String → Option String → Try HostConn
  unfolding after_start
  after_pipes host argv (some e) = err e
  after_pipes host argv none = after_start host argv (spawn.start argv)

  abbrev pub run_agent : String → List String → Try HostConn
  run_agent host argv = after_pipes host argv (spawn.pipes argv)

  unfoldable pub open_host_conn : String → Try HostConn
  unfolding after_pipes
  open_host_conn host =
      if host == "local"
      then (if spawn.local_agent == ""
          then err "local rsb-agent not found; build it: go build -o bin/rsb-agent ./cmd/rsb-agent"
          else run_agent host (spawn.local_agent ∷ []))
      else run_agent host ("ssh" ∷ host ∷ ".rsb/rsb-agent" ∷ [])
