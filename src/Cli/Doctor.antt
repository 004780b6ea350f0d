-- ===== src/Cli/Doctor.antt =====
-- cmdDoctor of cmd/rsb/main.go. What it asks the machine, the host and docker is the record `Asked`, an
-- error of a process by its text; the details that it prints behind a status are not modelled.
pub mod Passed
use Prim.Native.String.{slice, len}
use text.Mathlib.Text.{starts_with}
use rsb.Prelude.{
  String, Bool, true, false, not, ◌&&◌, ◌||◌, List, [], ◌∷◌, ◌++◌, ◌⧺◌, Option, none, some, Try, ok,
  err, ◌==◌, if◌then◌else◌,
}

-- `reach` is the trimmed output of the ssh that echoes a marker; `docker_info` is the lower-cased output
-- of a `docker info` that failed.
pub record Asked : Type 0 where
  pub home : String
  pub platform_dir : Try String
  pub is_file : String → Bool
  pub daemon_runs : Bool
  pub reach : Try String
  pub has_agent : Bool
  pub local_bin : String
  pub local_hash : String
  pub remote_hash : Option String
  pub remote_docker : Option String
  pub docker_found : Bool
  pub docker_info : Option String
  pub docker_exec : Option String

-- A line of the output.
pub data Line : Type 0 where
  report : String → String → Line
  info : String → Line

-- The host and the container of the arguments.
abbrev pub plain_arg : String → String × String → String × String
plain_arg a o =
    if a == "--local"
    then ("local", o.1)
    else if starts_with a "--container="
    then (o.0, slice a (len "--container=") (len a))
    else if starts_with a "-"
    then o
    else (a, o.1)

-- `pending` says that the last argument was --container.
unfoldable pub doctor_args : Bool → List String → String × String → Try (String × String)
doctor_args false [] o = ok o
doctor_args true [] o = err "usage: rsb doctor [host] [--container NAME]"
doctor_args true (name ∷ args) o = doctor_args false args (o.0, name)
doctor_args false (a ∷ args) o =
    let pending = doctor_args true args o in
    let next = doctor_args false args (plain_arg a o) in
    if a == "--container" then pending else next

unfoldable pub is_remote_host : String → Bool
is_remote_host host = not (host == "") && not (host == "local")

module _ (A : Asked) where
  home_line : Line
  home_line = if A.home == "" then report "install home" "FAIL" else report "install home" "ok"

  binary_line : String → String → Line
  binary_line dir bin =
      if A.is_file (dir ⧺ ("/" ⧺ bin)) then report bin "ok" else report bin "missing"

  binary_lines : Try String → List Line
  unfolding binary_line
  binary_lines (err e) = report "platform binaries" "FAIL" ∷ []
  binary_lines (ok dir) =
      binary_line dir "rsb" ∷ binary_line dir "rsb-daemon" ∷ binary_line dir "rsb-agent" ∷ []

  daemon_line : Line
  daemon_line = if A.daemon_runs then report "daemon" "ok" else info "daemon"

  hash_lines : Option String → List Line
  hash_lines none = []
  hash_lines (some h) =
      (if h == A.local_hash
        then report "remote agent hash" "ok"
        else report "remote agent hash" "STALE")
      ∷ []

  unfoldable pub agent_lines : List Line
  unfolding hash_lines
  agent_lines =
      if A.has_agent
      then report "remote agent version" "ok"
        ∷ (if A.local_bin == "" then [] else hash_lines A.remote_hash)
      else report "remote agent" "missing" ∷ []

  unfoldable pub reach_lines : String → Try String → List Line
  unfolding agent_lines
  reach_lines host (err e) = report ("ssh " ⧺ host) "FAIL" ∷ []
  reach_lines host (ok out) =
      if out == "rsb-ssh-ok" then report ("ssh " ⧺ host) "ok" ∷ agent_lines else []

  unfoldable pub host_lines : String → List Line
  unfolding reach_lines
  host_lines host = if is_remote_host host then reach_lines host A.reach else []

  smoke : String → Option String → List Line
  smoke container none = report ("container exec " ⧺ container) "ok" ∷ []
  smoke container (some e) = report ("container exec " ⧺ container) "FAIL" ∷ []

  docker_lines : Option String → String → List Line
  unfolding smoke
  docker_lines (some out) container = report "docker" "FAIL" ∷ []
  docker_lines none container =
      if container == "" then report "docker" "ok" ∷ [] else smoke container A.docker_exec

  unfoldable pub container_lines : String → String → List Line
  unfolding smoke docker_lines
  container_lines host container =
      if not (container == "") && is_remote_host host
      then smoke container A.remote_docker
      else if not A.docker_found
      then info "docker" ∷ []
      else docker_lines A.docker_info container

  unfoldable pub doctor : String → String → List Line
  unfolding home_line binary_lines daemon_line host_lines container_lines
  doctor host container =
      home_line
      ∷ (binary_lines A.platform_dir
          ++ (daemon_line ∷ (host_lines host ++ container_lines host container)))

-- `ok` at the end; the process exits with 1 if it is false.
abbrev pub line_ok : Line → Bool
line_ok (report label status) = status == "ok"
line_ok (info label) = true

unfoldable pub passed : List Line → Bool
passed [] = true
passed (l ∷ ls) = line_ok l && passed ls
