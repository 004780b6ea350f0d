-- ===== src/Docker.antt =====
-- internal/docker/docker.go: how a command is taken into a container. What the commands that it runs
-- print, trimmed, and what the environment holds is the record `Runtime`, with Go's ToLower.
use rsb.Prelude.{
  subst, arith, eq_iff, String, Bool, false, ◌≡◌, ◌≢◌, refl, sym, List, [], ◌∷◌, ◌⧺◌, Option, none,
  some, Try, ok, err, Bool-cases, inl, inr, ◌==◌, ◌||◌, if◌then◌else◌,
}
use text.Mathlib.Text.{starts_with}
use rsb.Protocol.{Request}
use rsb.Agent.{Session}
use rsb.Agent.Exec.{System, Command, prepare, effective_argv, rewritten, command_of}
use rsb.Agent.Exec.Launch.{prepare-container}

pub record Runtime : Type 0 where
  -- docker inspect: the id, and the main PID
  pub inspect_id : String → Option String
  pub inspect_pid : String → Try String
  -- docker ps by the label of a compose service, by trimmed lines
  pub compose_names : String → Option (List String)
  pub docker_in_path : Bool
  pub nsenter_in_path : Bool
  -- docker info: nothing, or the output of a failure
  pub info_failure : Option String
  pub container_mode : String
  pub user : String
  pub to_lower : String → String

pub data Mode : Type 0 where
  mode_docker : Mode
  mode_nsenter : Mode

unfoldable pub current_mode : Runtime → Mode
current_mode rt = if rt.to_lower rt.container_mode == "nsenter" then mode_nsenter else mode_docker

first_name : String → List String → String
first_name name [] = name
first_name name (l ∷ ls) = let later = first_name name ls in if l == "" then later else l

by_service : String → Option (List String) → String
unfolding first_name
by_service name none = name
by_service name (some lines) = first_name name lines

by_id : Runtime → String → Option String → String
unfolding by_service
by_id rt name none = by_service name (rt.compose_names name)
by_id rt name (some id) = if id == "" then by_service name (rt.compose_names name) else name

unfoldable pub resolve_container_name : Runtime → String → String
unfolding by_id
resolve_container_name rt name = by_id rt name (rt.inspect_id name)

checked_pid : String → Try String → Try String
checked_pid container (err e) = err e
checked_pid container (ok pid) =
    if pid == "0" || pid == "" then err ("container " ⧺ (container ⧺ " not running")) else ok pid

unfoldable pub container_pid : Runtime → String → Try String
unfolding checked_pid
container_pid rt container = checked_pid container (rt.inspect_pid container)

-- strings.Contains
unfoldable pub contains : String → String → Bool
contains String.[] part = part == ""
contains (String.◌∷◌ c s) part =
    let later = contains s part in starts_with (String.◌∷◌ c s) part || later

access_of : Runtime → Option String → Option String
access_of rt none = none
access_of rt (some out) =
    let lower = rt.to_lower out in
    if contains lower "permission denied"
      || (contains lower "connect to the docker daemon socket" || contains lower "docker.sock")
    then some (
        "cannot access Docker socket (permission denied)\nfix: sudo usermod -aG docker "
        ⧺ ((if rt.user == "" then "<user>" else rt.user) ⧺ ", then reconnect rsb daemon"))
    else some ("docker daemon not reachable: " ⧺ out)

-- The error, if there is one.
unfoldable pub check_docker_access : Runtime → Option String
unfolding access_of
check_docker_access rt = access_of rt rt.info_failure

docker_exec : Option String → String → List String → Try (List String)
docker_exec (some e) container argv = err e
docker_exec none container argv = ok ("docker" ∷ "exec" ∷ "-i" ∷ container ∷ argv)

-- nsenter, or else what follows it.
nsenter_or : Try String → Try (List String) → List String → Try (List String)
nsenter_or (ok pid) fallback argv = ok ("nsenter" ∷ "-t" ∷ pid ∷ "-a" ∷ argv)
nsenter_or (err e) fallback argv = fallback

entered : Runtime → Mode → String → List String → Try (List String)
unfolding docker_exec nsenter_or
entered rt mode_docker container argv = docker_exec (check_docker_access rt) container argv
entered rt mode_nsenter container argv =
    let fallback = docker_exec (check_docker_access rt) container argv in
    if rt.nsenter_in_path then nsenter_or (container_pid rt container) fallback argv else fallback

-- BuildArgv
unfoldable pub build_argv : Runtime → String → List String → Try (List String)
unfolding entered
build_argv rt container [] = err "empty argv"
build_argv rt container (a ∷ as') =
    if container == ""
    then err "empty container name"
    else if rt.docker_in_path
    then entered rt (current_mode rt) (resolve_container_name rt container) (a ∷ as')
    else err "no container runtime available (docker not found)"

-- How an argv is taken into a container.
pub data Wrapped (rt : Runtime) (container : String) (argv out : List String) : Type 0 where
  by_docker :
      out ≡ "docker" ∷ "exec" ∷ "-i" ∷ resolve_container_name rt container ∷ argv
      → check_docker_access rt ≡ none
      → Wrapped rt container argv out
  by_nsenter :
      (pid : String)
      → out ≡ "nsenter" ∷ "-t" ∷ pid ∷ "-a" ∷ argv
      → container_pid rt (resolve_container_name rt container) ≡ ok pid
      → current_mode rt ≡ mode_nsenter
      → Wrapped rt container argv out

module _ (rt : Runtime) (container : String) (argv : List String) where
  name : String
  name = resolve_container_name rt container

  docker_exec-Wrapped :
      {out : List String} (o : Option String)
      → check_docker_access rt ≡ o
      → docker_exec o name argv ≡ ok out
      → Wrapped rt container argv out
  unfolding docker_exec name
  docker_exec-Wrapped (some e) access h = absurd (cc h)
  docker_exec-Wrapped none access h = by_docker (cc h) access

  nsenter_or-Wrapped :
      {out : List String} (t : Try String)
      → container_pid rt name ≡ t
      → current_mode rt ≡ mode_nsenter
      → nsenter_or t (docker_exec (check_docker_access rt) name argv) argv ≡ ok out
      → Wrapped rt container argv out
  unfolding nsenter_or name
  nsenter_or-Wrapped (ok pid) found mode h = by_nsenter pid (cc h) found mode
  nsenter_or-Wrapped (err e) found mode h = docker_exec-Wrapped (check_docker_access rt) refl h

  entered-Wrapped :
      {out : List String} (m : Mode)
      → current_mode rt ≡ m
      → entered rt m name argv ≡ ok out
      → Wrapped rt container argv out
  unfolding entered
  entered-Wrapped mode_docker mode h = docker_exec-Wrapped (check_docker_access rt) refl h
  entered-Wrapped mode_nsenter mode h = elim (Bool-cases rt.nsenter_in_path) [
    | inl there ↦ nsenter_or-Wrapped (container_pid rt name) refl mode (simp (there) at h)
    | inr missing ↦ docker_exec-Wrapped (check_docker_access rt) refl (simp (missing) at h)
  ]

-- When BuildArgv gives an argv at all, the caller's argv stands in it whole and last, behind
-- `docker exec -i` and the resolved container, which needs access to docker, or behind `nsenter` with
-- the container's PID, which needs the mode for it.
pub build_argv-Wrapped :
    (rt : Runtime) (container : String) (argv : List String) {out : List String}
    → build_argv rt container argv ≡ ok out
    → Wrapped rt container argv out
unfolding build_argv name
build_argv-Wrapped rt container [] h = absurd (cc h)
build_argv-Wrapped rt container (a ∷ as') h = elim (Bool-cases (container == "")) [
  | inl empty ↦ absurd (cc (rw empty at h))
  | inr named ↦ elim (Bool-cases rt.docker_in_path) [
    | inl there ↦
        entered-Wrapped rt container (a ∷ as') (current_mode rt) refl (simp (named, there) at h)
    | inr missing ↦ absurd (cc (simp (named, missing) at h))
  ]
]

module _ (rt : Runtime) (sys : System) where
  prepare-rewritten :
      (req : Request) (sess : Session) (t : Try (List String)) {cmd : Command}
      → (req.container == "") ≡ false
      → build_argv rt req.container req.argv ≡ t
      → prepare (record sys { build_argv = build_argv rt }) req sess ≡ ok cmd
      → Wrapped rt req.container req.argv cmd.args
  unfolding prepare effective_argv rewritten command_of
  prepare-rewritten req sess (err e) named found h = absurd (cc (simp (named, found) at h))
  prepare-rewritten req sess (ok argv) named found h =
      let ne : req.container ≢ "" = λ same. ground (arith, eq_iff req.container "", same, named) in
      let (args, _) =
        prepare-container (record sys { build_argv = build_argv rt }) req sess argv ne found h in
      subst (λ (x : List String). Wrapped rt req.container req.argv x) (sym args)
        (build_argv-Wrapped rt req.container req.argv found)

  -- A command that the agent starts for a request with a container gets an argv that ends in the
  -- request's own, whole, behind what BuildArgv puts before it.
  pub prepare-Wrapped :
      (req : Request) (sess : Session) {cmd : Command}
      → req.container ≢ ""
      → prepare (record sys { build_argv = build_argv rt }) req sess ≡ ok cmd
      → Wrapped rt req.container req.argv cmd.args
  prepare-Wrapped req sess ne h =
      let named : (req.container == "") ≡ false = ground (arith, eq_iff req.container "", ne) in
      prepare-rewritten req sess (build_argv rt req.container req.argv) named refl h
