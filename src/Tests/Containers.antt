-- ===== src/Tests/Containers.antt =====
-- A command in a container of a host where docker answers.
use rsb.Prelude.{String, true, false, ◌≡◌, refl, List, [], ◌∷◌, none, some, ok, err}
use rsb.Protocol.{Request, zero_request}
use rsb.Agent.{empty_session}
use rsb.Agent.Exec.{
  System, Command, exited_ok, prepare, effective_argv, rewritten, command_of, looked_up, env_map,
}
use rsb.Docker.{
  Runtime, build_argv, current_mode, resolve_container_name, check_docker_access, Wrapped,
  prepare-Wrapped,
}

abbrev runtime : Runtime
runtime = record {
  inspect_id = λ name. none;
  inspect_pid = λ name. ok "17";
  compose_names = λ name. some ("" ∷ "shop-api-1" ∷ []);
  docker_in_path = true;
  nsenter_in_path = true;
  info_failure = none;
  container_mode = "";
  user = "ann";
  to_lower = λ s. s;
}

abbrev host_system : System
host_system = record {
  host = record { getwd = ok "/"; home = ok "/"; join = λ a b. b };
  stat = λ p. none;
  look_path = λ bin. ok bin;
  environ = [];
  build_argv = λ container argv. err "no docker";
  pipes = λ c. none;
  start = λ c. ok (record { outputs = []; wait = exited_ok; deadline = false; duration_ms = 0 });
}

abbrev inside_api : Request
inside_api = record zero_request { id = "r"; container = "api"; argv = "cat" ∷ "a b" ∷ [] }

abbrev taken_in : List String
taken_in = "docker" ∷ "exec" ∷ "-i" ∷ "shop-api-1" ∷ "cat" ∷ "a b" ∷ []

built : build_argv runtime "api" ("cat" ∷ "a b" ∷ []) ≡ ok taken_in
unfolding build_argv current_mode resolve_container_name check_docker_access
built = refl

abbrev started : Command
started = record { bin = "docker"; args = taken_in; env = []; dir = ""; stdin_closed = false }

prepared :
    prepare (record host_system { build_argv = build_argv runtime }) inside_api empty_session
    ≡ ok started
unfolding prepare effective_argv rewritten command_of looked_up env_map build_argv current_mode
    resolve_container_name check_docker_access
prepared = refl

prepare-Wrapped_example : Wrapped runtime "api" ("cat" ∷ "a b" ∷ []) taken_in
prepare-Wrapped_example =
    prepare-Wrapped runtime host_system inside_api empty_session (λ h. absurd (cc h)) prepared
