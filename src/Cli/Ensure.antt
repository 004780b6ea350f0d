-- ===== src/Cli/Ensure.antt =====
-- cmdEnsure of cmd/rsb/main.go with probeRemoteArch, normalizeArch and remoteSHA256. The processes that
-- it starts are the interface `Tools`: a command line, run on a state of the world, gives an error or
-- none, and what it prints. paths.AgentForPlatform, sha256File, strings.Fields and strings.ToLower are
-- parameters. `failed` is a message on stderr and the exit code 1.
pub mod Verified
use Prim.Native.String.{len}
use text.Mathlib.Text.{starts_with}
use rsb.Prelude.{
  ℕ, String, Bool, true, false, not, ◌&&◌, ◌||◌, List, [], ◌∷◌, ◌⧺◌, Option, none, some, Try, ok,
  err, eqb, ◌==◌, if◌then◌else◌,
}

-- exec.Command with Run, and with Output.
pub record Tools : Type 1 where
  pub State : Type 0
  pub run : List String → State → Option String × State
  pub output : List String → State → Try String

pub data Ended : Type 0 where
  failed : String → Ended
  up_to_date : Ended
  ready : Ended

-- The arguments: the host, and whether --force is there.
abbrev pub force_flags : List String → Bool → Try Bool
force_flags [] force = ok force
force_flags (a ∷ args) force =
    let rest = force_flags args true in
    if a == "--force" then rest else err ("unknown ensure flag: " ⧺ a)

with_host : String → Try Bool → Try (String × Bool)
with_host host (err e) = err e
with_host host (ok force) = ok (host, force)

unfoldable pub ensure_args : List String → Try (String × Bool)
unfolding with_host
ensure_args [] = err "usage: rsb ensure <host> [--force]"
ensure_args (host ∷ args) =
    if starts_with host "-"
    then err "usage: rsb ensure <host> [--force]"
    else with_host host (force_flags args false)

unfoldable pub normalize_arch : (String → String) → String → String
normalize_arch to_lower m =
    if m == "x86_64" || m == "amd64"
    then "amd64"
    else if m == "aarch64" || m == "arm64"
    then "arm64"
    else to_lower m

two_fields : (String → String) → List String → Try (String × String)
unfolding normalize_arch
two_fields to_lower (os ∷ m ∷ _) = ok (to_lower os, normalize_arch to_lower m)
two_fields to_lower _ = err "unexpected uname output"

probed : (String → List String) → (String → String) → Try String → Try (String × String)
unfolding two_fields
probed fields to_lower (err e) = err e
probed fields to_lower (ok out) = two_fields to_lower (fields out)

abbrev pub agent_path : String
agent_path = ".rsb/rsb-agent"

abbrev pub tmp_path : String
tmp_path = agent_path ⧺ ".new"

abbrev pub ssh : String → String → List String
ssh host command = "ssh" ∷ host ∷ command ∷ []

abbrev pub move_line : String → List String
move_line host = ssh host ("mv -f " ⧺ (tmp_path ⧺ (" " ⧺ agent_path)))

-- The steps of the upload: the new agent is moved into place by the last.
abbrev pub install_steps : String → String → List (List String)
install_steps host local_bin =
    ssh host "mkdir -p ~/.rsb"
    ∷ ("scp" ∷ local_bin ∷ (host ⧺ (":" ⧺ tmp_path)) ∷ [])
    ∷ ssh host ("chmod +x " ⧺ tmp_path)
    ∷ move_line host
    ∷ []

-- A line of sha256sum: its first field, if that has 64 characters.
unfoldable pub hash_field : List String → Option String
hash_field [] = none
hash_field (h ∷ _) = if eqb (len h) 64 then some h else none

module _ (T : Tools) (fields : String → List String) (to_lower : String → String) where
  unfoldable pub probe_remote_arch : String → T.State → Try (String × String)
  unfolding probed
  probe_remote_arch host s = probed fields to_lower (T.output (ssh host "uname -sm") s)

  unfoldable pub printed_hash : Try String → Option String
  unfolding hash_field
  printed_hash (err e) = none
  printed_hash (ok out) = hash_field (fields out)

  unfoldable pub or_try : Option String → Option String → Option String
  or_try (some h) later = some h
  or_try none later = later

  unfoldable pub remote_sha256 : String → String → T.State → Option String
  unfolding printed_hash or_try
  remote_sha256 host path s =
      or_try (printed_hash (T.output (ssh host ("sha256sum " ⧺ path)) s))
        (printed_hash (T.output (ssh host ("shasum -a 256 " ⧺ path)) s))

  -- The loop over the steps; the first that fails is followed by the removal of the temporary file.
  unfoldable pub after_step :
      String → Option String → T.State → Option String × T.State → Option String × T.State
  after_step host none s later = later
  after_step host (some e) s later = (some e, (T.run (ssh host ("rm -f " ⧺ tmp_path)) s).1)

  unfoldable pub run_steps : String → List (List String) → T.State → Option String × T.State
  run_steps host [] s = (none, s)
  run_steps host (c ∷ cs) s = let r = T.run c s in after_step host r.0 r.1 (run_steps host cs r.1)

  -- The check behind the installation.
  unfoldable pub verified : String → Option String → Ended
  verified local_hash none = failed "installed but could not hash remote agent"
  verified local_hash (some h) =
      if h == local_hash then ready else failed "verification FAILED: remote agent sha256 mismatch"

  unfoldable pub after_install : String → String → Option String × T.State → Ended × T.State
  unfolding verified remote_sha256
  after_install host local_hash (some e, s) = (failed e, s)
  after_install host local_hash (none, s) =
      (verified local_hash (remote_sha256 host agent_path s), s)

  unfoldable pub install : String → String → String → T.State → Ended × T.State
  unfolding after_install run_steps
  install host local_bin local_hash s =
      after_install host local_hash (run_steps host (install_steps host local_bin) s)

  unfoldable pub is_current : String → Option String → Bool
  is_current local_hash none = false
  is_current local_hash (some h) = h == local_hash

  -- From the local hash on.
  unfoldable pub hashed : Bool → String → String → Try String → T.State → Ended × T.State
  unfolding install is_current remote_sha256
  hashed force host local_bin (err e) s = (failed ("hash local agent: " ⧺ e), s)
  hashed force host local_bin (ok local_hash) s =
      if not force && is_current local_hash (remote_sha256 host agent_path s)
      then (up_to_date, s)
      else install host local_bin local_hash s

  unfoldable pub on_platform :
      (String → String → String)
      → (String → Try String)
      → Bool
      → String
      → Try (String × String)
      → T.State
      → Ended × T.State
  unfolding hashed
  on_platform agent_for sha256_file force host (err e) s =
      (failed ("probe " ⧺ (host ⧺ (": " ⧺ e))), s)
  on_platform agent_for sha256_file force host (ok (os, arch)) s =
      let local_bin = agent_for os arch in
      if local_bin == ""
      then (failed "no rsb-agent found", s)
      else hashed force host local_bin (sha256_file local_bin) s

  -- From the parsed arguments on.
  unfoldable pub ensure :
      (String → String → String) → (String → Try String) → Bool → String → T.State → Ended × T.State
  unfolding on_platform probe_remote_arch
  ensure agent_for sha256_file force host s =
      on_platform agent_for sha256_file force host (probe_remote_arch host s) s
