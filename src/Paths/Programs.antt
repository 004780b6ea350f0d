-- ===== src/Paths/Programs.antt =====
-- The programs that rsb starts, findDaemonBinary of internal/client/helpers.go and findLocalAgent of
-- internal/daemon/helpers.go, and the files of the runtime directory in internal/paths/paths.go.
use rsb.Prelude.{String, Try, ok, err, if◌then◌else◌}
use rsb.Paths.{Os, local_platform_dir}

-- RuntimeDir; `join` is filepath.Join, `home` os.UserHomeDir and `temp` os.TempDir.
unfoldable pub runtime_dir : (String → String → String) → Try String → String → String
runtime_dir join (ok home) temp = join home ".rsb"
runtime_dir join (err e) temp = join temp ".rsb"

-- A program beside this one, or else on the PATH; `look_path` is exec.LookPath.
in_path : Try String → String
in_path (ok p) = p
in_path (err e) = ""

beside : Os → Try String → String → String → String
beside os (err e) name later = later
beside os (ok dir) name later = let p = os.join dir name in if os.is_file p then p else later

unfoldable pub find_program : Os → (String → Try String) → String → String
unfolding beside in_path
find_program os look_path name = beside os (local_platform_dir os) name (in_path (look_path name))

unfoldable pub find_daemon_binary : Os → (String → Try String) → String
unfolding find_program
find_daemon_binary os look_path = find_program os look_path "rsb-daemon"

unfoldable pub find_local_agent : Os → (String → Try String) → String
unfolding find_program
find_local_agent os look_path = find_program os look_path "rsb-agent"

unfoldable pub socket_path : (String → String → String) → Try String → String → String
unfolding runtime_dir
socket_path join home temp = join (runtime_dir join home temp) "daemon.sock"

unfoldable pub pid_path : (String → String → String) → Try String → String → String
unfolding runtime_dir
pid_path join home temp = join (runtime_dir join home temp) "daemon.pid"
