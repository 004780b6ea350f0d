-- ===== src/Lib.antt =====
-- rsb runs commands and moves files on hosts. A client (internal/client) talks over a unix socket to
-- a daemon (internal/daemon), which keeps one connection to an agent (cmd/rsb-agent) for each host and
-- shares it among the clients; all of them exchange the frames of internal/protocol. This library
-- models these programs, the command line and the protocol between them, and proves what makes them correct.
--
-- The modules, and the code that they are about:
--   Protocol                  internal/protocol/protocol.go: the frame kinds and the bodies
--   Protocol.Wire             WriteFrame and ReadFrame, down to the bytes
--   Agent                     cmd/rsb-agent/main.go: the sessions, resolveSession, persistSession,
--                             resolveCwd, and resolvePath of files.go
--   Agent.Exec                dispatchExec and handleExec of main.go
--   Agent.Stdin               the table of running requests, feedStdin, closeStdin, cancelReq, pumpStdin
--   Agent.Run                 run of main.go and handleFileStat of files.go: the read loop
--   Agent.Get                 handleFileGet of cmd/rsb-agent/files.go
--   Agent.Put                 handleFilePutSync of cmd/rsb-agent/files.go
--   Client.Transfer           FileStat, FileGet and FilePut of internal/client/files.go
--   Client.Paths              ParsePath of internal/client/files.go
--   Client.Start              dialOrStart and startDaemon of internal/client/client.go
--   Client.Session            NewSession of internal/client/files.go
--   Client.Call               Exec of client.go as a whole
--   Client.Exec               the loop of Exec and clientTimeout of client.go; Whole and Answered follow
--                             an exec from the agent through the daemon to what Exec returns
--   Client.Handshake          consumeHandshake of client.go
--   Client.Stdin              pumpStdin of client.go
--   Client.Sync               Sync of internal/client/files.go, over the interface of a session; OnAgent
--                             is the session that FileStat and FilePut make with the agent
--   Client.Copy               CP of files.go
--   Client.Repl               Repl, parseArgv and runOneCommand of internal/client/repl.go
--   Client.Grep               Grep and parseRgJSON of internal/client/grep.go
--   Cli                       cmd/rsb/main.go: main and wantsHelp; below it cmdExec, cmdEnsure, cmdCat,
--                             cmdDoctor, cmdGrep, cmdSync, cmdCp, cmdRepl, cmdInstallLocal and
--                             cmdAgentVersion
--   Paths                     the discovery of the install home in internal/paths/paths.go
--   Paths.Programs            findDaemonBinary, findLocalAgent and the files of the runtime directory
--   Service                   the daemon as a process: New of internal/daemon/daemon.go, main of
--                             cmd/rsb-daemon/main.go, and cmdDaemon of cmd/rsb/main.go
--   Service.Pid               the PID file: itoa, fmtPid and readPID
--   Service.Shutdown          Serve, Close and main at the end of the process
--   Daemon                    hostConn, its pumps and bridge, of internal/daemon/daemon.go and helpers.go
--   Daemon.Routes             lemmas on the routes of a connection
--   Daemon.Spawn              openHostConn, readHello and handshakeError
--   Daemon.Pool               hostConn, handshake and serveClient
--   Docker                    internal/docker/docker.go: BuildArgv and what it calls
--   Prelude                   the names, tests, lists, maps and integers that they share
--   Tests                     runs at concrete inputs
-- The modules below each of these hold its theorems.
--
-- State is passed: an agent is its sessions and the frames that it wrote, a disk is a map from paths
-- to files, a connection is its routes, queues and what was sent on each reply channel. What runs
-- concurrently is a step relation: the read loop and the stdin pump in Agent.Stdin, the sessions and
-- pumps of a connection in Daemon.Safety, the goroutines of the daemon in Service.Shutdown. Elsewhere an
-- operation is one step, as the lock that the code takes makes it. JSON, SHA-256 and the operating
-- system are parameters: functions, or records such as
-- `System`, `Host`, `Faults` and `Runtime` that hold what they answer.
--
-- Lengths of frames are those of the 4-byte header: MaxPayload, 64 MiB, is below 2 ^ 32, so the header
-- does not wrap. Loops run on fuel. A stream of frames is read off the wire with one unit for
-- each byte and one more, and a file with one unit for each byte and one more: every round but the last
-- takes at least one byte. The agent's read loop has one unit for each frame that will arrive. The
-- wait for the daemon has 102 rounds: at 50 ms or more each they pass its deadline of 5 s. The PID's digits
-- need no fuel but the 20 bytes of their buffer.
--
-- Not modelled: what cmd/rsb prints beyond the values that its commands end with and what rsb sync and
-- rsb cat show, its help texts, log output, and the ids that are made of clocks and counters. Sockets,
-- signals and processes are modelled by their effects on a machine; that SIGTERM takes a while to end
-- a process is not. Directories of a host, file permissions other than a mode that is stored, and a
-- write that fails half way are left out of the disk.
pub mod Prelude
pub mod Protocol
pub mod Service
pub mod Agent
pub mod Cli
pub mod Client
mod Tests
pub mod Daemon
pub mod Docker
pub mod Paths
