-- ===== src/Daemon/Pool.antt =====
-- The daemon's pool of connections, the handshake of a client, and the end of a connection.
use rsb.Prelude.{
  true, ◌⊎◌, ◌++◌, String, false, ◌≡◌, refl, Bytes, List, [], ◌∷◌, Option, none, some, Bool-cases,
  inl, inr, if◌then◌else◌, ◌==◌, ◌⧺◌, Try, ok, err, length, ltb,
}
use rsb.Prelude.Dict.{Dict, lookup, insert}
use rsb.Protocol.{kind_hello}
use rsb.Protocol.Wire.{Frame}
use rsb.Daemon.{HostConn, Json, error_frame, new_conn, is_closed}
use rsb.Daemon.Spawn.Opened.{
  AgentOf, Says, greeted, silent, Opened, no_agent, tried, open_host_conn-Opened,
}
use rsb.Daemon.Spawn.{Texts, Spawn, open_host_conn}

-- The daemon's state, d.conns
abbrev pub Conns : Type 0
Conns = Dict HostConn

unfoldable pub opened : String → Conns → Try HostConn → Try HostConn × Conns
opened host conns (err reason) = (err reason, conns)
opened host conns (ok hc) = (ok hc, insert host hc conns)

module _ (texts : Texts) (spawn : Spawn) where
  unfoldable pub pooled : Option HostConn → String → Conns → Try HostConn × Conns
  pooled none host conns = opened host conns (open_host_conn texts spawn host)
  pooled (some hc) host conns =
      if is_closed hc then opened host conns (open_host_conn texts spawn host) else (ok hc, conns)

  unfoldable pub host_conn : String → Conns → Try HostConn × Conns
  host_conn host conns = pooled (lookup host conns) host conns

-- What handshake leaves: the client's connection, the pool, and the frames written to the client.
pub record Attached : Type 0 where
  pub conn : Try HostConn
  pub conns : Conns
  pub to_client : List Frame

unfoldable pub refused : String → Conns → Attached
refused reason conns = record { conn = err reason; conns = conns; to_client = [] }

-- The agent's Hello, where one is cached.
unfoldable pub replayed : HostConn → List Frame
replayed hc =
    if ltb 0 (length hc.hello_json)
    then record { kind = kind_hello; body = hc.hello_json } ∷ []
    else []

unfoldable pub attached : Try HostConn × Conns → Attached
unfolding refused
attached (err reason, conns) = refused reason conns
attached (ok hc, conns) = record { conn = ok hc; conns = conns; to_client = replayed hc }

-- `attach_host` decodes the body of an attach frame.
module _ (texts : Texts) (spawn : Spawn) (attach_host : Bytes → Try String) where
  unfoldable pub attach : Try String → Conns → Attached
  unfolding refused attached
  attach (err reason) conns = refused reason conns
  attach (ok host) conns =
      if host == ""
      then refused "attach: empty host" conns
      else attached (host_conn texts spawn host conns)

  unfoldable pub handshake : Try Frame → Conns → Attached
  unfolding refused attach
  handshake (err reason) conns = refused reason conns
  handshake (ok f) conns =
      if f.kind == "attach"
      then attach (attach_host f.body) conns
      else refused ("expected attach frame, got " ⧺ f.kind) conns

-- serveClient up to the bridge: the frames that the client is sent. A failure is an Error frame.
answered : Json → Try HostConn → List Frame → List Frame
answered json (err reason) frames = frames ++ error_frame json "" reason ∷ []
answered json (ok hc) frames = frames

unfoldable pub serve_client : Json → Attached → List Frame
unfolding answered
serve_client json a = answered json a.conn a.to_client

-- A host with no open connection in the pool.
abbrev pub Idle : String → Conns → Type 0
Idle host conns =
    (lookup host conns ≡ none)
    ⊎ ((hc : HostConn) × ((lookup host conns ≡ some hc) × (hc.closed ≡ true)))

-- What a client's host gives, and what happens to the pool.
pub data Pooled (spawn : Spawn) (host : String) (conns conns' : Conns) (r : Try HostConn)
    : Type 0 where
  -- an open connection is used again, and the pool stays as it was
  reused :
      (hc : HostConn)
      → lookup host conns ≡ some hc
      → hc.closed ≡ false
      → r ≡ ok hc
      → conns' ≡ conns
      → Pooled spawn host conns conns' r
  -- the agent says Hello: a new connection, which is open, takes the place of the host's closed one
  replaced :
      (argv : List String) (body : Bytes)
      → Idle host conns
      → AgentOf spawn host argv
      → Says spawn argv body
      → (new_conn body).closed ≡ false
      → r ≡ ok (new_conn body)
      → conns' ≡ insert host (new_conn body) conns
      → Pooled spawn host conns conns' r
  -- the daemon has no agent for its own machine: the pool stays as it was
  no_local :
      {reason : String}
      → Idle host conns
      → host ≡ "local"
      → spawn.local_agent ≡ ""
      → r ≡ err reason
      → conns' ≡ conns
      → Pooled spawn host conns conns' r
  -- the agent does not say Hello: the pool stays as it was
  kept :
      (reason : String) (argv : List String)
      → Idle host conns
      → AgentOf spawn host argv
      → ((body : Bytes) → ¬ Says spawn argv body)
      → r ≡ err reason
      → conns' ≡ conns
      → Pooled spawn host conns conns' r

opened-Pooled :
    (texts : Texts) (spawn : Spawn) (host : String) (conns : Conns) (t : Try HostConn)
    → Opened spawn host t
    → Idle host conns
    → Pooled spawn host conns (opened host conns t).1 (opened host conns t).0
unfolding opened new_conn
opened-Pooled texts spawn host conns t (no_agent reason own lacks e) idle =
    rw e (no_local idle own lacks refl refl)
opened-Pooled texts spawn host conns t (tried argv agent (greeted body says e)) idle =
    rw e (replaced argv body idle agent says refl refl refl)
opened-Pooled texts spawn host conns t (tried argv agent (silent reason mute e)) idle =
    rw e (kept reason argv idle agent mute refl refl)

pooled-Pooled :
    (texts : Texts) (spawn : Spawn) (host : String) (conns : Conns) (o : Option HostConn)
    → lookup host conns ≡ o
    → Pooled spawn host conns
        (pooled texts spawn o host conns).1
        (pooled texts spawn o host conns).0
unfolding pooled
pooled-Pooled texts spawn host conns none found =
    opened-Pooled texts spawn host conns (open_host_conn texts spawn host)
      (open_host_conn-Opened texts spawn host) (inl found)
pooled-Pooled texts spawn host conns (some hc) found = elim (Bool-cases hc.closed) [
  | inl closed ↦ simp (closed) (
      opened-Pooled texts spawn host conns (open_host_conn texts spawn host)
        (open_host_conn-Opened texts spawn host) (inr (hc, (found, closed))))
  | inr usable ↦ simp (usable) (reused hc found usable refl refl)
]

-- For every host and every pool: an open connection of the host is used again. Else, where the host's
-- agent is started and its first frame is a Hello, a new connection with that Hello, which is open,
-- takes its place in the pool, and all others stay. And where it is not, because the daemon finds no
-- agent for its own machine, or that of the host does not start or says something else or nothing, the
-- result is an error and the pool stays as it was.
pub host_conn-Pooled :
    (texts : Texts) (spawn : Spawn) (host : String) (conns : Conns)
    → Pooled spawn host conns
        (host_conn texts spawn host conns).1
        (host_conn texts spawn host conns).0
unfolding host_conn
host_conn-Pooled texts spawn host conns =
    pooled-Pooled texts spawn host conns (lookup host conns) refl
