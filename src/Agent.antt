-- ===== src/Agent.antt =====
-- The state of cmd/rsb-agent (struct `agent` of main.go), its session table, and the resolution of
-- paths against a session (main.go, files.go). A mutable session that the source reaches by a
-- pointer is the entry of the table here: a session without an id is never stored, so it is fresh
-- for each request. What the operating system answers is the record `Host`.
pub mod Get
pub mod Put
pub mod Exec
pub mod Stdin
pub mod Run
use rsb.Prelude.{
  String, Bool, true, false, not, ◌||◌, List, [], ◌∷◌, ◌++◌, ◌⧺◌, Option, none, some, Try, ok, err,
  ◌==◌, if◌then◌else◌,
}
use rsb.Prelude.Dict.{Dict, lookup, insert}
use rsb.Protocol.{Message, Request, error}
use text.Mathlib.Text.{starts_with}

pub record Session : Type 0 where
  pub cwd : String
  pub env : Dict String

abbrev pub empty_session : Session
empty_session = record { cwd = ""; env = [] }

-- The frames written to stdout so far stand in `out`; a frame that cannot be written is only
-- logged, so the handlers do not depend on it.
pub record Agent : Type 0 where
  pub sessions : Dict Session
  pub out : List Message

unfoldable pub write_frame : Message → Agent → Agent
write_frame m a = record a { out = a.out ++ m ∷ [] }

-- What the agent asks of its host about paths: os.Getwd, os.UserHomeDir, and filepath.Join of two
-- elements.
pub record Host : Type 0 where
  pub getwd : Try String
  pub home : Try String
  pub join : String → String → String

unfoldable pub or_empty : Option Session → Session
or_empty none = empty_session
or_empty (some s) = s

-- `if !ok`, then `if req.Session != ""`
unfoldable pub store_new : Option Session → String → Agent → Agent
store_new (some s) name a = a
store_new none name a =
    if name == "" then a else record a { sessions = insert name empty_session a.sessions }

-- resolveSession: the session of the request, and the agent with that session in its table.
unfoldable pub resolve_session : Request → Agent → Session × Agent
unfolding store_new or_empty
resolve_session req a =
    let found = lookup req.session a.sessions in (or_empty found, store_new found req.session a)

-- The range loop over a map, `m[k] = v` for each pair.
unfoldable pub insert_all : Dict String → Dict String → Dict String
insert_all [] m = m
insert_all ((k, v) ∷ rest) m = insert_all rest (insert k v m)

unfoldable pub persisted : Option Session → Request → String → Agent → Agent
unfolding insert_all
persisted none req effective_cwd a = a
persisted (some s) req effective_cwd a =
    let s' : Session = record {
      cwd = if not (req.cwd == "") then effective_cwd else s.cwd;
      env = insert_all req.env s.env;
    } in
    record a { sessions = insert req.session s' a.sessions }

-- persistSession
unfoldable pub persist_session : Request → String → Agent → Agent
unfolding persisted
persist_session req effective_cwd a =
    if req.session == "" then a else persisted (lookup req.session a.sessions) req effective_cwd a

-- The test `== ""` followed by a fallback.
abbrev pub or_else : String → String → String
or_else s t = if s == "" then t else s

-- target[1:], of a text that is known not to be empty
abbrev pub rest_of : String → String
rest_of String.[] = ""
rest_of (String.◌∷◌ c s) = s

-- resolveCwd; "" is the failure
expand_home : Try String → String → String
expand_home (err _) target = ""
expand_home (ok home) target =
    if home == "" then "" else if target == "~" then home else home ⧺ rest_of target

under_cwd : Try String → String → String
under_cwd (err _) target = ""
under_cwd (ok cur) target = cur ⧺ ("/" ⧺ target)

unfoldable pub resolve_cwd : Host → String → String → String
unfolding expand_home under_cwd
resolve_cwd host target cur_cwd =
    if target == ""
    then ""
    else if target == "~" || starts_with target "~/"
    then expand_home host.home target
    else if starts_with target "/"
    then target
    else under_cwd (if cur_cwd == "" then host.getwd else ok cur_cwd) target

joined : Host → Try String → String → Try String
joined host (err e) p = err e
joined host (ok base) p = ok (host.join base p)

-- resolvePath, from the session's directory on
unfoldable pub resolve_in : Host → String → Request → Try String
unfolding joined
resolve_in host session_cwd req =
    let base = or_else req.cwd session_cwd in
    if req.path == ""
    then err "empty path"
    else if starts_with req.path "/"
    then ok req.path
    else joined host (if base == "" then host.getwd else ok base) req.path

-- resolvePath
unfoldable pub resolve_path : Host → Request → Agent → Try String × Agent
unfolding resolve_session resolve_in
resolve_path host req a =
    let (sess, a') = resolve_session req a in (resolve_in host sess.cwd req, a')
