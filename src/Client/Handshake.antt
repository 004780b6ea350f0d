-- ===== src/Client/Handshake.antt =====
-- consumeHandshake of internal/client/client.go, against handshake and serveClient of the daemon.
pub mod Unreached
use rsb.Prelude.{
  String, false, not, ◌≡◌, ◌≢◌, refl, ap, Bytes, List, [], ◌∷◌, ◌⧺◌, Option, none, some, Try, ok,
  err, arith, Bool-cases, inl, inr, ◌==◌, eq_iff, if◌then◌else◌, length, ◌<◌, lt→ltb,
}
use rsb.Protocol.{Error, error, kind_error}
use rsb.Protocol.Wire.{Frame}
use rsb.Daemon.{HostConn, Json, error_frame}
use rsb.Daemon.Spawn.{Texts, Spawn}
use rsb.Daemon.Pool.{
  Conns, Attached, host_conn, attach, attached, refused, replayed, handshake, serve_client,
}

rejected : Option Error → String
rejected none = "daemon rejected connection"
rejected (some e) = if not (e.reason == "") then e.reason else "daemon rejected connection"

-- The error, if there is one, after the first frame; `as_error` decodes the body of an Error.
unfoldable pub consume_handshake : (Bytes → Option Error) → Try Frame → Option String
unfolding rejected
consume_handshake as_error (err e) = some ("connect to daemon: " ⧺ e)
consume_handshake as_error (ok f) =
    if f.kind == kind_error then some (rejected (as_error f.body)) else none

-- The first of the frames that the daemon writes before it closes or bridges the connection.
unfoldable pub first_of : List Frame → Try Frame
first_of [] = err "EOF"
first_of (f ∷ fs) = ok f

-- What a handshake leaves: nothing is sent before a failure, and a Hello, if there is one, after a
-- success.
pub record Orderly (a : Attached) : Type 0 where
  pub failed : (reason : String) → a.conn ≡ err reason → a.to_client ≡ []
  pub made : (hc : HostConn) → a.conn ≡ ok hc → a.to_client ≡ replayed hc

refused-Orderly : (reason : String) (conns : Conns) → Orderly (refused reason conns)
unfolding refused
refused-Orderly reason conns = record { failed = λ r h. refl; made = λ hc h. absurd (cc h) }

attached-Orderly : (r : Try HostConn × Conns) → Orderly (attached r)
unfolding attached
attached-Orderly (err reason, conns) = refused-Orderly reason conns
attached-Orderly (ok hc, conns) = record {
  failed = λ r h. absurd (cc h);
  made = λ hc' h. let same : hc ≡ hc' = cc h in ap replayed same;
}

module _ (texts : Texts) (spawn : Spawn) (attach_host : Bytes → Try String) where
  attach-Orderly :
      (host : Try String) (conns : Conns) → Orderly (attach texts spawn attach_host host conns)
  unfolding attach
  attach-Orderly (err reason) conns = refused-Orderly reason conns
  attach-Orderly (ok host) conns = elim (Bool-cases (host == "")) [
    | inl e ↦ rw e (refused-Orderly "attach: empty host" conns)
    | inr e ↦ rw e (attached-Orderly (host_conn texts spawn host conns))
  ]

  handshake-Orderly :
      (f : Try Frame) (conns : Conns) → Orderly (handshake texts spawn attach_host f conns)
  unfolding handshake
  handshake-Orderly (err reason) conns = refused-Orderly reason conns
  handshake-Orderly (ok f) conns = elim (Bool-cases (f.kind == "attach")) [
    | inl e ↦ simp (e) (attach-Orderly (attach_host f.body) conns)
    | inr e ↦ simp (e) (refused-Orderly ("expected attach frame, got " ⧺ f.kind) conns)
  ]

serve_client-refused :
    (json : Json) (as_error : Bytes → Option Error) (a : Attached) (reason : String)
    → Orderly a
    → a.conn ≡ err reason
    → reason ≢ ""
    → as_error (json.marshal (error (record { id = ""; reason = reason })))
      ≡ some (record { id = ""; reason = reason })
    → consume_handshake as_error (first_of (serve_client json a)) ≡ some reason
unfolding consume_handshake first_of serve_client error_frame
serve_client-refused json as_error a reason v refusal ne decodes =
    let differ : (reason == "") ≡ false = ground (arith, eq_iff reason "", ne) in
    simp (refusal, v.failed reason refusal, decodes, differ) refl

serve_client-made :
    (json : Json) (as_error : Bytes → Option Error) (a : Attached) (hc : HostConn)
    → Orderly a
    → a.conn ≡ ok hc
    → 0 < length hc.hello_json
    → consume_handshake as_error (first_of (serve_client json a)) ≡ none
unfolding consume_handshake first_of serve_client replayed
serve_client-made json as_error a hc v success hello =
    simp (success, v.made hc success, lt→ltb 0 (length hc.hello_json) hello) refl

-- A handshake that the daemon refuses with a reason that is not empty, and whose Error frame decodes,
-- gives the client exactly that reason as its error.
pub consume_handshake_refused :
    (texts : Texts) (spawn : Spawn) (attach_host : Bytes → Try String) (json : Json)
    (as_error : Bytes → Option Error) (f : Try Frame) (conns : Conns) (reason : String)
    → (handshake texts spawn attach_host f conns).conn ≡ err reason
    → reason ≢ ""
    → as_error (json.marshal (error (record { id = ""; reason = reason })))
      ≡ some (record { id = ""; reason = reason })
    → consume_handshake as_error
        (first_of (serve_client json (handshake texts spawn attach_host f conns)))
      ≡ some reason
consume_handshake_refused texts spawn attach_host json as_error f conns reason =
    serve_client-refused json as_error (handshake texts spawn attach_host f conns) reason
      (handshake-Orderly texts spawn attach_host f conns)

-- A handshake that leads to a connection with a cached Hello gives the client no error.
pub consume_handshake_made :
    (texts : Texts) (spawn : Spawn) (attach_host : Bytes → Try String) (json : Json)
    (as_error : Bytes → Option Error) (f : Try Frame) (conns : Conns) (hc : HostConn)
    → (handshake texts spawn attach_host f conns).conn ≡ ok hc
    → 0 < length hc.hello_json
    → consume_handshake as_error
        (first_of (serve_client json (handshake texts spawn attach_host f conns)))
      ≡ none
consume_handshake_made texts spawn attach_host json as_error f conns hc =
    serve_client-made json as_error (handshake texts spawn attach_host f conns) hc
      (handshake-Orderly texts spawn attach_host f conns)
