-- ===== src/Client/Handshake/Unreached.antt =====
-- A host that cannot be reached over ssh, from openHostConn in the daemon to consumeHandshake in the
-- client.
use text.Mathlib.TextLemmas.{append_assoc as text_assoc, append-ne-nil_of_right_ne-nil}
use rsb.Prelude.{
  Bool, contains, String, true, false, ◌≡◌, ◌≢◌, refl, sym, ap, ◌∙◌, Bytes, List, [], ◌∷◌, ◌⧺◌,
  Option, none, some, Try, ok, err, arith, Bool-cases, inl, inr, ◌==◌, ◌||◌, ◌⊎◌, eq_iff,
}
use rsb.Prelude.Dict.{lookup}
use rsb.Prelude.Int.{pos}
use rsb.Protocol.{Error, Request, error}
use rsb.Protocol.Wire.{Frame}
use rsb.Daemon.{HostConn, Json}
use rsb.Daemon.Spawn.{
  Texts, Spawn, denied, handshake_error, read_hello, said_hello, after_start, after_pipes,
  open_host_conn,
}
use rsb.Daemon.Pool.{
  Conns, Idle, pooled, host_conn, opened, attach, attached, refused, handshake, serve_client,
}
use rsb.Client.Exec.{Decoders}
use rsb.Client.Call.{Call, exec}
use rsb.Client.Handshake.{consume_handshake, first_of, consume_handshake_refused}

-- `s` ends in `detail`, whole.
abbrev pub EndsIn : String → String → Type 0
EndsIn detail s = (front : String) × (s ≡ front ⧺ detail)

ends_self : (front detail : String) → EndsIn detail (front ⧺ detail)
ends_self front detail = (front, refl)

ends_later : (front detail s : String) → EndsIn detail s → EndsIn detail (front ⧺ s)
ends_later front detail s (middle, e) =
    (front ⧺ middle, rw e (sym (text_assoc front middle detail)))

-- A message of the shape that most of them have.
ends_behind :
    (front host middle detail : String) → EndsIn detail (front ⧺ (host ⧺ (middle ⧺ detail)))
ends_behind front host middle detail =
    ends_later front detail (host ⧺ (middle ⧺ detail))
      (ends_later host detail (middle ⧺ detail) (ends_self middle detail))

-- What ssh wrote stands whole at the end of the message, on every branch of handshakeError.
handshake_error-detail :
    (texts : Texts) (host e stderr : String)
    → texts.trim stderr ≢ ""
    → EndsIn (texts.trim stderr) (handshake_error texts host e stderr)
unfolding handshake_error
handshake_error-detail texts host e stderr some_detail =
    let low = texts.to_lower stderr in
    let detail = texts.trim stderr in
    let told : (detail == "") ≡ false = ground (arith, eq_iff detail "", some_detail) in
    elim (Bool-cases (denied low)) [
      | inl yes_denied ↦ rw yes_denied (
          ends_later "SSH authentication failed for " detail _ (
            ends_later host detail _ (
              ends_later
                "\nrsb daemon runs ssh non-interactively and cannot prompt for a password.\n" detail
                _
                (ends_behind "fix: configure an SSH key (ssh-copy-id " host
                  ") or use ssh-agent\ndetail: " detail))))
      | inr not_denied ↦ elim (Bool-cases (contains low "connection refused")) [
        | inl closed ↦
            rw (not_denied, closed)
              (ends_behind "connection refused to " host
                " (SSH not running or wrong port?)\ndetail: " detail)
        | inr not_closed ↦
            elim (Bool-cases (contains low "could not resolve" || contains low "no such host")) [
              | inl unknown ↦
                  rw (not_denied, not_closed, unknown)
                    (ends_behind "cannot resolve host " host "\ndetail: " detail)
              | inr known ↦
                  rw (not_denied, not_closed, known, told)
                    (ends_behind "agent handshake failed for " host "\n" detail)
            ]
      ]
    ]

abbrev pub ssh_line : String → List String
ssh_line host = "ssh" ∷ host ∷ ".rsb/rsb-agent" ∷ []

module _ (texts : Texts) (spawn : Spawn) where
  -- An agent that was started and says no Hello.
  pub record Silent (host e : String) : Type 0 where
    pub away : host ≢ "local"
    pub piped : spawn.pipes (ssh_line host) ≡ none
    pub started : spawn.start (ssh_line host) ≡ none
    pub silent : read_hello (spawn.first_frame (ssh_line host)) ≡ err e

  open_host_conn-Silent :
      (host e : String)
      → Silent host e
      → open_host_conn texts spawn host
        ≡ err (handshake_error texts host e (spawn.stderr (ssh_line host)))
  unfolding open_host_conn after_pipes after_start said_hello
  open_host_conn-Silent host e h =
      let remote : (host == "local") ≡ false = ground (arith, eq_iff host "local", h.away) in
      rw (remote, h.piped, h.started, h.silent) refl

  pooled-Silent :
      (host e : String) (conns : Conns) (o : Option HostConn)
      → Silent host e
      → ((o ≡ none) ⊎ ((hc : HostConn) × ((o ≡ some hc) × (hc.closed ≡ true))))
      → pooled texts spawn o host conns
        ≡ (err (handshake_error texts host e (spawn.stderr (ssh_line host))), conns)
  unfolding pooled opened
  pooled-Silent host e conns o h (inl absent) = rw (absent, open_host_conn-Silent host e h) refl
  pooled-Silent host e conns o h (inr (hc, (found, closed))) =
      rw (found, closed, open_host_conn-Silent host e h) refl

  module _ (attach_host : Bytes → Try String) where
    handshake-Silent :
        (f : Frame) (host e : String) (conns : Conns)
        → f.kind ≡ "attach"
        → attach_host f.body ≡ ok host
        → host ≢ ""
        → Idle host conns
        → Silent host e
        → let a = handshake texts spawn attach_host (ok f) conns in
          (a.conn ≡ err (handshake_error texts host e (spawn.stderr (ssh_line host))))
          × (a.conns ≡ conns)
    unfolding handshake attach attached refused host_conn
    handshake-Silent f host e conns attaches names some_host idle h =
        let is_attach : (f.kind == "attach") ≡ true =
          ground (arith, eq_iff f.kind "attach", attaches) in
        let named : (host == "") ≡ false = ground (arith, eq_iff host "", some_host) in
        let failed = pooled-Silent host e conns (lookup host conns) h idle in
        simp (is_attach, names, named, failed) (refl, refl)

    handshake-ssh_detail :
        (json : Json) (as_error : Bytes → Option Error) (f : Frame) (host e : String)
        (conns : Conns)
        → f.kind ≡ "attach"
        → attach_host f.body ≡ ok host
        → host ≢ ""
        → Idle host conns
        → Silent host e
        → texts.trim (spawn.stderr (ssh_line host)) ≢ ""
        → (reason : String) → handshake_error texts host e (spawn.stderr (ssh_line host)) ≡ reason
        → as_error (json.marshal (error (record { id = ""; reason = reason })))
          ≡ some (record { id = ""; reason = reason })
        → let a = handshake texts spawn attach_host (ok f) conns in
          (consume_handshake as_error (first_of (serve_client json a)) ≡ some reason)
          × EndsIn (texts.trim (spawn.stderr (ssh_line host))) reason
          × (a.conns ≡ conns)
    handshake-ssh_detail json as_error f host e conns attaches names some_host idle h wrote reason
          message decodes =
        let (failed, kept) = handshake-Silent f host e conns attaches names some_host idle h in
        let ends : EndsIn (texts.trim (spawn.stderr (ssh_line host))) reason =
          rw (← message)
            (handshake_error-detail texts host e (spawn.stderr (ssh_line host)) wrote) in
        let told : reason ≢ "" =
          λ (same : reason ≡ ""). append-ne-nil_of_right_ne-nil ends.0 wrote (sym ends.1 ∙ same) in
        (
          consume_handshake_refused texts spawn attach_host json as_error (ok f) conns reason
              (failed ∙ ap err message) told decodes,
          ends,
          kept,
        )

    -- An exec on a host with no open connection, whose agent is started over ssh and says no Hello:
    -- where the daemon is reached and its Error frame decodes, Exec ends with 1 and handshakeError's
    -- message, which ends in what ssh wrote to stderr, trimmed and whole, if that is not empty; and the
    -- daemon's pool stays as it was.
    pub exec-ssh_detail :
        (d : Decoders) (wait : String) (call : Call) (use_stdin : Bool) (req : Request)
        (json : Json) (f : Frame) (host e : String) (conns : Conns)
        → f.kind ≡ "attach"
        → attach_host f.body ≡ ok host
        → host ≢ ""
        → Idle host conns
        → Silent host e
        → texts.trim (spawn.stderr (ssh_line host)) ≢ ""
        → (reason : String) → handshake_error texts host e (spawn.stderr (ssh_line host)) ≡ reason
        → d.as_error (json.marshal (error (record { id = ""; reason = reason })))
          ≡ some (record { id = ""; reason = reason })
        → call.dialled ≡ none
        → call.attach_fault ≡ none
        → call.first_frame
          ≡ first_of (serve_client json (handshake texts spawn attach_host (ok f) conns))
        → let ended = exec d wait call use_stdin req in
          (ended.failure ≡ some reason)
          × (ended.exit_code ≡ pos 1)
          × EndsIn (texts.trim (spawn.stderr (ssh_line host))) reason
          × ((handshake texts spawn attach_host (ok f) conns).conns ≡ conns)
    unfolding exec
    exec-ssh_detail d wait call use_stdin req json f host e conns attaches names some_host idle h
          wrote reason message decodes dials writes first =
        let (told, ends, kept) =
          handshake-ssh_detail json d.as_error f host e conns attaches names some_host idle h wrote
            reason message decodes in
        (rw (dials, writes, first, told) refl, rw (dials, writes, first, told) refl, ends, kept)
