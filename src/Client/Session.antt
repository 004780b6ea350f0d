-- ===== src/Client/Session.antt =====
-- NewSession of internal/client/files.go: the daemon is dialled, the connection attached to a host, and
-- the first frame that comes back is read. `as_error` decodes the body of an Error frame.
use rsb.Prelude.{
  String, false, ◌≡◌, ◌≢◌, refl, Bytes, ◌⧺◌, Option, none, some, Try, ok, err, arith, Bool-cases,
  inl, inr, ◌==◌, eq_iff, if◌then◌else◌,
}
use rsb.Protocol.{Error, kind_error}
use rsb.Protocol.Wire.{Frame}
use rsb.Client.Handshake.{consume_handshake}

-- The reason of an Error, which stays empty where the body does not decode.
reason_of : Option Error → String
reason_of none = ""
reason_of (some e) = e.reason

module _ {ℓ} {C : Type ℓ} (as_error : Bytes → Option Error) where
  greeted : C → Try Frame → Try C
  unfolding reason_of
  greeted conn (err e) = err ("connect to daemon: " ⧺ e)
  greeted conn (ok f) = if f.kind == kind_error then err (reason_of (as_error f.body)) else ok conn

  attached : C → Option String → Try Frame → Try C
  unfolding greeted
  attached conn (some e) first_frame = err e
  attached conn none first_frame = greeted conn first_frame

  -- `dialled` is dialOrStart's result, `attach_fault` the error of the attach frame's write.
  unfoldable pub new_session : Try C → Option String → Try Frame → Try C
  unfolding attached
  new_session (err e) attach_fault first_frame = err e
  new_session (ok conn) attach_fault first_frame = attached conn attach_fault first_frame

  abbrev pub failure_of : Try C → Option String
  failure_of (ok conn) = none
  failure_of (err e) = some e

  -- On a connection that is attached, NewSession fails exactly where consumeHandshake of an exec does,
  -- and with the same error, if an Error frame that comes has a reason.
  pub new_session-consume_handshake :
      (conn : C) (first_frame : Try Frame)
      → ((f : Frame)
          → first_frame ≡ ok f
          → f.kind ≡ kind_error
          → (e : Error) × (as_error f.body ≡ some e) × (e.reason ≢ ""))
      → failure_of (new_session (ok conn) none first_frame) ≡ consume_handshake as_error first_frame
  unfolding new_session consume_handshake
  new_session-consume_handshake conn (err e) told = refl
  new_session-consume_handshake conn (ok f) told = elim (Bool-cases (f.kind == kind_error)) [
    | inl is ↦
        let (e, decodes, says) = told f refl ((eq_iff f.kind kind_error).0 is) in
        let differ : (e.reason == "") ≡ false = ground (arith, eq_iff e.reason "", says) in
        simp (is, decodes, differ) refl
    | inr isnt ↦ simp (isnt) refl
  ]
