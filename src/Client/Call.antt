-- ===== src/Client/Call.antt =====
-- Exec of internal/client/client.go as a whole, from dialOrStart to what the loop over the frames
-- returns. The pump of stdin runs beside the loop, in Client.Stdin.
use rsb.Prelude.{
  String, Bool, not, Bytes, List, [], ◌∷◌, ◌⧺◌, Option, none, some, Try, ok, err, ◌==◌,
  if◌then◌else◌,
}
use rsb.Prelude.Int.{pos}
use rsb.Protocol.{Error, Request, kind_error}
use rsb.Protocol.Wire.{Frame}
use rsb.Client.Exec.{Decoders, Arrival, Finished, Streams, finished, exec_loop}
use rsb.Client.Handshake.{consume_handshake}

abbrev pub no_output : Streams
no_output = record { stdout = []; stderr = [] }

-- What the parts of a call lead to: dialOrStart's error, that of the attach frame's write, the first
-- frame, the error of the request's write, and what arrives behind it.
pub record Call : Type 0 where
  pub dialled : Option String
  pub attach_fault : Option String
  pub first_frame : Try Frame
  pub send_fault : Request → Option String
  pub arrivals : Request → List Arrival

-- What consumeHandshake prints on stderr.
notice_of : Option Error → List String
notice_of none = []
notice_of (some e) = if e.reason == "" then [] else ("rsb: " ⧺ e.reason) ∷ []

handshake_notices : (Bytes → Option Error) → Try Frame → List String
unfolding notice_of
handshake_notices as_error (err e) = []
handshake_notices as_error (ok f) = if f.kind == kind_error then notice_of (as_error f.body) else []

module _ (d : Decoders) (wait : String) (call : Call) where
  after_send : Request → Option String → Finished
  after_send req (some e) = finished (pos 0) (some ("send request: " ⧺ e)) no_output []
  after_send req none = exec_loop d wait (call.arrivals req) no_output

  -- The request says whether stdin will come.
  send_request : Bool → Request → Finished
  unfolding after_send
  send_request use_stdin req =
      let req' = record req { stdin_closed = not use_stdin } in
      after_send req' (call.send_fault req')

  after_handshake : Bool → Request → Option String → Finished
  unfolding send_request handshake_notices
  after_handshake use_stdin req (some e) =
      finished (pos 1) (some e) no_output (handshake_notices d.as_error call.first_frame)
  after_handshake use_stdin req none = send_request use_stdin req

  after_attach : Bool → Request → Option String → Finished
  unfolding after_handshake
  after_attach use_stdin req (some e) = finished (pos 0) (some e) no_output []
  after_attach use_stdin req none =
      after_handshake use_stdin req (consume_handshake d.as_error call.first_frame)

  after_dial : Bool → Request → Option String → Finished
  unfolding after_attach
  after_dial use_stdin req (some e) = finished (pos 0) (some e) no_output []
  after_dial use_stdin req none = after_attach use_stdin req call.attach_fault

  unfoldable pub exec : Bool → Request → Finished
  unfolding after_dial
  exec use_stdin req = after_dial use_stdin req call.dialled
