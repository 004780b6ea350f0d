-- ===== src/Tests/Clients.antt =====
-- A client's exec, where the bodies are tagged bytes.
use rsb.Prelude.{ℕ, ◌≡◌, refl, Bytes, List, [], ◌∷◌, Option, none, some, eqb, if◌then◌else◌}
use rsb.Prelude.Int.{pos, negsuc}
use rsb.Protocol.{Output, Result, kind_output, kind_result}
use rsb.Protocol.Wire.{Frame}
use rsb.Client.Exec.{Decoders, frame, silence, Streams, finished, normalized, exec_loop, put_output}
use rsb.Client.Exec.Outcome.{sent}

abbrev out : Bytes → Output
out payload = record { id = "r"; stream = "stdout"; payload = payload }

abbrev warn : Bytes → Output
warn payload = record { id = "r"; stream = "stderr"; payload = payload }

abbrev decode_output : Bytes → Option Output
decode_output [] = none
decode_output (tag ∷ payload) =
    if eqb tag 1 then some (out payload) else if eqb tag 2 then some (warn payload) else none

abbrev killed : Result
killed = record { id = "r"; exit_code = negsuc 0; signal = "TIMEOUT"; duration_ms = 9 }

abbrev decoders : Decoders
decoders = record {
  as_output = decode_output;
  as_result = λ body. some killed;
  as_error = λ body. none;
  to_lower = λ s. s;
}

abbrev output_of : ℕ → Bytes → Frame
output_of tag payload = record { kind = kind_output; body = tag ∷ payload }

abbrev messages : List (Frame × Output)
messages =
    (output_of 1 (65 ∷ []), out (65 ∷ []))
    ∷ (output_of 2 (66 ∷ []), warn (66 ∷ []))
    ∷ (output_of 1 (67 ∷ []), out (67 ∷ []))
    ∷ []

abbrev the_result : Frame
the_result = record { kind = kind_result; body = [] }

abbrev nothing : Streams
nothing = record { stdout = []; stderr = [] }

-- Output goes to its streams, and a timeout's exit code is 124.
exec_outputs :
    exec_loop decoders "no response" (sent messages (frame the_result ∷ silence ∷ [])) nothing
    ≡ finished (pos 124) none (record { stdout = 65 ∷ 67 ∷ []; stderr = 66 ∷ [] }) []
unfolding exec_loop sent put_output normalized
exec_outputs = refl
