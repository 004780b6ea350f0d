-- ===== src/Tests/Execs.antt =====
-- An exec of a command that prints one byte and exits with 3, whose frames share the connection with
-- a frame of no request.
use rsb.Prelude.{
  ℕ, String, false, ◌≡◌, refl, Bytes, [], ◌∷◌, Option, none, some, ok, err, arith, map, distinct,
}
use rsb.Prelude.Dict.{lookup}
use rsb.Prelude.Int.{pos}
use rsb.Protocol.{Message, Request, Output, zero_request, request, output, result}
use rsb.Protocol.Wire.{Frame}
use rsb.Agent.{Agent}
use rsb.Agent.Exec.{
  System, Run, exit_error, exit_of, prepare, is_cd, command_of, effective_argv, looked_up, env_map,
}
use rsb.Agent.{resolve_session, store_new}
use rsb.Agent.Exec.Answer.{Starts, dispatch_exec-answer}
use rsb.Daemon.{new_conn, Json, frame_id, bridge_frame, pump_from_agent, copied}
use rsb.Daemon.Routes.{replies}
use rsb.Daemon.Safety.{here}
use rsb.Client.Exec.{Decoders, frame, finished, normalized, exec_loop}
use rsb.Client.Exec.Outcome.{all_written, of_stream}
use rsb.Client.Exec.Whole.{encode, Among, exec_loop-dispatch_exec}
use rsb.Client.Exec.Answered.{told, exec_loop-Answers}
use rsb.Agent.Exec.{dispatch_exec, dispatch_argv}
use rsb.Agent.Exec.Replies.{Replies}
use rsb.Agent.{write_frame}
use rsb.Agent.Get.{error_for}
use rsb.Client.Call.{no_output}

abbrev ran : Run
ran = record {
  outputs = ("stdout", 104 ∷ []) ∷ [];
  wait = exit_error (pos 3) none;
  deadline = false;
  duration_ms = 1;
}

abbrev system : System
system = record {
  host = record { getwd = ok "/"; home = ok "/"; join = λ a b. b };
  stat = λ p. none;
  look_path = λ bin. ok bin;
  environ = [];
  build_argv = λ container argv. err "no docker";
  pipes = λ c. none;
  start = λ c. ok ran;
}

abbrev print : Request
print = record zero_request { id = "r1"; type = "exec"; argv = "print" ∷ [] }

abbrev agent : Agent
agent = record { sessions = []; out = [] }

abbrev owner : Bytes → String
owner [] = ""
owner (b ∷ bs) = "r1"

abbrev written : Message → Bytes
written (output o) = 1 ∷ o.payload
written m = 2 ∷ []

abbrev json : Json
json = record { probe_id = owner; marshal = written }

abbrev read_output : Bytes → Option Output
read_output [] = none
read_output (b ∷ bytes) = some (record { id = "r1"; stream = "stdout"; payload = bytes })

abbrev decoders : Decoders
decoders = record {
  as_output = read_output;
  as_result = λ body. some (record { id = "r1"; exit_code = pos 3; signal = ""; duration_ms = 1 });
  as_error = λ body. some (record { id = "r1"; reason = "argv is empty" });
  to_lower = λ s. s;
}

starts : Starts system print agent ran
unfolding prepare is_cd resolve_session store_new command_of effective_argv looked_up env_map lookup
starts = record {
  prog = "print";
  args = [];
  cmd = record { bin = "print"; args = "print" ∷ []; env = []; dir = ""; stdin_closed = false };
  is_exec = refl;
  argv = refl;
  no_cd = refl;
  prepared = refl;
  pipes = refl;
  start = refl;
}

abbrev stray : Frame
stray = record { kind = "output"; body = [] }

abbrev own_output : Message
own_output = output (record { id = "r1"; stream = "stdout"; payload = 104 ∷ [] })

abbrev own_result : Message
own_result = result (record { id = "r1"; exit_code = pos 3; signal = ""; duration_ms = 1 })

exec_loop-dispatch_exec_example :
    (ch : ℕ) × ((bridge_frame json (encode json (request print)) (new_conn [])).pump ≡ some ch)
    × (exec_loop decoders "timeout"
          (map frame (
            copied (
              replies ch
                (pump_from_agent json
                  (encode json own_output ∷ stray ∷ encode json own_result ∷ [])
                  (bridge_frame json (encode json (request print)) (new_conn [])).conn).delivered)))
          no_output
        ≡ finished (pos 3) none (record { stdout = 104 ∷ []; stderr = [] }) [])
unfolding frame_id exit_of normalized all_written of_stream new_conn
exec_loop-dispatch_exec_example =
    exec_loop-dispatch_exec json decoders "timeout" [] (new_conn []) system print agent ran
      (own_output ∷ own_result ∷ []) (encode json own_output ∷ stray ∷ encode json own_result ∷ [])
      here refl (omega arith) refl (distinct "r1" "" refl) starts
      (dispatch_exec-answer system print agent ran starts)
      (Among.own (Among.other (distinct "" "r1" refl) (Among.own Among.all)))
      (record { id = refl; body = refl }, tt) (record { id = refl; body = refl })

abbrev nothing : Request
nothing = record zero_request { id = "r1"; type = "exec" }

abbrev refusal : Message
refusal = error_for "r1" "argv is empty"

exec_loop-Answers_example :
    (ch : ℕ) × ((bridge_frame json (encode json (request nothing)) (new_conn [])).pump ≡ some ch)
    × (shape : Replies "r1" (refusal ∷ [])) × (exec_loop decoders "timeout"
          (map frame (
            copied (
              replies ch
                (pump_from_agent json
                  (stray ∷ encode json refusal ∷ [])
                  (bridge_frame json
                    (encode json (request nothing))
                    (new_conn [])).conn).delivered)))
          no_output
        ≡ told (λ s. s) shape no_output)
    × ((told (λ s. s) shape no_output).failure ≡ none)
unfolding frame_id new_conn dispatch_exec dispatch_argv write_frame
exec_loop-Answers_example =
    exec_loop-Answers json decoders "timeout" [] (new_conn []) system nothing agent (refusal ∷ [])
      (stray ∷ encode json refusal ∷ []) here refl (omega arith) refl (distinct "r1" "" refl) refl
      (Among.other (distinct "" "r1" refl) (Among.own Among.all))
      (record { id = refl; body = refl }, tt)
