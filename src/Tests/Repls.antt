-- ===== src/Tests/Repls.antt =====
-- A repl over a few lines, where a body is tagged bytes.
use rsb.Prelude.{String, ◌≡◌, refl, Bytes, List, [], ◌∷◌, Option, none, some, ok}
use rsb.Prelude.Int.{pos}
use rsb.Protocol.{Output, kind_output, kind_result}
use rsb.Protocol.Wire.{Frame}
use rsb.Client.Exec.{Decoders}
use rsb.Client.Repl.{Context, Setting, meta_of, context_after, parse_argv, exec_of, repl}

abbrev printed : Bytes → Option Output
printed body = some (record { id = "r"; stream = "stdout"; payload = body })

abbrev decoders : Decoders
decoders = record {
  as_output = printed;
  as_result = λ body. some (record { id = "r"; exit_code = pos 2; signal = ""; duration_ms = 1 });
  as_error = λ body. none;
  to_lower = λ s. s;
}

abbrev setting : Setting
setting = record {
  host = "web";
  decode = decoders;
  closed = "EOF";
  as_argv = λ s. ok ("ls" ∷ s ∷ []);
  trim = λ s. s;
  id = λ n. "r";
  send_fault = λ n. none;
}

abbrev lines : List String
lines = "pwd" ∷ ":container api" ∷ "" ∷ "[1]" ∷ ":quit" ∷ "pwd" ∷ []

abbrev out_frame : Bytes → Frame
out_frame body = record { kind = kind_output; body = body }

abbrev the_result : Frame
the_result = record { kind = kind_result; body = [] }

abbrev in_api : Context
in_api = record { session = "s"; container = "api" }

requests_sent :
    (repl setting "s" lines (out_frame (65 ∷ []) ∷ the_result ∷ [])).0.sent
    ≡ exec_of "r" (record { session = "s"; container = "" }) ("sh" ∷ "-c" ∷ "pwd" ∷ [])
      ∷ exec_of "r" in_api ("ls" ∷ "[1]" ∷ [])
      ∷ []
unfolding repl meta_of context_after parse_argv
requests_sent = refl
