-- ===== src/Tests/Connections.antt =====
-- A daemon's connection with two requests, where a body is its own id's first byte.
use rsb.Prelude.{
  Option, length, ℕ, String, true, false, ◌≡◌, refl, inr, none, Bytes, List, [], ◌∷◌, some, Try, ok,
  err, arith, eqb, if◌then◌else◌,
}
use rsb.Prelude.Dict.{lookup}
use rsb.Protocol.{Error, kind_request, kind_result, kind_output, kind_hello}
use rsb.Protocol.Wire.{Frame}
use rsb.Daemon.{
  route_reply, fail_all, close, HostConn, Json, new_conn, frame_id, is_terminal, pump_from_agent,
  bridge_frame, copied,
}
use rsb.Daemon.Routes.{replies}
use rsb.Daemon.Replies.{view}
use rsb.Daemon.Safety.{Step, Steps, here, next}
use rsb.Daemon.Once.{Once, Steps-Once}
use rsb.Daemon.Bridge.{bridge_frame-view}
use rsb.Daemon.Late.{bridge_frame-fail_all}
use rsb.Daemon.Pool.{
  Conns, host_conn, Pooled, host_conn-Pooled, handshake, attach, attached, refused, pooled, opened,
  serve_client,
}
use rsb.Daemon.Spawn.{Texts, Spawn, open_host_conn, read_hello, said_hello, handshake_error, denied}
use rsb.Client.Handshake.{first_of}
use rsb.Client.Exec.{Decoders}
use rsb.Client.Call.{Call, exec}
use rsb.Prelude.Int.{pos}
use rsb.Protocol.{zero_request}
use rsb.Client.Handshake.Unreached.{EndsIn, exec-ssh_detail}

abbrev first_byte : Bytes → String
first_byte [] = ""
first_byte (b ∷ bs) = if eqb b 1 then "a" else if eqb b 2 then "b" else ""

abbrev json : Json
json = record { probe_id = first_byte; marshal = λ m. [] }

abbrev request_of : ℕ → Frame
request_of n = record { kind = kind_request; body = n ∷ [] }

abbrev output_of : ℕ → Frame
output_of n = record { kind = kind_output; body = n ∷ 7 ∷ [] }

abbrev result_of : ℕ → Frame
result_of n = record { kind = kind_result; body = n ∷ [] }

abbrev from_agent : List Frame
from_agent = output_of 2 ∷ output_of 1 ∷ result_of 2 ∷ output_of 1 ∷ []

abbrev conn : HostConn
conn = record {
  hello_json = 9 ∷ [];
  routes = ("a", 0) ∷ ("b", 1) ∷ [];
  next_ch = 2;
  delivered = [];
  client_in = [];
  closed = false;
}

after_one :
    Steps json (new_conn (9 ∷ [])) (bridge_frame json (request_of 1) (new_conn (9 ∷ []))).conn
after_one = next here (Step.client (request_of 1) refl)

-- Its Result comes.
abbrev answered_one : HostConn
answered_one =
    route_reply json (result_of 1) (bridge_frame json (request_of 1) (new_conn (9 ∷ []))).conn

Steps-Once_example : Once 0 answered_one
Steps-Once_example =
    Steps-Once json (9 ∷ []) 0 answered_one (next after_one (Step.agent (result_of 1) refl))

bridge_frame-view_example :
    (ch : ℕ) × (((bridge_frame json (request_of 2) (new_conn (9 ∷ []))).pump ≡ some ch)
      × (copied (
            replies ch
              (pump_from_agent json from_agent
                (bridge_frame json (request_of 2) (new_conn (9 ∷ []))).conn).delivered)
          ≡ output_of 2 ∷ result_of 2 ∷ []))
unfolding new_conn view frame_id is_terminal
bridge_frame-view_example =
    bridge_frame-view json (9 ∷ []) (new_conn (9 ∷ [])) (request_of 2) from_agent here refl
      (omega arith) refl (λ h. absurd (cc h))

abbrev texts : Texts
texts = record { to_lower = λ s. s; trim = λ s. s }

-- Here the agent says Hello; over ssh the connection ends.
abbrev first_frame : List String → Try Frame
first_frame (_ ∷ []) = ok (record { kind = kind_hello; body = 9 ∷ [] })
first_frame _ = err "EOF"

abbrev spawn : Spawn
spawn = record {
  local_agent = "/opt/rsb-agent";
  pipes = λ argv. none;
  start = λ argv. none;
  first_frame = first_frame;
  stderr = λ argv. "publickey";
}

abbrev conns : Conns
conns = ("web", conn) ∷ ("db", record conn { closed = true }) ∷ []

host_conn-Pooled_example :
    Pooled spawn "db" conns
      (host_conn texts spawn "db" conns).1
      (host_conn texts spawn "db" conns).0
host_conn-Pooled_example = host_conn-Pooled texts spawn "db" conns

abbrev attach_to : Bytes → Try String
attach_to body = if eqb (length body) 1 then ok "web" else ok "db"

abbrev attach_frame : Bytes → Frame
attach_frame body = record { kind = "attach"; body = body }

abbrev denied_reason : String
denied_reason =
    "SSH authentication failed for db\nrsb daemon runs ssh non-interactively and cannot prompt for a password.\nfix: configure an SSH key (ssh-copy-id db) or use ssh-agent\ndetail: publickey"

abbrev error_body : Bytes → Option Error
error_body body = some (record { id = ""; reason = denied_reason })

abbrev decode : Decoders
decode = record {
  as_output = λ body. none;
  as_result = λ body. none;
  as_error = error_body;
  to_lower = λ s. s;
}

-- An exec on "db".
abbrev call : Call
call = record {
  dialled = none;
  attach_fault = none;
  first_frame =
      first_of (serve_client json (handshake texts spawn attach_to (ok (attach_frame [])) conns));
  send_fault = λ req. none;
  arrivals = λ req. [];
}

exec-ssh_detail_example :
    let ended = exec decode "timeout" call false zero_request in
    (ended.failure ≡ some denied_reason)
    × (ended.exit_code ≡ pos 1)
    × EndsIn "publickey" denied_reason
    × ((handshake texts spawn attach_to (ok (attach_frame [])) conns).conns ≡ conns)
unfolding lookup handshake_error denied read_hello
exec-ssh_detail_example =
    exec-ssh_detail texts spawn attach_to decode "timeout" call false zero_request json
      (attach_frame []) "db" "EOF" conns refl refl (λ h. absurd (cc h))
      (inr (record conn { closed = true }, (refl, refl)))
      (record { away = λ h. absurd (cc h); piped = refl; started = refl; silent = refl })
      (λ h. absurd (cc h)) denied_reason refl refl refl refl refl

attach_made : (handshake texts spawn attach_to (ok (attach_frame (1 ∷ []))) conns).conn ≡ ok conn
unfolding handshake attach attached refused host_conn pooled opened open_host_conn read_hello
    said_hello lookup
attach_made = refl

bridge_frame-fail_all_example :
    (ch : ℕ) × (((bridge_frame json (request_of 1) (fail_all json "gone" (new_conn (9 ∷ [])))).pump
        ≡ some ch)
      × (replies ch
            (close
              (bridge_frame json
                (request_of 1)
                (fail_all json "gone" (new_conn (9 ∷ [])))).conn).delivered
          ≡ []))
unfolding new_conn
bridge_frame-fail_all_example =
    bridge_frame-fail_all json (9 ∷ []) (new_conn (9 ∷ [])) "gone" (request_of 1) here refl
      (omega arith) refl
