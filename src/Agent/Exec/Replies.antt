-- ===== src/Agent/Exec/Replies.antt =====
-- The frames that one exec request is answered with.
use rsb.Prelude.{
  String, not, ◌&&◌, ◌≡◌, refl, inl, inr, ap, ◌∙◌, Bytes, List, [], ◌∷◌, ◌++◌, Option, none, some,
  Try, ok, err, arith, Bool-cases, append_assoc, ◌==◌, ◌⧺◌,
}
use rsb.Prelude.Int.{is_zero, pos}
use rsb.Protocol.{Message, Request, Result, Output, output, result}
use rsb.Agent.{Agent, Session, write_frame, resolve_session, persist_session}
use rsb.Agent.Get.{error_for}
use rsb.Agent.Exec.{
  System, Command, Run, cd_to, is_cd, exec_cd, prepare, exit_of, write_outputs, finish_exec,
  started, piped, exec_prepared, handle_exec, dispatch_argv, dispatch_exec, result_of,
  effective_cwd,
}

-- Output frames of the request `id`, and one result or error of it at the end.
pub data Replies (id : String) : List Message → Type 0 where
  ends_error : (reason : String) → Replies id (error_for id reason ∷ [])
  ends_result : (r : Result) → r.id ≡ id → Replies id (result r ∷ [])
  chunk : {ms : List Message} (o : Output) → o.id ≡ id → Replies id ms → Replies id (output o ∷ ms)

-- `b` has written replies to the request `id` behind what `a` had written.
pub record Answers (id : String) (a b : Agent) : Type 0 where
  pub replies : List Message
  pub out : b.out ≡ a.out ++ replies
  pub shape : Replies id replies

Answers-error :
    (id reason : String) (a : Agent) → Answers id a (write_frame (error_for id reason) a)
unfolding write_frame
Answers-error id reason a = record {
  replies = error_for id reason ∷ [];
  out = refl;
  shape = ends_error reason;
}

-- The same past a change of the session table.
Answers-sessions :
    {id : String} {a a' b b' : Agent}
    → a'.out ≡ a.out
    → b'.out ≡ b.out
    → Answers id a' b
    → Answers id a b'
Answers-sessions e f h = record {
  replies = h.replies;
  out = f ∙ h.out ∙ ap (λ (ms : List Message). ms ++ h.replies) e;
  shape = h.shape;
}

pub out-persist_session :
    (req : Request) (cwd : String) (a : Agent) → (persist_session req cwd a).out ≡ a.out
unfolding persist_session
out-persist_session req cwd a = ground arith

pub out-resolve_session : (req : Request) (a : Agent) → (resolve_session req a).1.out ≡ a.out
unfolding resolve_session
out-resolve_session req a = ground arith

write_outputs-Answers :
    (id : String) (outs : List (String × Bytes)) (last : Message) (a : Agent)
    → Replies id (last ∷ [])
    → Answers id a (write_frame last (write_outputs id outs a))
unfolding write_outputs write_frame
write_outputs-Answers id [] last a h = record { replies = last ∷ []; out = refl; shape = h }
write_outputs-Answers id ((stream, bytes) ∷ rest) last a h =
    let o : Output = record { id = id; stream = stream; payload = bytes } in
    let ih = write_outputs-Answers id rest last (write_frame (output o) a) h in
    record {
      replies = output o ∷ ih.replies;
      out = ih.out ∙ append_assoc a.out (output o ∷ []) ih.replies;
      shape = chunk o refl ih.shape;
    }

finish_exec-Answers :
    (req : Request) (sess : Session) (run : Run) (a : Agent)
    → Answers req.id a (finish_exec req sess run a)
unfolding finish_exec
finish_exec-Answers req sess run a =
    let (code, signal) = exit_of run in
    let reply : Result = record {
      id = req.id;
      exit_code = code;
      signal = signal;
      duration_ms = run.duration_ms;
    } in
    let written =
      write_outputs-Answers req.id run.outputs (result reply) a (ends_result reply refl) in
    elim (Bool-cases (is_zero code)) [
      | inl success ↦
          rw success
            (Answers-sessions refl (out-persist_session req (effective_cwd req sess) _) written)
      | inr failure ↦ rw failure written
    ]

started-Answers :
    (start : Try Run) (req : Request) (sess : Session) (a : Agent)
    → Answers req.id a (started start req sess a)
unfolding started
started-Answers (err e) req sess a = Answers-error req.id ("start: " ⧺ e) a
started-Answers (ok run) req sess a = finish_exec-Answers req sess run a

piped-Answers :
    (pipe : Option String) (start : Try Run) (req : Request) (sess : Session) (a : Agent)
    → Answers req.id a (piped pipe start req sess a)
unfolding piped
piped-Answers (some reason) start req sess a = Answers-error req.id reason a
piped-Answers none start req sess a = started-Answers start req sess a

exec_cd-Answers :
    (t : Try String) (req : Request) (sess : Session) (a : Agent)
    → Answers req.id a (exec_cd t req sess a)
unfolding exec_cd
exec_cd-Answers (err reason) req sess a = Answers-error req.id reason a
exec_cd-Answers (ok abs) req sess a = record {
  replies = result_of req.id (pos 0) "" 0 ∷ [];
  out = refl;
  shape = ends_result _ refl;
}

exec_prepared-Answers :
    (sys : System) (req : Request) (sess : Session) (t : Try Command) (a : Agent)
    → Answers req.id a (exec_prepared sys req sess t a)
unfolding exec_prepared
exec_prepared-Answers sys req sess (err reason) a = Answers-error req.id reason a
exec_prepared-Answers sys req sess (ok cmd) a =
    piped-Answers (sys.pipes cmd) (sys.start cmd) req sess a

handle_exec-Answers :
    (sys : System) (req : Request) (a : Agent) → Answers req.id a (handle_exec sys req a)
unfolding handle_exec
handle_exec-Answers sys req a =
    let r = resolve_session req a in
    let at_start = out-resolve_session req a in
    elim (Bool-cases (is_cd req req.argv)) [
      | inl cd ↦
          rw cd (Answers-sessions at_start refl (exec_cd-Answers (cd_to sys req r.0) req r.0 r.1))
      | inr other ↦ rw other (
          Answers-sessions at_start refl
            (exec_prepared-Answers sys req r.0 (prepare sys req r.0) r.1))
    ]

dispatch_argv-Answers :
    (sys : System) (req : Request) (argv : List String) (a : Agent)
    → Answers req.id a (dispatch_argv sys req argv a)
unfolding dispatch_argv
dispatch_argv-Answers sys req [] a = Answers-error req.id "argv is empty" a
dispatch_argv-Answers sys req (x ∷ xs) a = handle_exec-Answers sys req a

-- Every exec request is answered, whatever the system does: output frames of its id, if any, and
-- behind them exactly one result or error with its id, and no frame of another request.
pub dispatch_exec-Answers :
    (sys : System) (req : Request) (a : Agent) → Answers req.id a (dispatch_exec sys req a)
unfolding dispatch_exec
dispatch_exec-Answers sys req a =
    elim (Bool-cases (not (req.type == "exec") && not (req.type == ""))) [
      | inl bad ↦ rw bad (Answers-error req.id ("unsupported type: " ⧺ req.type) a)
      | inr fine ↦ rw fine (dispatch_argv-Answers sys req req.argv a)
    ]
