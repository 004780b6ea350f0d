-- ===== src/Agent/Exec/Answer.antt =====
-- What the agent writes for an exec request whose command starts.
use rsb.Prelude.{
  String, true, false, ◌≡◌, refl, ap, ◌∙◌, Bytes, List, [], ◌∷◌, ◌++◌, none, ok, Bool-cases, inl,
  inr, append_assoc, ◌==◌, eq_iff,
}
use rsb.Prelude.Int.{is_zero}
use rsb.Protocol.{Message, Request, Result, Output, output, result}
use rsb.Agent.{Agent, Session, write_frame, resolve_session}
use rsb.Agent.Exec.{
  System, Command, Run, is_cd, prepare, exit_of, write_outputs, finish_exec, started, piped,
  exec_prepared, handle_exec, dispatch_argv, dispatch_exec, effective_cwd,
}
use rsb.Agent.Exec.Replies.{out-resolve_session, out-persist_session}

-- The request is an exec whose command the system starts; the command then runs as `run` says.
pub record Starts (sys : System) (req : Request) (a : Agent) (run : Run) : Type 0 where
  pub prog : String
  pub args : List String
  pub cmd : Command
  pub is_exec : req.type ≡ "exec"
  pub argv : req.argv ≡ prog ∷ args
  pub no_cd : is_cd req req.argv ≡ false
  pub prepared : prepare sys req (resolve_session req a).0 ≡ ok cmd
  pub pipes : sys.pipes cmd ≡ none
  pub start : sys.start cmd ≡ ok run

abbrev pub result_for : String → Run → Result
result_for id run = record {
  id = id;
  exit_code = (exit_of run).0;
  signal = (exit_of run).1;
  duration_ms = run.duration_ms;
}

abbrev pub output_for : String → String × Bytes → Output
output_for id c = record { id = id; stream = c.0; payload = c.1 }

-- The outputs, in their order, and the last message.
abbrev pub answer : String → List (String × Bytes) → Message → List Message
answer id [] last = last ∷ []
answer id (c ∷ rest) last = output (output_for id c) ∷ answer id rest last

write_outputs-answer :
    (id : String) (outs : List (String × Bytes)) (last : Message) (a : Agent)
    → (write_frame last (write_outputs id outs a)).out ≡ a.out ++ answer id outs last
unfolding write_outputs write_frame
write_outputs-answer id [] last a = refl
write_outputs-answer id ((stream, bytes) ∷ rest) last a =
    let o : Output = record { id = id; stream = stream; payload = bytes } in
    write_outputs-answer id rest last (write_frame (output o) a)
    ∙ append_assoc a.out (output o ∷ []) (answer id rest last)

finish_exec-answer :
    (req : Request) (sess : Session) (run : Run) (a : Agent)
    → (finish_exec req sess run a).out
      ≡ a.out ++ answer req.id run.outputs (result (result_for req.id run))
unfolding finish_exec
finish_exec-answer req sess run a =
    let last = result (result_for req.id run) in
    let written = write_outputs-answer req.id run.outputs last a in
    elim (Bool-cases (is_zero (exit_of run).0)) [
      | inl success ↦ rw success (
          out-persist_session req (effective_cwd req sess)
            (write_frame last (write_outputs req.id run.outputs a))
          ∙ written)
      | inr failure ↦ rw failure written
    ]

module _ (sys : System) (req : Request) (a : Agent) (run : Run) where
  handle_exec-answer :
      Starts sys req a run
      → (handle_exec sys req a).out
        ≡ a.out ++ answer req.id run.outputs (result (result_for req.id run))
  unfolding handle_exec exec_prepared piped started
  handle_exec-answer s =
      let r = resolve_session req a in
      rw (s.no_cd, s.prepared, s.pipes, s.start)
        (finish_exec-answer req r.0 run r.1
          ∙ ap
              (λ (ms : List Message).
                ms ++ answer req.id run.outputs (result (result_for req.id run)))
              (out-resolve_session req a))

  dispatch_argv-starts :
      (argv : List String) {prog : String} {args : List String}
      → argv ≡ prog ∷ args
      → dispatch_argv sys req argv a ≡ handle_exec sys req a
  unfolding dispatch_argv
  dispatch_argv-starts [] h = absurd (cc h)
  dispatch_argv-starts (x ∷ xs) h = refl

  -- For a command that starts, the agent writes an Output frame for each piece that it wrote, in order,
  -- and then the Result.
  pub dispatch_exec-answer :
      Starts sys req a run
      → (dispatch_exec sys req a).out
        ≡ a.out ++ answer req.id run.outputs (result (result_for req.id run))
  unfolding dispatch_exec
  dispatch_exec-answer s =
      let e : (req.type == "exec") ≡ true = (eq_iff req.type "exec").1 s.is_exec in
      simp (e)
        (ap (λ (b : Agent). b.out) (dispatch_argv-starts req.argv s.argv) ∙ handle_exec-answer s)
