-- ===== src/Agent/Exec/Isolation.antt =====
-- What exec requests do to the session table.
use rsb.Prelude.{
  String, true, false, ◌≡◌, ◌≢◌, refl, inl, inr, ap, ◌∙◌, List, [], ◌∷◌, Option, none, some, Try,
  ok, err, arith, Bool-cases, Option-cases, ◌==◌, eq_iff, Bytes,
}
use rsb.Prelude.Dict.{lookup, insert, lookup-insert, lookup-insert_self}
use rsb.Prelude.Int.{is_zero}
use rsb.Protocol.{Request}
use rsb.Agent.{
  Agent, Session, empty_session, or_empty, write_frame, resolve_session, store_new, persist_session,
  persisted,
}
use rsb.Agent.Exec.{
  System, Command, Run, cd_to, is_cd, exec_cd, set_cwd, prepare, exit_of, write_outputs,
  finish_exec, started, piped, exec_prepared, handle_exec, effective_cwd,
}

-- The session of that name, as a request would find it.
abbrev pub session_of : String → Agent → Session
session_of name a = or_empty (lookup name a.sessions)

-- The sessions but the one of that name are as they were; all are, if there is no name.
pub record Others (name : String) (a b : Agent) : Type 0 where
  pub same : (n : String) → n ≢ name → lookup n b.sessions ≡ lookup n a.sessions
  pub unnamed : name ≡ "" → b.sessions ≡ a.sessions

Others-eq : {name : String} {a b : Agent} → b.sessions ≡ a.sessions → Others name a b
Others-eq e = record { same = λ n ne. ap (lookup n) e; unnamed = λ _. e }

Others-trans : {name : String} {a b c : Agent} → Others name a b → Others name b c → Others name a c
Others-trans f g = record {
  same = λ n ne. g.same n ne ∙ f.same n ne;
  unnamed = λ e. g.unnamed e ∙ f.unnamed e;
}

neq : (n m : String) → n ≢ m → (m == n) ≡ false
neq n m h = ground (arith, eq_iff m n)

Others-insert :
    (a b : Agent) (name : String) (s : Session)
    → b.sessions ≡ insert name s a.sessions
    → (name == "") ≡ false
    → Others name a b
Others-insert a b name s e named = record {
  same = λ n ne. rw (e, lookup-insert name n s a.sessions, neq n name ne);
  unnamed = λ h. absurd (cc ((eq_iff name "").1 h, named));
}

resolve_session-Others :
    (req : Request) (a : Agent) → Others req.session a (resolve_session req a).1
unfolding resolve_session store_new
resolve_session-Others req a = elim (Option-cases (lookup req.session a.sessions)) [
  | inr (s, known) ↦ simp known (Others-eq refl)
  | inl new ↦ elim (Bool-cases (req.session == "")) [
    | inl unnamed ↦ simp (new, unnamed) (Others-eq refl)
    | inr named ↦ simp (new, named) (Others-insert a _ req.session empty_session refl named)
  ]
]

persist_session-Others :
    (req : Request) (cwd : String) (a : Agent) → Others req.session a (persist_session req cwd a)
unfolding persist_session persisted
persist_session-Others req cwd a = elim (Bool-cases (req.session == "")) [
  | inl unnamed ↦ simp unnamed (Others-eq refl)
  | inr named ↦ elim (Option-cases (lookup req.session a.sessions)) [
    | inl none_there ↦ simp (named, none_there) (Others-eq refl)
    | inr (s, known) ↦ simp (named, known) (Others-insert a _ req.session _ refl named)
  ]
]

sessions-write_outputs :
    (id : String) (outs : List (String × Bytes)) (a : Agent)
    → (write_outputs id outs a).sessions ≡ a.sessions
unfolding write_outputs write_frame
sessions-write_outputs id [] a = refl
sessions-write_outputs id ((stream, bytes) ∷ rest) a = sessions-write_outputs id rest _

finish_exec-Others :
    (req : Request) (sess : Session) (run : Run) (a : Agent)
    → Others req.session a (finish_exec req sess run a)
unfolding finish_exec write_frame
finish_exec-Others req sess run a =
    let written = sessions-write_outputs req.id run.outputs a in
    elim (Bool-cases (is_zero (exit_of run).0)) [
      | inl success ↦
          rw success (
            Others-trans (Others-eq written)
              (persist_session-Others req (effective_cwd req sess) _))
      | inr failure ↦ rw failure (Others-eq written)
    ]

piped-Others :
    (pipe : Option String) (start : Try Run) (req : Request) (sess : Session) (a : Agent)
    → Others req.session a (piped pipe start req sess a)
unfolding piped started write_frame
piped-Others (some reason) start req sess a = Others-eq refl
piped-Others none (err e) req sess a = Others-eq refl
piped-Others none (ok run) req sess a = finish_exec-Others req sess run a

exec_prepared-Others :
    (sys : System) (req : Request) (sess : Session) (t : Try Command) (a : Agent)
    → Others req.session a (exec_prepared sys req sess t a)
unfolding exec_prepared write_frame
exec_prepared-Others sys req sess (err reason) a = Others-eq refl
exec_prepared-Others sys req sess (ok cmd) a =
    piped-Others (sys.pipes cmd) (sys.start cmd) req sess a

exec_cd-Others :
    (t : Try String) (req : Request) (sess : Session) (a : Agent)
    → (req.session == "") ≡ false
    → Others req.session a (exec_cd t req sess a)
unfolding exec_cd set_cwd write_frame
exec_cd-Others (err reason) req sess a named = Others-eq refl
exec_cd-Others (ok abs) req sess a named = Others-insert a _ req.session _ refl named

is_cd-named :
    (req : Request) (argv : List String) → is_cd req argv ≡ true → (req.session == "") ≡ false
unfolding is_cd
is_cd-named req [] h = absurd (cc h)
is_cd-named req (x ∷ xs) h = ground arith

-- A request changes no session but its own, and a request without a session changes none at all,
-- whatever its command does.
pub handle_exec-Others :
    (sys : System) (req : Request) (a : Agent) → Others req.session a (handle_exec sys req a)
unfolding handle_exec
handle_exec-Others sys req a =
    let r = resolve_session req a in
    let at_start = resolve_session-Others req a in
    elim (Bool-cases (is_cd req req.argv)) [
      | inl cd ↦ rw cd (
          Others-trans at_start
            (exec_cd-Others (cd_to sys req r.0) req r.0 r.1 (is_cd-named req req.argv cd)))
      | inr other ↦
          rw other
            (Others-trans at_start (exec_prepared-Others sys req r.0 (prepare sys req r.0) r.1))
    ]

-- A `cd` that is answered without an error: the session's directory is the resolved target, its
-- variables are as they were.
pub cd-session_of :
    (sys : System) (req : Request) (a : Agent) (abs : String)
    → is_cd req req.argv ≡ true
    → cd_to sys req (session_of req.session a) ≡ ok abs
    → session_of req.session (handle_exec sys req a)
      ≡ record { cwd = abs; env = (session_of req.session a).env }
unfolding handle_exec exec_cd set_cwd write_frame resolve_session
cd-session_of sys req a abs cd to = simp (cd, to) (rw lookup-insert_self)
