-- ===== src/Daemon/Spawn/Opened.antt =====
-- openHostConn against what the agent of the host says.
use rsb.Prelude.{
  String, true, ◌≡◌, ◌≢◌, refl, sym, ap, ◌∙◌, Bytes, List, [], ◌∷◌, Option, none, some, Try, ok,
  err, ◌==◌, eq_iff, Bool-cases, inl, inr,
}
use rsb.Protocol.{kind_hello}
use rsb.Protocol.Wire.{Frame}
use rsb.Daemon.{HostConn, new_conn}
use rsb.Daemon.Spawn.{
  Texts, Spawn, read_hello, said_hello, after_start, after_pipes, run_agent, open_host_conn,
}

-- The command line of a host's agent.
pub data AgentOf (spawn : Spawn) (host : String) : List String → Type 0 where
  here : host ≡ "local" → spawn.local_agent ≢ "" → AgentOf spawn host (spawn.local_agent ∷ [])
  away : host ≢ "local" → AgentOf spawn host ("ssh" ∷ host ∷ ".rsb/rsb-agent" ∷ [])

-- The agent is started, and the first frame that it writes is a Hello with this body.
pub record Says (spawn : Spawn) (argv : List String) (hello : Bytes) : Type 0 where
  pub frame : Frame
  pub pipes : spawn.pipes argv ≡ none
  pub start : spawn.start argv ≡ none
  pub first : spawn.first_frame argv ≡ ok frame
  pub kind : frame.kind ≡ "hello"
  pub body : frame.body ≡ hello

-- What comes of an agent that is run.
pub data Tried (spawn : Spawn) (argv : List String) (t : Try HostConn) : Type 0 where
  greeted : (body : Bytes) → Says spawn argv body → t ≡ ok (new_conn body) → Tried spawn argv t
  silent :
      (reason : String)
      → ((body : Bytes) → ¬ Says spawn argv body)
      → t ≡ err reason
      → Tried spawn argv t

module _ (texts : Texts) (spawn : Spawn) (host : String) (argv : List String) where
  first_read :
      (t : Try Frame)
      → spawn.pipes argv ≡ none
      → spawn.start argv ≡ none
      → spawn.first_frame argv ≡ t
      → Tried spawn argv (said_hello texts spawn host (spawn.stderr argv) (read_hello t))
  unfolding said_hello read_hello
  first_read (err e) piped started e' = silent _ (λ body s. absurd (cc (s.first, e'))) refl
  first_read (ok f) piped started e' = elim (Bool-cases (f.kind == kind_hello)) [
    | inl e ↦ rw e (
        greeted f.body
          (record {
            frame = f;
            pipes = piped;
            start = started;
            first = e';
            kind = (eq_iff f.kind kind_hello).0 e;
            body = refl;
          })
          refl)
    | inr e ↦ rw e (
        silent _
          (λ body s.
            let same : s.frame ≡ f = cc (s.first, e') in
            let hello : (f.kind == kind_hello) ≡ true =
              (eq_iff f.kind kind_hello).1 (sym (ap (λ (x : Frame). x.kind) same) ∙ s.kind) in
            absurd (cc (hello, e)))
          refl)
  ]

  started-Tried :
      (e : Option String)
      → spawn.pipes argv ≡ none
      → spawn.start argv ≡ e
      → Tried spawn argv (after_start texts spawn host argv e)
  unfolding after_start
  started-Tried (some e) piped e' = silent _ (λ body s. absurd (cc (s.start, e'))) refl
  started-Tried none piped started = first_read (spawn.first_frame argv) piped started refl

  piped-Tried :
      (e : Option String)
      → spawn.pipes argv ≡ e
      → Tried spawn argv (after_pipes texts spawn host argv e)
  unfolding after_pipes
  piped-Tried (some e) e' = silent _ (λ body s. absurd (cc (s.pipes, e'))) refl
  piped-Tried none piped = started-Tried (spawn.start argv) piped refl

  pub run_agent-Tried : Tried spawn argv (run_agent texts spawn host argv)
  run_agent-Tried = piped-Tried (spawn.pipes argv) refl

-- What openHostConn comes to for a host.
pub data Opened (spawn : Spawn) (host : String) (t : Try HostConn) : Type 0 where
  -- the daemon finds no agent for its own machine
  no_agent :
      (reason : String)
      → host ≡ "local"
      → spawn.local_agent ≡ ""
      → t ≡ err reason
      → Opened spawn host t
  tried : (argv : List String) → AgentOf spawn host argv → Tried spawn argv t → Opened spawn host t

pub open_host_conn-Opened :
    (texts : Texts) (spawn : Spawn) (host : String)
    → Opened spawn host (open_host_conn texts spawn host)
unfolding open_host_conn
open_host_conn-Opened texts spawn host = elim (Bool-cases (host == "local")) [
  | inl e ↦
      let own : host ≡ "local" = (eq_iff host "local").0 e in
      elim (Bool-cases (spawn.local_agent == "")) [
        | inl lacks ↦ rw (e, lacks) (no_agent _ own ((eq_iff spawn.local_agent "").0 lacks) refl)
        | inr has ↦
            let argv = spawn.local_agent ∷ [] in
            let found : spawn.local_agent ≢ "" =
              λ none_there. absurd (cc ((eq_iff spawn.local_agent "").1 none_there, has)) in
            rw (e, has) (tried argv (here own found) (run_agent-Tried texts spawn host argv))
      ]
  | inr e ↦
      let argv = "ssh" ∷ host ∷ ".rsb/rsb-agent" ∷ [] in
      let other : host ≢ "local" = λ own. absurd (cc ((eq_iff host "local").1 own, e)) in
      rw e (tried argv (away other) (run_agent-Tried texts spawn host argv))
]
