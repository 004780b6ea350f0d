-- ===== src/Client/Exec/Whole.antt =====
-- An exec from the agent that runs it to what Exec returns, on a connection that other requests share.
use rsb.Prelude.{
  ℕ, String, false, ◌≡◌, ◌≢◌, ◌<◌, refl, ap, sym, ◌∙◌, subst, append_cancel, Bytes, List, [], ◌∷◌,
  ◌++◌, none, some, length, map, All,
}
use rsb.Protocol.{Message, Request, Output, Result, request, output, result, kind_of}
use rsb.Protocol.Wire.{Frame}
use rsb.Agent.{Agent}
use rsb.Agent.Exec.{System, Run, dispatch_exec}
use rsb.Agent.Exec.Answer.{Starts, result_for, output_for, answer, dispatch_exec-answer}
use rsb.Daemon.{
  HostConn, new_conn, Json, frame_id, bridge_frame, pump_from_agent, client_in_size, copied,
}
use rsb.Daemon.Routes.{replies}
use rsb.Daemon.Safety.{Steps}
use rsb.Client.Exec.{Decoders, frame, finished, normalized, exec_loop}
use rsb.Client.Exec.Outcome.{IsOutput, all_written, said}
use rsb.Client.Exec.Shared.{Sends, exec_loop-shared}
use rsb.Client.Call.{no_output}

-- WriteJSONFrame's frame
abbrev pub encode : Json → Message → Frame
encode json m = record { kind = kind_of m; body = json.marshal m }

-- The stream of the agent: the frames of the messages `ms`, in this order, among frames of other
-- requests, and whatever follows.
pub data Among (json : Json) (id : String) : List Message → List Frame → Type 0 where
  all : {later : List Frame} → Among json id [] later
  own :
      {m : Message} {ms : List Message} {fs : List Frame}
      → Among json id ms fs
      → Among json id (m ∷ ms) (encode json m ∷ fs)
  other :
      {f : Frame} {ms : List Message} {fs : List Frame}
      → frame_id json f ≢ id
      → Among json id ms fs
      → Among json id ms (f ∷ fs)

-- The client reads these messages of the agent as they were written.
pub record Readable (json : Json) (d : Decoders) (o : Output) : Type 0 where
  pub id : json.probe_id (json.marshal (output o)) ≡ o.id
  pub body : d.as_output (json.marshal (output o)) ≡ some o

pub record ReadableResult (json : Json) (d : Decoders) (r : Result) : Type 0 where
  pub id : json.probe_id (json.marshal (result r)) ≡ r.id
  pub body : d.as_result (json.marshal (result r)) ≡ some r

module _ (json : Json) (d : Decoders) (id : String) where
  sent_output : String × Bytes → Frame × Output
  sent_output c = (encode json (output (output_for id c)), output_for id c)

  Among-Sends :
      (outs : List (String × Bytes)) (r : Result) (fs : List Frame)
      → r.id ≡ id
      → All (λ (c : String × Bytes). Readable json d (output_for id c)) outs
      → ReadableResult json d r
      → Among json id (answer id outs (result r)) fs
      → Sends json id (map sent_output outs) (encode json (result r)) fs
  unfolding frame_id sent_output
  Among-Sends [] r [] mine rs last m = elim m [ ]
  Among-Sends (c ∷ outs) r [] mine rs last m = elim m [ ]
  Among-Sends [] r (f ∷ fs) mine rs last (Among.own more) = Sends.ends (last.id ∙ mine)
  Among-Sends [] r (f ∷ fs) mine rs last (Among.other theirs more) =
      Sends.other theirs (Among-Sends [] r fs mine rs last more)
  Among-Sends (c ∷ outs) r (f ∷ fs) mine (this, rs) last (Among.own more) =
      Sends.output this.id (Among-Sends outs r fs mine rs last more)
  Among-Sends (c ∷ outs) r (f ∷ fs) mine rs last (Among.other theirs more) =
      Sends.other theirs (Among-Sends (c ∷ outs) r fs mine rs last more)

  sent-IsOutput :
      (outs : List (String × Bytes))
      → All (λ (c : String × Bytes). Readable json d (output_for id c)) outs
      → All (IsOutput d) (map sent_output outs)
  unfolding sent_output kind_of
  sent-IsOutput [] rs = rs
  sent-IsOutput (c ∷ outs) (this, rs) =
      (record { is_kind = refl; is_body = this.body }, sent-IsOutput outs rs)

  said-sent :
      (outs : List (String × Bytes)) → map said (map sent_output outs) ≡ map (output_for id) outs
  unfolding sent_output
  said-sent [] = refl
  said-sent (c ∷ outs) = ap (◌∷◌ (output_for id c)) (said-sent outs)

-- An exec's request on a reachable connection of the daemon that is open and has room gets a reply
-- channel. The agent starts its command, and what it writes for the request goes to the daemon in the
-- order written, among frames of other requests. Exec over the frames that the session copies from that
-- channel returns no error, each of its streams is what the agent's streamers read from the command's
-- pipe of that name, which may be less than the command wrote, and its exit code is the command's,
-- normalised; for messages that are read as they were written.
pub exec_loop-dispatch_exec :
    (json : Json) (d : Decoders) (wait : String) (hello : Bytes) (h : HostConn) (sys : System)
    (req : Request) (a : Agent) (run : Run) (ms : List Message) (fs : List Frame)
    → Steps json (new_conn hello) h
    → h.closed ≡ false
    → length h.client_in < client_in_size
    → frame_id json (encode json (request req)) ≡ req.id
    → req.id ≢ ""
    → Starts sys req a run
    → (dispatch_exec sys req a).out ≡ a.out ++ ms
    → Among json req.id ms fs
    → All (λ (c : String × Bytes). Readable json d (output_for req.id c)) run.outputs
    → ReadableResult json d (result_for req.id run)
    → (ch : ℕ) × ((bridge_frame json (encode json (request req)) h).pump ≡ some ch)
      × (exec_loop d wait
            (map frame (
              copied (
                replies ch
                  (pump_from_agent json fs
                    (bridge_frame json (encode json (request req)) h).conn).delivered)))
            no_output
          ≡ finished
              (normalized (result_for req.id run))
              none
              (all_written (map (output_for req.id) run.outputs) no_output)
              [])
unfolding kind_of
exec_loop-dispatch_exec json d wait hello h sys req a run ms fs steps usable room probe ne starts
      wrote among outputs last =
    let r = result_for req.id run in
    let e : ms ≡ answer req.id run.outputs (result r) =
      append_cancel a.out ms (answer req.id run.outputs (result r))
        (sym wrote ∙ dispatch_exec-answer sys req a run starts) in
    let f : Frame = encode json (result r) in
    let sends : Sends json req.id (map (sent_output json d req.id) run.outputs) f fs =
      Among-Sends json d req.id run.outputs r fs refl outputs last
        (subst (λ (x : List Message). Among json req.id x fs) e among) in
    let (ch, routed, finishes) =
      exec_loop-shared json d wait hello h (encode json (request req)) f r
        (map (sent_output json d req.id) run.outputs) fs steps usable room refl
        (λ (empty : frame_id json (encode json (request req)) ≡ ""). ne (sym probe ∙ empty))
        (subst (λ (id : String). Sends json id (map (sent_output json d req.id) run.outputs) f fs)
          (sym probe) sends)
        (sent-IsOutput json d req.id run.outputs outputs)
        (record { is_kind = refl; is_body = last.body }) in
    (
      ch,
      routed,
      finishes
          ∙ ap (λ (os : List Output). finished (normalized r) none (all_written os no_output) [])
              (said-sent json d req.id run.outputs),
    )
