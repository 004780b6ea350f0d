-- ===== src/Client/Exec/Answered.antt =====
-- Every exec that reaches the agent, whatever the system makes of it, to what Exec returns.
use rsb.Prelude.{
  ℕ, String, true, false, ◌≡◌, ◌≢◌, ◌<◌, refl, ap, sym, ◌∙◌, subst, append_cancel, Bytes, List, [],
  ◌∷◌, ◌++◌, none, some, arith, length, map, All, ◌==◌, eq_iff,
}
use rsb.Prelude.Int.{pos}
use rsb.Protocol.{Message, Request, Error, request, output, result, error, kind_of}
use rsb.Protocol.Wire.{Frame}
use rsb.Agent.{Agent}
use rsb.Agent.Get.{error_for}
use rsb.Agent.Exec.{System, dispatch_exec}
use rsb.Agent.Exec.Replies.{Replies, Answers, dispatch_exec-Answers}
use rsb.Daemon.{
  HostConn, new_conn, Json, frame_id, is_terminal, bridge_frame, pump_from_agent, client_in_size,
  copied,
}
use rsb.Daemon.Routes.{replies}
use rsb.Daemon.Replies.{view}
use rsb.Daemon.Safety.{Steps}
use rsb.Daemon.Bridge.{bridge_frame-view}
use rsb.Client.Exec.{
  Decoders, Finished, Streams, frame, finished, normalized, exec_loop, put_output, notices_of,
}
use rsb.Client.Exec.Outcome.{exec_loop-decoded, exec_loop-result, exec_loop-error}
use rsb.Client.Exec.Whole.{encode, Among, Readable, ReadableResult}
use rsb.Client.Call.{no_output}

-- What Exec has to return for the agent's replies, as messages.
unfoldable pub told :
    {id : String} {ms : List Message} → (String → String) → Replies id ms → Streams → Finished
told {id} to_lower (Replies.ends_error reason) s =
    finished (pos 1) none s (notices_of to_lower (some (record { id = id; reason = reason })))
told to_lower (Replies.ends_result r mine) s = finished (normalized r) none s []
told to_lower (Replies.chunk o mine more) s = told to_lower more (put_output o s)

pub record ReadableError (json : Json) (d : Decoders) (e : Error) : Type 0 where
  pub id : json.probe_id (json.marshal (error e)) ≡ e.id
  pub body : d.as_error (json.marshal (error e)) ≡ some e

-- The client reads the message of the agent as it was written.
abbrev pub Legible : Json → Decoders → Message → Type 0
Legible json d (output o) = Readable json d o
Legible json d (result r) = ReadableResult json d r
Legible json d (error e) = ReadableError json d e
Legible json d m = Unit

told-no_failure :
    {id : String} {ms : List Message} (to_lower : String → String) (shape : Replies id ms)
    (s : Streams)
    → (told to_lower shape s).failure ≡ none
unfolding told
told-no_failure to_lower (Replies.ends_error reason) s = refl
told-no_failure to_lower (Replies.ends_result r mine) s = refl
told-no_failure to_lower (Replies.chunk o mine more) s =
    told-no_failure to_lower more (put_output o s)

module _ (json : Json) (d : Decoders) (wait : String) where
  exec_loop-told :
      {id : String} {ms : List Message} (shape : Replies id ms) (s : Streams)
      → All (Legible json d) ms
      → exec_loop d wait (map frame (map (encode json) ms)) s ≡ told d.to_lower shape s
  unfolding told kind_of
  exec_loop-told (Replies.ends_error reason) s (e, rest) =
      exec_loop-error d wait (encode json (error_for _ reason)) _ [] s refl e.body
  exec_loop-told (Replies.ends_result r mine) s (e, rest) =
      exec_loop-result d wait (encode json (result r)) r [] s refl e.body
  exec_loop-told (Replies.chunk {ms} o mine more) s (e, rest) =
      exec_loop-decoded d wait (encode json (output o)) o (map frame (map (encode json) ms)) s refl
        e.body
      ∙ exec_loop-told more (put_output o s) rest

  -- A frame of the request's own.
  own_id :
      (f : Frame) {id owner : String}
      → frame_id json f ≡ owner
      → owner ≡ id
      → (frame_id json f == id) ≡ true
  own_id f {id} e mine = (eq_iff (frame_id json f) id).1 (e ∙ mine)

  -- A request's view of the connection is what the agent writes for it.
  view-Among :
      {id : String} {ms : List Message} (fs : List Frame)
      → Replies id ms
      → All (Legible json d) ms
      → Among json id ms fs
      → view json id fs ≡ map (encode json) ms
  unfolding view frame_id is_terminal kind_of
  view-Among [] (Replies.ends_error reason) l m = elim m [ ]
  view-Among [] (Replies.ends_result r mine) l m = elim m [ ]
  view-Among [] (Replies.chunk o mine more) l m = elim m [ ]
  view-Among (f ∷ fs) shape l Among.all = elim shape [ ]
  view-Among {id} (f ∷ fs) shape l (Among.other theirs later) =
      let e : (frame_id json f == id) ≡ false =
        ground (arith, eq_iff (frame_id json f) id, theirs) in
      rw e (view-Among fs shape l later)
  view-Among (f ∷ fs) (Replies.ends_error reason) l (Among.own later) =
      rw (own_id f l.0.id refl) refl
  view-Among (f ∷ fs) (Replies.ends_result r mine) l (Among.own later) =
      rw (own_id f l.0.id mine) refl
  view-Among (f ∷ fs) (Replies.chunk o mine more) l (Among.own later) =
      rw (own_id f l.0.id mine) (ap (◌∷◌ f) (view-Among fs more l.1 later))

-- An exec's request on a reachable connection of the daemon that is open and has room gets a reply
-- channel. Whatever the system makes of the request, what the agent writes for it are Outputs of its id,
-- if any, and one Result or Error; when that reaches the daemon in the order written, among frames of
-- other requests, Exec over the frames that the session copies from the channel returns what these
-- messages tell, and no error; for messages that are read as they were written.
pub exec_loop-Answers :
    (json : Json) (d : Decoders) (wait : String) (hello : Bytes) (h : HostConn) (sys : System)
    (req : Request) (a : Agent) (ms : List Message) (fs : List Frame)
    → Steps json (new_conn hello) h
    → h.closed ≡ false
    → length h.client_in < client_in_size
    → frame_id json (encode json (request req)) ≡ req.id
    → req.id ≢ ""
    → (dispatch_exec sys req a).out ≡ a.out ++ ms
    → Among json req.id ms fs
    → All (Legible json d) ms
    → (ch : ℕ) × ((bridge_frame json (encode json (request req)) h).pump ≡ some ch)
      × (shape : Replies req.id ms) × (exec_loop d wait
            (map frame (
              copied (
                replies ch
                  (pump_from_agent json fs
                    (bridge_frame json (encode json (request req)) h).conn).delivered)))
            no_output
          ≡ told d.to_lower shape no_output)
      × ((told d.to_lower shape no_output).failure ≡ none)
unfolding kind_of
exec_loop-Answers json d wait hello h sys req a ms fs steps usable room probe ne wrote among
      legible =
    let f = encode json (request req) in
    let answers : Answers req.id a (dispatch_exec sys req a) = dispatch_exec-Answers sys req a in
    let shape : Replies req.id ms =
      subst (Replies req.id) (append_cancel a.out answers.replies ms (sym answers.out ∙ wrote))
        answers.shape in
    let (ch, (routed, copies)) =
      bridge_frame-view json hello h f fs steps usable room refl
        (λ (empty : frame_id json f ≡ ""). ne (sym probe ∙ empty)) in
    let seen : view json (frame_id json f) fs ≡ map (encode json) ms =
      ap (λ (id : String). view json id fs) probe ∙ view-Among json d wait fs shape legible among in
    (
      ch,
      routed,
      shape,
      rw (copies, seen) (exec_loop-told json d wait shape no_output legible),
      told-no_failure d.to_lower shape no_output,
    )
