-- ===== src/Client/Exec/Shared.antt =====
-- An exec on a connection that other requests share, from bridge in the daemon to what Exec returns.
use rsb.Prelude.{
  ℕ, String, true, false, ◌≡◌, ◌≢◌, ◌<◌, refl, ap, Bytes, List, [], ◌∷◌, none, some, arith, length,
  ◌==◌, eq_iff, map, All,
}
use rsb.Protocol.{Output, Result, kind_output, kind_result, kind_request}
use rsb.Protocol.Wire.{Frame}
use rsb.Daemon.{
  HostConn, new_conn, Json, frame_id, is_terminal, bridge_frame, pump_from_agent, client_in_size,
  copied,
}
use rsb.Daemon.Routes.{replies}
use rsb.Daemon.Replies.{view}
use rsb.Daemon.Safety.{Steps}
use rsb.Daemon.Bridge.{bridge_frame-view}
use rsb.Client.Exec.{Decoders, frame, finished, normalized, exec_loop}
use rsb.Client.Exec.Outcome.{IsOutput, IsResult, sent, said, all_written, exec_loop-outputs}
use rsb.Client.Call.{no_output}

-- What the agent sends, for the request `id` and for others in between: the frames of `ms` and then `f`,
-- in this order, and whatever follows.
pub data Sends (json : Json) (id : String)
    : List (Frame × Output) → Frame → List Frame → Type 0 where
  ends : {f : Frame} {later : List Frame} → frame_id json f ≡ id → Sends json id [] f (f ∷ later)
  output :
      {g f : Frame} {o : Output} {ms : List (Frame × Output)} {fs : List Frame}
      → frame_id json g ≡ id
      → Sends json id ms f fs
      → Sends json id ((g, o) ∷ ms) f (g ∷ fs)
  other :
      {g f : Frame} {ms : List (Frame × Output)} {fs : List Frame}
      → frame_id json g ≢ id
      → Sends json id ms f fs
      → Sends json id ms f (g ∷ fs)

abbrev frames_of : List (Frame × Output) → Frame → List Frame
frames_of [] f = f ∷ []
frames_of ((g, o) ∷ ms) f = g ∷ frames_of ms f

not_terminal : (f : Frame) → f.kind ≡ kind_output → is_terminal f ≡ false
unfolding is_terminal
not_terminal f e = rw e refl

terminal : (f : Frame) → f.kind ≡ kind_result → is_terminal f ≡ true
unfolding is_terminal
terminal f e = rw e refl

module _ (json : Json) (d : Decoders) (id : String) where
  -- A request's view of the connection is what the agent sends for it.
  view-Sends :
      {ms : List (Frame × Output)} {f : Frame} {fs : List Frame}
      → Sends json id ms f fs
      → All (IsOutput d) ms
      → f.kind ≡ kind_result
      → view json id fs ≡ frames_of ms f
  unfolding view
  view-Sends (ends {f} mine) outputs last =
      let e : (frame_id json f == id) ≡ true = ground (arith, eq_iff (frame_id json f) id, mine) in
      rw (e, terminal f last) refl
  view-Sends (output {g} mine more) (is, outputs) last =
      let e : (frame_id json g == id) ≡ true = ground (arith, eq_iff (frame_id json g) id, mine) in
      rw (e, not_terminal g is.is_kind) (ap (◌∷◌ g) (view-Sends more outputs last))
  view-Sends (other {g} theirs more) outputs last =
      let e : (frame_id json g == id) ≡ false =
        ground (arith, eq_iff (frame_id json g) id, theirs) in
      rw e (view-Sends more outputs last)

  frames_of-sent :
      (ms : List (Frame × Output)) (f : Frame) → map frame (frames_of ms f) ≡ sent ms (frame f ∷ [])
  unfolding sent
  frames_of-sent [] f = refl
  frames_of-sent ((g, o) ∷ ms) f = ap (◌∷◌ (frame g)) (frames_of-sent ms f)

-- An exec's request on a reachable connection of the daemon that is open and has room gets a reply
-- channel; when the agent next sends, among frames of other requests, Outputs and then a Result for it
-- that decode, whatever else comes and however the connection ends, Exec over the frames that the
-- session copies from that channel returns no error, its stdout and stderr are the payloads of each in
-- order, and the exit code is the normalised one of the Result.
pub exec_loop-shared :
    (json : Json) (d : Decoders) (wait : String) (hello : Bytes) (h : HostConn) (req f : Frame)
    (r : Result) (ms : List (Frame × Output)) (fs : List Frame)
    → Steps json (new_conn hello) h
    → h.closed ≡ false
    → length h.client_in < client_in_size
    → req.kind ≡ kind_request
    → frame_id json req ≢ ""
    → Sends json (frame_id json req) ms f fs
    → All (IsOutput d) ms
    → IsResult d f r
    → (ch : ℕ) × ((bridge_frame json req h).pump ≡ some ch)
      × (exec_loop d wait
            (map frame (
              copied
                (replies ch (pump_from_agent json fs (bridge_frame json req h).conn).delivered)))
            no_output
          ≡ finished (normalized r) none (all_written (map said ms) no_output) [])
exec_loop-shared json d wait hello h req f r ms fs run usable room is_req ne sends outputs result =
    let id = frame_id json req in
    let (ch, (routed, copies)) = bridge_frame-view json hello h req fs run usable room is_req ne in
    (
      ch,
      routed,
      rw (copies, view-Sends json d id sends outputs result.is_kind, frames_of-sent json d id ms f)
          (exec_loop-outputs d wait ms f r [] no_output outputs result),
    )
