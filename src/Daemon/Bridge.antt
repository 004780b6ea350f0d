-- ===== src/Daemon/Bridge.antt =====
-- What a client's request on a connection leads to, from bridge to the replies that are copied back.
use rsb.Prelude.{
  ℕ, String, true, false, ◌≡◌, ◌≢◌, ◌<◌, refl, ap, ◌∙◌, Bytes, List, [], ◌∷◌, ◌++◌, some, arith,
  length, lt→ltb, ◌==◌, eq_iff,
}
use rsb.Prelude.Dict.{lookup-insert_self}
use rsb.Protocol.{kind_request}
use rsb.Protocol.Wire.{Frame}
use rsb.Daemon.{
  HostConn, new_conn, Json, frame_id, register, send, bridge_frame, pump_from_agent, client_in_size,
  copied, requested, with_route,
}
use rsb.Daemon.Routes.{replies, Apart-insert}
use rsb.Daemon.Replies.{view, pump_from_agent-view, copied-view}
use rsb.Daemon.Safety.{Steps, Inv, Steps-Inv}

module _ (json : Json) where
  -- What bridge leaves behind when the request goes through.
  unfoldable pub queued : Frame → HostConn → HostConn
  queued f h = record h { client_in = h.client_in ++ f ∷ [] }

  send-queued :
      (f : Frame) (h : HostConn)
      → h.closed ≡ false
      → length h.client_in < client_in_size
      → send f h ≡ (true, queued f h)
  unfolding send queued
  send-queued f h usable room = rw (usable, lt→ltb (length h.client_in) client_in_size room) refl

  pub bridge_frame-queued :
      (f : Frame) (h : HostConn)
      → h.closed ≡ false
      → length h.client_in < client_in_size
      → f.kind ≡ kind_request
      → bridge_frame json f h ≡ record {
        conn = queued f (register (frame_id json f) h).1;
        back = [];
        pump = some h.next_ch;
      }
  unfolding bridge_frame with_route register
  bridge_frame-queued f h usable room req =
      let is_request : (f.kind == kind_request) ≡ true =
        ground (arith, eq_iff f.kind kind_request, req) in
      simp (is_request) (
        ap (requested json (frame_id json f) h.next_ch)
          (send-queued f (register (frame_id json f) h).1 usable room))

  -- A request on a reachable connection that is open and has room gets a reply channel that no other
  -- request has had, and when frames `fs` come from the agent next and the connection then ends, the
  -- channel gets exactly the request's own view of `fs`, all of which the session's goroutine copies
  -- to the client.
  pub bridge_frame-view :
      (hello : Bytes) (h : HostConn) (f : Frame) (fs : List Frame)
      → Steps json (new_conn hello) h
      → h.closed ≡ false
      → length h.client_in < client_in_size
      → f.kind ≡ kind_request
      → frame_id json f ≢ ""
      → (ch : ℕ) × (((bridge_frame json f h).pump ≡ some ch)
          × (copied (replies ch (pump_from_agent json fs (bridge_frame json f h).conn).delivered)
              ≡ view json (frame_id json f) fs))
  unfolding register queued
  bridge_frame-view hello h f fs run usable room req ne =
      let v : Inv h = Steps-Inv json hello h run in
      let id : String = frame_id json f in
      let conn : HostConn = queued f (register id h).1 in
      rw (bridge_frame-queued f h usable room req) (
        h.next_ch,
        (
          refl,
          ap copied (
                pump_from_agent-view json id fs h.next_ch conn ne
                  (Apart-insert h.next_ch id h.routes v.routed.below v.routed.apart)
                  (lookup-insert_self id h.next_ch h.routes)
                ∙ ap (λ (x : List Frame). x ++ view json id fs)
                    (v.routed.unused h.next_ch (omega arith)))
              ∙ copied-view json id fs,
        ),
      )
