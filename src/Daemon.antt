-- ===== src/Daemon.antt =====
-- internal/daemon/daemon.go and helpers.go: the connection to a host's agent, its reply routes, and
-- the pool of connections. A reply channel is a number: `delivered` lists what was sent on which
-- channel, oldest first. A full reply channel only delays its sender, so its capacity of 16 is not
-- modelled; the queue to the agent drops, and its capacity is. The pumps and the client sessions
-- run concurrently: each function here is one step of one of them, and a lock covers each access
-- to the routes and to `closed`.
pub mod Routes
pub mod Deliveries
pub mod Replies
pub mod Safety
pub mod Once
pub mod Bridge
pub mod Late
pub mod Spawn
pub mod Pool
use rsb.Prelude.{
  ℕ, String, Bool, true, false, not, ◌+◌, Bytes, List, [], ◌∷◌, ◌++◌, Option, none, some, length,
  ltb, if◌then◌else◌, ◌==◌, ◌||◌, Try, ok, err,
}
use rsb.Prelude.Dict.{Dict, lookup, insert, delete}
use rsb.Protocol.{
  Message, error, kind_request, kind_stdin, kind_end_stdin, kind_cancel, kind_file_chunk,
  kind_error, kind_result, kind_hello,
}
use rsb.Protocol.Wire.{Frame}

-- hostConn, without the process behind it
pub record HostConn : Type 0 where
  pub hello_json : Bytes
  pub routes : Dict ℕ
  pub next_ch : ℕ
  pub delivered : List (ℕ × Frame)
  pub client_in : List Frame
  pub closed : Bool

-- make(chan *protocol.Frame, 64)
abbrev pub client_in_size : ℕ
client_in_size = 64

-- The hostConn that openHostConn makes once the agent has said Hello.
unfoldable pub new_conn : Bytes → HostConn
new_conn hello = record {
  hello_json = hello;
  routes = [];
  next_ch = 0;
  delivered = [];
  client_in = [];
  closed = false;
}

unfoldable pub register : String → HostConn → ℕ × HostConn
register id h =
    (h.next_ch, record h { routes = insert id h.next_ch h.routes; next_ch = h.next_ch + 1 })

unfoldable pub unregister : String → HostConn → HostConn
unregister id h = record h { routes = delete id h.routes }

abbrev pub is_closed : HostConn → Bool
is_closed h = h.closed

unfoldable pub close : HostConn → HostConn
close h = if h.closed then h else record h { closed = true }

-- A non-blocking send; false when the connection is closed or its queue is full.
unfoldable pub send : Frame → HostConn → Bool × HostConn
send f h =
    if h.closed
    then (false, h)
    else if ltb (length h.client_in) client_in_size
    then (true, record h { client_in = h.client_in ++ f ∷ [] })
    else (false, h)

-- ch <- f
unfoldable pub deliver : ℕ → Frame → HostConn → HostConn
deliver ch f h = record h { delivered = h.delivered ++ (ch, f) ∷ [] }

-- The frames that end a request.
unfoldable pub is_terminal : Frame → Bool
is_terminal f = f.kind == kind_result || f.kind == kind_error

-- The code that `json` stands for: the probe of the id in a body ("" where there is none), and the
-- body of an Error frame.
pub record Json : Type 0 where
  pub probe_id : Bytes → String
  pub marshal : Message → Bytes

unfoldable pub routed : Option ℕ → Frame → String → HostConn → HostConn
routed none f id h = h
routed (some ch) f id h =
    deliver ch f (record h { routes = if is_terminal f then delete id h.routes else h.routes })

unfoldable pub fail_routes : Dict ℕ → Frame → HostConn → HostConn
fail_routes [] f h = h
fail_routes ((_, ch) ∷ routes) f h = fail_routes routes f (deliver ch f h)

-- What bridge does with one frame of the client: the connection, the frames it sends back at
-- once, and the channel whose replies a new goroutine copies back.
pub record Bridged : Type 0 where
  pub conn : HostConn
  pub back : List Frame
  pub pump : Option ℕ

unfoldable pub is_control : Frame → Bool
is_control f =
    f.kind == kind_stdin
    || (f.kind == kind_end_stdin || (f.kind == kind_cancel || f.kind == kind_file_chunk))

unfoldable pub forwarded : Bool × HostConn → Bridged
forwarded (_, h) = record { conn = h; back = []; pump = none }

module _ (json : Json) where
  unfoldable pub frame_id : Frame → String
  frame_id f = json.probe_id f.body

  -- The body of pumpFromAgent's loop.
  unfoldable pub route_reply : Frame → HostConn → HostConn
  unfolding routed
  route_reply f h =
      let id = frame_id f in if id == "" then h else routed (lookup id h.routes) f id h

  -- Error{Reason: reason}: no ID is set.
  unfoldable pub error_frame : String → String → Frame
  error_frame id reason = record {
    kind = kind_error;
    body = json.marshal (error (record { id = id; reason = reason }));
  }

  unfoldable pub fail_all : String → HostConn → HostConn
  unfolding fail_routes
  fail_all reason h = fail_routes h.routes (error_frame "" reason) (record h { routes = [] })

  -- pumpFromAgent on the frames that come before the read fails.
  unfoldable pub pump_from_agent : List Frame → HostConn → HostConn
  pump_from_agent [] h = close (fail_all "agent connection closed" h)
  pump_from_agent (f ∷ fs) h = pump_from_agent fs (route_reply f h)

  unfoldable pub requested : String → ℕ → Bool × HostConn → Bridged
  requested id ch (true, h) = record { conn = h; back = []; pump = some ch }
  requested id ch (false, h) = record {
    conn = h;
    back = error_frame id "host connection closed" ∷ [];
    pump = none;
  }

  unfoldable pub with_route : Frame → ℕ × HostConn → Bridged
  unfolding requested
  with_route f (ch, h) = requested (frame_id f) ch (send f h)

  unfoldable pub bridge_frame : Frame → HostConn → Bridged
  unfolding with_route forwarded
  bridge_frame f h =
      if f.kind == kind_request
      then with_route f (register (frame_id f) h)
      else if is_control f
      then forwarded (send f h)
      else record { conn = h; back = []; pump = none }

-- The goroutine that copies the replies of one channel back: it stops behind a terminal frame.
unfoldable pub copied : List Frame → List Frame
copied [] = []
copied (f ∷ fs) = let rest = copied fs in f ∷ (if is_terminal f then [] else rest)
