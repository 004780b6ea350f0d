-- ===== src/Daemon/Safety.antt =====
-- The steps of a connection, and what holds in every state that they reach.
use rsb.Prelude.{
  ℕ, String, Bool, true, false, ◌≡◌, ◌<◌, ◌≤◌, refl, ◌∙◌, Bytes, List, [], ◌∷◌, ◌++◌, Option, none,
  some, arith, append-nil, Bool-cases, inl, inr, length, length-append, ltb, ltb→lt, if◌then◌else◌,
  ◌==◌,
}
use rsb.Prelude.Dict.{Dict, lookup, delete}
use rsb.Protocol.{kind_request}
use rsb.Protocol.Wire.{Frame}
use rsb.Daemon.{
  HostConn, new_conn, Json, frame_id, register, unregister, close, send, bridge_frame, route_reply,
  routed, error_frame, fail_all, fail_routes, deliver, client_in_size, is_terminal, requested,
  with_route, forwarded, is_control,
}
use rsb.Daemon.Routes.{
  replies, Below, WellRouted, Apart-insert, Below-insert, Apart-delete, Below-delete, Below-lookup,
  replies-deliver, ne→not_eqb,
}

-- One step of bridge, of a pump or of the daemon's end.
pub data Step (json : Json) (h h' : HostConn) : Type 0 where
  client : (f : Frame) → h' ≡ (bridge_frame json f h).conn → Step json h h'
  agent : (f : Frame) → h' ≡ route_reply json f h → Step json h h'
  to_agent :
      (f : Frame) (rest : List Frame)
      → h.client_in ≡ f ∷ rest
      → h' ≡ record h { client_in = rest }
      → Step json h h'
  fail : (reason : String) → h' ≡ fail_all json reason h → Step json h h'
  shut : h' ≡ close h → Step json h h'
  forget : (id : String) → h' ≡ unregister id h → Step json h h'

pub data Steps (json : Json) (h : HostConn) : HostConn → Type 0 where
  here : Steps json h h
  next : {m t : HostConn} → Steps json h m → Step json m t → Steps json h t

pub record Inv (h : HostConn) : Type 0 where
  pub routed : WellRouted h
  pub bounded : length h.client_in ≤ client_in_size

new_conn-Inv : (hello : Bytes) → Inv (new_conn hello)
unfolding new_conn replies
new_conn-Inv hello = record {
  routed = record { apart = tt; below = tt; unused = λ c le. refl };
  bounded = omega arith;
}

WellRouted-register : (id : String) (h : HostConn) → WellRouted h → WellRouted (register id h).1
unfolding register
WellRouted-register id h v = record {
  apart = Apart-insert h.next_ch id h.routes v.below v.apart;
  below = Below-insert h.next_ch id h.routes v.below;
  unused = λ c le. v.unused c (omega (arith, le));
}

queue_grows :
    {A : Type 0} (f : A) (q : List A) (n : ℕ) → ltb (length q) n ≡ true → length (q ++ f ∷ []) ≤ n
queue_grows f q n room =
    let fits : length q < n = ltb→lt (length q) n room in
    omega (arith, length-append q (f ∷ []), fits)

tail-bounded :
    {A : Type 0} (f : A) (rest q : List A) (n : ℕ) → q ≡ f ∷ rest → length q ≤ n → length rest ≤ n
tail-bounded f rest q n same h = let h' : length (f ∷ rest) ≤ n = rw same at h in omega (arith, h')

Inv-send : (f : Frame) (h : HostConn) → Inv h → Inv (send f h).1
unfolding send
Inv-send f h v = elim (Bool-cases h.closed) [
  | inl e ↦ simp (e) v
  | inr e ↦ elim (Bool-cases (ltb (length h.client_in) client_in_size)) [
    | inl room ↦
        simp (e, room)
          (record {
            routed = record {
              apart = v.routed.apart;
              below = v.routed.below;
              unused = v.routed.unused;
            };
            bounded = queue_grows f h.client_in client_in_size room;
          })
    | inr full ↦ simp (e, full) v
  ]
]

Inv-register : (id : String) (h : HostConn) → Inv h → Inv (register id h).1
unfolding register
Inv-register id h v = record { routed = WellRouted-register id h v.routed; bounded = v.bounded }

Inv-unregister : (id : String) (h : HostConn) → Inv h → Inv (unregister id h)
unfolding unregister
Inv-unregister id h v = record {
  routed = record {
    apart = Apart-delete id h.routes v.routed.apart;
    below = Below-delete h.next_ch id h.routes v.routed.below;
    unused = v.routed.unused;
  };
  bounded = v.bounded;
}

Inv-close : (h : HostConn) → Inv h → Inv (close h)
unfolding close
Inv-close h v = elim (Bool-cases h.closed) [
  | inl e ↦ simp (e) v
  | inr e ↦ simp (e) (record {
    routed = record { apart = v.routed.apart; below = v.routed.below; unused = v.routed.unused };
    bounded = v.bounded;
  })
]

Inv-deliver : (d : ℕ) (f : Frame) (h : HostConn) → d < h.next_ch → Inv h → Inv (deliver d f h)
unfolding deliver
Inv-deliver d f h lt v = record {
  routed = record {
    apart = v.routed.apart;
    below = v.routed.below;
    unused = λ c le.
        replies-deliver c d f h
        ∙ rw (ne→not_eqb d c (λ same. omega (arith, same, le, lt)))
            (append-nil (replies c h.delivered) ∙ v.routed.unused c le);
  };
  bounded = v.bounded;
}

Inv-fail_routes :
    (m : Dict ℕ) (f : Frame) (h : HostConn) → Below h.next_ch m → Inv h → Inv (fail_routes m f h)
unfolding fail_routes deliver
Inv-fail_routes [] f h b v = v
Inv-fail_routes ((_, d) ∷ m) f h (lt, b) v =
    Inv-fail_routes m f (deliver d f h) b (Inv-deliver d f h lt v)

Inv-terminated :
    (id : String) (b : Bool) (h : HostConn)
    → Inv h
    → Inv (record h { routes = if b then delete id h.routes else h.routes })
Inv-terminated id true h v = record {
  routed = record {
    apart = Apart-delete id h.routes v.routed.apart;
    below = Below-delete h.next_ch id h.routes v.routed.below;
    unused = v.routed.unused;
  };
  bounded = v.bounded;
}
Inv-terminated id false h v = record {
  routed = record { apart = v.routed.apart; below = v.routed.below; unused = v.routed.unused };
  bounded = v.bounded;
}

Inv-routed :
    (o : Option ℕ) (f : Frame) (id : String) (h : HostConn)
    → lookup id h.routes ≡ o
    → Inv h
    → Inv (routed o f id h)
unfolding routed
Inv-routed none f id h found v = v
Inv-routed (some d) f id h found v =
    Inv-deliver d f (record h { routes = if is_terminal f then delete id h.routes else h.routes })
      (Below-lookup h.next_ch d id h.routes v.routed.below found)
      (Inv-terminated id (is_terminal f) h v)

module _ (json : Json) where
  Inv-route_reply : (f : Frame) (h : HostConn) → Inv h → Inv (route_reply json f h)
  unfolding route_reply
  Inv-route_reply f h v = elim (Bool-cases (frame_id json f == "")) [
    | inl e ↦ rw e v
    | inr e ↦ rw e (Inv-routed (lookup (frame_id json f) h.routes) f (frame_id json f) h refl v)
  ]

  Inv-fail_all : (reason : String) (h : HostConn) → Inv h → Inv (fail_all json reason h)
  unfolding fail_all
  Inv-fail_all reason h v =
      Inv-fail_routes h.routes (error_frame json "" reason) (record h { routes = [] })
        v.routed.below
        (record {
          routed = record { apart = tt; below = tt; unused = v.routed.unused };
          bounded = v.bounded;
        })

  Inv-requested :
      (id : String) (ch : ℕ) (r : Bool × HostConn) → Inv r.1 → Inv (requested json id ch r).conn
  unfolding requested
  Inv-requested id ch (true, h) v = v
  Inv-requested id ch (false, h) v = v

  Inv-bridge_frame : (f : Frame) (h : HostConn) → Inv h → Inv (bridge_frame json f h).conn
  unfolding bridge_frame with_route forwarded
  Inv-bridge_frame f h v = elim (Bool-cases (f.kind == kind_request)) [
    | inl e ↦
        let (ch, h') = register (frame_id json f) h in
        rw e (
          Inv-requested (frame_id json f) ch (send f h')
            (Inv-send f h' (Inv-register (frame_id json f) h v)))
    | inr e ↦ elim (Bool-cases (is_control f)) [
      | inl c ↦ rw (e, c) (Inv-send f h v)
      | inr c ↦ rw (e, c) v
    ]
  ]

  Inv-step : (h h' : HostConn) → Inv h → Step json h h' → Inv h'
  Inv-step h h' v (client f e) = rw e (Inv-bridge_frame f h v)
  Inv-step h h' v (agent f e) = rw e (Inv-route_reply f h v)
  Inv-step h h' v (to_agent f rest q e) = rw e (record {
    routed = record { apart = v.routed.apart; below = v.routed.below; unused = v.routed.unused };
    bounded = tail-bounded f rest h.client_in client_in_size q v.bounded;
  })
  Inv-step h h' v (fail reason e) = rw e (Inv-fail_all reason h v)
  Inv-step h h' v (shut e) = rw e (Inv-close h v)
  Inv-step h h' v (forget id e) = rw e (Inv-unregister id h v)

  -- Whatever the client sessions and the pumps do on a connection, in any order: no two routes lead
  -- to one reply channel, every routed channel was handed out before, a channel that was not handed
  -- out has no reply yet, and at most 64 frames wait for the agent.
  pub Steps-Inv : (hello : Bytes) (h : HostConn) → Steps json (new_conn hello) h → Inv h
  Steps-Inv hello _ here = new_conn-Inv hello
  Steps-Inv hello h (next {m = m} p q) = Inv-step m h (Steps-Inv hello m p) q
