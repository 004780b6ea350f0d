-- ===== src/Daemon/Once.antt =====
-- The end of a reply channel: its terminal frame.
use rsb.Prelude.{
  ℕ, String, Bool, true, false, ◌≡◌, ◌≢◌, ◌⊎◌, ◌<◌, ◌≤◌, refl, sym, ap, ◌∙◌, Bytes, List, [], ◌∷◌,
  ◌++◌, Option, none, some, arith, append-nil, Bool-cases, inl, inr, length, ltb, ◌==◌, eq_iff, eqb,
  All, All-append, subst,
}
use rsb.Prelude.Dict.{Dict, lookup}
use rsb.Protocol.{kind_request}
use rsb.Protocol.Wire.{Frame}
use rsb.Daemon.{
  HostConn, new_conn, Json, frame_id, register, unregister, close, send, bridge_frame, route_reply,
  routed, error_frame, fail_all, fail_routes, deliver, client_in_size, is_terminal, requested,
  with_route, forwarded, is_control,
}
use rsb.Daemon.Routes.{
  replies, Unrouted, Apart, Below, Unrouted-insert, Unrouted-delete, Below-lookup, replies-deliver,
  replies-fail_routes-Unrouted,
}
use rsb.Daemon.Deliveries.{elsewhere, routed_own, routed_last, routed-Unrouted}
use rsb.Daemon.Safety.{
  Step, client, agent, to_agent, fail, shut, forget, Steps, here, next, Inv, Steps-Inv,
}

abbrev pub Terminal : Frame → Type 0
Terminal f = (f.kind ≡ "result") ⊎ (f.kind ≡ "error")

abbrev pub Ongoing : Frame → Type 0
Ongoing f = (f.kind ≢ "result") × (f.kind ≢ "error")

-- A channel that has no terminal frame yet, or one, which is the last, and no route any more.
pub data Once (c : ℕ) (h : HostConn) : Type 0 where
  pending : All Ongoing (replies c h.delivered) → Once c h
  ended :
      (before : List Frame) (last : Frame)
      → replies c h.delivered ≡ before ++ last ∷ []
      → All Ongoing before
      → Terminal last
      → c < h.next_ch
      → Unrouted c h.routes
      → Once c h

is_terminal-Terminal : (f : Frame) → is_terminal f ≡ true → Terminal f
unfolding is_terminal
is_terminal-Terminal f e = elim (Bool-cases (f.kind == "result")) [
  | inl r ↦ inl ((eq_iff f.kind "result").0 r)
  | inr r ↦ inr ((eq_iff f.kind "error").0 (rw r at e))
]

is_terminal-Ongoing : (f : Frame) → is_terminal f ≡ false → Ongoing f
unfolding is_terminal
is_terminal-Ongoing f e = (λ h. absurd (cc (rw h at e)), λ h. absurd (cc (rw h at e)))

-- A step that sends nothing on the channel and makes no route to it.
Once-kept :
    (c : ℕ) (h h' : HostConn)
    → replies c h'.delivered ≡ replies c h.delivered
    → h.next_ch ≤ h'.next_ch
    → (c < h.next_ch → Unrouted c h.routes → Unrouted c h'.routes)
    → Once c h
    → Once c h'
Once-kept c h h' same more kept (pending o) = pending (subst (λ fs. All Ongoing fs) (sym same) o)
Once-kept c h h' same more kept (ended before last e o t handed u) =
    ended before last (same ∙ e) o t (omega (arith, handed, more)) (kept handed u)

module _ (c : ℕ) where
  Once-send : (f : Frame) (h : HostConn) → Once c h → Once c (send f h).1
  unfolding send
  Once-send f h o = elim (Bool-cases h.closed) [
    | inl e ↦ simp (e) o
    | inr e ↦ elim (Bool-cases (ltb (length h.client_in) client_in_size)) [
      | inl room ↦
          simp (e, room)
            (Once-kept c h (record h { client_in = h.client_in ++ f ∷ []; closed = false }) refl
              (omega arith) (λ handed u. u) o)
      | inr full ↦ simp (e, full) o
    ]
  ]

  Once-register : (id : String) (h : HostConn) → Once c h → Once c (register id h).1
  unfolding register
  Once-register id h o =
      Once-kept c h (register id h).1 refl (omega arith)
        (λ handed u.
          Unrouted-insert c h.next_ch id h.routes (λ same. omega (arith, same, handed)) u)
        o

  Once-requested :
      (json : Json) (id : String) (ch : ℕ) (r : Bool × HostConn)
      → Once c r.1
      → Once c (requested json id ch r).conn
  unfolding requested
  Once-requested json id ch (true, h) o = o
  Once-requested json id ch (false, h) o = o

  Once-bridge_frame :
      (json : Json) (f : Frame) (h : HostConn) → Once c h → Once c (bridge_frame json f h).conn
  unfolding bridge_frame with_route forwarded
  Once-bridge_frame json f h o = elim (Bool-cases (f.kind == kind_request)) [
    | inl e ↦
        let (ch, h') = register (frame_id json f) h in
        rw e (
          Once-requested json (frame_id json f) ch (send f h')
            (Once-send f h' (Once-register (frame_id json f) h o)))
    | inr e ↦ elim (Bool-cases (is_control f)) [
      | inl control ↦ rw (e, control) (Once-send f h o)
      | inr control ↦ rw (e, control) o
    ]
  ]

  Once-close : (h : HostConn) → Once c h → Once c (close h)
  unfolding close
  Once-close h o = elim (Bool-cases h.closed) [
    | inl e ↦ simp (e) o
    | inr e ↦
        simp (e) (Once-kept c h (record h { closed = true }) refl (omega arith) (λ handed u. u) o)
  ]

  -- A frame on the channel itself.
  Once-own :
      (f : Frame) (id : String) (h : HostConn)
      → Inv h
      → lookup id h.routes ≡ some c
      → All Ongoing (replies c h.delivered)
      → Once c (routed (some c) f id h)
  unfolding routed deliver
  Once-own f id h v found o = elim (Bool-cases (is_terminal f)) [
    | inl e ↦
        ended (replies c h.delivered) f (routed_own c f id h) o (is_terminal-Terminal f e)
          (Below-lookup h.next_ch c id h.routes v.routed.below found)
          (routed_last c f id h v.routed.apart found e)
    | inr e ↦ pending (
        subst (λ fs. All Ongoing fs) (sym (routed_own c f id h))
          (All-append Ongoing (replies c h.delivered) (f ∷ []) o (is_terminal-Ongoing f e, tt)))
  ]

  Once-routed :
      (o : Option ℕ) (f : Frame) (id : String) (h : HostConn)
      → Inv h
      → lookup id h.routes ≡ o
      → Once c h
      → Once c (routed o f id h)
  unfolding routed deliver
  Once-routed none f id h v found o = o
  Once-routed (some d) f id h v found (ended before last e o t handed u) =
      let (same, u') = routed-Unrouted c (some d) f id h found u in
      ended before last (same ∙ e) o t handed u'
  Once-routed (some d) f id h v found (pending o) = elim (Bool-cases (eqb d c)) [
    | inl e ↦
        let same : d ≡ c = ground (arith, e) in
        subst (λ x. Once c (routed (some x) f id h)) (sym same)
          (Once-own f id h v (found ∙ ap (λ (x : ℕ). some x) same) o)
    | inr e ↦ pending (
        subst (λ fs. All Ongoing fs)
          (sym (elsewhere c d f id h (λ same. absurd (ground (arith, e, same))))) o)
  ]

  -- failAll sends its frame on every routed channel, and on no other.
  fail_routes-cases :
      (n : ℕ) (f : Frame) (m : Dict ℕ) (h : HostConn)
      → Apart m
      → Below n m
      → (replies c (fail_routes m f h).delivered ≡ replies c h.delivered)
        ⊎ ((c < n) × (replies c (fail_routes m f h).delivered ≡ replies c h.delivered ++ f ∷ []))
  unfolding fail_routes
  fail_routes-cases n f [] h a b = inl refl
  fail_routes-cases n f ((_, d) ∷ m) h (u, a) (lt, b) = elim (Bool-cases (eqb d c)) [
    | inl e ↦
        let same : d ≡ c = ground (arith, e) in
        inr (
          omega (arith, lt, same),
          replies-fail_routes-Unrouted c f m (deliver d f h) (subst (λ x. Unrouted x m) same u)
              ∙ replies-deliver c d f h
              ∙ rw e refl,
        )
    | inr e ↦
        let skipped : replies c (deliver d f h).delivered ≡ replies c h.delivered =
          replies-deliver c d f h ∙ rw e (append-nil (replies c h.delivered)) in
        elim (fail_routes-cases n f m (deliver d f h) a b) [
          | inl kept ↦ inl (kept ∙ skipped)
          | inr (below, sent) ↦ inr (below, sent ∙ ap (λ (x : List Frame). x ++ f ∷ []) skipped)
        ]
  ]

  fail_routes-routes :
      (f : Frame) (m : Dict ℕ) (h : HostConn)
      → ((fail_routes m f h).routes ≡ h.routes) × ((fail_routes m f h).next_ch ≡ h.next_ch)
  unfolding fail_routes deliver
  fail_routes-routes f [] h = (refl, refl)
  fail_routes-routes f ((_, d) ∷ m) h = fail_routes-routes f m (deliver d f h)

  Once-fail_routes :
      (f : Frame) (h : HostConn)
      → Terminal f
      → Inv h
      → Once c h
      → Once c (fail_routes h.routes f (record h { routes = [] }))
  Once-fail_routes f h t v (ended before last e o t' handed u) =
      let bare = record h { routes = [] } in
      let (no_routes, same_ch) = fail_routes-routes f h.routes bare in
      ended before last (replies-fail_routes-Unrouted c f h.routes bare u ∙ e) o t'
        (omega (arith, handed, same_ch)) (subst (λ m. Unrouted c m) (sym no_routes) tt)
  Once-fail_routes f h t v (pending o) =
      let bare = record h { routes = [] } in
      let (no_routes, same_ch) = fail_routes-routes f h.routes bare in
      elim (fail_routes-cases h.next_ch f h.routes bare v.routed.apart v.routed.below) [
        | inl kept ↦ pending (subst (λ fs. All Ongoing fs) (sym kept) o)
        | inr (below, sent) ↦
            ended (replies c h.delivered) f sent o t (omega (arith, below, same_ch))
              (subst (λ m. Unrouted c m) (sym no_routes) tt)
      ]

  module _ (json : Json) where
    Once-step : (h h' : HostConn) → Inv h → Once c h → Step json h h' → Once c h'
    unfolding route_reply fail_all error_frame unregister
    Once-step h h' v o (client f e) = rw e (Once-bridge_frame json f h o)
    Once-step h h' v o (agent f e) = elim (Bool-cases (frame_id json f == "")) [
      | inl bare ↦ rw e (rw bare o)
      | inr named ↦ rw e (
          rw named (Once-routed (lookup (frame_id json f) h.routes) f (frame_id json f) h v refl o))
    ]
    Once-step h h' v o (to_agent f rest q e) =
        rw e (Once-kept c h (record h { client_in = rest }) refl (omega arith) (λ handed u. u) o)
    Once-step h h' v o (fail reason e) =
        rw e (Once-fail_routes (error_frame json "" reason) h (inr refl) v o)
    Once-step h h' v o (shut e) = rw e (Once-close h o)
    Once-step h h' v o (forget id e) = rw e (
        Once-kept c h (unregister id h) refl (omega arith)
          (λ handed u. Unrouted-delete c id h.routes u) o)

-- Whatever the client sessions and the pumps do on a connection, in any order: a reply channel gets at
-- most one Result or Error; that is the last frame that is sent on it, and no route leads to the channel
-- any more.
pub Steps-Once :
    (json : Json) (hello : Bytes) (c : ℕ) (h : HostConn) → Steps json (new_conn hello) h → Once c h
unfolding new_conn replies
Steps-Once json hello c _ here = pending tt
Steps-Once json hello c h (next {m = m} p q) =
    Once-step c json m h (Steps-Inv json hello m p) (Steps-Once json hello c m p) q
