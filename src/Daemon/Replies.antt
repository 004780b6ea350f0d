-- ===== src/Daemon/Replies.antt =====
-- What a request that is registered on a connection gets from pumpFromAgent.
use rsb.Prelude.{
  ℕ, String, true, false, ◌≡◌, ◌≢◌, refl, ap, ◌∙◌, List, [], ◌∷◌, ◌++◌, some, arith, append_assoc,
  Bool-cases, inl, inr, if◌then◌else◌, ◌==◌, eq_iff,
}
use rsb.Prelude.Dict.{lookup}
use rsb.Protocol.Wire.{Frame}
use rsb.Daemon.{
  HostConn, Json, frame_id, routed, route_reply, error_frame, fail_all, pump_from_agent, close,
  is_terminal, copied,
}
use rsb.Daemon.Routes.{replies, Unrouted, Apart, replies-fail_routes, replies-fail_routes-Unrouted}
use rsb.Daemon.Deliveries.{
  routed-Apart, routed-Unrouted, routed_other, routed_own, routed_last, routed_more,
}

-- What a request that is registered under `id` gets from the frames of the agent.
unfoldable pub view : Json → String → List Frame → List Frame
view json id [] = error_frame json "" "agent connection closed" ∷ []
view json id (f ∷ fs) =
    let rest = view json id fs in
    if frame_id json f == id then f ∷ (if is_terminal f then [] else rest) else rest

-- The end of the connection.
close-delivered : (h : HostConn) → (close h).delivered ≡ h.delivered
unfolding close
close-delivered h = elim (Bool-cases h.closed) [ inl e ↦ simp (e) refl | inr e ↦ simp (e) refl ]

module _ (json : Json) where
  gone : Frame
  gone = error_frame json "" "agent connection closed"

  route_reply-Apart :
      (f : Frame) (h : HostConn) → Apart h.routes → Apart (route_reply json f h).routes
  unfolding route_reply
  route_reply-Apart f h a = elim (Bool-cases (frame_id json f == "")) [
    | inl e ↦ rw e a
    | inr e ↦ rw e (routed-Apart (lookup (frame_id json f) h.routes) f (frame_id json f) h a)
  ]

  route_reply-Unrouted :
      (c : ℕ) (f : Frame) (h : HostConn)
      → Unrouted c h.routes
      → (replies c (route_reply json f h).delivered ≡ replies c h.delivered)
        × Unrouted c (route_reply json f h).routes
  unfolding route_reply
  route_reply-Unrouted c f h u = elim (Bool-cases (frame_id json f == "")) [
    | inl e ↦ rw e (refl, u)
    | inr e ↦
        rw e (routed-Unrouted c (lookup (frame_id json f) h.routes) f (frame_id json f) h refl u)
  ]

  route_reply_other :
      (c : ℕ) (f : Frame) (id : String) (h : HostConn)
      → Apart h.routes
      → lookup id h.routes ≡ some c
      → (frame_id json f == id) ≡ false
      → (replies c (route_reply json f h).delivered ≡ replies c h.delivered)
        × (lookup id (route_reply json f h).routes ≡ some c)
  unfolding route_reply
  route_reply_other c f id h a mine ne = elim (Bool-cases (frame_id json f == "")) [
    | inl e ↦ rw e (refl, mine)
    | inr e ↦
        rw e (
          routed_other c (lookup (frame_id json f) h.routes) f id (frame_id json f) h a refl mine
            ne)
  ]

  -- A frame of the id itself.
  route_reply_own :
      (c : ℕ) (f : Frame) (id : String) (h : HostConn)
      → id ≢ ""
      → lookup id h.routes ≡ some c
      → (frame_id json f == id) ≡ true
      → route_reply json f h ≡ routed (some c) f id h
  unfolding route_reply
  route_reply_own c f id h ne mine same =
      let e : frame_id json f ≡ id = ground (arith, eq_iff (frame_id json f) id, same) in
      let ne' : (id == "") ≡ false = ground (arith, eq_iff id "", ne) in rw (e, ne', mine) refl

  pump-Unrouted :
      (c : ℕ) (fs : List Frame) (h : HostConn)
      → Unrouted c h.routes
      → replies c (pump_from_agent json fs h).delivered ≡ replies c h.delivered
  unfolding pump_from_agent fail_all gone
  pump-Unrouted c [] h u =
      ap (λ (x : List (ℕ × Frame)). replies c x)
        (close-delivered (fail_all json "agent connection closed" h))
      ∙ replies-fail_routes-Unrouted c gone h.routes (record h { routes = [] }) u
  pump-Unrouted c (f ∷ fs) h u =
      let (same, still) = route_reply-Unrouted c f h u in
      pump-Unrouted c fs (route_reply json f h) still ∙ same

  after_own :
      (id : String) (fs : List Frame) (c : ℕ) (f : Frame) (h : HostConn) (rest : List Frame)
      → Apart h.routes
      → lookup id h.routes ≡ some c
      → (Apart (routed (some c) f id h).routes
          → lookup id (routed (some c) f id h).routes ≡ some c
          → replies c (pump_from_agent json fs (routed (some c) f id h)).delivered
            ≡ replies c (routed (some c) f id h).delivered ++ rest)
      → replies c (pump_from_agent json fs (routed (some c) f id h)).delivered
        ≡ replies c h.delivered ++ f ∷ (if is_terminal f then [] else rest)
  after_own id fs c f h rest a mine go = elim (Bool-cases (is_terminal f)) [
    | inl last ↦ rw last (
        pump-Unrouted c fs (routed (some c) f id h) (routed_last c f id h a mine last)
        ∙ routed_own c f id h)
    | inr more ↦ rw more (
        go (routed-Apart (some c) f id h a) (routed_more c f id h mine more)
        ∙ ap (λ (x : List Frame). x ++ rest) (routed_own c f id h)
        ∙ append_assoc (replies c h.delivered) (f ∷ []) rest)
  ]

  -- On a connection whose routes lead to different channels, a request that is registered under an id
  -- that is not empty gets on its reply channel, in order, exactly those frames of the agent that carry
  -- its id, up to and including the first Result or Error; when the connection ends before such a
  -- frame, an Error follows them.
  pub pump_from_agent-view :
      (id : String) (fs : List Frame) (c : ℕ) (h : HostConn)
      → id ≢ ""
      → Apart h.routes
      → lookup id h.routes ≡ some c
      → replies c (pump_from_agent json fs h).delivered ≡ replies c h.delivered ++ view json id fs
  unfolding pump_from_agent fail_all view gone
  pump_from_agent-view id [] c h ne a mine =
      ap (λ (x : List (ℕ × Frame)). replies c x)
        (close-delivered (fail_all json "agent connection closed" h))
      ∙ replies-fail_routes c id gone h.routes (record h { routes = [] }) a mine
  pump_from_agent-view id (f ∷ fs) c h ne a mine = elim (Bool-cases (frame_id json f == id)) [
    | inl e ↦ rw e (
        ap (λ (x : HostConn). replies c (pump_from_agent json fs x).delivered)
          (route_reply_own c f id h ne mine e)
        ∙ after_own id fs c f h (view json id fs) a mine
            (λ a' mine'. pump_from_agent-view id fs c (routed (some c) f id h) ne a' mine'))
    | inr e ↦
        let (same, still) = route_reply_other c f id h a mine e in
        rw e (
          pump_from_agent-view id fs c (route_reply json f h) ne (route_reply-Apart f h a) still
          ∙ ap (λ (x : List Frame). x ++ view json id fs) same)
  ]

  -- The view of a request is copied to the client whole.
  pub copied-view : (id : String) (fs : List Frame) → copied (view json id fs) ≡ view json id fs
  unfolding copied view error_frame is_terminal
  copied-view id [] = refl
  copied-view id (f ∷ fs) = elim (Bool-cases (frame_id json f == id)) [
    | inl e ↦ elim (Bool-cases (is_terminal f)) [
      | inl last ↦ rw (e, last) refl
      | inr more ↦ rw (e, more) (ap (◌∷◌ f) (copied-view id fs))
    ]
    | inr e ↦ rw e (copied-view id fs)
  ]
