-- ===== src/Daemon/Late.antt =====
-- A request that a client sends between failAll and close, at the end of the agent's connection.
use rsb.Prelude.{
  subst, String, false, ◌≡◌, refl, sym, ap, ◌∙◌, Bytes, List, [], ◌∷◌, some, arith, length, ◌<◌, ℕ,
  Bool-cases, inl, inr,
}
use rsb.Prelude.Dict.{Dict}
use rsb.Protocol.{kind_request}
use rsb.Protocol.Wire.{Frame}
use rsb.Daemon.{
  HostConn, new_conn, Json, frame_id, register, close, bridge_frame, error_frame, fail_all,
  fail_routes, deliver, client_in_size,
}
use rsb.Daemon.Routes.{replies}
use rsb.Daemon.Safety.{Step, Steps, next, Inv, Steps-Inv}
use rsb.Daemon.Bridge.{queued, bridge_frame-queued}

-- failAll leaves the queue and the flag alone.
fail_routes-queue :
    (m : Dict ℕ) (f : Frame) (h : HostConn)
    → ((fail_routes m f h).closed ≡ h.closed) × ((fail_routes m f h).client_in ≡ h.client_in)
unfolding fail_routes deliver
fail_routes-queue [] f h = (refl, refl)
fail_routes-queue ((_, d) ∷ m) f h = fail_routes-queue m f (deliver d f h)

fail_all-queue :
    (json : Json) (reason : String) (h : HostConn)
    → ((fail_all json reason h).closed ≡ h.closed)
      × ((fail_all json reason h).client_in ≡ h.client_in)
unfolding fail_all
fail_all-queue json reason h =
    fail_routes-queue h.routes (error_frame json "" reason) (record h { routes = [] })

close-delivered_same : (h : HostConn) → (close h).delivered ≡ h.delivered
unfolding close
close-delivered_same h = elim (Bool-cases h.closed) [
  | inl e ↦ simp (e) refl
  | inr e ↦ simp (e) refl
]

-- A request that comes after failAll and before close, on a reachable connection that is open and has
-- room, is taken like any other and gets a reply channel, but nothing was sent on that channel when
-- the connection is closed, and pumpFromAgent has ended.
pub bridge_frame-fail_all :
    (json : Json) (hello : Bytes) (h : HostConn) (reason : String) (f : Frame)
    → Steps json (new_conn hello) h
    → h.closed ≡ false
    → length h.client_in < client_in_size
    → f.kind ≡ kind_request
    → (ch : ℕ) × (((bridge_frame json f (fail_all json reason h)).pump ≡ some ch)
        × (replies ch (close (bridge_frame json f (fail_all json reason h)).conn).delivered ≡ []))
unfolding register queued
bridge_frame-fail_all json hello h reason f run usable room req =
    let h' : HostConn = fail_all json reason h in
    let (flag, queue) = fail_all-queue json reason h in
    let v : Inv h' = Steps-Inv json hello h' (next run (Step.fail reason refl)) in
    let taken =
      bridge_frame-queued json f h' (flag ∙ usable)
        (subst (λ (q : List Frame). length q < client_in_size) (sym queue) room) req in
    rw taken (
      h'.next_ch,
      (
        refl,
        ap (λ (x : List (ℕ × Frame)). replies h'.next_ch x)
              (close-delivered_same (queued json f (register (frame_id json f) h').1))
            ∙ v.routed.unused h'.next_ch (omega arith),
      ),
    )
