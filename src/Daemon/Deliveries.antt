-- ===== src/Daemon/Deliveries.antt =====
-- What one frame of the agent does to the routes and to a channel, by what is found for its id.
use rsb.Prelude.{
  ℕ, String, true, false, ◌≡◌, ◌≢◌, refl, sym, ap, ◌∙◌, [], ◌∷◌, ◌++◌, Option, none, some, arith,
  append-nil, Bool-cases, inl, inr, if◌then◌else◌, ◌==◌, eq_iff, eqb, subst,
}
use rsb.Prelude.Dict.{Dict, lookup, delete, lookup-delete}
use rsb.Protocol.Wire.{Frame}
use rsb.Daemon.{HostConn, routed, deliver, is_terminal}
use rsb.Daemon.Routes.{
  replies, Unrouted, Apart, Unrouted-delete, Apart-delete, Unrouted-lookup, Apart-lookup,
  Unrouted-delete_found, replies-deliver, ne→not_eqb, eq→eqb,
}

-- The routes behind a frame.
pub routes_after : Frame → String → Dict ℕ → Dict ℕ
routes_after f k m = if is_terminal f then delete k m else m

pub routed-routes :
    (f : Frame) (k : String) (d : ℕ) (h : HostConn)
    → (routed (some d) f k h).routes ≡ routes_after f k h.routes
unfolding routed deliver routes_after
routed-routes f k d h = refl

pub routed-replies :
    (c d : ℕ) (f : Frame) (k : String) (h : HostConn)
    → replies c (routed (some d) f k h).delivered
      ≡ replies c h.delivered ++ (if eqb d c then f ∷ [] else [])
unfolding routed
routed-replies c d f k h =
    replies-deliver c d f
      (record h { routes = if is_terminal f then delete k h.routes else h.routes })

pub Apart-routes_after :
    (f : Frame) (k : String) (m : Dict ℕ) → Apart m → Apart (routes_after f k m)
unfolding routes_after
Apart-routes_after f k m a = elim (Bool-cases (is_terminal f)) [
  | inl e ↦ rw e (Apart-delete k m a)
  | inr e ↦ rw e a
]

pub Unrouted-routes_after :
    (c : ℕ) (f : Frame) (k : String) (m : Dict ℕ) → Unrouted c m → Unrouted c (routes_after f k m)
unfolding routes_after
Unrouted-routes_after c f k m u = elim (Bool-cases (is_terminal f)) [
  | inl e ↦ rw e (Unrouted-delete c k m u)
  | inr e ↦ rw e u
]

pub lookup-routes_after :
    (f : Frame) (j k : String) (m : Dict ℕ)
    → (k == j) ≡ false
    → lookup j (routes_after f k m) ≡ lookup j m
unfolding routes_after
lookup-routes_after f j k m ne = elim (Bool-cases (is_terminal f)) [
  | inl e ↦ rw (e, lookup-delete k j m, ne) refl
  | inr e ↦ rw e refl
]

pub routed-Apart :
    (o : Option ℕ) (f : Frame) (k : String) (h : HostConn)
    → Apart h.routes
    → Apart (routed o f k h).routes
unfolding routed routes_after
routed-Apart none f k h a = a
routed-Apart (some d) f k h a =
    subst (λ m. Apart m) (sym (routed-routes f k d h)) (Apart-routes_after f k h.routes a)

-- A delivery on another channel.
pub elsewhere :
    (c d : ℕ) (f : Frame) (k : String) (h : HostConn)
    → d ≢ c
    → replies c (routed (some d) f k h).delivered ≡ replies c h.delivered
elsewhere c d f k h ne =
    routed-replies c d f k h ∙ rw (ne→not_eqb d c ne) (append-nil (replies c h.delivered))

pub routed-Unrouted :
    (c : ℕ) (o : Option ℕ) (f : Frame) (k : String) (h : HostConn)
    → lookup k h.routes ≡ o
    → Unrouted c h.routes
    → (replies c (routed o f k h).delivered ≡ replies c h.delivered)
      × Unrouted c (routed o f k h).routes
unfolding routed
routed-Unrouted c none f k h found u = (refl, u)
routed-Unrouted c (some d) f k h found u = (
  elsewhere c d f k h
      (λ same. Unrouted-lookup c k h.routes u (found ∙ ap (λ (x : ℕ). some x) same)),
  subst (λ m. Unrouted c m) (sym (routed-routes f k d h)) (Unrouted-routes_after c f k h.routes u),
)

pub routed_other :
    (c : ℕ) (o : Option ℕ) (f : Frame) (j k : String) (h : HostConn)
    → Apart h.routes
    → lookup k h.routes ≡ o
    → lookup j h.routes ≡ some c
    → (k == j) ≡ false
    → (replies c (routed o f k h).delivered ≡ replies c h.delivered)
      × (lookup j (routed o f k h).routes ≡ some c)
unfolding routed
routed_other c none f j k h a found mine ne = (refl, mine)
routed_other c (some d) f j k h a found mine ne = (
  elsewhere c d f k h (λ same.
      let e : k ≡ j = Apart-lookup c k j h.routes a (found ∙ ap (λ (x : ℕ). some x) same) mine in
      absurd (ground (arith, eq_iff k j, e, ne))),
  ap (λ (m : Dict ℕ). lookup j m) (routed-routes f k d h)
      ∙ lookup-routes_after f j k h.routes ne
      ∙ mine,
)

pub routed_own :
    (c : ℕ) (f : Frame) (k : String) (h : HostConn)
    → replies c (routed (some c) f k h).delivered ≡ replies c h.delivered ++ f ∷ []
routed_own c f k h = routed-replies c c f k h ∙ rw (eq→eqb c c refl) refl

pub routed_last :
    (c : ℕ) (f : Frame) (k : String) (h : HostConn)
    → Apart h.routes
    → lookup k h.routes ≡ some c
    → is_terminal f ≡ true
    → Unrouted c (routed (some c) f k h).routes
unfolding routes_after
routed_last c f k h a mine last =
    subst (λ m. Unrouted c m) (sym (routed-routes f k c h))
      (rw last (Unrouted-delete_found c k h.routes a mine))

pub routed_more :
    (c : ℕ) (f : Frame) (k : String) (h : HostConn)
    → lookup k h.routes ≡ some c
    → is_terminal f ≡ false
    → lookup k (routed (some c) f k h).routes ≡ some c
unfolding routes_after
routed_more c f k h mine more =
    ap (λ (m : Dict ℕ). lookup k m) (routed-routes f k c h) ∙ rw more mine
