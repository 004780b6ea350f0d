-- ===== src/Daemon/Routes.antt =====
-- The routes of a connection: no two lead to one channel, and what a delivery or failAll does to one
-- channel.
use rsb.Prelude.{
  ℕ, String, true, false, ◌+◌, ◌≡◌, ◌≢◌, ◌<◌, ◌≤◌, refl, ap, ◌∙◌, List, [], ◌∷◌, ◌++◌, some, arith,
  append-nil, Bool-cases, inl, inr, if◌then◌else◌, ◌==◌, eq_iff, eqb, subst,
}
use rsb.Prelude.Dict.{Dict, lookup, insert, delete}
use rsb.Protocol.Wire.{Frame}
use rsb.Daemon.{HostConn, fail_routes, deliver}

-- What was sent on one channel.
unfoldable pub replies : ℕ → List (ℕ × Frame) → List Frame
replies c [] = []
replies c ((d, f) ∷ log) = let rest = replies c log in if eqb d c then f ∷ rest else rest

-- No route leads to the channel.
abbrev pub Unrouted : ℕ → Dict ℕ → Type 0
Unrouted c [] = Unit
Unrouted c ((_, d) ∷ m) = (d ≢ c) × Unrouted c m

-- No two routes lead to one channel.
abbrev pub Apart : Dict ℕ → Type 0
Apart [] = Unit
Apart ((_, d) ∷ m) = Unrouted d m × Apart m

abbrev pub Below : ℕ → Dict ℕ → Type 0
Below n [] = Unit
Below n ((_, d) ∷ m) = (d < n) × Below n m

pub record WellRouted (h : HostConn) : Type 0 where
  pub apart : Apart h.routes
  pub below : Below h.next_ch h.routes
  pub unused : (c : ℕ) → h.next_ch ≤ c → replies c h.delivered ≡ []

pub replies-append :
    (c : ℕ) (xs ys : List (ℕ × Frame)) → replies c (xs ++ ys) ≡ replies c xs ++ replies c ys
unfolding replies
replies-append c [] ys = refl
replies-append c ((d, f) ∷ xs) ys = elim (Bool-cases (eqb d c)) [
  | inl e ↦ rw (e, replies-append c xs ys) refl
  | inr e ↦ rw (e, replies-append c xs ys) refl
]

pub ne→not_eqb : (m n : ℕ) → m ≢ n → eqb m n ≡ false
ne→not_eqb m n ne = ground (arith, ne)

pub eq→eqb : (m n : ℕ) → m ≡ n → eqb m n ≡ true
eq→eqb m n e = ground (arith, e)

pub replies_one :
    (c d : ℕ) (f : Frame) (log : List (ℕ × Frame))
    → replies c (log ++ (d, f) ∷ []) ≡ replies c log ++ (if eqb d c then f ∷ [] else [])
unfolding replies
replies_one c d f log = replies-append c log ((d, f) ∷ [])

pub Unrouted-delete : (c : ℕ) (k : String) (m : Dict ℕ) → Unrouted c m → Unrouted c (delete k m)
unfolding delete
Unrouted-delete c k [] u = u
Unrouted-delete c k ((j, d) ∷ m) (ne, u) = elim (Bool-cases (j == k)) [
  | inl e ↦ rw e (Unrouted-delete c k m u)
  | inr e ↦ rw e (ne, Unrouted-delete c k m u)
]

pub Apart-delete : (k : String) (m : Dict ℕ) → Apart m → Apart (delete k m)
unfolding delete
Apart-delete k [] u = u
Apart-delete k ((j, d) ∷ m) (a, u) = elim (Bool-cases (j == k)) [
  | inl e ↦ rw e (Apart-delete k m u)
  | inr e ↦ rw e (Unrouted-delete d k m a, Apart-delete k m u)
]

pub Below-delete : (n : ℕ) (k : String) (m : Dict ℕ) → Below n m → Below n (delete k m)
unfolding delete
Below-delete n k [] u = u
Below-delete n k ((j, d) ∷ m) (a, u) = elim (Bool-cases (j == k)) [
  | inl e ↦ rw e (Below-delete n k m u)
  | inr e ↦ rw e (a, Below-delete n k m u)
]

-- An unrouted channel is not found.
pub Unrouted-lookup : (c : ℕ) (k : String) (m : Dict ℕ) → Unrouted c m → lookup k m ≢ some c
unfolding lookup
Unrouted-lookup c k [] u h = absurd (cc h)
Unrouted-lookup c k ((j, d) ∷ m) (ne, u) h = elim (Bool-cases (j == k)) [
  | inl e ↦ ne (cc (rw e at h))
  | inr e ↦ Unrouted-lookup c k m u (rw e at h)
]

-- One channel has one id.
pub Apart-lookup :
    (c : ℕ) (j k : String) (m : Dict ℕ)
    → Apart m
    → lookup j m ≡ some c
    → lookup k m ≡ some c
    → j ≡ k
unfolding lookup
Apart-lookup c j k [] a h h' = absurd (cc h)
Apart-lookup c j k ((i, d) ∷ m) (u, a) h h' = elim (Bool-cases (i == j)) [
  | inl e ↦
      let same : d ≡ c = cc (rw e at h) in
      elim (Bool-cases (i == k)) [
        | inl e' ↦ ground (arith, eq_iff i j, eq_iff i k, e, e')
        | inr e' ↦
            let found : lookup k m ≡ some c = rw e' at h' in
            absurd (Unrouted-lookup d k m u (rw same found))
      ]
  | inr e ↦
      let found : lookup j m ≡ some c = rw e at h in
      elim (Bool-cases (i == k)) [
        | inl e' ↦
            let same : d ≡ c = cc (rw e' at h') in absurd (Unrouted-lookup d j m u (rw same found))
        | inr e' ↦ Apart-lookup c j k m a found (rw e' at h')
      ]
]

-- A channel that is found is the only one of its id: without it, it is not routed.
pub Unrouted-delete_found :
    (c : ℕ) (k : String) (m : Dict ℕ) → Apart m → lookup k m ≡ some c → Unrouted c (delete k m)
unfolding lookup delete
Unrouted-delete_found c k [] a h = tt
Unrouted-delete_found c k ((j, d) ∷ m) (u, a) h = elim (Bool-cases (j == k)) [
  | inl e ↦
      let same : d ≡ c = cc (rw e at h) in
      rw e (Unrouted-delete c k m (subst (λ x. Unrouted x m) same u))
  | inr e ↦
      let found : lookup k m ≡ some c = rw e at h in
      rw e (λ same. Unrouted-lookup d k m u (rw same found), Unrouted-delete_found c k m a found)
]

pub Unrouted-insert :
    (c n : ℕ) (k : String) (m : Dict ℕ) → n ≢ c → Unrouted c m → Unrouted c (insert k n m)
unfolding insert
Unrouted-insert c n k [] ne u = (ne, tt)
Unrouted-insert c n k ((j, d) ∷ m) ne (ne', u) = elim (Bool-cases (j == k)) [
  | inl e ↦ rw e (ne, u)
  | inr e ↦ rw e (ne', Unrouted-insert c n k m ne u)
]

Below-Unrouted : (n : ℕ) (m : Dict ℕ) → Below n m → Unrouted n m
Below-Unrouted n [] b = tt
Below-Unrouted n ((_, d) ∷ m) (lt, b) = (λ e. omega (arith, e, lt), Below-Unrouted n m b)

pub Apart-insert : (n : ℕ) (k : String) (m : Dict ℕ) → Below n m → Apart m → Apart (insert k n m)
unfolding insert
Apart-insert n k [] b a = (tt, tt)
Apart-insert n k ((j, d) ∷ m) (lt, b) (u, a) = elim (Bool-cases (j == k)) [
  | inl e ↦ rw e (Below-Unrouted n m b, a)
  | inr e ↦
      rw e (Unrouted-insert d n k m (λ same. omega (arith, same, lt)) u, Apart-insert n k m b a)
]

Below-weaken : (n : ℕ) (m : Dict ℕ) → Below n m → Below (n + 1) m
Below-weaken n [] b = tt
Below-weaken n ((_, d) ∷ m) (lt, b) = (omega (arith, lt), Below-weaken n m b)

pub Below-insert : (n : ℕ) (k : String) (m : Dict ℕ) → Below n m → Below (n + 1) (insert k n m)
unfolding insert
Below-insert n k [] b = (omega arith, tt)
Below-insert n k ((j, d) ∷ m) (lt, b) = elim (Bool-cases (j == k)) [
  | inl e ↦ rw e (omega arith, Below-weaken n m b)
  | inr e ↦ rw e (omega (arith, lt), Below-insert n k m b)
]

pub Below-lookup : (n c : ℕ) (k : String) (m : Dict ℕ) → Below n m → lookup k m ≡ some c → c < n
unfolding lookup
Below-lookup n c k [] b h = absurd (cc h)
Below-lookup n c k ((j, d) ∷ m) (lt, b) h = elim (Bool-cases (j == k)) [
  | inl e ↦ let same : d ≡ c = cc (rw e at h) in omega (arith, same, lt)
  | inr e ↦ Below-lookup n c k m b (rw e at h)
]

-- What one step does to a channel.
pub replies-deliver :
    (c d : ℕ) (f : Frame) (h : HostConn)
    → replies c (deliver d f h).delivered
      ≡ replies c h.delivered ++ (if eqb d c then f ∷ [] else [])
unfolding deliver
replies-deliver c d f h = replies_one c d f h.delivered

pub replies-fail_routes-Unrouted :
    (c : ℕ) (f : Frame) (m : Dict ℕ) (h : HostConn)
    → Unrouted c m
    → replies c (fail_routes m f h).delivered ≡ replies c h.delivered
unfolding fail_routes
replies-fail_routes-Unrouted c f [] h u = refl
replies-fail_routes-Unrouted c f ((j, d) ∷ m) h (ne, u) =
    replies-fail_routes-Unrouted c f m (deliver d f h) u
    ∙ replies-deliver c d f h
    ∙ rw (ne→not_eqb d c ne) (append-nil (replies c h.delivered))

pub replies-fail_routes :
    (c : ℕ) (k : String) (f : Frame) (m : Dict ℕ) (h : HostConn)
    → Apart m
    → lookup k m ≡ some c
    → replies c (fail_routes m f h).delivered ≡ replies c h.delivered ++ f ∷ []
unfolding fail_routes lookup
replies-fail_routes c k f [] h a found = absurd (cc found)
replies-fail_routes c k f ((j, d) ∷ m) h (u, a) found = elim (Bool-cases (j == k)) [
  | inl e ↦
      let same : d ≡ c = cc (rw e at found) in
      replies-fail_routes-Unrouted c f m (deliver d f h) (subst (λ x. Unrouted x m) same u)
      ∙ replies-deliver c d f h
      ∙ rw (eq→eqb d c same) refl
  | inr e ↦
      let later : lookup k m ≡ some c = rw e at found in
      replies-fail_routes c k f m (deliver d f h) a later
      ∙ ap (λ (x : List Frame). x ++ f ∷ [])
          (replies-deliver c d f h
            ∙ rw (ne→not_eqb d c (λ same. Unrouted-lookup d k m u (rw same later)))
                (append-nil (replies c h.delivered)))
]
