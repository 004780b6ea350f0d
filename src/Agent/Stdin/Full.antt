-- ===== src/Agent/Stdin/Full.antt =====
-- What reaches the channel while the process does not read its stdin.
use rsb.Prelude.{
  ℕ, String, true, false, ◌≡◌, sym, ap, ◌∙◌, Bytes, List, [], ◌∷◌, ◌++◌, some, ◌≤◌, ◌<◌, arith,
  length, take, length-append, ltb, ltb→lt, append_assoc, append-nil, Bool-cases, inl, inr,
  take-append, take_all, length-take, refl, zero, suc,
}
use rsb.Prelude.Dict.{lookup, lookup-insert_self}
use rsb.Agent.Stdin.{
  RunningReq, new_running_req, send_chunk, channel_size, Table, feed_stdin, on_running,
  register_running,
}

-- Stdin frames of one request, with no other step between them.
unfoldable pub feed_all : String → List Bytes → Table → Table
feed_all id [] t = t
feed_all id (chunk ∷ chunks) t = feed_all id chunks (feed_stdin id chunk t)

abbrev pub holding : List Bytes → RunningReq
holding q = record new_running_req { stdin_ch = q; fed = q }

-- A full channel takes nothing.
take_full :
    {A : Type 0} (n : ℕ) (q cs : List A)
    → length q ≤ n
    → ltb (length q) n ≡ false
    → take n (q ++ cs) ≡ q
take_full n q cs h full =
    let same : length q ≡ n = ground (arith, full) in rw (sym same, take-append q cs)

room_left :
    {A : Type 0} (n : ℕ) (q : List A) (c : A) → ltb (length q) n ≡ true → length (q ++ c ∷ []) ≤ n
room_left n q c room =
    let fits : length q < n = ltb→lt (length q) n room in
    omega (arith, length-append q (c ∷ []), fits)

feed_holding :
    (id : String) (q : List Bytes) (chunk : Bytes) (t : Table)
    → length q ≤ channel_size
    → lookup id t ≡ some (holding q)
    → lookup id (feed_stdin id chunk t) ≡ some (holding (take channel_size (q ++ chunk ∷ [])))
unfolding feed_stdin on_running holding send_chunk
feed_holding id q chunk t h found = rw found (elim (Bool-cases (ltb (length q) channel_size)) [
  | inl room ↦
      rw (take_all channel_size (q ++ chunk ∷ []) (room_left channel_size q chunk room), room)
        (lookup-insert_self id (holding (q ++ chunk ∷ [])) t)
  | inr full ↦
      rw (take_full channel_size q (chunk ∷ []) h full, full) (lookup-insert_self id (holding q) t)
])

take-take_append :
    {A : Type 0} (n : ℕ) (xs ys : List A) → take n (take n xs ++ ys) ≡ take n (xs ++ ys)
take-take_append zero xs ys = refl
take-take_append (suc n) [] ys = refl
take-take_append (suc n) (x ∷ xs) ys = ap (◌∷◌ x) (take-take_append n xs ys)

take-bounded : {A : Type 0} (n : ℕ) (xs : List A) → length (take n xs) ≤ n
take-bounded n xs = ground (arith, length-take n xs)

feed_all-holding :
    (id : String) (chunks q : List Bytes) (t : Table)
    → length q ≤ channel_size
    → lookup id t ≡ some (holding q)
    → lookup id (feed_all id chunks t) ≡ some (holding (take channel_size (q ++ chunks)))
unfolding feed_all
feed_all-holding id [] q t h found = rw (append-nil q, take_all channel_size q h) found
feed_all-holding id (chunk ∷ chunks) q t h found =
    let kept : List Bytes = take channel_size (q ++ chunk ∷ []) in
    feed_all-holding id chunks kept (feed_stdin id chunk t)
      (take-bounded channel_size (q ++ chunk ∷ [])) (feed_holding id q chunk t h found)
    ∙ ap (λ (x : List Bytes). some (holding x))
        (take-take_append channel_size (q ++ chunk ∷ []) chunks
          ∙ ap (λ (x : List Bytes). take channel_size x) (append_assoc q (chunk ∷ []) chunks))

-- While the process of a new request does not read its stdin, its channel keeps the first 16
-- chunks that Stdin frames bring, in order, and every later one is dropped.
pub feed_all-register_running :
    (id : String) (chunks : List Bytes) (t : Table)
    → lookup id (feed_all id chunks (register_running id t))
      ≡ some (holding (take channel_size chunks))
unfolding register_running
feed_all-register_running id chunks t =
    feed_all-holding id chunks [] (register_running id t) (omega arith)
      (lookup-insert_self id new_running_req t)
