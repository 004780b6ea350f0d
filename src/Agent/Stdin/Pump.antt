-- ===== src/Agent/Stdin/Pump.antt =====
-- No chunk that the channel took before EOF is lost, and none is reordered.
use rsb.Prelude.{
  ℕ, Bool, true, false, ◌≡◌, refl, sym, ap, ◌∙◌, Bytes, List, [], ◌∷◌, ◌++◌, ◌≤◌, arith, length,
  length-append, ltb, append_assoc, append-nil, Bool-cases, inl, inr, ◌⊎◌, ltb→lt, ◌<◌,
}
use rsb.Agent.Stdin.{
  RunningReq, new_running_req, send_chunk, signal_eof, Step, feed, end_input, pump, skip, fail,
  see_eof, finish, Steps, here, next, channel_size,
}

pub record Inv (s : RunningReq) : Type 0 where
  pub order : s.lost ≡ false → s.written ++ s.stdin_ch ≡ s.fed
  pub later : s.eof_closed ≡ true → (more : List Bytes) × (s.fed ≡ s.fed_at_eof ++ more)
  pub saw : s.eof ≡ true → s.eof_closed ≡ true
  pub closing :
      s.pipe_closed ≡ true
      → s.lost ≡ false
      → (s.eof_closed ≡ true) × ((more : List Bytes) × (s.written ≡ s.fed_at_eof ++ more))
  pub bounded : length s.stdin_ch ≤ channel_size

new_running_req-Inv : Inv new_running_req
new_running_req-Inv = record {
  order = λ _. refl;
  later = λ h. absurd (cc h);
  saw = λ h. absurd (cc h);
  closing = λ h. absurd (cc h);
  bounded = omega arith;
}

bounded-feed :
    {A : Type 0} (chunk : A) (q : List A) (n : ℕ)
    → ltb (length q) n ≡ true
    → length (q ++ chunk ∷ []) ≤ n
bounded-feed chunk q n room =
    let fits : length q < n = ltb→lt (length q) n room in
    omega (arith, length-append q (chunk ∷ []), fits)

Inv-feed : (chunk : Bytes) (s : RunningReq) → Inv s → Inv (send_chunk chunk s)
unfolding send_chunk
Inv-feed chunk s v = elim (Bool-cases (ltb (length s.stdin_ch) channel_size)) [
  | inl room ↦ rw room (record {
    order = λ l.
        sym (append_assoc s.written s.stdin_ch (chunk ∷ []))
        ∙ ap (λ (x : List Bytes). x ++ chunk ∷ []) (v.order l);
    later = λ e.
        let (more, same) = v.later e in
        (
          more ++ chunk ∷ [],
          ap (λ (x : List Bytes). x ++ chunk ∷ []) same
              ∙ append_assoc s.fed_at_eof more (chunk ∷ []),
        );
    saw = v.saw;
    closing = v.closing;
    bounded = bounded-feed chunk s.stdin_ch channel_size room;
  })
  | inr full ↦ rw full v
]

Inv-end_input : (s : RunningReq) → Inv s → Inv (signal_eof s)
unfolding signal_eof
Inv-end_input s v = elim (Bool-cases s.eof_closed) [
  | inl e ↦ simp (e) v
  | inr e ↦ simp (e) (record {
    order = v.order;
    later = λ _. ([], sym (append-nil s.fed));
    saw = λ h. refl;
    closing = λ c l. let (e', _) = v.closing c l in absurd (cc (sym e ∙ e'));
    bounded = v.bounded;
  })
]

-- The channel without its first chunk.
tail-bounded :
    {A : Type 0} (chunk : A) (rest q : List A) (n : ℕ)
    → q ≡ chunk ∷ rest
    → length q ≤ n
    → length rest ≤ n
tail-bounded chunk rest q n same h =
    let h' : length (chunk ∷ rest) ≤ n = rw same at h in omega (arith, h')

still_open : {P : Type 0} (b : Bool) → b ≡ false → b ≡ true → P
still_open b e h = absurd (cc (sym e ∙ h))

Inv-step : (s t : RunningReq) → Inv s → Step s t → Inv t
Inv-step s t v (feed chunk e) = rw e (Inv-feed chunk s v)
Inv-step s t v (end_input e) = rw e (Inv-end_input s v)
Inv-step s t v (pump chunk rest o q e) = rw e (record {
  order = λ l.
      append_assoc s.written (chunk ∷ []) rest
      ∙ ap (λ (x : List Bytes). s.written ++ x) (sym q)
      ∙ v.order l;
  later = v.later;
  saw = v.saw;
  closing = λ c l. still_open s.pipe_closed o c;
  bounded = tail-bounded chunk rest s.stdin_ch channel_size q v.bounded;
})
Inv-step s t v (skip chunk rest o q e) = rw e (record {
  order = λ l. absurd (cc l);
  later = v.later;
  saw = v.saw;
  closing = λ c l. still_open s.pipe_closed o c;
  bounded = tail-bounded chunk rest s.stdin_ch channel_size q v.bounded;
})
Inv-step s t v (fail chunk rest o q e) = rw e (record {
  order = λ l. absurd (cc l);
  later = v.later;
  saw = v.saw;
  closing = λ c l. absurd (cc l);
  bounded = tail-bounded chunk rest s.stdin_ch channel_size q v.bounded;
})
Inv-step s t v (see_eof o closed e) = rw e (record {
  order = v.order;
  later = v.later;
  saw = λ _. closed;
  closing = λ c l. still_open s.pipe_closed o c;
  bounded = v.bounded;
})
Inv-step s t v (finish o seen empty e) =
    let closed : s.eof_closed ≡ true = v.saw seen in
    let (more, same) = v.later closed in
    rw e (record {
      order = v.order;
      later = v.later;
      saw = v.saw;
      closing = λ c l. (
        closed,
        (
          more,
          sym (append-nil s.written)
              ∙ ap (λ (x : List Bytes). s.written ++ x) (sym empty)
              ∙ v.order l
              ∙ same,
        ),
      );
      bounded = v.bounded;
    })

Inv-steps : (s t : RunningReq) → Inv s → Steps s t → Inv t
Inv-steps s _ v here = v
Inv-steps s t v (next {t = m} p q) = Inv-step m t (Inv-steps s m v p) q

-- Whatever the order in which the read loop feeds chunks, EOF is signalled and the pump runs: the
-- channel never holds more than its 16 chunks, also behind a write that failed; and either a write has
-- failed, or what the process got followed by what is buffered is what the channel took, in order.
pub Steps-ordered :
    (t : RunningReq)
    → Steps new_running_req t
    → (length t.stdin_ch ≤ channel_size) × ((t.lost ≡ true) ⊎ (t.written ++ t.stdin_ch ≡ t.fed))
Steps-ordered t run =
    let v : Inv t = Inv-steps new_running_req t new_running_req-Inv run in
    elim (Bool-cases t.lost) [
      | inl failed ↦ (v.bounded, inl failed)
      | inr fine ↦ (v.bounded, inr (v.order fine))
    ]

-- In any such order, once the pipe is closed without a failed write, EOF was signalled and the
-- process got every chunk that the channel had taken before EOF, in order, perhaps followed by chunks
-- taken later.
pub Steps-drains :
    (t : RunningReq)
    → Steps new_running_req t
    → t.pipe_closed ≡ true
    → t.lost ≡ false
    → (t.eof_closed ≡ true) × ((more : List Bytes) × (t.written ≡ t.fed_at_eof ++ more))
Steps-drains t run =
    let v : Inv t = Inv-steps new_running_req t new_running_req-Inv run in v.closing
