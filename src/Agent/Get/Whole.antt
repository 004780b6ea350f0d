-- ===== src/Agent/Get/Whole.antt =====
-- The whole-file branch: what is sent, in which sizes, and how the loop ends.
use Prim.Native.Nat.{min}
use rsb.Prelude.{
  ℕ, zero, suc, ◌+◌, ◌-◌, ◌≤◌, ◌<◌, true, false, ◌&&◌, ◌≡◌, inl, inr, ap, Bytes, List, [], ◌∷◌,
  ◌++◌, String, Option, arith, length, length-take, length-drop, take, drop, take-append-drop,
  take_resume, take_nil, eq_nil_of_length, ltb, leb, eqb, if◌then◌else◌, Bool-cases, concat, All,
}
use rsb.Agent.Get.{End, capped, at_end, chunk_size, to_read, whole_loop}

-- What a cap leaves of the bytes behind the first `total`.
abbrev pub limited : ℕ → ℕ → Bytes → Bytes
limited max_bytes total rest = if ltb 0 max_bytes then take (max_bytes - total) rest else rest

-- The end of the loop on a file of `size` bytes.
abbrev pub whole_end : ℕ → Option String → ℕ → End
whole_end max_bytes fault size =
    if ltb 0 max_bytes && leb max_bytes size then capped else at_end "read: " fault

to_read-pos :
    (max_bytes total : ℕ)
    → (ltb 0 max_bytes && leb max_bytes total) ≡ false
    → 0 < to_read max_bytes total
unfolding to_read
to_read-pos max_bytes total h = ground arith

to_read-le : (max_bytes total : ℕ) → to_read max_bytes total ≤ chunk_size
unfolding to_read
to_read-le max_bytes total = ground arith

limited_take_resume :
    (max_bytes total n : ℕ) (rest : Bytes)
    → n ≤ max_bytes - total
    → take n rest ++ take (max_bytes - (total + length (take n rest))) (drop n rest)
      ≡ take (max_bytes - total) rest
limited_take_resume max_bytes total n rest h =
    let e : max_bytes - (total + length (take n rest)) ≡ max_bytes - total - length (take n rest) =
      omega arith in
    rw e (take_resume n (max_bytes - total) rest h)

limited-step :
    (max_bytes total : ℕ) (rest : Bytes)
    → take (to_read max_bytes total) rest
        ++ limited max_bytes
            (total + length (take (to_read max_bytes total) rest))
            (drop (to_read max_bytes total) rest)
      ≡ limited max_bytes total rest
unfolding to_read
limited-step max_bytes total rest = elim (Bool-cases (ltb 0 max_bytes)) [
  | inl bounded ↦
      rw bounded (
        limited_take_resume max_bytes total (min (max_bytes - total) chunk_size) rest (omega arith))
  | inr free ↦ rw free (take-append-drop chunk_size rest)
]

limited_capped :
    (max_bytes total : ℕ) (rest : Bytes)
    → (ltb 0 max_bytes && leb max_bytes total) ≡ true
    → limited max_bytes total rest ≡ []
limited_capped max_bytes total rest h =
    let e : max_bytes - total ≡ 0 = ground arith in
    let b : ltb 0 max_bytes ≡ true = ground arith in rw b (rw e)

limited_nil : (max_bytes total : ℕ) → limited max_bytes total [] ≡ []
limited_nil max_bytes total = elim (Bool-cases (ltb 0 max_bytes)) [
  | inl bounded ↦ rw bounded (take_nil (max_bytes - total))
  | inr free ↦ rw free
]

nothing_read :
    (max_bytes total : ℕ) (rest : Bytes)
    → (ltb 0 max_bytes && leb max_bytes total) ≡ false
    → eqb (length (take (to_read max_bytes total) rest)) 0 ≡ true
    → rest ≡ []
nothing_read max_bytes total rest h e =
    eq_nil_of_length rest
      (ground (arith, to_read-pos max_bytes total h, length-take (to_read max_bytes total) rest))

-- What one call of the loop does: the data sent, the end, and the sizes of the chunks.
pub record Reads (max_bytes : ℕ) (fault : Option String) (rest : Bytes) (total : ℕ)
    (r : List Bytes × End) : Type 0 where
  pub sent : concat r.0 ≡ limited max_bytes total rest
  pub ends : r.1 ≡ whole_end max_bytes fault (total + length rest)
  pub sizes : All (λ c. length c ≤ chunk_size) r.0

Reads-capped :
    (max_bytes : ℕ) (fault : Option String) (rest : Bytes) (total : ℕ)
    → (ltb 0 max_bytes && leb max_bytes total) ≡ true
    → Reads max_bytes fault rest total ([], capped)
Reads-capped max_bytes fault rest total h = record {
  sent = rw (limited_capped max_bytes total rest h);
  ends = ground arith;
  sizes = tt;
}

Reads-at_end :
    (max_bytes : ℕ) (fault : Option String) (rest : Bytes) (total : ℕ)
    → (ltb 0 max_bytes && leb max_bytes total) ≡ false
    → rest ≡ []
    → Reads max_bytes fault rest total ([], at_end "read: " fault)
Reads-at_end max_bytes fault rest total h e = record {
  sent = rw e (rw (limited_nil max_bytes total));
  ends = let same : total + length rest ≡ total = omega (arith, ap length e) in rw same (rw h);
  sizes = tt;
}

Reads-more :
    (max_bytes : ℕ) (fault : Option String) (rest : Bytes) (total : ℕ) (r : List Bytes × End)
    → let n = to_read max_bytes total in
      Reads max_bytes fault (drop n rest) (total + length (take n rest)) r
      → Reads max_bytes fault rest total (take n rest ∷ r.0, r.1)
Reads-more max_bytes fault rest total r ih =
    let n = to_read max_bytes total in
    let whole : total + length (take n rest) + length (drop n rest) ≡ total + length rest =
      omega (arith, length-take n rest, length-drop n rest) in
    record {
      sent = rw ih.sent (limited-step max_bytes total rest);
      ends = rw whole at ih.ends;
      sizes = (omega (arith, length-take n rest, to_read-le max_bytes total), ih.sizes);
    }

-- With a unit of fuel for each byte and one more the loop reads to its end and never runs out: chunks
-- of at most 64 KiB that hold the data up to the cap, and an end that says whether the cap was reached.
pub whole_loop-Reads :
    (fuel max_bytes : ℕ) (fault : Option String) (rest : Bytes) (total : ℕ)
    → length rest < fuel
    → Reads max_bytes fault rest total (whole_loop fuel max_bytes fault rest total)
unfolding whole_loop
whole_loop-Reads zero max_bytes fault rest total h = elim h [ ]
whole_loop-Reads (suc fuel) max_bytes fault rest total h =
    elim (Bool-cases (ltb 0 max_bytes && leb max_bytes total)) [
      | inl cap ↦ rw cap (Reads-capped max_bytes fault rest total cap)
      | inr free ↦
          let n = to_read max_bytes total in
          elim (Bool-cases (eqb (length (take n rest)) 0)) [
            | inl none_left ↦
                rw (free, none_left)
                  (Reads-at_end max_bytes fault rest total free
                    (nothing_read max_bytes total rest free none_left))
            | inr some_read ↦
                rw (free, some_read)
                  (Reads-more max_bytes fault rest total _ (
                    whole_loop-Reads fuel max_bytes fault (drop n rest)
                      (total + length (take n rest))
                      (ground (arith, length-drop n rest, length-take n rest))))
          ]
    ]
