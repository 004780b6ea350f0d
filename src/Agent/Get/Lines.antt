-- ===== src/Agent/Get/Lines.antt =====
-- The line-range branch against a description by `take` and `drop`, and its byte cap.
use rsb.Prelude.{
  ℕ, suc, ◌+◌, ◌-◌, ◌≤◌, ◌<◌, Bool, true, false, ◌&&◌, ◌≡◌, refl, inl, inr, ap, Bytes, List, [],
  ◌∷◌, ◌++◌, String, Option, none, arith, length, length-append, take, drop, drop_nil, take_nil,
  ltb, leb, if◌then◌else◌, Bool-cases, ltb→lt, concat, All, map,
}
use rsb.Agent.Get.{End, finished, at_end, with_newline, drop_cr, max_line, at_break, line_loop}

-- The line as it is sent.
abbrev pub sent_line : Bytes → Bytes
sent_line raw = with_newline (drop_cr raw)

-- Lines `start` to `end`, of lines of which `line_no` stand before the first.
abbrev pub picked : ℕ → ℕ → List Bytes → ℕ → List Bytes
picked start end lines line_no =
    let tail = drop (start - 1 - line_no) lines in
    if ltb 0 end then take (end - (line_no + (start - 1 - line_no))) tail else tail

-- The loop stopped at a line behind `end` if the file has one that it does not skip.
abbrev pub stops : ℕ → ℕ → ℕ → Bool
stops start end count = ltb 0 end && (ltb end count && leb start count)

abbrev pub lines_end : ℕ → ℕ → Option String → ℕ → End
lines_end start end fault count = if stops start end count then finished else at_end "scan: " fault

abbrev pub IsShort : Bytes → Type 0
IsShort raw = length raw < max_line

picked_nil : (start end line_no : ℕ) → picked start end [] line_no ≡ []
picked_nil start end line_no = rw (drop_nil (start - 1 - line_no)) (elim (Bool-cases (ltb 0 end)) [
  | inl bounded ↦ rw bounded (take_nil (end - (line_no + (start - 1 - line_no))))
  | inr free ↦ rw free
])

picked_skip :
    (start end : ℕ) (x : Bytes) (rest : List Bytes) (line_no : ℕ)
    → line_no + 1 < start
    → picked start end (x ∷ rest) line_no ≡ picked start end rest (line_no + 1)
picked_skip start end x rest line_no h =
    let e : start - 1 - line_no ≡ suc (start - 1 - (line_no + 1)) = omega arith in
    let k : end - (line_no + suc (start - 1 - (line_no + 1)))
        ≡ end - (line_no + 1 + (start - 1 - (line_no + 1))) =
      omega arith in
    rw e (rw k)

picked_stop :
    (start end : ℕ) (lines : List Bytes) (line_no : ℕ)
    → start ≤ line_no + 1
    → 0 < end
    → end < line_no + 1
    → picked start end lines line_no ≡ []
picked_stop start end lines line_no h pos past =
    let k : end - (line_no + (start - 1 - line_no)) ≡ 0 = omega arith in
    let b : ltb 0 end ≡ true = ground arith in rw (b, k)

picked_take :
    (start end : ℕ) (x : Bytes) (rest : List Bytes) (line_no : ℕ)
    → start ≤ line_no + 1
    → (ltb 0 end && ltb end (line_no + 1)) ≡ false
    → picked start end (x ∷ rest) line_no ≡ x ∷ picked start end rest (line_no + 1)
picked_take start end x rest line_no h within =
    let e : start - 1 - line_no ≡ 0 = omega arith in
    let e' : start - 1 - (line_no + 1) ≡ 0 = omega arith in
    rw (e, e')
      (elim (Bool-cases (ltb 0 end)) [
        | inl bounded ↦
            let k : end - (line_no + 0) ≡ suc (end - (line_no + 1 + 0)) = ground arith in
            rw (bounded, k)
        | inr free ↦ rw free
      ])

-- Without a byte cap, and short of the end of the range, the loop sends exactly the lines in range of
-- a file that is read with no error and whose lines all fit the scanner's buffer.
pub line_loop-picked :
    (start end : ℕ) (lines : List Bytes) (line_no total : ℕ)
    → All IsShort lines
    → stops start end line_no ≡ false
    → line_loop start end 0 none none lines line_no total ≡ (
      map sent_line (picked start end lines line_no),
      lines_end start end none (line_no + length lines),
    )
unfolding line_loop at_break
line_loop-picked start end [] line_no total short going =
    let e : line_no + 0 ≡ line_no = omega arith in rw (picked_nil start end line_no, e, going)
line_loop-picked start end (x ∷ rest) line_no total short going =
    let e : line_no + suc (length rest) ≡ line_no + 1 + length rest = omega arith in
    let fits : leb max_line (length x) ≡ false = ground arith in
    elim (Bool-cases (ltb (line_no + 1) start)) [
      | inl early ↦
          rw (fits, early, e, picked_skip start end x rest line_no (ltb→lt _ _ early))
            (line_loop-picked start end rest (line_no + 1) total short.1 (ground arith))
      | inr reached ↦ elim (Bool-cases (ltb 0 end && ltb end (line_no + 1))) [
        | inl past ↦
            rw
              (
                fits,
                reached,
                past,
                picked_stop start end (x ∷ rest) line_no (ground arith) (ground arith)
                    (ground arith),
              )
              (let s : stops start end (line_no + suc (length rest)) ≡ true = ground arith in rw s)
        | inr within ↦
            rw
              (fits, reached, within, e, picked_take start end x rest line_no (ground arith) within)
              (let ih =
                  line_loop-picked start end rest (line_no + 1) (total + length (sent_line x))
                    short.1 (ground arith) in
                rw ih)
      ]
    ]

-- The lines sent under a byte cap, and the lines that the loop would send without one.
pub record Capped (max_bytes total : ℕ) (r s : List Bytes × End) : Type 0 where
  pub within : total + length (concat r.0) ≤ max_bytes
  pub held_back : List Bytes
  pub prefix : s.0 ≡ r.0 ++ held_back

Capped-none :
    (max_bytes total : ℕ) (e : End) (s : List Bytes × End)
    → total ≤ max_bytes
    → Capped max_bytes total ([], e) s
Capped-none max_bytes total e s h = record { within = omega arith; held_back = s.0; prefix = refl }

Capped-more :
    (max_bytes total : ℕ) (c : Bytes) (r s : List Bytes × End)
    → Capped max_bytes (total + length c) r s
    → Capped max_bytes total (c ∷ r.0, r.1) (c ∷ s.0, s.1)
Capped-more max_bytes total c r s ih = record {
  within = omega (arith, ih.within, length-append c (concat r.0));
  held_back = ih.held_back;
  prefix = ap (◌∷◌ c) ih.prefix;
}

-- Under a positive byte cap that is not passed yet, the lines that the loop sends are the first of
-- those that it sends without a cap, and with what was sent before they hold no more bytes than the
-- cap.
pub line_loop-Capped :
    (start end max_bytes : ℕ) (fault met : Option String) (lines : List Bytes) (line_no total : ℕ)
    → 0 < max_bytes
    → total ≤ max_bytes
    → Capped max_bytes total
        (line_loop start end max_bytes fault met lines line_no total)
        (line_loop start end 0 fault met lines line_no total)
unfolding line_loop
line_loop-Capped start end max_bytes fault met [] line_no total pos h =
    Capped-none max_bytes total _ _ h
line_loop-Capped start end max_bytes fault met (x ∷ rest) line_no total pos h =
    let cap : ltb 0 max_bytes ≡ true = ground arith in
    elim (Bool-cases (leb max_line (length x))) [
      | inl long ↦ rw long (Capped-none max_bytes total _ _ h)
      | inr short ↦ elim (Bool-cases (ltb (line_no + 1) start)) [
        | inl early ↦
            rw (short, early)
              (line_loop-Capped start end max_bytes fault met rest (line_no + 1) total pos h)
        | inr reached ↦ elim (Bool-cases (ltb 0 end && ltb end (line_no + 1))) [
          | inl past ↦ rw (short, reached, past) (Capped-none max_bytes total _ _ h)
          | inr within ↦ elim (Bool-cases (ltb max_bytes (total + length (sent_line x)))) [
            | inl full ↦ rw (short, reached, within, cap, full) (Capped-none max_bytes total _ _ h)
            | inr room ↦
                rw (short, reached, within, cap, room)
                  (Capped-more max_bytes total (sent_line x) _ _ (
                    line_loop-Capped start end max_bytes fault met rest (line_no + 1)
                      (total + length (sent_line x)) pos (ground arith)))
          ]
        ]
      ]
    ]
