-- ===== src/Protocol/Wire/Truncation.antt =====
-- Reads of damaged streams: a cut frame, and a header out of range.
use rsb.Prelude.{
  ℕ, zero, suc, ◌+◌, ◌≤◌, ◌<◌, ◌-◌, ◌||◌, ◌≡◌, refl, inl, inr, ap, ◌∙◌, Bytes, [], ◌∷◌, ◌++◌,
  Option, none, some, arith, length, length-append, length-take, length-drop, take, ltb, eqb,
  ltb→lt, lt→ltb, if◌then◌else◌, Bool-cases,
}
use native.Mathlib.Nat.{zero-add, suc-add}
use rsb.Protocol.Wire.{
  Frame, put_uint32, uint32, ReadError, eof, unexpected_eof, invalid_length, Read, got, failed,
  read_full, unmarshalled, read_frame, max_payload, ◌>>=◌,
}
use rsb.Protocol.Wire.RoundTrip.{wire, length-put_uint32, read_frame-header}

read_full_short :
    (n : ℕ) (input : Bytes)
    → length input < n
    → read_full n input ≡ failed (if eqb (length input) 0 then eof else unexpected_eof)
unfolding read_full
read_full_short n input h = rw (lt→ltb (length input) n h)

take-append_long : (xs ys : Bytes) (k : ℕ) → take (length xs + k) (xs ++ ys) ≡ xs ++ take k ys
take-append_long [] ys k = rw zero-add
take-append_long (x ∷ xs) ys k = rw suc-add (ap (◌∷◌ x) (take-append_long xs ys k))

take-append_short : (n : ℕ) (xs ys : Bytes) → n ≤ length xs → take n (xs ++ ys) ≡ take n xs
take-append_short zero xs ys h = refl
take-append_short (suc n) [] ys h = elim h [ ]
take-append_short (suc n) (x ∷ xs) ys h = ap (◌∷◌ x) (take-append_short n xs ys (omega arith))

read_frame_in_header :
    (unmarshal : Bytes → Option Frame) (input : Bytes)
    → length input < 4
    → read_frame unmarshal input ≡ failed (if eqb (length input) 0 then eof else unexpected_eof)
unfolding read_frame
read_frame_in_header unmarshal input h = rw (read_full_short 4 input h)

read_frame_in_payload :
    (unmarshal : Bytes → Option Frame) (n : ℕ) (input : Bytes)
    → n ≤ max_payload
    → length input < n
    → read_frame unmarshal (put_uint32 n ++ input)
      ≡ failed (if eqb (length input) 0 then eof else unexpected_eof)
read_frame_in_payload unmarshal n input small h =
    read_frame-header unmarshal n input (omega arith) small ∙ rw (read_full_short n input h)

length-wire : (json : Bytes) → length (wire json) ≡ 4 + length json
length-wire json =
    omega (arith, length-append (put_uint32 (length json)) json, length-put_uint32 (length json))

abbrev cut_error : ℕ → ReadError
cut_error cut = if eqb cut 0 || eqb cut 4 then eof else unexpected_eof

cut_in_header :
    (unmarshal : Bytes → Option Frame) (json : Bytes) (cut : ℕ)
    → cut < 4
    → read_frame unmarshal (take cut (wire json)) ≡ failed (cut_error cut)
cut_in_header unmarshal json cut h =
    let size : length (take cut (wire json)) ≡ cut =
      omega (arith, length-take cut (wire json), length-wire json) in
    ground (arith, read_frame_in_header unmarshal (take cut (wire json)))

cut_in_payload :
    (unmarshal : Bytes → Option Frame) (json : Bytes) (k : ℕ)
    → length json ≤ max_payload
    → k < length json
    → read_frame unmarshal (take (4 + k) (wire json)) ≡ failed (cut_error (4 + k))
unfolding read_frame read_full put_uint32 uint32
cut_in_payload unmarshal json k small h =
    let size : length (take k json) ≡ k = omega (arith, length-take k json) in
    rw (take-append_long (put_uint32 (length json)) json k)
      (ground (arith, read_frame_in_payload unmarshal (length json) (take k json)))

-- A frame cut anywhere short of its end is an error: EOF if the cut is before the header or right
-- behind it, an unexpected EOF at any other place.
pub read_frame_cut :
    (unmarshal : Bytes → Option Frame) (json : Bytes) (cut : ℕ)
    → length json ≤ max_payload
    → cut < length (wire json)
    → read_frame unmarshal (take cut (wire json))
      ≡ failed (if eqb cut 0 || eqb cut 4 then eof else unexpected_eof)
read_frame_cut unmarshal json cut small h = elim (Bool-cases (ltb cut 4)) [
  | inl early ↦ cut_in_header unmarshal json cut (ltb→lt cut 4 early)
  | inr late ↦
      let e : cut ≡ 4 + (cut - 4) = ground arith in
      rw e (cut_in_payload unmarshal json (cut - 4) small (omega (arith, length-wire json)))
]

read_full-got :
    (n : ℕ) (input : Bytes) {a rest : Bytes}
    → read_full n input ≡ got a rest
    → length input ≡ n + length rest
unfolding read_full
read_full-got n input {a} {rest} h = elim (Bool-cases (ltb (length input) n)) [
  | inl few ↦ absurd (cc (rw few at h))
  | inr enough ↦ ground (arith, length-drop n input, rw enough at h)
]

unmarshalled-got :
    (o : Option Frame) (r : Bytes) {f : Frame} {rest : Bytes}
    → unmarshalled o r ≡ got f rest
    → r ≡ rest
unfolding unmarshalled
unmarshalled-got none r h = cc
unmarshalled-got (some g) r h = cc

>>=-eq-got {ℓ κ} :
    {A : Type ℓ} {B : Type κ} (m : Read A) (f : A → Bytes → Read B) {b : B} {rest : Bytes}
    → (m >>= f) ≡ got b rest
    → (a : A) × (r : Bytes) × (m ≡ got a r) × (f a r ≡ got b rest)
>>=-eq-got (got a r) f h = (a, r, refl, h)
>>=-eq-got (failed e) f h = cc

-- A read that succeeds takes the header and between 1 and 64 MiB of payload off the input, so no
-- length prefix makes it allocate more.
pub read_frame_bounds :
    (unmarshal : Bytes → Option Frame) (input : Bytes) {f : Frame} {rest : Bytes}
    → read_frame unmarshal input ≡ got f rest
    → (n : ℕ) × (0 < n) × (n ≤ max_payload) × (length input ≡ 4 + n + length rest)
unfolding read_frame
read_frame_bounds unmarshal input {f} {rest} h =
    let (header, r, whole, next) = >>=-eq-got (read_full 4 input) _ h in
    payload (uint32 header) r (read_full-got 4 input whole) next
  where
    payload :
        (n : ℕ) (r : Bytes)
        → length input ≡ 4 + length r
        → (if eqb n 0 || ltb max_payload n
            then failed (invalid_length n)
            else (read_full n r >>= λ buf rest'. unmarshalled (unmarshal buf) rest'))
          ≡ got f rest
        → (n : ℕ) × (0 < n) × (n ≤ max_payload) × (length input ≡ 4 + n + length rest)
    payload n r e h = elim (Bool-cases (eqb n 0 || ltb max_payload n)) [
      | inl bad ↦ absurd (cc (rw bad at h))
      | inr fits ↦
          let (buf, r', whole, next) =
            >>=-eq-got (read_full n r) (λ buf rest'. unmarshalled (unmarshal buf) rest')
              (rw fits at h) in
          (
            n,
            ground arith,
            ground arith,
            omega (
              arith,
              read_full-got n r whole,
              ap length (unmarshalled-got (unmarshal buf) r' next),
            ),
          )
    ]
