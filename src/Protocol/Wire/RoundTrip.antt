-- ===== src/Protocol/Wire/RoundTrip.antt =====
-- What WriteFrame puts on the wire is what ReadFrame takes off it, for one frame and for a stream.
use rsb.Prelude.{
  ℕ, zero, suc, ◌≤◌, ◌<◌, Bool, true, false, ◌≡◌, refl, ap, ◌∙◌, Bytes, List, [], ◌∷◌, ◌++◌, Option,
  none, some, arith, length, length-append, take-append, drop-append, append_assoc, append-nil, All,
  le→not_ltb, pos→not_eqb,
}
use rsb.Protocol.Wire.{
  Frame, Writer, write, write_to, written, put_uint32, uint32, send_frame, write_json, write_frame,
  ReadError, eof, got, failed, read_full, unmarshalled, read_frame, max_payload, ◌>>=◌,
}

-- The bytes of one frame: the length, then the JSON.
abbrev pub wire : Bytes → Bytes
wire json = put_uint32 (length json) ++ json

uint32-put_uint32 : (n : ℕ) → n ≤ max_payload → uint32 (put_uint32 n) ≡ n
unfolding uint32 put_uint32
uint32-put_uint32 n h = omega arith

pub length-put_uint32 : (n : ℕ) → length (put_uint32 n) ≡ 4
unfolding put_uint32
length-put_uint32 n = refl

pub read_full-append : (xs rest : Bytes) → read_full (length xs) (xs ++ rest) ≡ got xs rest
unfolding read_full
read_full-append xs rest =
    rw (le→not_ltb (length (xs ++ rest)) (length xs) (omega (arith, length-append xs rest)))
      (rw (take-append xs rest, drop-append xs rest))

-- A header whose length is in range is read as that length.
pub read_frame-header :
    (unmarshal : Bytes → Option Frame) (n : ℕ) (rest : Bytes)
    → 0 < n
    → n ≤ max_payload
    → read_frame unmarshal (put_uint32 n ++ rest)
      ≡ (read_full n rest >>= λ buf rest'. unmarshalled (unmarshal buf) rest')
unfolding read_frame read_full put_uint32
read_frame-header unmarshal n rest pos small = rw (
  read_full-append (put_uint32 n) rest,
  uint32-put_uint32 n small,
  pos→not_eqb n pos,
  le→not_ltb max_payload n small,
)

read_frame-wire :
    (unmarshal : Bytes → Option Frame) (json rest : Bytes) (f : Frame)
    → 0 < length json
    → length json ≤ max_payload
    → unmarshal json ≡ some f
    → read_frame unmarshal (wire json ++ rest) ≡ got f rest
unfolding unmarshalled
read_frame-wire unmarshal json rest f pos small e = rw (
  append_assoc,
  read_frame-header unmarshal (length json) (json ++ rest) pos small,
  read_full-append json rest,
  e,
)

-- The stream that a peer reads: frames until a read fails, and that failure (`none` if the fuel,
-- one unit for a frame, ran out first).
unfoldable pub read_frames : (Bytes → Option Frame) → ℕ → Bytes → List Frame × Option ReadError
read_frames unmarshal zero input = ([], none)
read_frames unmarshal (suc fuel) input = elim (read_frame unmarshal input) [
  | got f rest ↦ let r = read_frames unmarshal fuel rest in (f ∷ r.0, r.1)
  | failed e ↦ ([], some e)
]

-- Frames written one after the other; `none` once one is refused.
unfoldable pub write_frames : (Frame → Option Bytes) → List Frame → Writer → Option Writer
write_frames marshal [] w = some w
write_frames marshal (f ∷ fs) w =
    let (r, w') = write_frame marshal f.kind (some f.body) w in
    elim r [ written ↦ write_frames marshal fs w' | _ ↦ none ]

module _ (marshal : Frame → Option Bytes) (unmarshal : Bytes → Option Frame) where
  -- The JSON library reads a frame back from its bytes, which are not empty.
  pub record Decodes (f : Frame) : Type 0 where
    pub back : (json : Bytes) → marshal f ≡ some json → unmarshal json ≡ some f
    pub some_bytes : (json : Bytes) → marshal f ≡ some json → 0 < length json

write-sent : (w : Writer) (p : Bytes) → (write w p).0 ≡ true → (write w p).1.sent ≡ w.sent ++ p
unfolding write
write-sent w p = go w.faults
  where
    go : (fs : List Bool) → (write_to fs w p).0 ≡ true → (write_to fs w p).1.sent ≡ w.sent ++ p
    go [] e = refl
    go (true ∷ fs) e = cc
    go (false ∷ fs) e = refl

send_frame-sent :
    (json : Bytes) (w : Writer)
    → (send_frame json w).0 ≡ written
    → (send_frame json w).1.sent ≡ w.sent ++ wire json
unfolding send_frame
send_frame-sent json w e =
    let header = put_uint32 (length json) in
    ground (
      arith,
      write-sent w header,
      write-sent (write w header).1 json,
      append_assoc w.sent header json,
    )

write_json-sent :
    (o : Option Bytes) (w : Writer)
    → (write_json o w).0 ≡ written
    → (json : Bytes) × (o ≡ some json)
      × (length json ≤ max_payload)
      × ((write_json o w).1.sent ≡ w.sent ++ wire json)
unfolding write_json
write_json-sent none w e = cc
write_json-sent (some json) w e = (json, refl, ground arith, ground (arith, send_frame-sent json w))

write_frame-sent :
    (marshal : Frame → Option Bytes) (f : Frame) (w : Writer)
    → (write_frame marshal f.kind (some f.body) w).0 ≡ written
    → (json : Bytes) × (marshal f ≡ some json)
      × (length json ≤ max_payload)
      × ((write_frame marshal f.kind (some f.body) w).1.sent ≡ w.sent ++ wire json)
unfolding write_frame
write_frame-sent marshal f w e = write_json-sent (marshal f) w e

write_frames-cons :
    (marshal : Frame → Option Bytes) (f : Frame) (fs : List Frame) (w : Writer) {w' : Writer}
    → write_frames marshal (f ∷ fs) w ≡ some w'
    → ((write_frame marshal f.kind (some f.body) w).0 ≡ written)
      × (write_frames marshal fs (write_frame marshal f.kind (some f.body) w).1 ≡ some w')
unfolding write_frames
write_frames-cons marshal f fs w e = ground arith

read_frames-cons :
    (unmarshal : Bytes → Option Frame) (fuel : ℕ) (f : Frame) (fs : List Frame) (input rest : Bytes)
    (e : ReadError)
    → read_frame unmarshal input ≡ got f rest
    → read_frames unmarshal fuel rest ≡ (fs, some e)
    → read_frames unmarshal (suc fuel) input ≡ (f ∷ fs, some e)
unfolding read_frames
read_frames-cons unmarshal fuel f fs input rest e h k = rw (h, read_frames) (rw k)

read_frame-nil : (unmarshal : Bytes → Option Frame) → read_frame unmarshal [] ≡ failed eof
unfolding read_frame read_full
read_frame-nil unmarshal = refl

-- What is sent for the frames that follow reads back as those frames.
record Reads (unmarshal : Bytes → Option Frame) (fs : List Frame) (w w' : Writer) : Type 0 where
  stream : Bytes
  sent : w'.sent ≡ w.sent ++ stream
  back : (fuel : ℕ) → length stream < fuel → read_frames unmarshal fuel stream ≡ (fs, some eof)

read_frames_from :
    (marshal : Frame → Option Bytes) (unmarshal : Bytes → Option Frame) (fs : List Frame)
    (w w' : Writer)
    → All (Decodes marshal unmarshal) fs
    → write_frames marshal fs w ≡ some w'
    → Reads unmarshal fs w w'
unfolding write_frames
read_frames_from marshal unmarshal [] w w' d e = record {
  stream = [];
  sent = rw append-nil (ground arith);
  back = λ fuel h. no_more fuel h;
}
  where
    no_more : (fuel : ℕ) → 0 < fuel → read_frames unmarshal fuel [] ≡ ([], some eof)
    no_more zero h = elim h [ ]
    no_more (suc fuel) h = unfold read_frames in rw (read_frame-nil unmarshal, read_frames)
read_frames_from marshal unmarshal (f ∷ fs) w w' d e =
    let (ok, later) = write_frames-cons marshal f fs w e in
    let w1 = (write_frame marshal f.kind (some f.body) w).1 in
    let (json, made, small, sent) = write_frame-sent marshal f w ok in
    let ih = read_frames_from marshal unmarshal fs w1 w' d.1 later in
    record {
      stream = wire json ++ ih.stream;
      sent = rw (ih.sent, sent, append_assoc);
      back = λ fuel h.
          more fuel json ih.stream (d.0.some_bytes json made) small (d.0.back json made) ih.back h;
    }
  where
    more :
        (fuel : ℕ) (json stream : Bytes)
        → 0 < length json
        → length json ≤ max_payload
        → unmarshal json ≡ some f
        → ((n : ℕ) → length stream < n → read_frames unmarshal n stream ≡ (fs, some eof))
        → length (wire json ++ stream) < fuel
        → read_frames unmarshal fuel (wire json ++ stream) ≡ (f ∷ fs, some eof)
    more zero json stream pos small back ih h = elim h [ ]
    more (suc fuel) json stream pos small back ih h =
        read_frames-cons unmarshal fuel f fs (wire json ++ stream) stream eof
          (read_frame-wire unmarshal json stream f pos small back)
          (ih fuel (
            omega (
              arith,
              length-append (wire json) stream,
              length-append (put_uint32 (length json)) json,
              length-put_uint32 (length json),
            )))

-- Frames that WriteFrame accepts one after the other on a fresh writer, each of which the JSON
-- library reads back, are read again by ReadFrame: the same frames in the same order, whatever
-- their bodies hold, and then a clean EOF.
pub read_frames-write_frames :
    (marshal : Frame → Option Bytes) (unmarshal : Bytes → Option Frame) (fs : List Frame)
    (w w' : Writer)
    → w.sent ≡ []
    → All (Decodes marshal unmarshal) fs
    → write_frames marshal fs w ≡ some w'
    → read_frames unmarshal (suc (length w'.sent)) w'.sent ≡ (fs, some eof)
read_frames-write_frames marshal unmarshal fs w w' fresh d e =
    let r = read_frames_from marshal unmarshal fs w w' d e in
    let whole : w'.sent ≡ r.stream = r.sent ∙ ap (λ (x : Bytes). x ++ r.stream) fresh in
    rw whole (r.back (suc (length r.stream)) (omega arith))
