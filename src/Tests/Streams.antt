-- ===== src/Tests/Streams.antt =====
-- Frames on the wire, with a stand-in for JSON that tags the body by the kind.
use rsb.Prelude.{
  suc, ◌≡◌, refl, subst, Bytes, [], ◌∷◌, Option, none, some, arith, length, take, eqb, ◌==◌,
  if◌then◌else◌, ◌<◌,
}
use rsb.Protocol.Wire.{
  Frame, Writer, eof, unexpected_eof, got, failed, read_frame, put_uint32, write_to, write,
  write_frame, uint32, read_full, unmarshalled,
}
use rsb.Protocol.Wire.RoundTrip.{wire, read_frames, write_frames, Decodes, read_frames-write_frames}
use rsb.Protocol.Wire.Truncation.{read_frame_cut}

abbrev marshal : Frame → Option Bytes
marshal f = if f.kind == "stdin" then some (1 ∷ f.body) else some (2 ∷ f.body)

abbrev unmarshal : Bytes → Option Frame
unmarshal [] = none
unmarshal (n ∷ body) =
    if eqb n 1
    then some (record { kind = "stdin"; body = body })
    else some (record { kind = "result"; body = body })

abbrev chunk : Frame
chunk = record { kind = "stdin"; body = 7 ∷ 8 ∷ [] }

abbrev reply : Frame
reply = record { kind = "result"; body = 9 ∷ [] }

abbrev start : Writer
start = record { sent = []; faults = [] }

abbrev sent : Bytes
sent = 0 ∷ 0 ∷ 0 ∷ 3 ∷ 1 ∷ 7 ∷ 8 ∷ 0 ∷ 0 ∷ 0 ∷ 2 ∷ 2 ∷ 9 ∷ []

chunk-Decodes : Decodes marshal unmarshal chunk
chunk-Decodes = record {
  back = λ json e.
      let same : 1 ∷ 7 ∷ 8 ∷ [] ≡ json = cc e in
      subst (λ (j : Bytes). unmarshal j ≡ some chunk) same refl;
  some_bytes = λ json e.
      let same : 1 ∷ 7 ∷ 8 ∷ [] ≡ json = cc e in
      subst (λ (j : Bytes). 0 < length j) same (omega arith);
}

reply-Decodes : Decodes marshal unmarshal reply
reply-Decodes = record {
  back = λ json e.
      let same : 2 ∷ 9 ∷ [] ≡ json = cc e in
      subst (λ (j : Bytes). unmarshal j ≡ some reply) same refl;
  some_bytes = λ json e.
      let same : 2 ∷ 9 ∷ [] ≡ json = cc e in subst (λ (j : Bytes). 0 < length j) same (omega arith);
}

frames_written :
    write_frames marshal (chunk ∷ reply ∷ []) start ≡ some (record { sent = sent; faults = [] })
unfolding write_frames write_frame write write_to put_uint32
frames_written = refl

read_frames-write_frames_example :
    read_frames unmarshal (suc (length sent)) sent ≡ (chunk ∷ reply ∷ [], some eof)
read_frames-write_frames_example =
    read_frames-write_frames marshal unmarshal (chunk ∷ reply ∷ []) start
      (record { sent = sent; faults = [] }) refl (chunk-Decodes, (reply-Decodes, tt)) frames_written

read_frame_cut_example :
    read_frame unmarshal (take 6 (wire (1 ∷ 7 ∷ 8 ∷ []))) ≡ failed unexpected_eof
unfolding put_uint32
read_frame_cut_example = read_frame_cut unmarshal (1 ∷ 7 ∷ 8 ∷ []) 6 (omega arith) (omega arith)

chunk_read : read_frame unmarshal (wire (1 ∷ 7 ∷ 8 ∷ [])) ≡ got chunk []
unfolding read_frame read_full put_uint32 unmarshalled uint32
chunk_read = refl
