-- ===== src/Agent/Get/Frames.antt =====
-- The frames of a download as a whole.
use rsb.Prelude.{
  ◌+◌, ◌-◌, ◌≤◌, ◌<◌, String, Bool, true, false, ◌&&◌, ◌≡◌, refl, Bytes, List, [], ◌∷◌, ◌++◌, none,
  arith, length, take, drop, ltb, leb, eqb, if◌then◌else◌, map, concat, All, inl, inr, ap,
  Bool-cases,
}
use native.Mathlib.Nat.{sub-zero, zero-add}
use rsb.Protocol.{Message, Request}
use rsb.Agent.Get.{
  met_at_last, ends_line, finished, capped, at_end, whole_loop, line_loop, raw_lines, OpenFile,
  read_chunks, data_chunk, last_chunk, result_ok, closing, get_frames, chunk_size,
}
use rsb.Agent.Get.Whole.{whole_loop-Reads}
use rsb.Agent.Get.Lines.{sent_line, IsShort, stops, line_loop-picked}

closing_whole :
    (digest : Bytes → String) (id : String) (chunks : List Bytes) (cap : Bool)
    → closing digest id chunks (if cap then capped else finished)
      ≡ last_chunk id cap (digest (concat chunks)) ∷ result_ok id ∷ []
unfolding closing
closing_whole digest id chunks true = refl
closing_whole digest id chunks false = refl

read_chunks_whole :
    (req : Request) (file : OpenFile)
    → req.line_start ≡ 0
    → req.line_end ≡ 0
    → read_chunks req file
      ≡ whole_loop (length file.content + 1) req.max_bytes file.fault file.content 0
unfolding read_chunks
read_chunks_whole req file s e = rw (s, e)

read_chunks_lines :
    (req : Request) (file : OpenFile)
    → 0 < req.line_start
    → read_chunks req file
      ≡ line_loop req.line_start req.line_end req.max_bytes file.fault
          (met_at_last file)
          (raw_lines file.content)
          0
          0
unfolding read_chunks
read_chunks_lines req file s =
    let b : ltb 0 req.line_start ≡ true = ground arith in
    let c : eqb req.line_start 0 ≡ false = ground arith in rw (b, c)

-- A download of a whole file with no read error: the data chunks, none above 64 KiB, hold the first
-- `max_bytes` bytes of the file (all of it with no cap), and the frames behind them are the last
-- chunk, with the digest of what was sent, and the result. The last chunk says `truncated` exactly
-- if there is a cap that the size of the file reaches.
pub get_frames_whole :
    (digest : Bytes → String) (req : Request) (content : Bytes)
    → req.line_start ≡ 0
    → req.line_end ≡ 0
    → (chunks : List Bytes) × (concat chunks
        ≡ (if ltb 0 req.max_bytes then take req.max_bytes content else content))
      × All (λ c. length c ≤ chunk_size) chunks
      × (get_frames digest req (record { content = content; fault = none })
          ≡ map (data_chunk req.id) chunks
            ++ last_chunk req.id
                (ltb 0 req.max_bytes && leb req.max_bytes (length content))
                (digest (concat chunks))
              ∷ result_ok req.id
              ∷ [])
unfolding get_frames at_end
get_frames_whole digest req content s e =
    let r = whole_loop-Reads (length content + 1) req.max_bytes none content 0 (omega arith) in
    let chunks = (whole_loop (length content + 1) req.max_bytes none content 0).0 in
    (
      chunks,
      rw sub-zero at r.sent,
      r.sizes,
      rw (read_chunks_whole req (record { content = content; fault = none }) s e, r.ends)
          (rw (zero-add (length content)) (
            ap (λ (ms : List Message). map (data_chunk req.id) chunks ++ ms)
              (closing_whole digest req.id chunks
                (ltb 0 req.max_bytes && leb req.max_bytes (length content))))),
    )

not_met : (content : Bytes) → met_at_last (record { content = content; fault = none }) ≡ none
not_met content = elim (Bool-cases (ends_line content)) [ inl e ↦ rw e refl | inr e ↦ rw e refl ]

-- A download of lines with no byte cap, from a file whose lines all fit the scanner's buffer and
-- with no read error: one chunk for each line of the range, in order, ended by a newline, and then the last chunk, not
-- `truncated`, with the digest of what was sent, and the result.
pub get_frames_lines :
    (digest : Bytes → String) (req : Request) (content : Bytes)
    → 0 < req.line_start
    → req.max_bytes ≡ 0
    → All IsShort (raw_lines content)
    → let chunks = map sent_line (
        let tail = drop (req.line_start - 1) (raw_lines content) in
        if ltb 0 req.line_end then take (req.line_end - (req.line_start - 1)) tail else tail) in
      get_frames digest req (record { content = content; fault = none })
      ≡ map (data_chunk req.id) chunks
        ++ last_chunk req.id false (digest (concat chunks)) ∷ result_ok req.id ∷ []
unfolding get_frames at_end closing
get_frames_lines digest req content s m short =
    rw
      (
        read_chunks_lines req (record { content = content; fault = none }) s,
        m,
        not_met content,
        line_loop-picked req.line_start req.line_end (raw_lines content) 0 0 short (ground arith),
      )
      (elim (Bool-cases (stops req.line_start req.line_end (0 + length (raw_lines content)))) [
        | inl past ↦ rw (past, sub-zero, zero-add)
        | inr open_end ↦ rw (open_end, sub-zero, zero-add)
      ])
