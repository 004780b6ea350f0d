-- ===== src/Cli/Cat/Local.antt =====
-- A slice of a local file against the same slice of a remote one.
use rsb.Prelude.{
  ℕ, ◌+◌, String, true, ◌&&◌, ◌||◌, ◌≡◌, refl, ap, ◌∙◌, Bytes, List, [], ◌∷◌, ◌++◌, Option, arith,
  length, ltb, leb, eqb, if◌then◌else◌, concat, Bool-cases, inl, inr,
}
use rsb.Protocol.{Request}
use rsb.Agent.Get.{
  line_loop, raw_lines, drop_cr, with_newline, max_line, read_chunks, OpenFile, met_at_last,
}
use rsb.Cli.Cat.{local_loop}

-- The two loops, line by line; no first line is the first.
local_loop-line_loop :
    (start end max_bytes : ℕ) (fault met : Option String) (raws : List Bytes) (line_no total : ℕ)
    → (local_loop start end max_bytes raws line_no total).0
      ≡ concat
          (line_loop
            (if eqb start 0 then 1 else start)
            end
            max_bytes
            fault
            met
            raws
            line_no
            total).0
unfolding local_loop line_loop
local_loop-line_loop start end max_bytes fault met [] line_no total = refl
local_loop-line_loop start end max_bytes fault met (raw ∷ rest) line_no total =
    let out = with_newline (drop_cr raw) in
    let skip = local_loop-line_loop start end max_bytes fault met rest (line_no + 1) total in
    let sent =
      local_loop-line_loop start end max_bytes fault met rest (line_no + 1) (total + length out) in
    let same : (ltb 0 start && ltb (line_no + 1) start)
        ≡ ltb (line_no + 1) (if eqb start 0 then 1 else start) =
      ground arith in
    elim (Bool-cases (leb max_line (length raw))) [
      | inl long ↦ rw long refl
      | inr short ↦ elim (Bool-cases (ltb (line_no + 1) (if eqb start 0 then 1 else start))) [
        | inl before ↦ rw (short, same, before) skip
        | inr from ↦ elim (Bool-cases (ltb 0 end && ltb end (line_no + 1))) [
          | inl past ↦ rw (short, same, from, past) refl
          | inr inside ↦ elim (Bool-cases (ltb 0 max_bytes && ltb max_bytes (total + length out))) [
            | inl full ↦ rw (short, same, from, inside, full) refl
            | inr fits ↦ rw (short, same, from, inside, fits) (ap (◌++◌ out) sent)
          ]
        ]
      ]
    ]

-- `rsb cat` of a range of lines prints the same of a local file as the data chunks hold that the agent
-- sends for the same range and byte cap of a file with the same bytes, whatever the bytes are.
pub local_loop-read_chunks :
    (req : Request) (file : OpenFile)
    → (ltb 0 req.line_start || ltb 0 req.line_end) ≡ true
    → (local_loop req.line_start req.line_end req.max_bytes (raw_lines file.content) 0 0).0
      ≡ concat (read_chunks req file).0
unfolding read_chunks
local_loop-read_chunks req file ranged =
    local_loop-line_loop req.line_start req.line_end req.max_bytes file.fault (met_at_last file)
      (raw_lines file.content) 0 0
    ∙ rw ranged refl
