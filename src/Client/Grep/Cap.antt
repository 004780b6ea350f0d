-- ===== src/Client/Grep/Cap.antt =====
-- The cap on the matches of a search.
use rsb.Prelude.{
  ℕ, ◌+◌, ◌-◌, ◌≤◌, ◌<◌, String, true, false, not, ◌&&◌, ◌≡◌, refl, Bytes, List, [], ◌∷◌, ◌++◌,
  Option, none, some, arith, length, length-append, ltb, leb, ◌==◌, if◌then◌else◌, Bool-cases,
  Option-cases, inl, inr,
}
use rsb.Protocol.{Output, kind_output, kind_result, kind_error}
use rsb.Protocol.Wire.{Frame}
use rsb.Agent.Get.{drop_cr, max_line, raw_lines}
use rsb.Client.Exec.{Decoders}
use rsb.Client.Grep.{
  RgEntry, scan_lines, parse_rg_json, Search, put_output, grep_loop, searched, is_none,
}

module _ (parse : Bytes → Option RgEntry) where
  scan_lines-cap :
      (remaining : ℕ) (raws : List Bytes) (count : ℕ) (kept : Bytes)
      → count < remaining
      → count + length (scan_lines parse remaining raws count kept).0 ≤ remaining
  unfolding scan_lines
  scan_lines-cap remaining [] count kept h = omega arith
  scan_lines-cap remaining (raw ∷ raws) count kept h =
      elim (Bool-cases (leb max_line (length raw))) [
        | inl long ↦ rw long (omega arith)
        | inr fits ↦ elim (Option-cases (parse (drop_cr raw))) [
          | inl partial ↦
              rw (fits, partial) (scan_lines-cap remaining raws count (kept ++ drop_cr raw) h)
          | inr (e, whole) ↦ elim (Bool-cases (e.type == "match")) [
            | inr no_match ↦ rw (fits, whole, no_match) (scan_lines-cap remaining raws count kept h)
            | inl match ↦ elim (Bool-cases (ltb 0 remaining && leb remaining (count + 1))) [
              | inl full ↦ rw (fits, whole, match, full) (omega arith)
              | inr room ↦
                  let below : count + 1 < remaining = ground (arith, room, h) in
                  let later = scan_lines-cap remaining raws (count + 1) kept below in
                  rw (fits, whole, match, room) (omega (arith, later))
            ]
          ]
        ]
      ]

below_cap : (n m k : ℕ) → (ltb 0 m && leb m n) ≡ false → k < m → n < m
below_cap n m k e h = ground (arith, e, h)

-- The number of the matches is counted, and is at most the cap, or below it.
record AtMost (max_matches : ℕ) (s : Search) : Type 0 where
  counted : s.count ≡ length s.hits
  at_most : s.count ≤ max_matches

module _ (parse : Bytes → Option RgEntry) (decode : Decoders) (closed : String)
    (max_matches : ℕ) where
  put_output-AtMost :
      (o : Option Output) (s : Search)
      → AtMost max_matches s
      → s.count < max_matches
      → AtMost max_matches (put_output parse decode closed max_matches o s)
  unfolding put_output parse_rg_json
  put_output-AtMost none s m below = m
  put_output-AtMost (some o) s m below = elim (Bool-cases (o.stream == "stdout")) [
    | inr other ↦ rw other (record { counted = m.counted; at_most = m.at_most })
    | inl out ↦
        let r = scan_lines parse (max_matches - s.count) (raw_lines (s.buffer ++ o.payload)) 0 [] in
        let cap : 0 + length r.0 ≤ max_matches - s.count =
          scan_lines-cap parse (max_matches - s.count) (raw_lines (s.buffer ++ o.payload)) 0 []
            (omega (arith, below)) in
        rw out (record {
          counted = omega (arith, m.counted, length-append s.hits r.0);
          at_most = omega (arith, cap, below);
        })
  ]

  frame-AtMost :
      (f : Frame) (s : Search)
      → AtMost max_matches s
      → s.count < max_matches
      → AtMost max_matches (
          if f.kind == kind_output
          then put_output parse decode closed max_matches (decode.as_output f.body) s
          else s)
  frame-AtMost f s m below = elim (Bool-cases (f.kind == kind_output)) [
    | inl out ↦ rw out (put_output-AtMost (decode.as_output f.body) s m below)
    | inr other ↦ rw other m
  ]

  abbrev after_frame : Frame → Search → Search
  after_frame f s =
      if f.kind == kind_output
      then put_output parse decode closed max_matches (decode.as_output f.body) s
      else s

  put_output-undecoded :
      (o : Option Output) (s : Search)
      → is_none o ≡ true
      → put_output parse decode closed max_matches o s ≡ s
  unfolding put_output is_none
  put_output-undecoded none s e = refl
  put_output-undecoded (some o) s e = absurd (cc e)

  after_frame-undecoded :
      (f : Frame) (s : Search)
      → (f.kind == kind_output && is_none (decode.as_output f.body)) ≡ true
      → after_frame f s ≡ s
  after_frame-undecoded f s e = elim (Bool-cases (f.kind == kind_output)) [
    | inl out ↦ rw out (put_output-undecoded (decode.as_output f.body) s (rw out at e))
    | inr other ↦ rw other refl
  ]

  goes_on :
      (f : Frame) (s : Search)
      → s.count < max_matches
      → (not (f.kind == kind_output && is_none (decode.as_output f.body))
          && (ltb 0 max_matches && leb max_matches (after_frame f s).count))
        ≡ false
      → (after_frame f s).count < max_matches
  goes_on f s below on =
      elim (Bool-cases (f.kind == kind_output && is_none (decode.as_output f.body))) [
        | inl undecoded ↦ rw (after_frame-undecoded f s undecoded) below
        | inr decoded ↦
            below_cap (after_frame f s).count max_matches s.count (rw decoded at on) below
      ]

  grep_loop-AtMost :
      (fs : List Frame) (s : Search)
      → AtMost max_matches s
      → s.count < max_matches
      → AtMost max_matches (grep_loop parse decode closed max_matches fs s).search
  unfolding grep_loop searched
  grep_loop-AtMost [] s m below = m
  grep_loop-AtMost (f ∷ fs) s m below =
      let s' : Search = after_frame f s in
      let m' : AtMost max_matches s' = frame-AtMost f s m below in
      elim (Bool-cases (f.kind == kind_result)) [
        | inl is_result ↦ rw is_result m
        | inr no_result ↦ elim (Bool-cases (f.kind == kind_error)) [
          | inl is_error ↦ rw (no_result, is_error) m
          | inr no_error ↦
              elim (Bool-cases (
                not (f.kind == kind_output && is_none (decode.as_output f.body))
                && (ltb 0 max_matches && leb max_matches s'.count))) [
                  | inl full ↦ rw (no_result, no_error, full) m'
                  | inr on ↦
                      rw (no_result, no_error, on)
                        (grep_loop-AtMost fs s' m' (goes_on f s below on))
                ]
        ]
      ]

  -- A search with a cap prints at most that many matches, whatever frames come.
  grep_loop-cap :
      (fs : List Frame)
      → 0 < max_matches
      → length
          (grep_loop parse decode closed max_matches fs
            (record { hits = []; count = 0; stderr = []; buffer = [] })).search.hits
        ≤ max_matches
  grep_loop-cap fs h =
      let m =
        grep_loop-AtMost fs (record { hits = []; count = 0; stderr = []; buffer = [] })
          (record { counted = refl; at_most = omega arith }) h in
      omega (arith, m.counted, m.at_most)
