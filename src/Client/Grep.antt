-- ===== src/Client/Grep.antt =====
-- Grep and parseRgJSON of internal/client/grep.go, over the frames that come on the session (`closed` is
-- the error of the read behind them). json.Unmarshal of a line of ripgrep's output into its entry, with
-- the newlines trimmed off its text, is the parameter `parse`; the wording of a printed match, which is
-- `path:line:text`, and the hint of an agent that lacks rg are not modelled.
pub mod Lines
pub mod Scan
pub mod Chunks
pub mod Cap
use rsb.Prelude.{
  ℕ, ◌+◌, ◌-◌, String, Bool, true, false, not, ◌&&◌, Bytes, List, [], ◌∷◌, ◌++◌, Option, none, some,
  length, ltb, leb, eqb, ◌==◌, if◌then◌else◌,
}
use rsb.Protocol.{Request, Output, Error, zero_request, kind_output, kind_result, kind_error}
use rsb.Protocol.Wire.{Frame}
use rsb.Agent.Get.{raw_lines, drop_cr, max_line}
use rsb.Client.Exec.{Decoders}

pub record SearchOptions : Type 0 where
  pub ignore_case : Bool
  pub word_regex : Bool
  pub fixed : Bool
  pub glob : String
  pub max_matches : ℕ
  pub roots : List String

abbrev pub flag_if : Bool → List String → List String
flag_if b flags = if b then flags else []

abbrev pub roots_or_dot : List String → List String
roots_or_dot [] = "." ∷ []
roots_or_dot (r ∷ rs) = r ∷ rs

-- The argv; `itoa` prints a number.
unfoldable pub rg_argv : (ℕ → String) → String → SearchOptions → List String
rg_argv itoa pattern opts =
    "rg"
    ∷ "--json"
    ∷ "--line-number"
    ∷ "--with-filename"
    ∷ (flag_if opts.ignore_case ("-i" ∷ [])
        ++ (flag_if opts.word_regex ("-w" ∷ [])
            ++ (flag_if opts.fixed ("-F" ∷ [])
                ++ (flag_if (not (opts.glob == "")) ("--glob" ∷ opts.glob ∷ [])
                    ++ (flag_if (ltb 0 opts.max_matches) ("-m" ∷ itoa opts.max_matches ∷ [])
                        ++ ("--" ∷ pattern ∷ roots_or_dot opts.roots))))))

abbrev pub grep_request : String → List String → Request
grep_request id argv = record zero_request {
  id = id;
  type = "exec";
  argv = argv;
  stdin_closed = true;
}

pub record Hit : Type 0 where
  pub path : String
  pub line_number : ℕ
  pub text : Bytes

-- `entry`
pub record RgEntry : Type 0 where
  pub type : String
  pub hit : Hit

module _ (parse : Bytes → Option RgEntry) where
  -- The scanner loop of parseRgJSON, from `count` matches and the text `kept` for the next chunk on: the
  -- matches printed, and what the buffer is set to.
  unfoldable pub scan_lines : ℕ → List Bytes → ℕ → Bytes → List Hit × Bytes
  scan_lines remaining [] count kept = ([], kept)
  scan_lines remaining (raw ∷ rest) count kept =
      let line = drop_cr raw in
      let partial = scan_lines remaining rest count (kept ++ line) in
      let skipped = scan_lines remaining rest count kept in
      let next = scan_lines remaining rest (count + 1) kept in
      if leb max_line (length raw) then ([], kept) else elim (parse line) [
        | none ↦ partial
        | some e ↦
            if e.type == "match"
            then if ltb 0 remaining && leb remaining (count + 1)
              then (e.hit ∷ [], [])
              else (e.hit ∷ next.0, next.1)
            else skipped
      ]

  -- A chunk behind the text that is buffered; 0 for `remaining` is no limit.
  unfoldable pub parse_rg_json : Bytes → Bytes → ℕ → List Hit × Bytes
  unfolding scan_lines
  parse_rg_json buffer chunk remaining = scan_lines remaining (raw_lines (buffer ++ chunk)) 0 []

unfoldable pub is_none : Option Output → Bool
is_none none = true
is_none (some o) = false

-- What a search has done: the matches printed, their number, the text of rg's stderr, and the buffer.
pub record Search : Type 0 where
  pub hits : List Hit
  pub count : ℕ
  pub stderr : Bytes
  pub buffer : Bytes

-- The end of a search: the error, and whether rg's stderr is printed.
pub record Searched : Type 0 where
  pub search : Search
  pub failure : Option String
  pub stderr_shown : Bool

module _ (parse : Bytes → Option RgEntry) (decode : Decoders) (closed : String)
    (max_matches : ℕ) where
  unfoldable pub put_output : Option Output → Search → Search
  unfolding parse_rg_json
  put_output none s = s
  put_output (some o) s =
      let r = parse_rg_json parse s.buffer o.payload (max_matches - s.count) in
      if o.stream == "stdout"
      then record s { hits = s.hits ++ r.0; count = s.count + length r.0; buffer = r.1 }
      else record s { stderr = s.stderr ++ o.payload }

  reason_of : Option Error → String
  reason_of none = ""
  reason_of (some e) = e.reason

  unfoldable pub searched : Search → Option String → Bool → Searched
  searched s failure shown = record { search = s; failure = failure; stderr_shown = shown }

  -- The loop of Grep; it stops behind a frame that brings the matches to the cap.
  unfoldable pub grep_loop : List Frame → Search → Searched
  unfolding put_output reason_of searched is_none
  grep_loop [] s = searched s (some closed) false
  grep_loop (f ∷ fs) s =
      let s' = if f.kind == kind_output then put_output (decode.as_output f.body) s else s in
      let undecoded = f.kind == kind_output && is_none (decode.as_output f.body) in
      let later = grep_loop fs s' in
      if f.kind == kind_result
      then searched s none (ltb 0 (length s.stderr) && eqb s.count 0)
      else if f.kind == kind_error
      then searched s (some (reason_of (decode.as_error f.body))) false
      else if not undecoded && (ltb 0 max_matches && leb max_matches s'.count)
      then searched s' none false
      else later
