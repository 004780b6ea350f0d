-- ===== src/Cli/Cat.antt =====
-- cmdCat, parseLineRange and applyCatLimits of cmd/rsb/main.go. strconv.Atoi and strconv.ParseInt are
-- parameters, and so is the UTF-8 of a string; negative numbers are not modelled. A local file is its
-- bytes; a read error, which the scanner loop ends at and does not look at, is none.
pub mod Local
pub mod Remote
use Prim.Native.String.{slice, len}
use text.Mathlib.Text.{starts_with, find?}
use rsb.Prelude.{
  ℕ, ◌+◌, String, Bool, true, false, not, ◌&&◌, Bytes, List, [], ◌∷◌, ◌++◌, ◌⧺◌, Option, none, some,
  Try, ok, err, length, ltb, leb, ◌==◌, if◌then◌else◌,
}
use rsb.Agent.Get.{raw_lines, drop_cr, with_newline, max_line}
use rsb.Client.Paths.{PathSpec, parse_path, is_remote}
use rsb.Client.Transfer.{FileGetOptions, Download}

pub record CatArgs : Type 0 where
  pub lines_flag : String
  pub max_bytes_flag : String
  pub positional : List String

abbrev pub no_cat_args : CatArgs
no_cat_args = record { lines_flag = ""; max_bytes_flag = ""; positional = [] }

abbrev pub trim_prefix : String → String → String
trim_prefix a prefix = slice a (len prefix) (len a)

abbrev pub cat_arg : String → CatArgs → CatArgs
cat_arg a o =
    if starts_with a "--lines="
    then record o { lines_flag = trim_prefix a "--lines=" }
    else if starts_with a "--max-bytes="
    then record o { max_bytes_flag = trim_prefix a "--max-bytes=" }
    else record o { positional = o.positional ++ a ∷ [] }

unfoldable pub cat_args : List String → CatArgs → CatArgs
cat_args [] o = o
cat_args (a ∷ args) o = cat_args args (cat_arg a o)

line_range_at : (String → ℕ) → String → Option ℕ → ℕ × ℕ
line_range_at atoi s (some i) = (atoi (slice s 0 i), atoi (slice s (i + 1) (len s)))
line_range_at atoi s none = (atoi s, atoi s)

unfoldable pub parse_line_range : (String → ℕ) → String → ℕ × ℕ
unfolding line_range_at
parse_line_range atoi s = line_range_at atoi s (find? s ":")

unfoldable pub range_of : (String → ℕ) → String → ℕ × ℕ
unfolding parse_line_range
range_of atoi lines_flag = if lines_flag == "" then (0, 0) else parse_line_range atoi lines_flag

-- The scanner loop of applyCatLimits over the lines from number `line_no + 1` on: the bytes written, and
-- whether the notice about the byte cap is printed.
unfoldable pub local_loop : ℕ → ℕ → ℕ → List Bytes → ℕ → ℕ → Bytes × Bool
local_loop start end max_bytes [] line_no total = ([], false)
local_loop start end max_bytes (raw ∷ rest) line_no total =
    let out = with_newline (drop_cr raw) in
    let skip = local_loop start end max_bytes rest (line_no + 1) total in
    let sent = local_loop start end max_bytes rest (line_no + 1) (total + length out) in
    if leb max_line (length raw)
    then ([], false)
    else if ltb 0 start && ltb (line_no + 1) start
    then skip
    else if ltb 0 end && ltb end (line_no + 1)
    then ([], false)
    else if ltb 0 max_bytes && ltb max_bytes (total + length out)
    then ([], true)
    else (out ++ sent.0, sent.1)

unfoldable pub apply_cat_limits :
    (String → ℕ) → (String → ℕ) → Bytes → String → String → Bytes × Bool
unfolding range_of
apply_cat_limits atoi int64_of content lines_flag max_bytes_flag =
    let (start, end) = range_of atoi lines_flag in
    local_loop start end (if max_bytes_flag == "" then 0 else int64_of max_bytes_flag)
      (raw_lines content) 0 0

-- What cmdCat does: it stops with an error, prints a local file, or asks a session.
pub data CatCall : Type 0 where
  refused : String → CatCall
  local_file : Bytes → String → String → CatCall
  remote_file : Bytes → Bytes → FileGetOptions → CatCall

-- `ParseInt` with its error looked at.
remote_limits : PathSpec → ℕ × ℕ → Try ℕ → CatCall
remote_limits spec r (err e) = refused ("bad --max-bytes: " ⧺ e)
remote_limits spec r (ok n) =
    remote_file spec.host spec.path (record { line_start = r.0; line_end = r.1; max_bytes = n })

cat_of : (String → ℕ) → (String → Try ℕ) → CatArgs → PathSpec → CatCall
unfolding remote_limits range_of
cat_of atoi parse_int o spec =
    if not (is_remote spec)
    then local_file spec.path o.lines_flag o.max_bytes_flag
    else remote_limits spec (range_of atoi o.lines_flag)
        (if o.max_bytes_flag == "" then ok 0 else parse_int o.max_bytes_flag)

cat_path : (String → Bytes) → (String → ℕ) → (String → Try ℕ) → CatArgs → List String → CatCall
unfolding cat_of parse_path is_remote
cat_path utf8 atoi parse_int o [] =
    refused "usage: rsb cat <host:path> [--lines N[:M]] [--max-bytes N]"
cat_path utf8 atoi parse_int o (p ∷ _) = cat_of atoi parse_int o (parse_path (utf8 p))

unfoldable pub cmd_cat : (String → Bytes) → (String → ℕ) → (String → Try ℕ) → List String → CatCall
unfolding cat_path cat_args
cmd_cat utf8 atoi parse_int args =
    let o = cat_args args no_cat_args in cat_path utf8 atoi parse_int o o.positional

-- What `rsb cat` shows: stdout, the lines on stderr and the exit code.
pub record Shown : Type 0 where
  pub stdout : Bytes
  pub stderr : List String
  pub code : ℕ

-- fatalf, behind what is on stdout already
abbrev pub fatal : Bytes → String → Shown
fatal stdout e = record { stdout = stdout; stderr = ("rsb: " ⧺ e) ∷ []; code = 1 }

abbrev pub shown_with : Bytes → Bool → String → Shown
shown_with stdout truncated notice = record {
  stdout = stdout;
  stderr = if truncated then notice ∷ [] else [];
  code = 0;
}

-- What follows os.Open of a local file.
unfoldable pub show_local : (String → ℕ) → (String → ℕ) → String → String → Try Bytes → Shown
unfolding apply_cat_limits
show_local atoi int64_of lines_flag max_bytes_flag (err e) = fatal [] e
show_local atoi int64_of lines_flag max_bytes_flag (ok content) =
    let r = apply_cat_limits atoi int64_of content lines_flag max_bytes_flag in
    shown_with r.0 r.1 "rsb: (truncated at --max-bytes)"

-- What follows FileGet, by its error.
unfoldable pub show_download : Option String → Download → Shown
show_download (some e) d = fatal d.written e
show_download none d =
    shown_with d.written d.res.truncated "rsb: (truncated — use --lines/--max-bytes to read more)"

unfoldable pub show_remote : Try Download → Shown
unfolding show_download
show_remote (err e) = fatal [] e
show_remote (ok d) = show_download d.failure d

-- The files of this machine, and FileGet in a new session to a host: NewSession's error or a download.
pub record Files : Type 0 where
  pub open_file : Bytes → Try Bytes
  pub get : Bytes → Bytes → FileGetOptions → Try Download

module _ (files : Files) (utf8 : String → Bytes) (atoi int64_of : String → ℕ)
    (parse_int : String → Try ℕ) where
  unfoldable pub show_cat : CatCall → Shown
  unfolding show_local show_remote
  show_cat (refused e) = fatal [] e
  show_cat (local_file path lines_flag max_bytes_flag) =
      show_local atoi int64_of lines_flag max_bytes_flag (files.open_file path)
  show_cat (remote_file host path opts) = show_remote (files.get host path opts)

  -- cmdCat as the process `rsb cat` shows it.
  unfoldable pub run_cat : List String → Shown
  unfolding show_cat cmd_cat
  run_cat args = show_cat (cmd_cat utf8 atoi parse_int args)
