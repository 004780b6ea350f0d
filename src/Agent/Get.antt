-- ===== src/Agent/Get.antt =====
-- handleFileGet of cmd/rsb-agent/files.go. An open file is its bytes and whether a read fails once
-- they are all taken (`fault`, with the error's text), in place of the end of the file; a Read returns as many bytes as
-- it is asked for while there are as many. The SHA-256 in hexadecimal is the parameter `digest`.
pub mod Whole
pub mod Lines
pub mod Frames
use Prim.Native.Nat.{min}
use rsb.Prelude.{
  ℕ, zero, suc, ◌+◌, ◌-◌, ◌*◌, ◌^◌, String, Bool, true, false, ◌&&◌, ◌||◌, Bytes, List, [], ◌∷◌,
  ◌++◌, ◌⧺◌, Option, none, some, Try, ok, err, take, drop, length, ltb, leb, eqb, if◌then◌else◌,
  map, concat,
}
use rsb.Prelude.Int.{pos}
use rsb.Protocol.{Message, Request, FileChunk, error, file_chunk, result}
use rsb.Agent.{Agent, Host, resolve_path, write_frame}

abbrev pub chunk_size : ℕ
chunk_size = 64 * 1024

-- How a read loop ends: at its regular end, at the byte cap, on an error, or without fuel.
pub data End : Type 0 where
  finished : End
  capped : End
  failed : String → End
  out_of_fuel : End

-- At the end of the data.
unfoldable pub at_end : String → Option String → End
at_end prefix none = finished
at_end prefix (some e) = failed (prefix ⧺ e)

-- The size of the next read; 0 says that the cap is reached.
unfoldable pub to_read : ℕ → ℕ → ℕ
to_read max_bytes total = if ltb 0 max_bytes then min (max_bytes - total) chunk_size else chunk_size

-- The branch `default:`: whole-file read with an optional byte cap, by the data of the chunks sent.
-- One unit of fuel is one round.
unfoldable pub whole_loop : ℕ → ℕ → Option String → Bytes → ℕ → List Bytes × End
unfolding to_read at_end
whole_loop zero max_bytes fault rest total = ([], out_of_fuel)
whole_loop (suc fuel) max_bytes fault rest total =
    let n = to_read max_bytes total in
    let chunk = take n rest in
    let later = whole_loop fuel max_bytes fault (drop n rest) (total + length chunk) in
    if ltb 0 max_bytes && leb max_bytes total
    then ([], capped)
    else if eqb (length chunk) 0
    then ([], at_end "read: " fault)
    else (chunk ∷ later.0, later.1)

-- bufio.ScanLines without its last step: the text between newlines, and what is behind the last
-- one if there is any.
unfoldable pub lines_from : Bytes → Bytes → List Bytes
lines_from cur [] = if eqb (length cur) 0 then [] else cur ∷ []
lines_from cur (c ∷ cs) = elim (eqb c b'\n') [
  | true ↦ cur ∷ lines_from [] cs
  | false ↦ lines_from (cur ++ c ∷ []) cs
]

abbrev pub raw_lines : Bytes → List Bytes
raw_lines = lines_from []

-- ScanLines drops one carriage return at the end of a line.
unfoldable pub drop_cr : Bytes → Bytes
drop_cr [] = []
drop_cr (c ∷ []) = if eqb c b'\r' then [] else c ∷ []
drop_cr (c ∷ d ∷ cs) = c ∷ drop_cr (d ∷ cs)

-- The scanner's buffer, 1 MiB: a line that fills it is an error.
abbrev pub max_line : ℕ
max_line = 1024 * 1024

-- `append(line, '\n')`
abbrev pub with_newline : Bytes → Bytes
with_newline line = line ++ b'\n' ∷ []

-- The check of scanner.Err() behind a break, of which `rest` is what the lines behind it are. The scanner
-- has met the error of the read by then if the last line has no newline and is the one of the break: it
-- had to read on to find its end. `met` is that error.
unfoldable pub at_break : Option String → List Bytes → End → End
at_break none rest e = e
at_break (some fault) [] e = failed ("scan: " ⧺ fault)
at_break (some fault) (raw ∷ rest) e = e

-- The scanner loop over the lines from number `line_no + 1` on.
unfoldable pub line_loop :
    ℕ → ℕ → ℕ → Option String → Option String → List Bytes → ℕ → ℕ → List Bytes × End
unfolding drop_cr at_end at_break
line_loop start end max_bytes fault met [] line_no total = ([], at_end "scan: " fault)
line_loop start end max_bytes fault met (raw ∷ rest) line_no total =
    let out = with_newline (drop_cr raw) in
    let skip = line_loop start end max_bytes fault met rest (line_no + 1) total in
    let sent = line_loop start end max_bytes fault met rest (line_no + 1) (total + length out) in
    if leb max_line (length raw)
    then ([], failed "scan: bufio.Scanner: token too long")
    else if ltb (line_no + 1) start
    then skip
    else if ltb 0 end && ltb end (line_no + 1)
    then ([], at_break met rest finished)
    else if ltb 0 max_bytes && ltb max_bytes (total + length out)
    then ([], at_break met rest capped)
    else (out ∷ sent.0, sent.1)

pub record OpenFile : Type 0 where
  pub content : Bytes
  pub fault : Option String

-- The last line has its newline.
unfoldable pub ends_line : Bytes → Bool
ends_line [] = true
ends_line (c ∷ []) = eqb c b'\n'
ends_line (c ∷ d ∷ cs) = ends_line (d ∷ cs)

abbrev pub met_at_last : OpenFile → Option String
met_at_last file = if ends_line file.content then none else file.fault

-- The `switch` on the line range.
unfoldable pub read_chunks : Request → OpenFile → List Bytes × End
read_chunks req file =
    if ltb 0 req.line_start || ltb 0 req.line_end
    then line_loop (if eqb req.line_start 0 then 1 else req.line_start) req.line_end req.max_bytes
        file.fault (met_at_last file) (raw_lines file.content) 0 0
    else whole_loop (length file.content + 1) req.max_bytes file.fault file.content 0

abbrev pub data_chunk : String → Bytes → Message
data_chunk id bytes =
    file_chunk (record { id = id; payload = bytes; done = false; sha256 = ""; truncated = false })

abbrev pub last_chunk : String → Bool → String → Message
last_chunk id truncated sha256 =
    file_chunk
      (record { id = id; payload = []; done = true; sha256 = sha256; truncated = truncated })

abbrev pub error_for : String → String → Message
error_for id reason = error (record { id = id; reason = reason })

abbrev pub result_ok : String → Message
result_ok id = result (record { id = id; exit_code = pos 0; signal = ""; duration_ms = 0 })

-- What follows the chunks.
unfoldable pub closing : (Bytes → String) → String → List Bytes → End → List Message
closing digest id chunks finished = last_chunk id false (digest (concat chunks)) ∷ result_ok id ∷ []
closing digest id chunks capped = last_chunk id true (digest (concat chunks)) ∷ result_ok id ∷ []
closing digest id chunks (failed reason) = error_for id reason ∷ []
closing digest id chunks out_of_fuel = []

-- The frames for an open file.
unfoldable pub get_frames : (Bytes → String) → Request → OpenFile → List Message
get_frames digest req file =
    let r = read_chunks req file in map (data_chunk req.id) r.0 ++ closing digest req.id r.0 r.1

write_frames : List Message → Agent → Agent
unfolding write_frame
write_frames [] a = a
write_frames (m ∷ ms) a = write_frames ms (write_frame m a)

opened : (Bytes → String) → Request → Try OpenFile → Agent → Agent
unfolding get_frames read_chunks closing write_frames
opened digest req (err e) a = write_frame (error_for req.id ("open: " ⧺ e)) a
opened digest req (ok file) a = write_frames (get_frames digest req file) a

at_path : (Bytes → String) → (String → Try OpenFile) → Request → Try String → Agent → Agent
unfolding opened
at_path digest open_file req (ok p) a = opened digest req (open_file p) a
at_path digest open_file req (err e) a = write_frame (error_for req.id e) a

-- handleFileGet; `open_file` is os.Open.
unfoldable pub handle_file_get :
    (Bytes → String) → (String → Try OpenFile) → Host → Request → Agent → Agent
unfolding at_path resolve_path whole_loop line_loop lines_from
handle_file_get digest open_file host req a =
    let (p, a') = resolve_path host req a in at_path digest open_file req p a'
