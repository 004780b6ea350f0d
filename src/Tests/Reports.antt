-- ===== src/Tests/Reports.antt =====
-- `rsb sync ./l w:/d` of a directory with one file, which the host does not have, and `rsb cat` of the
-- second line of a file.
use rsb.Prelude.{
  ℕ, String, false, ◌≡◌, refl, Bytes, List, [], ◌∷◌, none, some, Try, ok, All, if◌then◌else◌, ◌==◌,
}
use rsb.Client.Paths.{PathSpec, parse_path, is_remote, strip_prefix, split_colon}
use rsb.Client.Sync.{
  LocalFile, Entry, directory, file, Remote, sync, sync_entries, and_then, sync_file, decided,
  after_put, need_upload,
}
use rsb.Cli.Sync.{cmd_sync, sync_args, run_sync, report, summary, printed}
use rsb.Agent.Get.{OpenFile, get_frames, lines_from, drop_cr}
use rsb.Client.Transfer.{get_request, no_result, file_get}
use rsb.Cli.Cat.{
  Files, run_cat, show_cat, show_local, cmd_cat, cat_args, range_of, apply_cat_limits, local_loop,
}
use rsb.Cli.Cat.Remote.{run_cat-same}
use rsb.Cli.Sync.Report.{Moved, run_sync-Moved}

abbrev remote : Remote
remote = record {
  State = ℕ;
  stat = λ path s.
      some (
        ok (record { id = "i"; exists = false; size = 0; mod_time = 0; mode = 0; is_dir = false }));
  put = λ f s. some (none, 1);
}

abbrev notes : LocalFile
notes = record {
  rel = "notes";
  remote = "/d/notes";
  size = 2;
  mode = 420;
  mtime = 7;
  local = ok (1 ∷ 2 ∷ [], none);
}

digit : ℕ → String
digit n = "N"

utf8 : String → Bytes
utf8 s = b'w' ∷ b':' ∷ b'/' ∷ b'd' ∷ []

walk : String → PathSpec → List Entry
walk src dst = directory ∷ file notes ∷ []

session : Bytes → Try ℕ
session name = ok 0

abbrev line : List String
line = "./l" ∷ "w:/d" ∷ []

abbrev shown : List String
shown = "  upload  notes" ∷ "rsb: N uploaded, N skipped" ∷ []

line-shown : run_sync digit remote utf8 walk session line ≡ some (shown, 0)
unfolding run_sync printed report summary digit cmd_sync sync is_remote parse_path strip_prefix utf8
    split_colon session sync_entries walk and_then sync_file decided after_put need_upload
line-shown = refl

line-parsed : sync_args line false [] ≡ (false, line)
unfolding sync_args
line-parsed = refl

run_sync-Moved_example : All (Moved false shown) (directory ∷ file notes ∷ [])
unfolding walk
run_sync-Moved_example =
    run_sync-Moved digit remote utf8 walk session line [] shown false "./l" "w:/d" line-parsed
      line-shown

-- Line 2 of a file whose lines are `A`, `B` with a carriage return, and `C`.
abbrev letters : OpenFile
letters = record { content = b'A' ∷ 10 ∷ b'B' ∷ 13 ∷ 10 ∷ b'C' ∷ []; fault = none }

digest : Bytes → String
digest bytes = "sum"

path_bytes : String → Bytes
path_bytes s = if s == "l" then b'l' ∷ [] else b'w' ∷ b':' ∷ b'/' ∷ b'd' ∷ []

abbrev files : Files
files = record {
  open_file = λ path. ok letters.content;
  get = λ host path opts. ok (
      file_get digest "EOF" (get_frames digest (get_request "i" "/d" "" opts) letters) []
        no_result);
}

two : String → ℕ
two s = 2

second_line :
    (run_cat files path_bytes two two (λ s. ok 0) ("--lines=2" ∷ "l" ∷ [])).stdout ≡ b'B' ∷ 10 ∷ []
unfolding run_cat show_cat show_local cmd_cat cat_args range_of two parse_path is_remote path_bytes
    strip_prefix split_colon apply_cat_limits local_loop lines_from drop_cr
second_line = refl

run_cat-same_example :
    (run_cat files path_bytes two two (λ s. ok 0) ("--lines=2" ∷ "w:/d" ∷ [])).stdout
    ≡ (run_cat files path_bytes two two (λ s. ok 0) ("--lines=2" ∷ "l" ∷ [])).stdout
unfolding cat_args range_of two parse_path is_remote path_bytes strip_prefix split_colon
run_cat-same_example =
    run_cat-same files path_bytes two two (λ s. ok 0) digest "EOF" "i" "/d" "" ("--lines=2" ∷ [])
      "l" "w:/d" letters refl (refl, refl) (refl, refl) (λ given. absurd (given refl)) refl refl
      refl refl refl
