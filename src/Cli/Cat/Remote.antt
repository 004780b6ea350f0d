-- ===== src/Cli/Cat/Remote.antt =====
-- rsb cat of a slice of a remote file against rsb cat of the same slice of a local one.
use text.Mathlib.Text.{starts_with}
use rsb.Prelude.{
  ℕ, String, true, false, ◌||◌, ◌≡◌, ◌≢◌, refl, sym, ◌∙◌, Bytes, List, [], ◌∷◌, ◌++◌, Option, none,
  some, Try, ok, Bool-cases, inl, inr, ltb, ◌==◌, eq_iff, if◌then◌else◌, arith,
}
use rsb.Agent.Get.{OpenFile, get_frames, raw_lines}
use rsb.Client.Paths.{parse_path, is_remote}
use rsb.Client.Transfer.{FileGetOptions, Download, get_request, no_result, file_get}
use rsb.Client.Transfer.Downloads.{file_get-written}
use rsb.Cli.Cat.{
  CatArgs, no_cat_args, cat_arg, cat_args, range_of, local_loop, apply_cat_limits, cmd_cat,
  show_local, show_download, show_remote, Files, show_cat, run_cat,
}
use rsb.Cli.Cat.Local.{local_loop-read_chunks}

-- An argument that is no flag.
abbrev pub IsName : String → Type 0
IsName a = (starts_with a "--lines=" ≡ false) × (starts_with a "--max-bytes=" ≡ false)

abbrev with_path : CatArgs → String → CatArgs
with_path o a = record o { positional = o.positional ++ a ∷ [] }

cat_args-name :
    (flags : List String) (a : String) (o : CatArgs)
    → IsName a
    → cat_args (flags ++ a ∷ []) o ≡ with_path (cat_args flags o) a
unfolding cat_args
cat_args-name [] a o (no_lines, no_bytes) = rw (no_lines, no_bytes) refl
cat_args-name (flag ∷ flags) a o name = cat_args-name flags a (cat_arg flag o) name

-- The limits that FileGet is asked for.
abbrev pub limits : (String → ℕ) → (String → ℕ) → CatArgs → FileGetOptions
limits atoi int64_of o = record {
  line_start = (range_of atoi o.lines_flag).0;
  line_end = (range_of atoi o.lines_flag).1;
  max_bytes = if o.max_bytes_flag == "" then 0 else int64_of o.max_bytes_flag;
}

stdout-download :
    (failure : Option String) (d : Download) → (show_download failure d).stdout ≡ d.written
unfolding show_download
stdout-download none d = refl
stdout-download (some e) d = refl

module _ (files : Files) (utf8 : String → Bytes) (atoi int64_of : String → ℕ)
    (parse_int : String → Try ℕ) where
  run_cat-local :
      (flags : List String) (p : String) (content : Bytes)
      → (cat_args flags no_cat_args).positional ≡ []
      → IsName p
      → is_remote (parse_path (utf8 p)) ≡ false
      → files.open_file (parse_path (utf8 p)).path ≡ ok content
      → let l = limits atoi int64_of (cat_args flags no_cat_args) in
        (run_cat files utf8 atoi int64_of parse_int (flags ++ p ∷ [])).stdout
        ≡ (local_loop l.line_start l.line_end l.max_bytes (raw_lines content) 0 0).0
  unfolding run_cat cmd_cat show_cat show_local apply_cat_limits
  run_cat-local flags p content only name local there =
      rw (cat_args-name flags p no_cat_args name, only, local, there) refl

  -- The error of ParseInt is not looked at where there is no flag.
  parsed :
      (flag : String)
      → (flag ≢ "" → parse_int flag ≡ ok (int64_of flag))
      → (if flag == "" then ok 0 else parse_int flag) ≡ ok (if flag == "" then 0 else int64_of flag)
  parsed flag good = elim (Bool-cases (flag == "")) [
    | inl none_given ↦ rw none_given refl
    | inr given ↦ let ne : flag ≢ "" = ground (arith, eq_iff flag "", given) in rw given (good ne)
  ]

  run_cat-remote :
      (flags : List String) (q : String) (d : Download)
      → (cat_args flags no_cat_args).positional ≡ []
      → IsName q
      → ((cat_args flags no_cat_args).max_bytes_flag ≢ ""
          → parse_int (cat_args flags no_cat_args).max_bytes_flag
            ≡ ok (int64_of (cat_args flags no_cat_args).max_bytes_flag))
      → is_remote (parse_path (utf8 q)) ≡ true
      → let spec = parse_path (utf8 q) in
        files.get spec.host spec.path (limits atoi int64_of (cat_args flags no_cat_args)) ≡ ok d
        → (run_cat files utf8 atoi int64_of parse_int (flags ++ q ∷ [])).stdout ≡ d.written
  unfolding run_cat cmd_cat show_cat show_remote
  run_cat-remote flags q d only name good remote there =
      rw
        (
          cat_args-name flags q no_cat_args name,
          only,
          remote,
          parsed (cat_args flags no_cat_args).max_bytes_flag good,
          there,
        )
        (stdout-download d.failure d)

-- rsb cat with the same flags, which ask for a range of lines, on a local file and on a file of a host
-- with the same bytes, when FileGet in the new session is answered with the frames that the agent has
-- for an open file, whether its last read fails or not: stdout is the same. A byte cap that is given is
-- one that ParseInt takes.
pub run_cat-same :
    (files : Files) (utf8 : String → Bytes) (atoi int64_of : String → ℕ)
    (parse_int : String → Try ℕ) (digest : Bytes → String) (closed id path cwd : String)
    (flags : List String) (p q : String) (file : OpenFile)
    → (cat_args flags no_cat_args).positional ≡ []
    → IsName p
    → IsName q
    → ((cat_args flags no_cat_args).max_bytes_flag ≢ ""
        → parse_int (cat_args flags no_cat_args).max_bytes_flag
          ≡ ok (int64_of (cat_args flags no_cat_args).max_bytes_flag))
    → is_remote (parse_path (utf8 p)) ≡ false
    → is_remote (parse_path (utf8 q)) ≡ true
    → let opts = limits atoi int64_of (cat_args flags no_cat_args) in
      let spec = parse_path (utf8 q) in
      (ltb 0 opts.line_start || ltb 0 opts.line_end) ≡ true
      → files.open_file (parse_path (utf8 p)).path ≡ ok file.content
      → files.get spec.host spec.path opts
        ≡ ok (
            file_get digest closed
              (get_frames digest (get_request id path cwd opts) file)
              []
              no_result)
      → (run_cat files utf8 atoi int64_of parse_int (flags ++ q ∷ [])).stdout
        ≡ (run_cat files utf8 atoi int64_of parse_int (flags ++ p ∷ [])).stdout
run_cat-same files utf8 atoi int64_of parse_int digest closed id path cwd flags p q file only name
      remote_name good local remote ranged opened answered =
    let opts = limits atoi int64_of (cat_args flags no_cat_args) in
    let req = get_request id path cwd opts in
    run_cat-remote files utf8 atoi int64_of parse_int flags q
      (file_get digest closed (get_frames digest req file) [] no_result) only remote_name good
      remote answered
    ∙ file_get-written digest closed req file
    ∙ sym (local_loop-read_chunks req file ranged)
    ∙ sym (
        run_cat-local files utf8 atoi int64_of parse_int flags p file.content only name local
          opened)
