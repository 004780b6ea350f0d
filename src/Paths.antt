-- ===== src/Paths.antt =====
-- The discovery of the install home in internal/paths/paths.go. What it asks the operating system and
-- path/filepath is the record `Os`; the once-only cache in front of resolveHome is left out.
pub mod Home
pub mod Programs
use rsb.Prelude.{
  String, Bool, true, false, not, ◌&&◌, List, [], ◌∷◌, ◌⧺◌, Option, none, some, Try, ok, err, ◌==◌,
  if◌then◌else◌,
}

-- RSB_HOME, os.Executable, filepath.EvalSymlinks, Dir, Join and Abs, and os.Stat with IsDir: whether a
-- path is a directory, and whether it is there and none.
pub record Os : Type 0 where
  pub rsb_home : String
  pub executable : Try String
  pub eval_symlinks : String → Try String
  pub dir : String → String
  pub join : String → String → String
  pub abs : String → Try String
  pub is_dir : String → Bool
  pub is_file : String → Bool
  pub goos : String
  pub goarch : String

module _ (os : Os) where
  unfoldable pub is_home : String → Bool
  is_home dir = not (dir == "") && os.is_dir (os.join dir "bin")

  unfoldable pub or_else : Try String → String → String
  or_else (ok p) q = p
  or_else (err e) q = q

  unfoldable pub infer_from : String → String
  unfolding is_home
  infer_from real =
      let parent = os.dir (os.dir real) in
      let grand = os.dir parent in
      if is_home grand then grand else if is_home parent then parent else ""

  unfoldable pub infer_exe : Try String → String
  unfolding infer_from or_else
  infer_exe (err e) = ""
  infer_exe (ok exe) = infer_from (or_else (os.eval_symlinks exe) exe)

  unfoldable pub infer_home_from_executable : String
  unfolding infer_exe
  infer_home_from_executable = infer_exe os.executable

  -- The candidates of the fallback, in turn.
  unfoldable pub from_abs : Try String → String → String
  from_abs (ok p) later = p
  from_abs (err e) later = later

  unfoldable pub from_cwd : List String → String
  unfolding is_home from_abs
  from_cwd [] = ""
  from_cwd (c ∷ cs) =
      let later = from_cwd cs in if is_home c then from_abs (os.abs c) later else later

  unfoldable pub resolve_home : String
  unfolding is_home infer_home_from_executable from_cwd
  resolve_home =
      if not (os.rsb_home == "") && is_home os.rsb_home
      then os.rsb_home
      else if not (infer_home_from_executable == "")
      then infer_home_from_executable
      else from_cwd ("." ∷ ".." ∷ [])

  first_dir : List String → Try String
  first_dir [] = err "no bin directory under the home"
  first_dir (p ∷ ps) = let later = first_dir ps in if os.is_dir p then ok p else later

  unfoldable pub local_platform_dir : Try String
  unfolding resolve_home first_dir
  local_platform_dir =
      if resolve_home == ""
      then err "cannot locate rsb install home"
      else first_dir (
          os.join (os.join resolve_home "bin") (os.goos ⧺ ("-" ⧺ os.goarch))
          ∷ os.join resolve_home "bin"
          ∷ [])

  unfoldable pub agent_for_platform : String → String → String
  unfolding resolve_home
  agent_for_platform os_name arch =
      let c = os.join (os.join (os.join resolve_home "bin") (os_name ⧺ ("-" ⧺ arch))) "rsb-agent" in
      if os.is_file c then c else ""
