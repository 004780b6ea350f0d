-- ===== src/Cli/Search.antt =====
-- cmdGrep of cmd/rsb/main.go up to the call of Grep: from the arguments to the host, the pattern and the
-- options. strconv.Atoi with its error ignored is a parameter; negative numbers are not modelled.
pub mod Args
use Prim.Native.String.{slice, len}
use text.Mathlib.Text.{starts_with, find?}
use rsb.Prelude.{
  ℕ, ◌+◌, String, Bool, true, false, ◌&&◌, List, [], ◌∷◌, ◌++◌, Option, none, some, Try, ok, err,
  ltb, ◌==◌, if◌then◌else◌,
}
use rsb.Client.Grep.{SearchOptions}
use rsb.Cli.Exec.{take_host}

abbrev pub no_options : SearchOptions
no_options = record {
  ignore_case = false;
  word_regex = false;
  fixed = false;
  glob = "";
  max_matches = 0;
  roots = [];
}

-- How an argument of the loop is read; the flags with a value have it behind an equals sign, or next.
pub data Flag : Type 0 where
  ignore_case : Flag
  word_regex : Flag
  fixed : Flag
  glob_next : Flag
  max_next : Flag
  glob_is : String → Flag
  max_is : String → Flag
  positional : Flag

-- `switch a`
abbrev pub plain_flag : String → Flag
plain_flag a =
    if a == "-i"
    then ignore_case
    else if a == "--ignore-case"
    then ignore_case
    else if a == "-w"
    then word_regex
    else if a == "--word"
    then word_regex
    else if a == "-F"
    then fixed
    else if a == "--fixed"
    then fixed
    else if a == "--glob"
    then glob_next
    else if a == "--max-matches"
    then max_next
    else positional

keyed_flag : String → String → String → Flag
keyed_flag a key value =
    if key == "--glob"
    then glob_is value
    else if key == "--max-matches"
    then max_is value
    else plain_flag a

flag_at : String → Option ℕ → Flag
unfolding keyed_flag
flag_at a none = plain_flag a
flag_at a (some eq) =
    if ltb 0 eq && starts_with a "--"
    then keyed_flag a (slice a 0 eq) (slice a (eq + 1) (len a))
    else plain_flag a

unfoldable pub flag_of : String → Flag
unfolding flag_at
flag_of a = flag_at a (find? a "=")

-- A flag whose value the `i++` goes on to.
pub data Pending : Type 0 where
  none_pending : Pending
  glob_pending : Pending
  max_pending : Pending

module _ (atoi : String → ℕ) where
  abbrev pub set_glob : String → SearchOptions → SearchOptions
  set_glob v o = record o { glob = v }

  abbrev pub set_max : String → SearchOptions → SearchOptions
  set_max v o = record o { max_matches = atoi v }

  -- The loop over the arguments: the options, and the positional arguments.
  unfoldable pub grep_args :
      Pending → List String → SearchOptions → List String → SearchOptions × List String
  grep_args pending [] o args = (o, args)
  grep_args glob_pending (v ∷ rest) o args = grep_args none_pending rest (set_glob v o) args
  grep_args max_pending (v ∷ rest) o args = grep_args none_pending rest (set_max v o) args
  grep_args none_pending (a ∷ rest) o args = elim (flag_of a) [
    | ignore_case ↦ grep_args none_pending rest (record o { ignore_case = true }) args
    | word_regex ↦ grep_args none_pending rest (record o { word_regex = true }) args
    | fixed ↦ grep_args none_pending rest (record o { fixed = true }) args
    | glob_next ↦ grep_args glob_pending rest o args
    | max_next ↦ grep_args max_pending rest o args
    | glob_is v ↦ grep_args none_pending rest (set_glob v o) args
    | max_is v ↦ grep_args none_pending rest (set_max v o) args
    | positional ↦ grep_args none_pending rest o (args ++ a ∷ [])
  ]

pub record GrepCall : Type 0 where
  pub host : String
  pub pattern : String
  pub opts : SearchOptions

unfoldable pub with_positional : String → SearchOptions × List String → Try GrepCall
with_positional host (o, []) = err "usage: rsb grep <host> [options] <pattern> [paths...]"
with_positional host (o, pattern ∷ roots) =
    ok (record { host = host; pattern = pattern; opts = record o { roots = roots } })

unfoldable pub cmd_grep : (String → ℕ) → List String → Try GrepCall
unfolding with_positional grep_args take_host
cmd_grep atoi args =
    let (host, rest) = take_host args in
    with_positional host (grep_args atoi none_pending rest no_options [])
