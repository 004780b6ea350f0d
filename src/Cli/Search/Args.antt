-- ===== src/Cli/Search/Args.antt =====
-- What a written search is read as.
use text.Mathlib.Text.{starts_with}
use rsb.Prelude.{
  ℕ, String, true, false, ◌≡◌, refl, ◌∙◌, List, [], ◌∷◌, ◌++◌, ok, append_assoc, append-nil, All,
}
use rsb.Client.Grep.{SearchOptions}
use rsb.Cli.Exec.Args.{named_host}
use rsb.Cli.Search.{
  no_options, positional, flag_of, none_pending, set_glob, set_max, grep_args, with_positional,
  cmd_grep,
}

-- An option of `rsb grep`, and how it is written.
pub data Given : Type 0 where
  ignoring_case : Given
  whole_words : Given
  literally : Given
  glob_is : String → Given
  at_most : String → Given

abbrev pub written : Given → List String
written ignoring_case = "-i" ∷ []
written whole_words = "-w" ∷ []
written literally = "-F" ∷ []
written (glob_is v) = "--glob" ∷ v ∷ []
written (at_most v) = "--max-matches" ∷ v ∷ []

abbrev pub written_all : List Given → List String
written_all [] = []
written_all (g ∷ gs) = written g ++ written_all gs

module _ (atoi : String → ℕ) where
  abbrev pub meant : Given → SearchOptions → SearchOptions
  meant ignoring_case o = record o { ignore_case = true }
  meant whole_words o = record o { word_regex = true }
  meant literally o = record o { fixed = true }
  meant (glob_is v) o = set_glob atoi v o
  meant (at_most v) o = set_max atoi v o

  abbrev pub meant_all : List Given → SearchOptions → SearchOptions
  meant_all [] o = o
  meant_all (g ∷ gs) o = meant_all gs (meant g o)

  grep_args-given :
      (g : Given) (rest : List String) (o : SearchOptions) (args : List String)
      → grep_args atoi none_pending (written g ++ rest) o args
        ≡ grep_args atoi none_pending rest (meant g o) args
  unfolding grep_args flag_of
  grep_args-given ignoring_case rest o args = refl
  grep_args-given whole_words rest o args = refl
  grep_args-given literally rest o args = refl
  grep_args-given (glob_is v) rest o args = refl
  grep_args-given (at_most v) rest o args = refl

  grep_args-written :
      (gs : List Given) (rest : List String) (o : SearchOptions) (args : List String)
      → grep_args atoi none_pending (written_all gs ++ rest) o args
        ≡ grep_args atoi none_pending rest (meant_all gs o) args
  grep_args-written [] rest o args = refl
  grep_args-written (g ∷ gs) rest o args = rw (append_assoc (written g) (written_all gs) rest) (
      grep_args-given g (written_all gs ++ rest) o args
      ∙ grep_args-written gs rest (meant g o) args)

  grep_args-positional :
      (ps : List String) (o : SearchOptions) (args : List String)
      → All (λ p. flag_of p ≡ positional) ps
      → grep_args atoi none_pending ps o args ≡ (o, args ++ ps)
  unfolding grep_args
  grep_args-positional [] o args all = rw append-nil refl
  grep_args-positional (p ∷ ps) o args (is, all) =
      rw (grep_args, is) (grep_args-positional ps o (args ++ p ∷ []) all ∙ rw append_assoc refl)

  -- A command line of `rsb grep` that names a host, gives options in any number and order, and then a
  -- pattern and paths that are no flags, is read back: the host, the pattern, the paths, and the options
  -- with the last value of each.
  pub cmd_grep-written :
      (host : String) (gs : List Given) (pattern : String) (roots : List String)
      → starts_with host "-" ≡ false
      → flag_of pattern ≡ positional
      → All (λ p. flag_of p ≡ positional) roots
      → cmd_grep atoi (host ∷ written_all gs ++ pattern ∷ roots)
        ≡ ok (record {
          host = host;
          pattern = pattern;
          opts = record (meant_all gs no_options) { roots = roots };
        })
  unfolding cmd_grep with_positional
  cmd_grep-written host gs pattern roots named is all =
      rw
        (
          named_host host (written_all gs ++ pattern ∷ roots) named,
          grep_args-written gs (pattern ∷ roots) no_options [],
          grep_args-positional (pattern ∷ roots) (meant_all gs no_options) [] (is, all),
        )
        refl
