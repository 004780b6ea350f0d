-- ===== src/Cli/Repl.antt =====
-- cmdRepl of cmd/rsb/main.go: its arguments, and the exit code of the repl that they start.
use rsb.Prelude.{
  ℕ, String, Bool, true, false, List, [], ◌∷◌, ◌⧺◌, Try, ok, err, ◌==◌, if◌then◌else◌,
}
use rsb.Protocol.Wire.{Frame}
use rsb.Client.Repl.{State, Setting, repl}
use rsb.Cli.Exec.{take_host}

-- The loop over the flags; `pending` says that the last one was --session.
unfoldable pub repl_args : Bool → List String → String → Try String
repl_args pending [] session = ok session
repl_args true (name ∷ rest) session = repl_args false rest name
repl_args false (a ∷ rest) session =
    let value = repl_args true rest session in
    if a == "--session" then value else err ("unknown repl flag: " ⧺ a)

pub data Ended : Type 0 where
  failed : String → Ended
  exited : State → ℕ → Ended

-- `setting` is what a repl on a host depends on, `lines` the input, and `frames` what the host sends.
module _ (setting : String → Setting) (lines : List String) (frames : List Frame) where
  exited_with : State × ℕ → Ended
  exited_with (s, code) = exited s code

  unfoldable pub run_repl : String → Try String → Ended
  unfolding exited_with
  run_repl host (err e) = failed e
  run_repl host (ok session) = exited_with (repl (setting host) session lines frames)

  unfoldable pub cmd_repl : List String → Ended
  unfolding run_repl
  cmd_repl args = let (host, rest) = take_host args in run_repl host (repl_args false rest "")
