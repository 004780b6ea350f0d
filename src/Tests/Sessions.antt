-- ===== src/Tests/Sessions.antt =====
-- The stdin of running requests.
use rsb.Prelude.{◌⊎◌, String, true, ◌≡◌, refl, Bytes, List, [], ◌∷◌, ◌++◌, length, ◌≤◌}
use rsb.Prelude.Dict.{lookup}
use rsb.Agent.Stdin.{
  RunningReq, new_running_req, Steps, Step, here, next, send_chunk, signal_eof, channel_size,
}
use rsb.Agent.Stdin.Pump.{Steps-ordered, Steps-drains}
use rsb.Client.Stdin.{stdin_of, pump_stdin, stdin_frames}
use rsb.Protocol.{end_stdin}
use rsb.Agent.Stdin.Table.{Op, apply_all, entry_all, lookup-apply_all}

abbrev hello : Bytes
hello = 104 ∷ 105 ∷ []

abbrev fed : RunningReq
fed = record new_running_req { stdin_ch = hello ∷ []; fed = hello ∷ [] }

abbrev ended : RunningReq
ended = record fed { eof_closed = true; fed_at_eof = hello ∷ [] }

abbrev seen : RunningReq
seen = record ended { eof = true }

abbrev pumped : RunningReq
pumped = record seen { stdin_ch = []; written = hello ∷ [] }

abbrev done : RunningReq
done = record pumped { pipe_closed = true }

-- EOF is seen before the chunk is taken, which the drain then writes.
run : Steps new_running_req done
unfolding send_chunk signal_eof
run =
    next {t = pumped}
      (next {t = seen}
        (next {t = ended}
          (next {t = fed} (next {t = new_running_req} here (Step.feed hello refl))
            (Step.end_input refl))
          (Step.see_eof refl refl refl))
        (Step.pump hello [] refl refl refl))
      (Step.finish refl refl refl refl)

Steps-ordered_example :
    (length done.stdin_ch ≤ channel_size)
    × ((done.lost ≡ true) ⊎ (done.written ++ done.stdin_ch ≡ done.fed))
Steps-ordered_example = Steps-ordered done run

Steps-drains_example :
    (done.eof_closed ≡ true) × ((more : List Bytes) × (done.written ≡ done.fed_at_eof ++ more))
Steps-drains_example = Steps-drains done run refl refl

abbrev frames : List (String × Op)
frames =
    ("r1", Op.register)
    ∷ ("r2", Op.register)
    ∷ ("r1", Op.feed hello)
    ∷ ("r2", Op.cancel)
    ∷ ("r1", Op.unregister)
    ∷ ("r3", Op.close)
    ∷ []

lookup-apply_all_example :
    lookup "r2" (apply_all frames []) ≡ entry_all "r2" frames (lookup "r2" [])
lookup-apply_all_example = lookup-apply_all "r2" frames []

-- Two short reads, and one of nothing.
sent_stdin :
    stdin_frames "r1" ((1 ∷ []) ∷ [] ∷ (2 ∷ 3 ∷ []) ∷ [])
    ≡ stdin_of "r1" (1 ∷ []) ∷ stdin_of "r1" (2 ∷ 3 ∷ []) ∷ end_stdin (record { id = "r1" }) ∷ []
unfolding stdin_frames pump_stdin
sent_stdin = refl
