-- ===== src/Client/Start/Reached.antt =====
-- dialOrStart on the machine of `Service`: the daemon that it starts listens a while after.
use rsb.Prelude.{
  Bool-cases, ltb, ltb→lt, if◌then◌else◌, true, ℕ, zero, suc, ◌+◌, ◌*◌, ◌≤◌, ◌<◌, ◌^◌, String,
  false, ◌≡◌, ◌≢◌, refl, ◌∙◌, Option, none, some, ok, arith, ◌==◌, ◌⊎◌, inl, inr, eq_iff,
}
use rsb.Service
use rsb.Service.{Machine, no_faults}
use rsb.Service.Manage.{Managed, start-Managed}
use rsb.Client.Start.{
  World, Dialled, connected, missing, failed, Reply, give_up, wait_round, wait_loop, start_daemon,
  after_start, first_dial, dial_or_start,
}
use rsb.Client.Start.Wait.{wait_loop-some, wait_loop-none}

-- `ready` is when the daemon will listen, in ms, if one was started and does not listen yet.
pub record Clocked : Type 0 where
  pub machine : Machine
  pub ready : Option ℕ
  pub time : ℕ

unfoldable pub dialled : Service.Dialled → Dialled ℕ
dialled (Service.connected pid) = connected pid
dialled Service.missing = missing
dialled Service.refused = failed "connection refused"

-- No daemon answers the first dial.
abbrev pub Unreached : Machine → Type 0
Unreached m = (Service.dial m ≡ Service.missing) ⊎ (Service.dial m ≡ Service.refused)

missing_socket : (m : Machine) → Service.dial (record m { socket = none }) ≡ Service.missing
unfolding Service.dial Service.dial_at
missing_socket m = refl

-- A process `pid` that runs the daemon; a time.Sleep that starts at `t` lasts 50 ms and `overrun t` more, and
-- a dial that starts at `t` takes `lag t`.
module _ (pid : ℕ) (overrun lag : ℕ → ℕ) where
  -- The machine when it is next looked at, at `t`.
  unfoldable pub at_time : Machine → Option ℕ → ℕ → Clocked
  at_time m none t = record { machine = m; ready = none; time = t }
  at_time m (some ready) t =
      if ltb t ready
      then record { machine = m; ready = some ready; time = t }
      else record { machine = Service.start no_faults pid m; ready = none; time = t }

  -- The daemon listens `delay` ms after its start.
  abbrev pub on_machine : ℕ → World
  on_machine delay = record {
    State = Clocked;
    Conn = ℕ;
    dial = λ s. dialled (Service.dial s.machine);
    remove = λ s. record s { machine = record s.machine { socket = none } };
    mkdir = none;
    open_log = none;
    start = λ bin s. (none, record s { ready = some (s.time + delay) });
    sleep = λ s. at_time s.machine s.ready (s.time + lag s.time + 50 + overrun s.time);
    now = λ s. s.time + lag s.time;
  }

  waiting : Machine → ℕ → ℕ → Clocked
  waiting m ready t = record { machine = m; ready = some ready; time = t }

  listening : Machine → ℕ → Clocked
  listening m t = record { machine = Service.start no_faults pid m; ready = none; time = t }

  waits-none :
      (delay deadline : ℕ) (s : Clocked)
      → Service.dial s.machine ≡ Service.missing
      → s.time + lag s.time ≤ deadline
      → wait_round (on_machine delay) deadline (dialled (Service.dial s.machine)) s ≡ none
  unfolding wait_round give_up dialled
  waits-none delay deadline s absent early = rw absent (ground arith)

  start-reached :
      (m : Machine) → Service.dial (Service.start no_faults pid m) ≡ Service.connected pid
  unfolding Service.dial Service.start Service.dial_at
  start-reached m = ground arith

  -- The answer of a machine whose daemon listens.
  abbrev reply_at : Machine → ℕ → (delay : ℕ) → Reply (on_machine delay)
  reply_at m t delay = record { conn = ok pid; state = listening m t }

  answers :
      (delay deadline : ℕ) (m : Machine) (t : ℕ)
      → wait_round
          (on_machine delay)
          deadline
          (dialled (Service.dial (listening m t).machine))
          (listening m t)
        ≡ some (reply_at m t delay)
  unfolding wait_round dialled listening
  answers delay deadline m t = rw (start-reached m) refl

  abbrev next : ℕ → ℕ
  next t = t + lag t + 50 + overrun t

  -- The daemon listens when the sleep is over.
  next-listens :
      (delay fuel deadline ready : ℕ) (m : Machine) (t : ℕ)
      → Service.dial m ≡ Service.missing
      → t + lag t ≤ deadline
      → ltb (next t) ready ≡ false
      → wait_loop (on_machine delay) (suc (suc fuel)) deadline (waiting m ready t)
        ≡ some (reply_at m (next t) delay)
  unfolding waiting listening at_time
  next-listens delay fuel deadline ready m t absent early there =
      wait_loop-none (on_machine delay) deadline (suc fuel) (waiting m ready t)
        (waits-none delay deadline (waiting m ready t) absent early)
      ∙ rw there (
          wait_loop-some (on_machine delay) deadline fuel (listening m (next t))
            (reply_at m (next t) delay) (answers delay deadline m (next t)))

  -- It does not yet.
  next-waits :
      (delay fuel deadline ready : ℕ) (m : Machine) (t : ℕ)
      → Service.dial m ≡ Service.missing
      → t + lag t ≤ deadline
      → ltb (next t) ready ≡ true
      → wait_loop (on_machine delay) (suc fuel) deadline (waiting m ready t)
        ≡ wait_loop (on_machine delay) fuel deadline (waiting m ready (next t))
  unfolding waiting at_time
  next-waits delay fuel deadline ready m t absent early still =
      wait_loop-none (on_machine delay) deadline fuel (waiting m ready t)
        (waits-none delay deadline (waiting m ready t) absent early)
      ∙ rw still refl

  -- The wait ends with the daemon, however long the sleeps take, if a dial that misses it is over before
  -- the deadline.
  wait_loop-pending :
      (delay fuel deadline ready : ℕ) (m : Machine) (t : ℕ)
      → ready ≤ t + fuel * 50
      → t ≤ ready
      → Service.dial m ≡ Service.missing
      → ((t' : ℕ) → t' ≤ ready → t' + lag t' ≤ deadline)
      → (end : ℕ) × (wait_loop (on_machine delay) (suc (suc fuel)) deadline (waiting m ready t)
          ≡ some (reply_at m end delay))
  wait_loop-pending delay zero deadline ready m t enough before absent in_time = (
    next t,
    next-listens delay zero deadline ready m t absent (in_time t before) (ground (arith, enough)),
  )
  wait_loop-pending delay (suc fuel) deadline ready m t enough before absent in_time =
      elim (Bool-cases (ltb (next t) ready)) [
        | inr there ↦ (
          next t,
          next-listens delay (suc fuel) deadline ready m t absent (in_time t before) there,
        )
        | inl still ↦
            let close = ltb→lt (next t) ready still in
            let (end, later) =
              wait_loop-pending delay fuel deadline ready m (next t) (omega (arith, enough))
                (omega (arith, close)) absent in_time in
            (
              end,
              next-waits delay (suc (suc fuel)) deadline ready m t absent (in_time t before) still
                  ∙ later,
            )
      ]

  after_start-pending :
      (bin : String) (delay longest : ℕ) (m : Machine) (t : ℕ)
      → bin ≢ ""
      → delay + longest ≤ 5000
      → ((t' : ℕ) → lag t' ≤ longest)
      → Service.dial m ≡ Service.missing
      → (end : ℕ) × (after_start
            (on_machine delay)
            102
            (start_daemon (on_machine delay) bin (record { machine = m; ready = none; time = t }))
          ≡ some (reply_at m end delay))
  unfolding after_start start_daemon waiting
  after_start-pending bin delay longest m t found soon short absent =
      let named : (bin == "") ≡ false = ground (arith, eq_iff bin "", found) in
      rw named (
        wait_loop-pending delay 100 (t + lag t + 5000) (t + delay) m t (omega (arith, soon))
          (omega arith) absent (λ t' before. omega (arith, soon, short t', before)))

  -- Where no daemon answers, because there is no socket or because the one at its path is dead, and the
  -- program is found, dialOrStart starts a daemon and comes back connected to it, if it listens within the
  -- 5 s of the wait less the time of the longest dial, however long a time.Sleep of 50 ms lasts beyond that;
  -- and that daemon is the one that `rsb daemon` manages.
  pub dial_or_start-Managed :
      (bin : String) (delay longest : ℕ) (m : Machine) (t : ℕ)
      → 0 < pid
      → pid < 2 ^ 63
      → bin ≢ ""
      → delay + longest ≤ 5000
      → ((t' : ℕ) → lag t' ≤ longest)
      → Unreached m
      → (reply : Reply (on_machine delay)) × (dial_or_start
            (on_machine delay)
            102
            bin
            (record { machine = m; ready = none; time = t })
          ≡ some reply)
        × (reply.conn ≡ ok pid)
        × Managed pid reply.state.machine
  unfolding dial_or_start first_dial dialled listening
  dial_or_start-Managed bin delay longest m t some_pid fits found soon short (inl absent) =
      let (end, e) = after_start-pending bin delay longest m t found soon short absent in
      (reply_at m end delay, rw absent e, refl, start-Managed pid m some_pid fits)
  dial_or_start-Managed bin delay longest m t some_pid fits found soon short (inr dead) =
      let m' : Machine = record m { socket = none } in
      let (end, e) =
        after_start-pending bin delay longest m' t found soon short (missing_socket m) in
      (reply_at m' end delay, rw dead e, refl, start-Managed pid m' some_pid fits)
