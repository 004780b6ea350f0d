-- ===== src/Client/Start/Wait.antt =====
-- The wait for the daemon ends.
use rsb.Prelude.{
  ℕ, zero, suc, ◌+◌, ◌*◌, ◌≤◌, ◌<◌, String, true, ◌≡◌, ◌∙◌, refl, ◌⧺◌, Option, none, some,
  Option-cases, inl, inr, lt→ltb, arith, ok, err,
}
use rsb.Client.Start.{
  World, Dialled, connected, missing, failed, Reply, late, give_up, wait_round, wait_loop,
  start_daemon, after_start, first_dial, dial_or_start,
}

module _ (W : World) where
  -- A sleep lasts at least its 50 ms.
  abbrev pub Sleeps : Type 0
  Sleeps = (s : W.State) → W.now s + 50 ≤ W.now (W.sleep s)

  module _ (deadline : ℕ) where
    give_up-late :
        (e : String) (s : W.State)
        → late W deadline s ≡ true
        → (r : Reply W) × (give_up W deadline e s ≡ some r)
    unfolding give_up
    give_up-late e s h =
        (record { conn = err ("daemon didn't come up: " ⧺ e); state = s }, rw h refl)

    late-ends :
        (d : Dialled W.Conn) (s : W.State)
        → late W deadline s ≡ true
        → (r : Reply W) × (wait_round W deadline d s ≡ some r)
    unfolding wait_round
    late-ends (connected c) s h = (record { conn = ok c; state = s }, refl)
    late-ends missing s h = give_up-late "no such file or directory" s h
    late-ends (failed e) s h = give_up-late e s h

    pub wait_loop-some :
        (fuel : ℕ) (s : W.State) (r : Reply W)
        → wait_round W deadline (W.dial s) s ≡ some r
        → wait_loop W (suc fuel) deadline s ≡ some r
    unfolding wait_loop
    wait_loop-some fuel s r e = rw e refl

    pub wait_loop-none :
        (fuel : ℕ) (s : W.State)
        → wait_round W deadline (W.dial s) s ≡ none
        → wait_loop W (suc fuel) deadline s ≡ wait_loop W fuel deadline (W.sleep s)
    unfolding wait_loop
    wait_loop-none fuel s e = rw e refl

    pub wait_loop_ends :
        (rounds : ℕ) (s : W.State)
        → Sleeps
        → deadline < W.now s + rounds * 50
        → (r : Reply W) × (wait_loop W (suc rounds) deadline s ≡ some r)
    wait_loop_ends zero s sleeps soon =
        let (r, e) = late-ends (W.dial s) s (lt→ltb deadline (W.now s) (omega (arith, soon))) in
        (r, wait_loop-some zero s r e)
    wait_loop_ends (suc rounds) s sleeps soon =
        elim (Option-cases (wait_round W deadline (W.dial s) s)) [
          | inl e ↦
              let (r, later) =
                wait_loop_ends rounds (W.sleep s) sleeps (omega (arith, soon, sleeps s)) in
              (r, wait_loop-none (suc rounds) s e ∙ later)
          | inr (r, e) ↦ (r, wait_loop-some (suc rounds) s r e)
        ]

  after_start_ends :
      (r : Option String × W.State)
      → Sleeps
      → (reply : Reply W) × (after_start W 102 r ≡ some reply)
  unfolding after_start
  after_start_ends (some e, s) sleeps = (_, refl)
  after_start_ends (none, s) sleeps = wait_loop_ends (W.now s + 5000) 101 s sleeps (omega arith)

  first_dial_ends :
      (bin : String) (d : Dialled W.Conn) (s : W.State)
      → Sleeps
      → (reply : Reply W) × (first_dial W 102 bin d s ≡ some reply)
  unfolding first_dial
  first_dial_ends bin (connected c) s sleeps = (_, refl)
  first_dial_ends bin missing s sleeps = after_start_ends (start_daemon W bin s) sleeps
  first_dial_ends bin (failed e) s sleeps =
      after_start_ends (start_daemon W bin (W.remove s)) sleeps

  -- dialOrStart returns, with a connection or an error, whatever the machine does, if a sleep lasts its
  -- 50 ms: 102 rounds of the wait are enough.
  pub dial_or_start_ends :
      (bin : String) (s : W.State)
      → Sleeps
      → (reply : Reply W) × (dial_or_start W 102 bin s ≡ some reply)
  unfolding dial_or_start
  dial_or_start_ends bin s sleeps = first_dial_ends bin (W.dial s) s sleeps
