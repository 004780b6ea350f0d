-- ===== src/Cli/Ensure/Verified.antt =====
-- What an ensure promises: a live agent that is checked, or the one that was there.
use rsb.Prelude.{
  String, Bool, true, false, not, ◌&&◌, ◌≡◌, ◌≢◌, ◌⊎◌, inl, inr, refl, ap, ◌∙◌, Bytes, List, [],
  ◌∷◌, ◌⧺◌, Option, none, some, Try, ok, err, arith, ◌==◌, eq_iff, if◌then◌else◌, Bool-cases,
}
use rsb.Cli.Ensure.{
  Tools, failed, ready, agent_path, tmp_path, ssh, move_line, install_steps, hash_field,
  probe_remote_arch, printed_hash, or_try, remote_sha256, after_step, run_steps, verified,
  after_install, install, is_current, hashed, on_platform, ensure,
}

-- The commands of an ensure that do not touch the live agent: making the directory, copying to the
-- temporary path, and setting the mode of the temporary file or removing it.
pub data IsHarmless (host : String) : List String → Type 0 where
  makes_dir : IsHarmless host (ssh host "mkdir -p ~/.rsb")
  copies :
      (local_bin : String) → IsHarmless host ("scp" ∷ local_bin ∷ (host ⧺ (":" ⧺ tmp_path)) ∷ [])
  sets_mode : IsHarmless host (ssh host ("chmod +x " ⧺ tmp_path))
  removes : IsHarmless host (ssh host ("rm -f " ⧺ tmp_path))

-- The live agent of a state, and what the tools do to it: the harmless commands leave it, a rename that
-- fails leaves it too, and a checksum command that prints a hash prints that of the live agent.
pub record IsFaithful (T : Tools) (fields : String → List String) (digest : Bytes → String)
    (host : String) (live : T.State → Option Bytes) : Type 0 where
  pub keeps : (c : List String) (s : T.State) → IsHarmless host c → live (T.run c s).1 ≡ live s
  pub stays :
      (s : T.State) (e : String)
      → (T.run (move_line host) s).0 ≡ some e
      → live (T.run (move_line host) s).1 ≡ live s
  pub sha256sum :
      (s : T.State) (out h : String)
      → T.output (ssh host ("sha256sum " ⧺ agent_path)) s ≡ ok out
      → hash_field (fields out) ≡ some h
      → (b : Bytes) × ((live s ≡ some b) × (digest b ≡ h))
  pub shasum :
      (s : T.State) (out h : String)
      → T.output (ssh host ("shasum -a 256 " ⧺ agent_path)) s ≡ ok out
      → hash_field (fields out) ≡ some h
      → (b : Bytes) × ((live s ≡ some b) × (digest b ≡ h))

and_right : (a b : Bool) → (a && b) ≡ true → b ≡ true
and_right true b e = e
and_right false b e = absurd (cc e)

module _ (T : Tools) (fields : String → List String) (to_lower : String → String)
    (digest : Bytes → String) (host : String) (live : T.State → Option Bytes)
    (faithful : IsFaithful T fields digest host live) where
  -- The live agent has this hash.
  abbrev pub Live : String → T.State → Type 0
  Live h s = (b : Bytes) × ((live s ≡ some b) × (digest b ≡ h))

  or_try-cases :
      (a b : Option String) (h : String)
      → or_try T fields to_lower a b ≡ some h
      → (a ≡ some h) ⊎ (b ≡ some h)
  unfolding or_try
  or_try-cases (some x) b h e = inl e
  or_try-cases none b h e = inr e

  printed :
      (t : Try String) (h : String)
      → printed_hash T fields to_lower t ≡ some h
      → (out : String) × ((t ≡ ok out) × (hash_field (fields out) ≡ some h))
  unfolding printed_hash
  printed (err e) h p = absurd (cc p)
  printed (ok out) h p = (out, (refl, p))

  remote_sha256-Live :
      (s : T.State) (h : String)
      → remote_sha256 T fields to_lower host agent_path s ≡ some h
      → Live h s
  unfolding remote_sha256
  remote_sha256-Live s h e = elim (or_try-cases _ _ h e) [
    | inl first ↦
        let (out, (ran, field)) = printed _ h first in faithful.sha256sum s out h ran field
    | inr second ↦ let (out, (ran, field)) = printed _ h second in faithful.shasum s out h ran field
  ]

  abbrev mismatch : String
  mismatch = "verification FAILED: remote agent sha256 mismatch"

  verified-is :
      (h : String) (o : Option String)
      → ((e : String) → verified T fields to_lower h o ≢ failed e)
      → o ≡ some h
  unfolding verified
  verified-is h none fine = absurd (fine _ refl)
  verified-is h (some k) fine = elim (Bool-cases (k == h)) [
    | inl same ↦ let e : k ≡ h = ground (arith, eq_iff k h, same) in ap some e
    | inr other ↦
        absurd (fine mismatch (ap (λ (b : Bool). if b then ready else failed mismatch) other))
  ]

  after_install-Live :
      (h : String) (r : Option String × T.State)
      → ((e : String) → (after_install T fields to_lower host h r).0 ≢ failed e)
      → Live h (after_install T fields to_lower host h r).1
  unfolding after_install
  after_install-Live h (some e, s) fine = absurd (fine e refl)
  after_install-Live h (none, s) fine = remote_sha256-Live s h (verified-is h _ fine)

  is_current-is :
      (h : String) (o : Option String) → is_current T fields to_lower h o ≡ true → o ≡ some h
  unfolding is_current
  is_current-is h none e = absurd (cc e)
  is_current-is h (some k) same = let e : k ≡ h = ground (arith, eq_iff k h, same) in ap some e

  after_failed :
      (h e : String) (r : Option String × T.State)
      → r.0 ≡ some e
      → ((after_install T fields to_lower host h r).0 ≡ failed e)
        × ((after_install T fields to_lower host h r).1 ≡ r.1)
  unfolding after_install
  after_failed h e (some f, s) bad = (ap failed (cc bad), refl)
  after_failed h e (none, s) bad = absurd (cc bad)

  hashed-Live :
      (force : Bool) (local_bin h : String) (s : T.State)
      → ((e : String) → (hashed T fields to_lower force host local_bin (ok h) s).0 ≢ failed e)
      → Live h (hashed T fields to_lower force host local_bin (ok h) s).1
  unfolding hashed install
  hashed-Live force local_bin h s fine =
      elim (Bool-cases (
        not force
        && is_current T fields to_lower h (remote_sha256 T fields to_lower host agent_path s))) [
          | inl skip ↦
              rw skip (remote_sha256-Live s h (is_current-is h _ (and_right (not force) _ skip)))
          | inr go ↦ rw go (
              after_install-Live h
                (run_steps T fields to_lower host (install_steps host local_bin) s) (rw go at fine))
        ]

  -- An ensure that does not fail leaves a live agent on the host whose digest is that of the local agent
  -- for the host's platform, if it skips the upload too.
  pub ensure-Live :
      (agent_for : String → String → String) (sha256_file : String → Try String) (force : Bool)
      (os arch h : String) (s : T.State)
      → probe_remote_arch T fields to_lower host s ≡ ok (os, arch)
      → sha256_file (agent_for os arch) ≡ ok h
      → ((e : String) → (ensure T fields to_lower agent_for sha256_file force host s).0 ≢ failed e)
      → Live h (ensure T fields to_lower agent_for sha256_file force host s).1
  unfolding ensure on_platform
  ensure-Live agent_for sha256_file force os arch h s platform hash fine =
      elim (Bool-cases (agent_for os arch == "")) [
        | inl missing ↦ absurd (fine "no rsb-agent found" (rw (platform, missing) refl))
        | inr there ↦
            rw (platform, there, hash)
              (hashed-Live force (agent_for os arch) h s (rw (platform, there, hash) at fine))
      ]

  Kept : T.State → Option String × T.State → Type 0
  Kept s r = (e : String) → r.0 ≡ some e → live r.1 ≡ live s

  after_step-Kept :
      (s s' : T.State) (e : Option String) (later : Option String × T.State)
      → live s' ≡ live s
      → Kept s' later
      → Kept s (after_step T fields to_lower host e s' later)
  unfolding after_step Kept
  after_step-Kept s s' none later same kept e failed' = kept e failed' ∙ same
  after_step-Kept s s' (some f) later same kept e failed' = faithful.keeps _ s' removes ∙ same

  last-Kept :
      (s s' : T.State) (o : Option String)
      → ((e : String) → o ≡ some e → live s' ≡ live s)
      → Kept s (after_step T fields to_lower host o s' (none, s'))
  unfolding after_step Kept
  last-Kept s s' none same e failed' = absurd (cc failed')
  last-Kept s s' (some f) same e failed' = faithful.keeps _ s' removes ∙ same f refl

  step-Kept :
      (c : List String) (cs : List (List String)) (s : T.State)
      → IsHarmless host c
      → Kept (T.run c s).1 (run_steps T fields to_lower host cs (T.run c s).1)
      → Kept s (run_steps T fields to_lower host (c ∷ cs) s)
  unfolding run_steps
  step-Kept c cs s harmless kept =
      after_step-Kept s (T.run c s).1 (T.run c s).0 _ (faithful.keeps c s harmless) kept

  -- The rename is the last step; if it fails, the live agent is left too.
  move-Kept : (s : T.State) → Kept s (run_steps T fields to_lower host (move_line host ∷ []) s)
  unfolding run_steps
  move-Kept s =
      last-Kept s (T.run (move_line host) s).1 (T.run (move_line host) s).0
        (λ e. faithful.stays s e)

  -- An installation one of whose steps fails, which may be any of the four, fails with its error and
  -- leaves the live agent on the host as it was.
  pub install_failed :
      (local_bin h e : String) (s : T.State)
      → (run_steps T fields to_lower host (install_steps host local_bin) s).0 ≡ some e
      → ((install T fields to_lower host local_bin h s).0 ≡ failed e)
        × (live (install T fields to_lower host local_bin h s).1 ≡ live s)
  unfolding install Kept
  install_failed local_bin h e s bad =
      let make = ssh host "mkdir -p ~/.rsb" in
      let copy = "scp" ∷ local_bin ∷ (host ⧺ (":" ⧺ tmp_path)) ∷ [] in
      let chmod = ssh host ("chmod +x " ⧺ tmp_path) in
      let r = run_steps T fields to_lower host (install_steps host local_bin) s in
      let kept : Kept s r = step-Kept make (copy ∷ chmod ∷ move_line host ∷ []) s makes_dir (
        step-Kept copy (chmod ∷ move_line host ∷ []) (T.run make s).1 (copies local_bin) (
          step-Kept chmod (move_line host ∷ []) (T.run copy (T.run make s).1).1 sets_mode
            (move-Kept (T.run chmod (T.run copy (T.run make s).1).1).1))) in
      let (ended, same) = after_failed h e r bad in (ended, ap live same ∙ kept e bad)
