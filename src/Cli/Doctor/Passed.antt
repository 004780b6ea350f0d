-- ===== src/Cli/Doctor/Passed.antt =====
-- What a doctor that passes has checked, and where it checks nothing.
use rsb.Prelude.{
  String, Bool, true, false, ◌&&◌, ◌≡◌, refl, sym, ◌∙◌, List, [], ◌∷◌, ◌++◌, some, ok, arith, ◌==◌,
  eq_iff, Bool-cases, inl, inr,
}
use rsb.Cli.Doctor.{
  Asked, Line, line_ok, passed, agent_lines, reach_lines, host_lines, container_lines, doctor,
  is_remote_host, hash_lines,
}

passed-append : (ls ms : List Line) → passed (ls ++ ms) ≡ (passed ls && passed ms)
unfolding passed
passed-append [] ms = refl
passed-append (l ∷ ls) ms = elim (Bool-cases (line_ok l)) [
  | inl good ↦ rw good (passed-append ls ms)
  | inr bad ↦ rw bad refl
]

and_left : (a b : Bool) → (a && b) ≡ true → a ≡ true
and_left true b e = refl
and_left false b e = absurd (cc e)

and_right : (a b : Bool) → (a && b) ≡ true → b ≡ true
and_right true b e = e
and_right false b e = absurd (cc e)

passed-left : (ls ms : List Line) → passed (ls ++ ms) ≡ true → passed ls ≡ true
passed-left ls ms h = and_left (passed ls) (passed ms) (sym (passed-append ls ms) ∙ h)

passed-right : (ls ms : List Line) → passed (ls ++ ms) ≡ true → passed ms ≡ true
passed-right ls ms h = and_right (passed ls) (passed ms) (sym (passed-append ls ms) ∙ h)

passed-tail : (l : Line) (ls : List Line) → passed (l ∷ ls) ≡ true → passed ls ≡ true
unfolding passed
passed-tail l ls h = and_right (line_ok l) (passed ls) h

module _ (A : Asked) where
  passed-host_lines :
      (host container : String)
      → passed (doctor A host container) ≡ true
      → passed (host_lines A host) ≡ true
  unfolding doctor
  passed-host_lines host container h =
      passed-left (host_lines A host) (container_lines A host container)
        (passed-tail _ _ (passed-right _ _ (passed-tail _ _ h)))

  passed-agent_lines :
      (h : String)
      → (A.local_bin == "") ≡ false
      → A.remote_hash ≡ some h
      → passed (agent_lines A) ≡ true
      → (A.has_agent ≡ true) × (h ≡ A.local_hash)
  unfolding agent_lines hash_lines passed
  passed-agent_lines h bin hash good = elim (Bool-cases A.has_agent) [
    | inr missing ↦ absurd (cc (rw missing at good))
    | inl there ↦ elim (Bool-cases (h == A.local_hash)) [
      | inl same ↦ (there, ground (arith, eq_iff h A.local_hash, same))
      | inr stale ↦ absurd (cc (rw (there, bin, hash, stale) at good))
    ]
  ]

  -- A doctor that passes for a remote host which echoes the marker, where there is a local agent for its
  -- platform and the hash of the remote one can be had, has found an agent there, and with that hash.
  pub doctor-passed :
      (host container h : String)
      → is_remote_host host ≡ true
      → A.reach ≡ ok "rsb-ssh-ok"
      → (A.local_bin == "") ≡ false
      → A.remote_hash ≡ some h
      → passed (doctor A host container) ≡ true
      → (A.has_agent ≡ true) × (h ≡ A.local_hash)
  unfolding host_lines reach_lines
  doctor-passed host container h remote reached bin hash good =
      passed-agent_lines h bin hash
        (passed-tail _ _ (rw (remote, reached) at (passed-host_lines host container good)))

  -- A remote host whose ssh prints anything else than the marker alone is not reported at all: the doctor
  -- prints what it prints with no host, and passes if it does.
  pub doctor-unmarked :
      (host out : String)
      → is_remote_host host ≡ true
      → A.reach ≡ ok out
      → (out == "rsb-ssh-ok") ≡ false
      → doctor A host "" ≡ doctor A "" ""
  unfolding doctor host_lines reach_lines container_lines is_remote_host
  doctor-unmarked host out remote reached unmarked = rw (remote, reached, unmarked) refl
