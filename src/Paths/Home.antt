-- ===== src/Paths/Home.antt =====
-- What the discovery finds.
use rsb.Prelude.{
  String, Bool, true, false, not, ◌&&◌, ◌≡◌, ◌≢◌, refl, List, [], ◌∷◌, Try, ok, err, ◌==◌,
  Bool-cases, Try-cases, inl, inr,
}
use rsb.Paths.{
  Os, is_home, or_else, infer_from, infer_exe, infer_home_from_executable, from_abs, from_cwd,
  resolve_home,
}

and_right : (a b : Bool) → (a && b) ≡ true → b ≡ true
and_right true b e = e
and_right false b e = absurd (cc e)

module _ (os : Os) where
  -- Nothing, or a home.
  data Found : String → Type 0 where
    nothing : Found ""
    a_home : (h : String) → is_home os h ≡ true → Found h

  infer_from-Found : (real : String) → Found (infer_from os real)
  unfolding infer_from
  infer_from-Found real =
      let parent = os.dir (os.dir real) in
      elim (Bool-cases (is_home os (os.dir parent))) [
        | inl grand ↦ rw grand (a_home (os.dir parent) grand)
        | inr no_grand ↦ elim (Bool-cases (is_home os parent)) [
          | inl there ↦ rw (no_grand, there) (a_home parent there)
          | inr neither ↦ rw (no_grand, neither) nothing
        ]
      ]

  infer_exe-Found : (exe : Try String) → Found (infer_exe os exe)
  unfolding infer_exe
  infer_exe-Found (err e) = nothing
  infer_exe-Found (ok exe) = infer_from-Found _

  abbrev pub AbsKeeps : Type 0
  AbsKeeps = (c p : String) → os.abs c ≡ ok p → is_home os c ≡ true → is_home os p ≡ true

  from_cwd-Found : AbsKeeps → (cs : List String) → Found (from_cwd os cs)
  unfolding from_cwd from_abs
  from_cwd-Found keeps [] = nothing
  from_cwd-Found keeps (c ∷ cs) = elim (Bool-cases (is_home os c)) [
    | inr no_home ↦ rw no_home (from_cwd-Found keeps cs)
    | inl is ↦ rw is (elim (Try-cases (os.abs c)) [
      | inl (p, e) ↦ rw e (a_home p (keeps c p e is))
      | inr (x, e) ↦ rw e (from_cwd-Found keeps cs)
    ])
  ]

  Found-home : (h : String) → Found h → h ≢ "" → is_home os h ≡ true
  Found-home _ nothing some_home = absurd (some_home refl)
  Found-home _ (a_home h is) some_home = is

  resolve_home-Found : AbsKeeps → Found (resolve_home os)
  unfolding resolve_home infer_home_from_executable
  resolve_home-Found keeps = elim (Bool-cases (not (os.rsb_home == "") && is_home os os.rsb_home)) [
    | inl pinned ↦ rw pinned (a_home os.rsb_home (and_right (not (os.rsb_home == "")) _ pinned))
    | inr free ↦ elim (Bool-cases (not (infer_home_from_executable os == ""))) [
      | inl inferred ↦ rw (free, inferred) (infer_exe-Found os.executable)
      | inr none_inferred ↦ rw (free, none_inferred) (from_cwd-Found keeps ("." ∷ ".." ∷ []))
    ]
  ]

  some_is_home : (h : String) → is_home os h ≡ true → (h == "") ≡ false
  unfolding is_home
  some_is_home h there = elim (Bool-cases (h == "")) [
    | inl e ↦ absurd (cc (rw e at there))
    | inr e ↦ e
  ]

  -- A home that resolveHome finds has a bin directory, whichever step of the chain found it, if the
  -- absolute form of a directory that has one has it too.
  pub resolve_home-is_home :
      ((c p : String) → os.abs c ≡ ok p → is_home os c ≡ true → is_home os p ≡ true)
      → resolve_home os ≢ ""
      → is_home os (resolve_home os) ≡ true
  resolve_home-is_home keeps found = Found-home (resolve_home os) (resolve_home-Found keeps) found

  -- A binary right in the bin directory of a home, with no RSB_HOME: if the directory above that home has
  -- a bin directory too, it is that directory which is taken for the home.
  pub resolve_home_above :
      (exe real home : String)
      → os.rsb_home ≡ ""
      → os.executable ≡ ok exe
      → os.eval_symlinks exe ≡ ok real
      → os.dir (os.dir real) ≡ home
      → is_home os home ≡ true
      → is_home os (os.dir home) ≡ true
      → resolve_home os ≡ os.dir home
  unfolding resolve_home infer_home_from_executable infer_exe infer_from or_else
  resolve_home_above exe real home unset running real_is bin_of there above =
      let inferred : infer_home_from_executable os ≡ os.dir home =
        rw (running, real_is, bin_of, above) refl in
      let some_dir : (os.dir home == "") ≡ false = some_is_home (os.dir home) above in
      rw (unset, inferred, some_dir) refl
