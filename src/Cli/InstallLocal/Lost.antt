-- ===== src/Cli/InstallLocal/Lost.antt =====
-- `rsb install-local` where the programs stand in <home>/bin itself.
use rsb.Prelude.{
  ℕ, zero, suc, String, true, false, ◌≡◌, ◌≢◌, refl, sym, Bytes, List, [], ◌∷◌, ◌⧺◌, none, some,
  arith, ◌==◌, eq_iff, All,
}
use rsb.Prelude.Dict.{lookup}
use rsb.Paths.{Os, resolve_home, local_platform_dir}
use rsb.Cli.InstallLocal.{link, Disk, stat, no_faults, programs, at, cmd_install_local}
use rsb.Cli.InstallLocal.Linked.{
  Sources, Clear, Distinct, Links, at-ne, programs-Distinct, linking, linking-ok, linking-Links,
  installs,
}

-- A link to itself leads nowhere.
stat-loop :
    (fuel : ℕ) (disk : Disk) (p : String) → lookup p disk ≡ some (link p) → stat fuel disk p ≡ none
unfolding stat
stat-loop zero disk p self = refl
stat-loop (suc fuel) disk p self = rw self (stat-loop fuel disk p self)

-- No file is at any of these names, whatever number of links is followed.
abbrev pub Lost : String → List String → Disk → Type 0
Lost bin names disk = All (λ n. (fuel : ℕ) → stat fuel disk (at bin n) ≡ none) names

module _ (links : ℕ) (bin : String) (content : String → Bytes) where
  apart_flipped :
      (l : String) (names : List String)
      → All (λ n. at bin n ≢ at bin l) names
      → All (λ n. at bin l ≢ at bin n) names
  apart_flipped l [] all = tt
  apart_flipped l (n ∷ names) (ne, all) =
      (λ (same : at bin l ≡ at bin n). ne (sym same), apart_flipped l names all)

  Distinct-Clear :
      (names : List String)
      → Distinct links bin bin content names
      → Clear links bin bin content names
  Distinct-Clear [] h = tt
  Distinct-Clear (l ∷ ls) (differ, h) =
      (apart_flipped l ls (at-ne links bin bin content l ls differ), Distinct-Clear ls h)

  Links-Lost :
      (names : List String) (disk : Disk)
      → Links links bin bin content names disk
      → Lost bin names disk
  Links-Lost [] disk h = tt
  Links-Lost (n ∷ names) disk (self, h) =
      (λ (fuel : ℕ). stat-loop fuel disk (at bin n) self, Links-Lost names disk h)

-- Where the home has no directory for the platform but the programs in its bin directory, the sources
-- of `rsb install-local` are the paths of its links: it succeeds, and leaves at each of the three names
-- a link to itself, so that all programs are gone.
pub cmd_install_local-Lost :
    (os : Os) (links : ℕ) (home : String) (content : String → Bytes) (disk : Disk)
    → home ≢ ""
    → resolve_home os ≡ home
    → os.join home "bin" ≡ home ⧺ "/bin"
    → os.is_dir (os.join (home ⧺ "/bin") (os.goos ⧺ ("-" ⧺ os.goarch))) ≡ false
    → os.is_dir (home ⧺ "/bin") ≡ true
    → Sources (home ⧺ "/bin") content programs disk
    → let r = cmd_install_local no_faults (suc links) (local_platform_dir os) home disk in
      (r.0 ≡ none) × Lost (home ⧺ "/bin") programs r.1
unfolding local_platform_dir
cmd_install_local-Lost os links home content disk some_home is_home joined absent present there =
    let bin = home ⧺ "/bin" in
    let named : (home == "") ≡ false = ground (arith, eq_iff home "", some_home) in
    let names = programs-Distinct links bin bin content in
    let clear = Distinct-Clear links bin content programs names in
    let made = linking-Links links bin bin content programs disk there clear names in
    rw (is_home, named, joined, absent, present)
      (rw (installs links bin home disk some_home) (
        linking-ok links bin bin content programs disk there clear,
        Links-Lost links bin content programs (linking links bin bin programs disk).1 made,
      ))
