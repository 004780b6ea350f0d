-- ===== src/Cli/InstallLocal/Linked.antt =====
-- The links that `rsb install-local` makes.
use text.Mathlib.TextLemmas.{append_cancel_left}
use rsb.Prelude.{
  distinct, ℕ, suc, String, false, ◌≡◌, ◌≢◌, refl, sym, subst, ◌∙◌, Bytes, List, [], ◌∷◌, ◌⧺◌,
  Option, none, some, ok, arith, ◌==◌, eq_iff, All,
}
use rsb.Prelude.Dict.{lookup, insert, delete, lookup-insert, lookup-insert_self, lookup-delete}
use rsb.Cli.InstallLocal.{
  Node, file, link, Disk, stat, no_faults, programs, at, link_one, link_all, cmd_install_local,
}

-- A link is made for a name whose source is there.
lookup-other :
    (p q : String) (n : Node) (disk : Disk)
    → q ≢ p
    → lookup p (insert q n (delete q disk)) ≡ lookup p disk
lookup-other p q n disk ne =
    let differ : (q == p) ≡ false = ground (arith, eq_iff q p, ne) in
    lookup-insert q p n (delete q disk) ∙ rw differ (lookup-delete q p disk ∙ rw differ refl)

-- The sources of these names are files.
abbrev pub Sources : String → (String → Bytes) → List String → Disk → Type 0
Sources dir content names disk = All (λ n. lookup (at dir n) disk ≡ some (file (content n))) names

-- The directory of the sources apart from that of the links.
abbrev pub IsApart : String → String → Type 0
IsApart dir bin_dir = All (λ l. All (λ n. at bin_dir l ≢ at dir n) programs) programs

module _ (links : ℕ) (dir bin_dir : String) where
  abbrev pub linking : List String → Disk → Option String × Disk
  linking = link_all no_faults (suc links) dir bin_dir

  -- The disk behind a round.
  abbrev relinked : String → Disk → Disk
  relinked name disk = insert (at bin_dir name) (link (at dir name)) (delete (at bin_dir name) disk)

  linking-cons :
      (name : String) (names : List String) (disk : Disk) (content : Bytes)
      → stat (suc links) disk (at dir name) ≡ some content
      → linking (name ∷ names) disk ≡ linking names (relinked name disk)
  unfolding link_all link_one
  linking-cons name names disk content there = rw there refl

  module _ (content : String → Bytes) where
    -- No link is made where a source stands that is still to come.
    abbrev pub Clear : List String → Type 0
    Clear [] = Unit {0}
    Clear (l ∷ ls) = All (λ n. at bin_dir l ≢ at dir n) ls × Clear ls

    source-there :
        (name : String) (disk : Disk)
        → lookup (at dir name) disk ≡ some (file (content name))
        → stat (suc links) disk (at dir name) ≡ some (content name)
    unfolding stat
    source-there name disk there = rw there refl

    Sources-relinked :
        (name : String) (names : List String) (disk : Disk)
        → All (λ n. at bin_dir name ≢ at dir n) names
        → Sources dir content names disk
        → Sources dir content names (relinked name disk)
    Sources-relinked name [] disk clear there = tt
    Sources-relinked name (n ∷ names) disk (ne, clear) (here, there) = (
      lookup-other (at dir n) (at bin_dir name) (link (at dir name)) disk ne ∙ here,
      Sources-relinked name names disk clear there,
    )

    pub linking-ok :
        (names : List String) (disk : Disk)
        → Sources dir content names disk
        → Clear names
        → (linking names disk).0 ≡ none
    unfolding link_all
    linking-ok [] disk there clear = refl
    linking-ok (name ∷ names) disk (here, there) (ne, clear) =
        rw (linking-cons name names disk (content name) (source-there name disk here))
          (linking-ok names (relinked name disk) (Sources-relinked name names disk ne there) clear)

    linking-other :
        (names : List String) (disk : Disk) (p : String)
        → Sources dir content names disk
        → Clear names
        → All (λ l. at bin_dir l ≢ p) names
        → lookup p (linking names disk).1 ≡ lookup p disk
    unfolding link_all
    linking-other [] disk p there clear elsewhere = refl
    linking-other (name ∷ names) disk p (here, there) (ne, clear) (other, elsewhere) =
        rw (linking-cons name names disk (content name) (source-there name disk here)) (
          linking-other names (relinked name disk) p (Sources-relinked name names disk ne there)
            clear elsewhere
          ∙ lookup-other p (at bin_dir name) (link (at dir name)) disk other)

    -- The names differ from one another.
    abbrev pub Distinct : List String → Type 0
    Distinct [] = Unit {0}
    Distinct (l ∷ ls) = All (λ n. n ≢ l) ls × Distinct ls

    pub at-ne :
        (l : String) (names : List String)
        → All (λ n. n ≢ l) names
        → All (λ n. at bin_dir n ≢ at bin_dir l) names
    at-ne l [] all = tt
    at-ne l (n ∷ names) (ne, all) = (
      λ (same : at bin_dir n ≡ at bin_dir l).
          ne (append_cancel_left "/" n l (append_cancel_left bin_dir ("/" ⧺ n) ("/" ⧺ l) same)),
      at-ne l names all,
    )

    abbrev pub Links : List String → Disk → Type 0
    Links names disk = All (λ n. lookup (at bin_dir n) disk ≡ some (link (at dir n))) names

    pub linking-Links :
        (names : List String) (disk : Disk)
        → Sources dir content names disk
        → Clear names
        → Distinct names
        → Links names (linking names disk).1
    linking-Links [] disk there clear distinct = tt
    linking-Links (name ∷ names) disk (here, there) (ne, clear) (differ, distinct) =
        let later = Sources-relinked name names disk ne there in
        let e = linking-cons name names disk (content name) (source-there name disk here) in
        subst (λ (r : Option String × Disk). Links (name ∷ names) r.1) (sym e)
          (
            linking-other names (relinked name disk) (at bin_dir name) later clear
                  (at-ne name names differ)
                ∙ lookup-insert_self (at bin_dir name) (link (at dir name))
                    (delete (at bin_dir name) disk),
            linking-Links names (relinked name disk) later clear distinct,
          )

    pub programs-Distinct : Distinct programs
    programs-Distinct = (
      (distinct "rsb-daemon" "rsb" refl, (distinct "rsb-agent" "rsb" refl, tt)),
      ((distinct "rsb-agent" "rsb-daemon" refl, tt), (tt, tt)),
    )

    IsApart-Clear : IsApart dir bin_dir → Clear programs
    IsApart-Clear apart = (apart.0.1, (apart.1.0.1.1, (tt, tt)))

    -- Behind a link to a file is the file.
    followed :
        (disk : Disk) (name : String)
        → lookup (at bin_dir name) disk ≡ some (link (at dir name))
        → lookup (at dir name) disk ≡ some (file (content name))
        → stat (suc (suc links)) disk (at bin_dir name) ≡ some (content name)
    unfolding stat
    followed disk name linked there = rw (linked, there) refl

pub installs :
    (links : ℕ) (dir home : String) (disk : Disk)
    → home ≢ ""
    → cmd_install_local no_faults (suc links) (ok dir) home disk
      ≡ link_all no_faults (suc links) dir (home ⧺ "/bin") programs disk
unfolding cmd_install_local
installs links dir home disk some_home =
    let named : (home == "") ≡ false = ground (arith, eq_iff home "", some_home) in rw named refl

-- With the sources in a directory apart from <home>/bin and no fault, `rsb install-local` succeeds; each
-- link leads to its program's file, each source is as it was, and so is every path that is no link's.
pub cmd_install_local-linked :
    (links : ℕ) (dir home : String) (content : String → Bytes) (disk : Disk)
    → home ≢ ""
    → Sources dir content programs disk
    → IsApart dir (home ⧺ "/bin")
    → let r = cmd_install_local no_faults (suc links) (ok dir) home disk in
      (r.0 ≡ none)
      × All (λ n. stat (suc (suc links)) r.1 (at (home ⧺ "/bin") n) ≡ some (content n)) programs
      × ((p : String) → All (λ l. at (home ⧺ "/bin") l ≢ p) programs → lookup p r.1 ≡ lookup p disk)
cmd_install_local-linked links dir home content disk some_home there apart =
    let bin = home ⧺ "/bin" in
    let clear = IsApart-Clear links dir bin content apart in
    let after = (link_all no_faults (suc links) dir bin programs disk).1 in
    let (rsb, (daemon, (agent, _))) =
      linking-Links links dir bin content programs disk there clear
        (programs-Distinct links dir bin content) in
    let other = λ (p : String). linking-other links dir bin content programs disk p there clear in
    let a = apart.0 in
    let b = apart.1.0 in
    let c = apart.1.1.0 in
    rw (installs links dir home disk some_home) (
      linking-ok links dir bin content programs disk there clear,
      (
        followed links dir bin content after "rsb" rsb
            (other (at dir "rsb") (a.0, (b.0, (c.0, tt))) ∙ there.0),
        (
          followed links dir bin content after "rsb-daemon" daemon
              (other (at dir "rsb-daemon") (a.1.0, (b.1.0, (c.1.0, tt))) ∙ there.1.0),
          (
            followed links dir bin content after "rsb-agent" agent
                (other (at dir "rsb-agent") (a.1.1.0, (b.1.1.0, (c.1.1.0, tt))) ∙ there.1.1.0),
            tt,
          ),
        ),
      ),
      other,
    )
