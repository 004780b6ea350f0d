-- ===== src/Agent/Put/Landed.antt =====
-- The disk that the rename of an upload's temporary file leaves.
use Prim.Native.String.{count}
use text.Mathlib.TextLemmas.{length-append}
use rsb.Prelude.{
  String, true, false, not, ◌&&◌, ◌≡◌, ◌≢◌, sym, inl, inr, ap, ◌∙◌, Bytes, none, some, arith, ltb,
  ◌==◌, eq_iff, eq_refl, if◌then◌else◌, Bool-cases,
}
use rsb.Prelude.Dict.{lookup, insert, delete, lookup-insert, lookup-delete, lookup-insert_self}
use rsb.Protocol.{Request}
use rsb.Agent.Put.{File, Disk, Faults, tmp_of, renamed, touched, set_mtime}

tmp_of-ne : (p : String) → tmp_of p ≢ p
tmp_of-ne p h = absurd (omega (arith, length-append p ".rsbtmp", ap count h))

neq : (p q : String) → p ≢ q → (p == q) ≡ false
neq p q h = ground (arith, eq_iff p q)

-- Every file but the temporary one is as it was.
abbrev pub Keeps : String → Disk → Disk → Type 0
Keeps p disk disk' = (q : String) → q ≢ tmp_of p → lookup q disk' ≡ lookup q disk

pub Keeps-delete :
    (p : String) (disk disk' : Disk) → Keeps p disk disk' → Keeps p disk (delete (tmp_of p) disk')
Keeps-delete p disk disk' k q ne =
    rw (lookup-delete (tmp_of p) q disk', neq (tmp_of p) q (λ e. ne (sym e))) (k q ne)

pub Keeps-insert :
    (p : String) (f : File) (disk disk' : Disk)
    → Keeps p disk disk'
    → Keeps p disk (insert (tmp_of p) f disk')
Keeps-insert p f disk disk' k q ne =
    rw (lookup-insert (tmp_of p) q f disk', neq (tmp_of p) q (λ e. ne (sym e))) (k q ne)

-- The file that a successful upload puts at `p`, and the rest of the disk.
pub record Replaced (digest : Bytes → String) (faults : Faults) (req : Request) (p : String)
    (bytes : Bytes) (sha : String) (disk disk' : Disk) : Type 0 where
  pub file : File
  pub there : lookup p disk' ≡ some file
  pub content : file.content ≡ bytes
  pub mtime : ltb 0 req.mtime ≡ true → faults.chtimes_fails ≡ false → file.mtime ≡ req.mtime
  pub verified : sha ≢ "" → digest bytes ≡ sha
  pub no_tmp : lookup (tmp_of p) disk' ≡ none
  pub others : (q : String) → q ≢ p → q ≢ tmp_of p → lookup q disk' ≡ lookup q disk

-- The disk after the rename of the temporary file `f`.
abbrev pub moved : String → File → Disk → Disk
moved p f disk =
    let written = insert (tmp_of p) f disk in
    renamed (lookup (tmp_of p) written) (tmp_of p) p written

lookup-moved :
    (p : String) (f : File) (disk : Disk) (q : String)
    → lookup q (moved p f disk)
      ≡ (if p == q then some f else if tmp_of p == q then none else lookup q disk)
unfolding renamed
lookup-moved p f disk q = rw (lookup-insert_self (tmp_of p) f disk) (
    rw
      (
        lookup-insert p q f (delete (tmp_of p) (insert (tmp_of p) f disk)),
        lookup-delete (tmp_of p) q (insert (tmp_of p) f disk),
        lookup-insert (tmp_of p) q f disk,
      )
      (ground arith))

lookup-moved_self : (p : String) (f : File) (disk : Disk) → lookup p (moved p f disk) ≡ some f
lookup-moved_self p f disk = lookup-moved p f disk p ∙ rw (eq_refl p)

-- The file that the rename and the chtimes leave.
abbrev pub landed_file : Faults → Request → File → File
landed_file faults req f =
    if ltb 0 req.mtime && not faults.chtimes_fails then record f { mtime = req.mtime } else f

lookup-landed :
    (faults : Faults) (req : Request) (p : String) (f : File) (disk : Disk) (q : String)
    → lookup q (set_mtime faults req p (moved p f disk)) ≡ (
        if p == q
        then some (landed_file faults req f)
        else if tmp_of p == q
        then none
        else lookup q disk)
unfolding set_mtime touched
lookup-landed faults req p f disk q =
    elim (Bool-cases (ltb 0 req.mtime && not faults.chtimes_fails)) [
      | inl set ↦
          rw (set, lookup-moved_self p f disk)
            (rw
              (
                lookup-insert p q (record f { mtime = req.mtime }) (moved p f disk),
                lookup-moved p f disk q,
              )
              (ground arith))
      | inr keep ↦ rw keep (lookup-moved p f disk q)
    ]

module _ (digest : Bytes → String) (faults : Faults) (req : Request) (p : String) (f : File)
    (bytes : Bytes) (sha : String) (disk : Disk) where
  pub Replaced-landed :
      f.content ≡ bytes
      → (not (sha == "") && not (digest bytes == sha)) ≡ false
      → Replaced digest faults req p bytes sha disk (set_mtime faults req p (moved p f disk))
  Replaced-landed same checked = record {
    file = landed_file faults req f;
    there = lookup-landed faults req p f disk p ∙ rw (eq_refl p);
    content = ground arith;
    mtime = λ m c. ground arith;
    verified = λ ne. ground (arith, eq_iff sha "", eq_iff (digest bytes) sha);
    no_tmp = rw (
      lookup-landed faults req p f disk (tmp_of p),
      eq_refl (tmp_of p),
      neq p (tmp_of p) (λ e. tmp_of-ne p (sym e)),
    );
    others = λ q ne ne'. rw (
      lookup-landed faults req p f disk q,
      neq p q (λ e. ne (sym e)),
      neq (tmp_of p) q (λ e. ne' (sym e)),
    );
  }
