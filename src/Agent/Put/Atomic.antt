-- ===== src/Agent/Put/Atomic.antt =====
-- Atomic uploads: a failure leaves every file as it was, a success replaces one file as a whole.
use rsb.Prelude.{
  String, true, not, ◌&&◌, ◌≡◌, refl, inl, inr, ◌⊎◌, ◌∙◌, Bytes, List, [], none, ◌==◌, eq_refl,
  Bool-cases, Option-cases, ◌⧺◌,
}
use rsb.Prelude.Dict.{lookup, insert, delete, lookup-delete}
use rsb.Protocol.{Message, Request}
use rsb.Agent.Get.{error_for, result_ok}
use rsb.Agent.Put.{
  File, Disk, Faults, Received, complete, broken, receive, tmp_of, rename_into, finish_put,
  after_receive, put_opened,
}
use rsb.Agent.Put.Landed.{Keeps, Keeps-delete, Keeps-insert, Replaced, Replaced-landed}

abbrev pub Outcome :
    (Bytes → String) → Faults → Request → String → Bytes → String → Disk → Message × Disk → Type 0
Outcome digest faults req p bytes sha disk r =
    ((r.0 ≡ result_ok req.id) × Replaced digest faults req p bytes sha disk r.1)
    ⊎ ((e : String) × (r.0 ≡ error_for req.id e)
        × Keeps p disk r.1
        × (lookup (tmp_of p) r.1 ≡ none))

no_tmp_after_delete : (p : String) (disk : Disk) → lookup (tmp_of p) (delete (tmp_of p) disk) ≡ none
no_tmp_after_delete p disk = rw (lookup-delete (tmp_of p) (tmp_of p) disk, eq_refl)

module _ (digest : Bytes → String) (faults : Faults) (req : Request) (p : String) (f : File)
    (bytes : Bytes) (sha : String) (disk : Disk) where
  finish_put-Outcome :
      req.atomic_put ≡ true
      → f.content ≡ bytes
      → Outcome digest faults req p bytes sha disk
          (finish_put digest faults req p bytes sha (insert (tmp_of p) f disk))
  unfolding finish_put rename_into
  finish_put-Outcome atomic same =
      let kept : Keeps p disk (delete (tmp_of p) (insert (tmp_of p) f disk)) =
        Keeps-delete p disk _ (Keeps-insert p f disk disk (λ q ne. refl)) in
      let gone = no_tmp_after_delete p (insert (tmp_of p) f disk) in
      elim (Bool-cases (not (sha == "") && not (digest bytes == sha))) [
        | inl bad ↦ simp (bad, atomic) (inr ("sha256 mismatch", refl, kept, gone))
        | inr good ↦ elim (Option-cases faults.rename) [
          | inr (e, fault) ↦ simp (good, atomic, fault) (inr ("rename: " ⧺ e, refl, kept, gone))
          | inl fine ↦
              simp (good, atomic, fine)
                (inl (refl, Replaced-landed digest faults req p f bytes sha disk same good))
        ]
      ]

Replaced-base :
    {digest : Bytes → String} {faults : Faults} {req : Request} {p : String} {bytes : Bytes}
    {sha : String} {base disk disk' : Disk}
    → Keeps p base disk
    → Replaced digest faults req p bytes sha disk disk'
    → Replaced digest faults req p bytes sha base disk'
Replaced-base k r = record {
  file = r.file;
  there = r.there;
  content = r.content;
  mtime = r.mtime;
  verified = r.verified;
  no_tmp = r.no_tmp;
  others = λ q ne ne'. r.others q ne ne' ∙ k q ne';
}

-- Either the loop completed, and its data replaces the file at `p`; or the reply is an error, and
-- all files are as they were.
pub data PutOutcome (digest : Bytes → String) (faults : Faults) (req : Request) (p : String)
    (r : Received) (disk : Disk) (reply : Message) (disk' : Disk) : Type 0 where
  succeeds :
      (bytes : Bytes) (sha : String)
      → r ≡ complete bytes sha
      → reply ≡ result_ok req.id
      → Replaced digest faults req p bytes sha disk disk'
      → PutOutcome digest faults req p r disk reply disk'
  fails :
      (e : String)
      → reply ≡ error_for req.id e
      → Keeps p disk disk'
      → lookup (tmp_of p) disk' ≡ none
      → PutOutcome digest faults req p r disk reply disk'

after_receive-Outcome :
    (digest : Bytes → String) (faults : Faults) (req : Request) (p : String) (f : File)
    (r : Received) (base disk : Disk)
    → req.atomic_put ≡ true
    → Keeps p base disk
    → PutOutcome digest faults req p r base
        (after_receive digest faults req p f r disk).0
        (after_receive digest faults req p f r disk).1
unfolding after_receive
after_receive-Outcome digest faults req p f (broken e) base disk atomic k =
    simp atomic (fails e refl (Keeps-delete p base disk k) (no_tmp_after_delete p disk))
after_receive-Outcome digest faults req p f (complete bytes sha) base disk atomic k =
    simp atomic
      (elim (finish_put-Outcome digest faults req p (record f { content = bytes }) bytes sha disk
        atomic refl) [
          | inl (ok, r) ↦ succeeds bytes sha refl ok (Replaced-base k r)
          | inr (e, bad, kept, gone) ↦ fails e bad (λ q ne. kept q ne ∙ k q ne) gone
        ])

-- An atomic upload whose target can be opened ends in one of two ways. It succeeds: the stream was
-- complete, the file at `p` has its data, checked against the client's checksum if there is one,
-- with the modification time that was asked for, the temporary file is gone, and all other files
-- are as they were. Or it fails with an error: the temporary file is gone, and all other files, `p`
-- too, are as they were.
pub put_opened-Outcome :
    (digest : Bytes → String) (faults : Faults) (closed : String) (frames : List Message)
    (req : Request) (p : String) (disk : Disk)
    → req.atomic_put ≡ true
    → PutOutcome digest faults req p
        (receive closed faults.writes frames []).0
        disk
        (put_opened digest faults closed frames req p disk).reply
        (put_opened digest faults closed frames req p disk).disk
unfolding put_opened
put_opened-Outcome digest faults closed frames req p disk atomic =
    after_receive-Outcome digest faults req p _ (receive closed faults.writes frames []).0 disk _
      atomic (simp atomic (Keeps-insert p _ disk disk (λ q ne. refl)))
