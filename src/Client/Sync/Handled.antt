-- ===== src/Client/Sync/Handled.antt =====
-- One file of a sync, in a run and in a dry run, on a host whose session behaves.
use rsb.Prelude.{
  Bool, true, false, ◌≡◌, refl, sym, ap, ◌∙◌, List, [], ◌∷◌, some, Try, All, Bool-cases, inl, inr,
  if◌then◌else◌,
}
use rsb.Protocol.{FileStat}
use rsb.Client.Sync.{
  LocalFile, Remote, SyncResult, need_upload, after_put, decided, sync_file, add_skipped,
  add_uploaded,
}
use rsb.Client.Sync.Plan.{
  Steady, Apart, IsLawful, plan, wanted, wanted_by, rel_of, need_upload-holds_copy,
}

module _ (R : Remote) (Ready : R.State → Type 0) (lawful : IsLawful R Ready) where
  -- The answers about the files, which an upload of another file does not change.
  unfoldable pub Same : R.State → R.State → List LocalFile → Type 0
  Same s s' = All (λ g. wanted R g s' ≡ wanted R g s)

  pub plan-Same :
      (want : Bool) (s s' : R.State) (fs : List LocalFile)
      → Same s s' fs
      → plan R want s' fs ≡ plan R want s fs
  unfolding plan Same
  plan-Same want s s' [] same = refl
  plan-Same want s s' (f ∷ fs) (e, same) = rw (e, plan-Same want s s' fs same) refl

  pub Same-uploads :
      (f : LocalFile) (s s' : R.State) (fs : List LocalFile)
      → All Steady fs
      → All (λ g. Apart f g × Apart g f) fs
      → ((g : LocalFile) → Steady g → Apart f g → R.stat g.remote s' ≡ R.stat g.remote s)
      → Same s s' fs
  unfolding wanted Same
  Same-uploads f s s' [] steady apart same = tt
  Same-uploads f s s' (g ∷ fs) (st, steady) (a, apart) same =
      (ap (wanted_by g) (same g st a.0), Same-uploads f s s' fs steady apart same)

  -- One file, in a run and in a dry run.
  pub record Handled (dry_run : Bool) (f : LocalFile) (res : SyncResult) (s : R.State)
      : Type 0 where
    pub s' : R.State
    pub result :
        sync_file R dry_run f res s
        ≡ some (
          if wanted R f s then add_uploaded (rel_of dry_run f) res else add_skipped f.rel res,
          s',
        )
    pub others : (g : LocalFile) → Steady g → Apart f g → R.stat g.remote s' ≡ R.stat g.remote s
    pub current : dry_run ≡ false → wanted R f s' ≡ false
    pub dry : dry_run ≡ true → s' ≡ s
    pub idle : wanted R f s ≡ false → s' ≡ s
    pub ready : Ready s'

  wanted-answer :
      (f : LocalFile) (s : R.State) (st : Try FileStat) (b : Bool)
      → R.stat f.remote s ≡ some st
      → need_upload f st ≡ b
      → wanted R f s ≡ b
  unfolding wanted
  wanted-answer f s st b e n = ap (wanted_by f) e ∙ sym (need_upload-holds_copy f st) ∙ n

  sync_file-answer :
      (dry_run : Bool) (f : LocalFile) (res : SyncResult) (s : R.State) (st : Try FileStat)
      → R.stat f.remote s ≡ some st
      → sync_file R dry_run f res s ≡ decided R dry_run f res s (some st)
  unfolding sync_file
  sync_file-answer dry_run f res s st e = ap (decided R dry_run f res s) e

  Handled-current :
      (dry_run : Bool) (f : LocalFile) (res : SyncResult) (s : R.State) (st : Try FileStat)
      → Ready s
      → R.stat f.remote s ≡ some st
      → need_upload f st ≡ false
      → Handled dry_run f res s
  unfolding decided
  Handled-current dry_run f res s st ok' e n = record {
    s' = s;
    result = sync_file-answer dry_run f res s st e ∙ rw (n, wanted-answer f s st false e n) refl;
    others = λ g steady apart. refl;
    current = λ real. wanted-answer f s st false e n;
    dry = λ d. refl;
    idle = λ w. refl;
    ready = ok';
  }

  Handled-wanted :
      (dry_run : Bool) (f : LocalFile) (res : SyncResult) (s : R.State) (st : Try FileStat)
      → Ready s
      → Steady f
      → R.stat f.remote s ≡ some st
      → need_upload f st ≡ true
      → Handled dry_run f res s
  unfolding decided after_put
  Handled-wanted true f res s st ok' steady e n = record {
    s' = s;
    result = sync_file-answer true f res s st e ∙ rw (n, wanted-answer f s st true e n) refl;
    others = λ g _ apart. refl;
    current = λ real. absurd (cc real);
    dry = λ d. refl;
    idle = λ w. refl;
    ready = ok';
  }
  Handled-wanted false f res s st ok' steady e n =
      let (s', (ready', (put, ((st', (answer, kept)), others)))) = lawful.uploads f s ok' steady in
      record {
        s' = s';
        result =
            sync_file-answer false f res s st e ∙ rw (n, wanted-answer f s st true e n, put) refl;
        others = others;
        current = λ real. wanted-answer f s' st' false answer kept;
        dry = λ d. absurd (cc d);
        idle = λ w. absurd (cc (sym (wanted-answer f s st true e n) ∙ w));
        ready = ready';
      }

  pub handled :
      (dry_run : Bool) (f : LocalFile) (res : SyncResult) (s : R.State)
      → Ready s
      → Steady f
      → Handled dry_run f res s
  handled dry_run f res s ok' steady =
      let (st, e) = lawful.answers f s ok' steady in
      elim (Bool-cases (need_upload f st)) [
        | inl n ↦ Handled-wanted dry_run f res s st ok' steady e n
        | inr n ↦ Handled-current dry_run f res s st ok' e n
      ]
