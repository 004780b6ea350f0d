-- ===== src/Client/Sync/Laws.antt =====
-- What a sync leaves on a host whose session behaves: the plan of a dry run is what a real run does,
-- and a second run has nothing to do.
use rsb.Prelude.{
  Bool, true, false, ◌≡◌, refl, sym, ap, ◌∙◌, List, [], ◌∷◌, Option, some, All, map, append_assoc,
  append-nil, Bool-cases, inl, inr, if◌then◌else◌, subst,
}
use rsb.Client.Sync.{
  LocalFile, Entry, unreadable, directory, file, Remote, SyncResult, no_files, and_then,
  sync_entries, add_failed, add_skipped, add_uploaded,
}
use rsb.Client.Sync.Plan.{
  Steady, Apart, IsLawful, files_of, AllApart, by_plan, all_skipped, plan, wanted, wanted_by,
  rel_of,
}
use rsb.Client.Sync.Handled.{Same, plan-Same, Same-uploads, Handled, handled}

module _ (R : Remote) (Ready : R.State → Type 0) (lawful : IsLawful R Ready) where
  -- What a whole run comes to.
  pub record Ran (dry_run : Bool) (es : List Entry) (res : SyncResult) (s : R.State) : Type 0 where
    pub s' : R.State
    pub result : sync_entries R dry_run es res s ≡ some (by_plan R dry_run es res s, s')
    pub others :
        (g : LocalFile)
        → Steady g
        → All (λ f. Apart f g) (files_of es)
        → R.stat g.remote s' ≡ R.stat g.remote s
    pub current : dry_run ≡ false → All (λ f. wanted R f s' ≡ false) (files_of es)
    pub dry : dry_run ≡ true → s' ≡ s
    pub idle : All (λ f. wanted R f s ≡ false) (files_of es) → s' ≡ s
    pub ready : Ready s'

  -- The plan of a file and the rest, from that of the rest.
  by_plan-file :
      (dry_run : Bool) (f : LocalFile) (es : List Entry) (res : SyncResult) (s s' : R.State)
      → Same R Ready lawful s s' (files_of es)
      → by_plan R dry_run es
          (if wanted R f s then add_uploaded (rel_of dry_run f) res else add_skipped f.rel res)
          s'
        ≡ by_plan R dry_run (file f ∷ es) res s
  unfolding plan
  by_plan-file dry_run f es res s s' same = elim (Bool-cases (wanted R f s)) [
    | inl w ↦
        rw
          (
            w,
            plan-Same R Ready lawful true s s' (files_of es) same,
            plan-Same R Ready lawful false s s' (files_of es) same,
            append_assoc res.uploaded (rel_of dry_run f ∷ [])
                (map (rel_of dry_run) (plan R true s (files_of es))),
          )
          refl
    | inr w ↦
        rw
          (
            w,
            plan-Same R Ready lawful true s s' (files_of es) same,
            plan-Same R Ready lawful false s s' (files_of es) same,
            append_assoc res.skipped (f.rel ∷ [])
                (map (λ (g : LocalFile). g.rel) (plan R false s (files_of es))),
          )
          refl
  ]

  after :
      (f : LocalFile) (fs : List LocalFile)
      → All (λ g. Apart f g × Apart g f) fs
      → All (λ g. Apart g f) fs
  after f [] apart = tt
  after f (g ∷ fs) (a, apart) = (a.1, after f fs apart)

  Ran-file :
      (dry_run : Bool) (f : LocalFile) (es : List Entry) (res : SyncResult) (s : R.State)
      → Steady f
      → All Steady (files_of es)
      → All (λ g. Apart f g × Apart g f) (files_of es)
      → (h : Handled R Ready lawful dry_run f res s)
      → Ran dry_run es
          (if wanted R f s then add_uploaded (rel_of dry_run f) res else add_skipped f.rel res)
          h.s'
      → Ran dry_run (file f ∷ es) res s
  unfolding sync_entries and_then wanted
  Ran-file dry_run f es res s steady all apart h r = record {
    s' = r.s';
    result =
        ap (λ (x : Option (SyncResult × R.State)). and_then R x (sync_entries R dry_run es))
          h.result
        ∙ r.result
        ∙ ap (λ (x : SyncResult). some (x, r.s'))
            (by_plan-file dry_run f es res s h.s'
              (Same-uploads R Ready lawful f s h.s' (files_of es) all apart h.others));
    others = λ g sg (a, as'). r.others g sg as' ∙ h.others g sg a;
    current = λ real. (
      ap (wanted_by f) (r.others f steady (after f (files_of es) apart)) ∙ h.current real,
      r.current real,
    );
    dry = λ d. r.dry d ∙ h.dry d;
    idle = λ w.
        r.idle (
          subst (λ (x : R.State). All (λ g. wanted R g x ≡ false) (files_of es)) (sym (h.idle w.0))
            w.1)
        ∙ h.idle w.0;
    ready = r.ready;
  }

  -- The whole walk, by induction on its entries.
  pub sync_entries-Ran :
      (dry_run : Bool) (es : List Entry) (res : SyncResult) (s : R.State)
      → Ready s
      → All Steady (files_of es)
      → AllApart (files_of es)
      → Ran dry_run es res s
  unfolding sync_entries plan
  sync_entries-Ran dry_run [] res s ok' steady apart = record {
    s' = s;
    result = rw (append-nil res.uploaded, append-nil res.skipped) refl;
    others = λ g sg _. refl;
    current = λ real. tt;
    dry = λ d. refl;
    idle = λ w. refl;
    ready = ok';
  }
  sync_entries-Ran dry_run (unreadable path e ∷ es) res s ok' steady apart =
      let r = sync_entries-Ran dry_run es (add_failed path e res) s ok' steady apart in
      record {
        s' = r.s';
        result = r.result;
        others = r.others;
        current = r.current;
        dry = r.dry;
        idle = r.idle;
        ready = r.ready;
      }
  sync_entries-Ran dry_run (directory ∷ es) res s ok' steady apart =
      let r = sync_entries-Ran dry_run es res s ok' steady apart in
      record {
        s' = r.s';
        result = r.result;
        others = r.others;
        current = r.current;
        dry = r.dry;
        idle = r.idle;
        ready = r.ready;
      }
  sync_entries-Ran dry_run (file f ∷ es) res s ok' (st, steady) (a, apart) =
      let h : Handled R Ready lawful dry_run f res s =
        handled R Ready lawful dry_run f res s ok' st in
      Ran-file dry_run f es res s st steady a h
        (sync_entries-Ran dry_run es _ h.s' h.ready steady apart)

  plan_none :
      (s : R.State) (fs : List LocalFile)
      → All (λ f. wanted R f s ≡ false) fs
      → (plan R true s fs ≡ []) × (plan R false s fs ≡ fs)
  unfolding plan
  plan_none s [] w = (refl, refl)
  plan_none s (f ∷ fs) (w, ws) =
      let (none_wanted, rest) = plan_none s fs ws in (rw w none_wanted, rw w (ap (◌∷◌ f) rest))

  -- A dry run of a walk of steady files, on a host whose session behaves, returns: it lists as to be
  -- uploaded exactly the files that the host lacks or has with another size or time and as skipped the
  -- others, in order, and leaves the host as it was.
  pub sync_entries_dry :
      (es : List Entry) (s : R.State)
      → Ready s
      → All Steady (files_of es)
      → AllApart (files_of es)
      → sync_entries R true es no_files s ≡ some (by_plan R true es no_files s, s)
  sync_entries_dry es s ok' steady apart =
      let r : Ran true es no_files s = sync_entries-Ran true es no_files s ok' steady apart in
      r.result ∙ ap (λ (x : R.State). some (by_plan R true es no_files s, x)) (r.dry refl)

  -- A real run of a walk of steady files that are not in each other's way, on a host whose session
  -- behaves, returns: it uploads exactly the files that a dry run lists, and a second run of the same
  -- walk skips every file and changes nothing.
  pub sync_entries_twice :
      (es : List Entry) (s : R.State)
      → Ready s
      → All Steady (files_of es)
      → AllApart (files_of es)
      → (s' : R.State) × ((sync_entries R false es no_files s
            ≡ some (by_plan R false es no_files s, s'))
          × (sync_entries R false es no_files s' ≡ some (all_skipped es, s')))
  sync_entries_twice es s ok' steady apart =
      let r : Ran false es no_files s = sync_entries-Ran false es no_files s ok' steady apart in
      let again : Ran false es no_files r.s' =
        sync_entries-Ran false es no_files r.s' r.ready steady apart in
      let (none_wanted, rest) = plan_none r.s' (files_of es) (r.current refl) in
      (
        r.s',
        (
          r.result,
          again.result
              ∙ rw (none_wanted, rest)
                  (ap (λ (x : R.State). some (all_skipped es, x)) (again.idle (r.current refl))),
        ),
      )
