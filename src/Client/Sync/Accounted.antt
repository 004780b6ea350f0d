-- ===== src/Client/Sync/Accounted.antt =====
-- What a sync says of each entry of the walk, on any host, one that misbehaves included.
use mathlib.Core.List.{Memᴰ}
use mathlib.Core.List.Memᴰ
use rsb.Prelude.{
  String, Bool, true, false, ◌≡◌, refl, ap, ◌∙◌, subst, ◌⧺◌, List, [], ◌∷◌, Option, none, some, Try,
  Bool-cases, inl, inr, ◌==◌, eq_iff, All, if◌then◌else◌,
}
use rsb.Prelude.Dict.{Dict, insert}
use rsb.Protocol.{FileStat}
use rsb.Client.Sync.{
  LocalFile, Entry, unreadable, directory, file, Remote, SyncResult, need_upload, add_uploaded,
  add_skipped, add_failed, after_put, decided, sync_file, and_then, sync_entries,
}
use rsb.Client.Sync.Plan.{rel_of}

-- A path is in the map of failures.
abbrev pub IsFailed : String → Dict String → Type 0
IsFailed path failed = (e : String) × Memᴰ (path, e) failed

IsFailed-insert_self : (path e : String) (m : Dict String) → IsFailed path (insert path e m)
unfolding insert
IsFailed-insert_self path e [] = (e, Memᴰ.head refl)
IsFailed-insert_self path e ((first, reason) ∷ m) = elim (Bool-cases (first == path)) [
  | inl same ↦ rw same (e, Memᴰ.head refl)
  | inr other ↦ let (e', there) = IsFailed-insert_self path e m in rw other (e', Memᴰ.tail there)
]

IsFailed-insert :
    (path e other : String) (m : Dict String) → IsFailed other m → IsFailed other (insert path e m)
unfolding insert
IsFailed-insert path e other [] (r, h) = absurd (Memᴰ.not-nil h)
IsFailed-insert path e other ((first, reason) ∷ m) (r, Memᴰ.head here) =
    elim (Bool-cases (first == path)) [
      | inl same ↦
          let at_path : other ≡ path =
            ap (λ (entry : String × String). entry.0) here ∙ (eq_iff first path).0 same in
          rw same (e, Memᴰ.head (ap (λ (k : String). (k, e)) at_path))
      | inr apart ↦ rw apart (r, Memᴰ.head here)
    ]
IsFailed-insert path e other ((first, reason) ∷ m) (r, Memᴰ.tail h) =
    elim (Bool-cases (first == path)) [
      | inl same ↦ rw same (r, Memᴰ.tail h)
      | inr apart ↦
          let (r', there) = IsFailed-insert path e other m (r, h) in rw apart (r', Memᴰ.tail there)
    ]

-- Whatever `a` says, `b` says too.
pub record Extends (a b : SyncResult) : Type 0 where
  pub uploaded : (rel : String) → Memᴰ rel a.uploaded → Memᴰ rel b.uploaded
  pub skipped : (rel : String) → Memᴰ rel a.skipped → Memᴰ rel b.skipped
  pub failed : (path : String) → IsFailed path a.failed → IsFailed path b.failed

-- The result says what became of an entry.
pub data Accounted (dry_run : Bool) (res : SyncResult) : Entry → Type 0 where
  is_directory : Accounted dry_run res directory
  is_uploaded :
      {f : LocalFile} → Memᴰ (rel_of dry_run f) res.uploaded → Accounted dry_run res (file f)
  is_skipped : {f : LocalFile} → Memᴰ f.rel res.skipped → Accounted dry_run res (file f)
  is_failed : {f : LocalFile} → IsFailed f.rel res.failed → Accounted dry_run res (file f)
  is_unreadable :
      {path e : String} → IsFailed path res.failed → Accounted dry_run res (unreadable path e)

Accounted-Extends :
    {dry_run : Bool} {a b : SyncResult} {entry : Entry}
    → Extends a b
    → Accounted dry_run a entry
    → Accounted dry_run b entry
Accounted-Extends x is_directory = is_directory
Accounted-Extends x (is_uploaded h) = is_uploaded (x.uploaded _ h)
Accounted-Extends x (is_skipped h) = is_skipped (x.skipped _ h)
Accounted-Extends x (is_failed h) = is_failed (x.failed _ h)
Accounted-Extends x (is_unreadable h) = is_unreadable (x.failed _ h)

Extends-self : (a : SyncResult) → Extends a a
Extends-self a = record { uploaded = λ rel h. h; skipped = λ rel h. h; failed = λ path h. h }

Extends-trans : {a b c : SyncResult} → Extends a b → Extends b c → Extends a c
Extends-trans x y = record {
  uploaded = λ rel h. y.uploaded rel (x.uploaded rel h);
  skipped = λ rel h. y.skipped rel (x.skipped rel h);
  failed = λ path h. y.failed path (x.failed path h);
}

Extends-uploaded : (rel : String) (a : SyncResult) → Extends a (add_uploaded rel a)
Extends-uploaded rel a = record {
  uploaded = λ other h. Memᴰ.append_left (rel ∷ []) h;
  skipped = λ other h. h;
  failed = λ path h. h;
}

Extends-skipped : (rel : String) (a : SyncResult) → Extends a (add_skipped rel a)
Extends-skipped rel a = record {
  uploaded = λ other h. h;
  skipped = λ other h. Memᴰ.append_left (rel ∷ []) h;
  failed = λ path h. h;
}

Extends-failed : (rel e : String) (a : SyncResult) → Extends a (add_failed rel e a)
Extends-failed rel e a = record {
  uploaded = λ other h. h;
  skipped = λ other h. h;
  failed = λ path h. IsFailed-insert rel e path a.failed h;
}

module _ (R : Remote) where
  -- From `a` to the result of what follows, which accounts for the entries.
  pub record After (dry_run : Bool) (entries : List Entry) (a : SyncResult)
      (o : Option (SyncResult × R.State)) : Type 0 where
    pub extends : (b : SyncResult) (s : R.State) → o ≡ some (b, s) → Extends a b
    pub accounts :
        (b : SyncResult) (s : R.State) → o ≡ some (b, s) → All (Accounted dry_run b) entries

  After-some :
      {dry_run : Bool} {entries : List Entry} {a b : SyncResult} {s : R.State}
      → Extends a b
      → All (Accounted dry_run b) entries
      → After dry_run entries a (some (b, s))
  After-some {dry_run} {entries} {a} x h = record {
    extends = λ c s' e. subst (Extends a) (cc e) x;
    accounts = λ c s' e. subst (λ (r : SyncResult). All (Accounted dry_run r) entries) (cc e) h;
  }

  After-none :
      {dry_run : Bool} {entries : List Entry} {a : SyncResult} → After dry_run entries a none
  After-none = record { extends = λ b s e. absurd (cc e); accounts = λ b s e. absurd (cc e) }

  After-needed :
      (dry_run : Bool) (f : LocalFile) (a : SyncResult) (s : R.State)
      (o : Option (Option String × R.State))
      → After dry_run
          (file f ∷ [])
          a
          (if dry_run then some (add_uploaded (f.rel ⧺ " (dry-run)") a, s) else after_put f a o)
  unfolding after_put
  After-needed true f a s o =
      After-some (Extends-uploaded (f.rel ⧺ " (dry-run)") a)
        (is_uploaded (Memᴰ.append_right a.uploaded (Memᴰ.head refl)), tt)
  After-needed false f a s none = After-none
  After-needed false f a s (some (none, s')) =
      After-some (Extends-uploaded f.rel a)
        (is_uploaded (Memᴰ.append_right a.uploaded (Memᴰ.head refl)), tt)
  After-needed false f a s (some (some e, s')) =
      After-some (Extends-failed f.rel e a) (is_failed (IsFailed-insert_self f.rel e a.failed), tt)

  After-decided :
      (dry_run : Bool) (f : LocalFile) (a : SyncResult) (s : R.State) (st : Option (Try FileStat))
      → After dry_run (file f ∷ []) a (decided R dry_run f a s st)
  unfolding decided
  After-decided dry_run f a s none = After-none
  After-decided dry_run f a s (some st) = elim (Bool-cases (need_upload f st)) [
    | inl needed ↦ rw needed (After-needed dry_run f a s (R.put f s))
    | inr current ↦ rw current (
        After-some (Extends-skipped f.rel a)
          (is_skipped (Memᴰ.append_right a.skipped (Memᴰ.head refl)), tt))
  ]

  After-cons :
      {dry_run : Bool} {entry : Entry} {entries : List Entry} {a : SyncResult}
      (o : Option (SyncResult × R.State))
      (next : SyncResult → R.State → Option (SyncResult × R.State))
      → After dry_run (entry ∷ []) a o
      → ((b : SyncResult) (s : R.State) → After dry_run entries b (next b s))
      → After dry_run (entry ∷ entries) a (and_then R o next)
  unfolding and_then
  After-cons none next first rest = After-none
  After-cons (some (b, s)) next first rest = record {
    extends = λ c s' e. Extends-trans (first.extends b s refl) ((rest b s).extends c s' e);
    accounts = λ c s' e. (
      Accounted-Extends ((rest b s).extends c s' e) (first.accounts b s refl).0,
      (rest b s).accounts c s' e,
    );
  }

  -- Where a sync of the entries ends, its result accounts for every entry.
  pub sync_entries-After :
      (dry_run : Bool) (entries : List Entry) (a : SyncResult) (s : R.State)
      → After dry_run entries a (sync_entries R dry_run entries a s)
  unfolding sync_entries sync_file and_then
  sync_entries-After dry_run [] a s = After-some (Extends-self a) tt
  sync_entries-After dry_run (unreadable path e ∷ es) a s =
      After-cons (some (add_failed path e a, s)) (sync_entries R dry_run es)
        (After-some (Extends-failed path e a)
          (is_unreadable (IsFailed-insert_self path e a.failed), tt))
        (sync_entries-After dry_run es)
  sync_entries-After dry_run (directory ∷ es) a s =
      After-cons (some (a, s)) (sync_entries R dry_run es)
        (After-some (Extends-self a) (is_directory, tt)) (sync_entries-After dry_run es)
  sync_entries-After dry_run (file f ∷ es) a s =
      After-cons (sync_file R dry_run f a s) (sync_entries R dry_run es)
        (After-decided dry_run f a s (R.stat f.remote s)) (sync_entries-After dry_run es)
