-- ===== src/Cli/Sync/DryRun.antt =====
-- A dry run writes nothing.
use rsb.Prelude.{
  ℕ, String, Bool, true, false, ◌≡◌, refl, sym, ap, ◌∙◌, Bytes, List, [], ◌∷◌, ◌++◌, Option, none,
  some, Try, ok, err, ◌==◌, Bool-cases, inl, inr,
}
use rsb.Protocol.{FileStat}
use rsb.Client.Paths.{PathSpec, is_remote, parse_path}
use rsb.Client.Sync.{
  LocalFile, Entry, unreadable, directory, file, Remote, SyncResult, done, no_files, need_upload,
  add_failed, decided, sync_file, and_then, sync_entries, started, sync,
}
use rsb.Cli.Sync.{ended, ended_with, sync_args, sync_positional, cmd_sync}

module _ (R : Remote) where
  -- Where there is a state at the end, it is `s`.
  Stays : R.State → Option (SyncResult × R.State) → Type 0
  Stays s none = Unit
  Stays s (some (res, s')) = s' ≡ s

  decided-Stays :
      (f : LocalFile) (res : SyncResult) (s : R.State) (st : Option (Try FileStat))
      → Stays s (decided R true f res s st)
  unfolding decided Stays
  decided-Stays f res s none = tt
  decided-Stays f res s (some st) = elim (Bool-cases (need_upload f st)) [
    | inl needed ↦ rw needed refl
    | inr current ↦ rw current refl
  ]

  and_then-Stays :
      (s : R.State) (o : Option (SyncResult × R.State))
      (next : SyncResult → R.State → Option (SyncResult × R.State))
      → Stays s o
      → ((res : SyncResult) → Stays s (next res s))
      → Stays s (and_then R o next)
  unfolding and_then Stays
  and_then-Stays s none next h rest = tt
  and_then-Stays s (some (res, s')) next h rest = rw h (rest res)

  sync_entries-Stays :
      (es : List Entry) (res : SyncResult) (s : R.State) → Stays s (sync_entries R true es res s)
  unfolding sync_entries sync_file Stays
  sync_entries-Stays [] res s = refl
  sync_entries-Stays (unreadable path e ∷ es) res s =
      sync_entries-Stays es (add_failed path e res) s
  sync_entries-Stays (directory ∷ es) res s = sync_entries-Stays es res s
  sync_entries-Stays (file f ∷ es) res s =
      and_then-Stays s (decided R true f res s (R.stat f.remote s)) (sync_entries R true es)
        (decided-Stays f res s (R.stat f.remote s)) (λ res'. sync_entries-Stays es res' s)

  sync_args-dry_run : (args positional : List String) → (sync_args args true positional).0 ≡ true
  unfolding sync_args
  sync_args-dry_run [] positional = refl
  sync_args-dry_run (a ∷ args) positional = elim (Bool-cases (a == "--dry-run")) [
    | inl flag ↦ rw flag (sync_args-dry_run args positional)
    | inr other ↦ rw other (sync_args-dry_run args (positional ++ a ∷ []))
  ]

  sync_args-anywhere :
      (before after positional : List String)
      → (sync_args (before ++ "--dry-run" ∷ after) false positional).0 ≡ true
  unfolding sync_args
  sync_args-anywhere [] after positional = sync_args-dry_run after positional
  sync_args-anywhere (a ∷ before) after positional = elim (Bool-cases (a == "--dry-run")) [
    | inl flag ↦ rw flag (sync_args-dry_run (before ++ "--dry-run" ∷ after) positional)
    | inr other ↦ rw other (sync_args-anywhere before after (positional ++ a ∷ []))
  ]

  ended_with-Stays :
      (s s' : R.State) (o : Option (SyncResult × R.State)) (res : SyncResult) (code : ℕ)
      → Stays s o
      → ended_with R (done o) ≡ ended res s' code
      → s' ≡ s
  unfolding ended_with Stays
  ended_with-Stays s s' none res code h e = absurd (cc e)
  ended_with-Stays s s' (some (res0, s0)) res code h e = let same : s0 ≡ s' = cc e in sym same ∙ h

  started-session :
      (es : List Entry) (t : Try R.State) (res : SyncResult) (s' : R.State) (code : ℕ)
      → ended_with R (started R true es t) ≡ ended res s' code
      → t ≡ ok s'
  unfolding started ended_with
  started-session es (err e) res s' code h = absurd (cc h)
  started-session es (ok s) res s' code h = ap ok (
      sym (
        ended_with-Stays s s' (sync_entries R true es no_files s) res code
          (sync_entries-Stays es no_files s) h))

  sync-session :
      (es : List Entry) (dst : PathSpec) (t : Try R.State) (res : SyncResult) (s' : R.State)
      (code : ℕ)
      → ended_with R (sync R es dst true t) ≡ ended res s' code
      → t ≡ ok s'
  unfolding sync ended_with
  sync-session es dst t res s' code h = elim (Bool-cases (is_remote dst)) [
    | inl remote ↦ started-session es t res s' code (rw remote at h)
    | inr local ↦ absurd (cc (rw local at h))
  ]

  sync_positional-session :
      (utf8 : String → Bytes) (walk : String → PathSpec → List Entry)
      (session : Bytes → Try R.State) (positional : List String) (res : SyncResult) (s' : R.State)
      (code : ℕ)
      → sync_positional R utf8 walk session true positional ≡ ended res s' code
      → (host : Bytes) × (session host ≡ ok s')
  unfolding sync_positional
  sync_positional-session utf8 walk session [] res s' code h = absurd (cc h)
  sync_positional-session utf8 walk session (src ∷ []) res s' code h = absurd (cc h)
  sync_positional-session utf8 walk session (src ∷ dst ∷ rest) res s' code h =
      let spec = parse_path (utf8 dst) in
      (spec.host, sync-session (walk src spec) spec (session spec.host) res s' code h)

  -- A `rsb sync` with --dry-run anywhere in its arguments, on any host: if it ends with a result, the
  -- host is in the state in which the new session found it.
  pub cmd_sync-dry :
      (utf8 : String → Bytes) (walk : String → PathSpec → List Entry)
      (session : Bytes → Try R.State) (before after : List String) (res : SyncResult) (s' : R.State)
      (code : ℕ)
      → cmd_sync R utf8 walk session (before ++ "--dry-run" ∷ after) ≡ ended res s' code
      → (host : Bytes) × (session host ≡ ok s')
  unfolding cmd_sync
  cmd_sync-dry utf8 walk session before after res s' code h =
      let args = sync_args (before ++ "--dry-run" ∷ after) false [] in
      sync_positional-session utf8 walk session args.1 res s' code (
        sym (
          ap (λ (b : Bool). sync_positional R utf8 walk session b args.1)
            (sync_args-anywhere before after []))
        ∙ h)
