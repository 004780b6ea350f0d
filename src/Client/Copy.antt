-- ===== src/Client/Copy.antt =====
-- CP of internal/client/files.go, over the session `R` and what this machine answers. A download goes to
-- a local file that os.Create has emptied before; what the agent sends for it is handleFileGet's frames.
pub mod RoundTrip
use rsb.Prelude.{
  String, Bool, true, false, Bytes, List, [], ◌∷◌, ◌⧺◌, Option, none, some, Try, ok, err,
  if◌then◌else◌,
}
use rsb.Protocol.{Message, Request}
use rsb.Agent.Get.{OpenFile, get_frames, error_for}
use rsb.Agent.Put.{File}
use rsb.Client.Paths.{PathSpec, is_remote}
use rsb.Client.Transfer.{Download}
use rsb.Client.Sync.{LocalFile, Remote}

-- What comes back: the error, if there is one, the local file at the destination, and the session. An
-- upload may never return.
pub data Copied (S : Type 0) : Type 0 where
  refused : String → Copied S
  downloaded : Option String → Option Bytes → Copied S
  uploaded : Option (Option String × S) → Copied S

-- This machine: os.Create's error, the file at the destination before, and os.Stat of the source, with
-- whether it is a directory.
pub record Local : Type 0 where
  pub create_fault : Option String
  pub before : Option Bytes
  pub source : Try (Bool × LocalFile)

-- FileGet's bytes in the file that is created.
unfoldable pub created : Option String → Local → Download → Option String × Option Bytes
created (some e) l d = (some e, l.before)
created none l d = (d.failure, some d.written)

module _ (R : Remote) where
  download : Try R.State → (R.State → Download) → Local → Copied R.State
  unfolding created
  download (err e) get l = downloaded (some e) l.before
  download (ok s) get l = let r = created l.create_fault l (get s) in downloaded r.0 r.1

  upload_to : String → Try R.State → LocalFile → Copied R.State
  upload_to path (err e) f = refused e
  upload_to path (ok s) f = uploaded (R.put (record f { remote = path }) s)

  upload : Try R.State → String → Try (Bool × LocalFile) → Copied R.State
  unfolding upload_to
  upload session path (err e) = refused e
  upload session path (ok (true, f)) = refused "is a directory; use rsb sync for directories"
  upload session path (ok (false, f)) = upload_to path session f

  same_side : Bool → Bool → Bool
  same_side true b = b
  same_side false true = false
  same_side false false = true

  -- CP; `text` is the string of a path's bytes, `session` what NewSession gives, `get` what FileGet does
  -- in it.
  unfoldable pub cp :
      (Bytes → String)
      → PathSpec
      → PathSpec
      → Try R.State
      → (R.State → Download)
      → Local
      → Copied R.State
  unfolding download upload same_side
  cp text src dst session get l =
      if same_side (is_remote src) (is_remote dst)
      then refused "cp needs one local and one remote path"
      else if is_remote src
      then download session get l
      else upload session (text dst.path) l.source

-- os.Open of a file of the host, and the frames of handleFileGet for it.
abbrev pub open_on : Option File → Try OpenFile
open_on none = err "no such file or directory"
open_on (some f) = ok (record { content = f.content; fault = none })

abbrev pub get_reply : (Bytes → String) → Request → Try OpenFile → List Message
get_reply digest req (err e) = error_for req.id ("open: " ⧺ e) ∷ []
get_reply digest req (ok file) = get_frames digest req file
