-- ===== src/Tests/Ensures.antt =====
-- An ensure on a host that is a pair of files.
use rsb.Prelude.{
  String, false, ◌≡◌, refl, sym, ◌∙◌, Bytes, List, [], ◌∷◌, Option, none, some, Try, ok, err, ◌==◌,
  ◌⧺◌, subst, if◌then◌else◌,
}
use rsb.Cli.Ensure.{
  probe_remote_arch, after_step, remote_sha256, hash_field, Tools, failed, ready, move_line,
  run_steps, install, ensure,
}
use rsb.Cli.Ensure.Verified.{
  IsFaithful, IsHarmless, makes_dir, copies, sets_mode, removes, ensure-Live, install_failed,
}

-- The live agent of a host, and what scp leaves at the temporary path; a rename works once a copy is
-- there.
abbrev Machine : Type 0
Machine = Option Bytes × Option Bytes

moved : Machine → Option String × Machine
moved (live, none) = (some "no such file", (live, none))
moved (live, some bytes) = (none, (some bytes, none))

abbrev digest : Bytes → String
digest [] = "0000000000000000000000000000000000000000000000000000000000000000"
digest (b ∷ bs) = "1111111111111111111111111111111111111111111111111111111111111111"

abbrev run_ssh : List String → Machine → Option String × Machine
run_ssh (h ∷ line ∷ []) s =
    if line == "mv -f .rsb/rsb-agent.new .rsb/rsb-agent"
    then moved s
    else if line == "rm -f .rsb/rsb-agent.new"
    then (none, (s.0, none))
    else (none, s)
run_ssh _ s = (some "usage", s)

abbrev run_tool : List Bytes → List String → Machine → Option String × Machine
run_tool copied [] s = (some "no command", s)
run_tool [] (tool ∷ args) s = if tool == "scp" then (some "lost connection", s) else run_ssh args s
run_tool (bytes ∷ _) (tool ∷ args) s =
    if tool == "scp" then (none, (s.0, some bytes)) else run_ssh args s

printed : Option Bytes → Try String
printed none = err "no such file"
printed (some bytes) = ok (digest bytes)

abbrev output_of : List String → Machine → Try String
output_of (tool ∷ h ∷ line ∷ []) s = if line == "uname -sm" then ok "Linux x86_64" else printed s.0
output_of _ s = err "usage"

-- Where scp copies the first of `copied`, or fails.
abbrev tools : List Bytes → Tools
tools copied = record { State = Machine; run = run_tool copied; output = output_of }

abbrev fields : String → List String
fields out = if out == "Linux x86_64" then "linux" ∷ "x86_64" ∷ [] else out ∷ []

abbrev lower : String → String
lower s = s

abbrev live : Machine → Option Bytes
live s = s.0

printed-live :
    (l : Option Bytes) (out h : String)
    → printed l ≡ ok out
    → hash_field (fields out) ≡ some h
    → (b : Bytes) × ((l ≡ some b) × (digest b ≡ h))
unfolding printed hash_field
printed-live none out h ran field = absurd (cc ran)
printed-live (some []) out h ran field =
    let same : digest [] ≡ out = cc ran in
    ([], (refl, cc (subst (λ (x : String). hash_field (fields x) ≡ some h) (sym same) field)))
printed-live (some (b ∷ bs)) out h ran field =
    let same : digest (b ∷ bs) ≡ out = cc ran in
    (b ∷ bs, (refl, cc (subst (λ (x : String). hash_field (fields x) ≡ some h) (sym same) field)))

harmless-live :
    (copied : List Bytes) (c : List String) (s : Machine)
    → IsHarmless "web" c
    → (run_tool copied c s).1.0 ≡ s.0
harmless-live [] _ s makes_dir = refl
harmless-live [] _ s (copies local_bin) = refl
harmless-live [] _ s sets_mode = refl
harmless-live [] _ s removes = refl
harmless-live (b ∷ _) _ s makes_dir = refl
harmless-live (b ∷ _) _ s (copies local_bin) = refl
harmless-live (b ∷ _) _ s sets_mode = refl
harmless-live (b ∷ _) _ s removes = refl

moved-live : (s : Machine) (e : String) → (moved s).0 ≡ some e → (moved s).1.0 ≡ s.0
unfolding moved
moved-live (l, none) e bad = refl
moved-live (l, some bytes) e bad = absurd (cc bad)

move_line-live :
    (copied : List Bytes) (s : Machine) (e : String)
    → (run_tool copied (move_line "web") s).0 ≡ some e
    → (run_tool copied (move_line "web") s).1.0 ≡ s.0
move_line-live [] s e bad = moved-live s e bad
move_line-live (b ∷ _) s e bad = moved-live s e bad

tools-IsFaithful : (copied : List Bytes) → IsFaithful (tools copied) fields digest "web" live
tools-IsFaithful copied = record {
  keeps = harmless-live copied;
  stays = move_line-live copied;
  sha256sum = λ s. printed-live s.0;
  shasum = λ s. printed-live s.0;
}

abbrev agent_for : String → String → String
agent_for os arch = "/home/bin/" ⧺ (os ⧺ ("-" ⧺ (arch ⧺ "/rsb-agent")))

abbrev sha256_file : String → Try String
sha256_file p = ok (digest (1 ∷ []))

ensure_ready :
    (ensure
      (tools ((1 ∷ []) ∷ []))
      fields
      lower
      agent_for
      sha256_file
      false
      "web"
      (some [], none)).0
    ≡ ready
unfolding ensure run_steps after_step remote_sha256 hash_field moved printed
ensure_ready = refl

ensure-Live_example :
    (b : Bytes) × (((ensure
          (tools ((1 ∷ []) ∷ []))
          fields
          lower
          agent_for
          sha256_file
          false
          "web"
          (some [], none)).1.0
        ≡ some b)
      × (digest b ≡ digest (1 ∷ [])))
unfolding probe_remote_arch
ensure-Live_example =
    ensure-Live (tools ((1 ∷ []) ∷ [])) fields lower digest "web" live
      (tools-IsFaithful ((1 ∷ []) ∷ [])) agent_for sha256_file false "linux" "amd64"
      (digest (1 ∷ [])) (some [], none) refl refl (λ e h. absurd (cc (sym ensure_ready ∙ h)))

install_failed_example :
    ((install
        (tools [])
        fields
        lower
        "web"
        "/home/bin/linux-amd64/rsb-agent"
        (digest (1 ∷ []))
        (some [], none)).0
      ≡ failed "lost connection")
    × ((install
          (tools [])
          fields
          lower
          "web"
          "/home/bin/linux-amd64/rsb-agent"
          (digest (1 ∷ []))
          (some [], none)).1.0
        ≡ some [])
unfolding run_steps after_step
install_failed_example =
    install_failed (tools []) fields lower digest "web" live (tools-IsFaithful [])
      "/home/bin/linux-amd64/rsb-agent" (digest (1 ∷ [])) "lost connection" (some [], none) refl
