-- ===== src/Client/Exec/Outcome.antt =====
-- What Exec returns for what the daemon sends.
use rsb.Prelude.{
  String, Bool, true, false, ◌≡◌, refl, ap, ◌∙◌, Bytes, List, [], ◌∷◌, ◌++◌, none, some, arith,
  append_assoc, append-nil, Bool-cases, inl, inr, ◌==◌, eq_iff, if◌then◌else◌, map, All,
}
use rsb.Prelude.Int.{pos}
use rsb.Protocol.{Output, Result, Error, kind_output, kind_result, kind_error}
use rsb.Protocol.Wire.{Frame}
use rsb.Client.Exec.{
  Decoders, Arrival, frame, Streams, finished, timed_out, normalized, exec_loop, put_output, go_on,
  written, ended, exit_of, notices_of,
}

-- A frame with the Output, or the Result, that it decodes to.
pub record IsOutput (d : Decoders) (m : Frame × Output) : Type 0 where
  pub is_kind : m.0.kind ≡ kind_output
  pub is_body : d.as_output m.0.body ≡ some m.1

pub record IsResult (d : Decoders) (f : Frame) (r : Result) : Type 0 where
  pub is_kind : f.kind ≡ kind_result
  pub is_body : d.as_result f.body ≡ some r

-- The bytes of one stream.
unfoldable pub of_stream : Bool → List Output → Bytes
of_stream wanted [] = []
of_stream wanted (o ∷ os) =
    let rest = of_stream wanted os in
    if o.stream == "stdout"
    then (if wanted then o.payload ++ rest else rest)
    else (if wanted then rest else o.payload ++ rest)

unfoldable pub all_written : List Output → Streams → Streams
all_written os s = record {
  stdout = s.stdout ++ of_stream true os;
  stderr = s.stderr ++ of_stream false os;
}

all_written-put_output :
    (o : Output) (os : List Output) (s : Streams)
    → all_written os (put_output o s) ≡ all_written (o ∷ os) s
unfolding all_written put_output of_stream
all_written-put_output o os s = elim (Bool-cases (o.stream == "stdout")) [
  | inl e ↦ simp (e) (
      ap (λ (x : Bytes). record { stdout = x; stderr = s.stderr ++ of_stream false os })
        (append_assoc s.stdout o.payload (of_stream true os)))
  | inr e ↦ simp (e) (
      ap (λ (x : Bytes). record { stdout = s.stdout ++ of_stream true os; stderr = x })
        (append_assoc s.stderr o.payload (of_stream false os)))
]

unfoldable pub sent : List (Frame × Output) → List Arrival → List Arrival
sent [] later = later
sent ((f, o) ∷ ms) later = frame f ∷ sent ms later

abbrev pub said : Frame × Output → Output
said m = m.1

module _ (d : Decoders) (wait : String) where
  exec_loop-output :
      (f : Frame) (later : List Arrival) (s : Streams)
      → f.kind ≡ kind_output
      → exec_loop d wait (frame f ∷ later) s
        ≡ go_on d wait (written (d.as_output f.body) s) (exec_loop d wait later) s
  unfolding exec_loop
  exec_loop-output f later s k =
      let e : (f.kind == kind_output) ≡ true = ground (arith, eq_iff f.kind kind_output, k) in
      simp (e) refl

  pub exec_loop-decoded :
      (f : Frame) (o : Output) (later : List Arrival) (s : Streams)
      → f.kind ≡ kind_output
      → d.as_output f.body ≡ some o
      → exec_loop d wait (frame f ∷ later) s ≡ exec_loop d wait later (put_output o s)
  unfolding go_on written
  exec_loop-decoded f o later s k body = exec_loop-output f later s k ∙ rw body refl

  pub exec_loop-result :
      (f : Frame) (r : Result) (later : List Arrival) (s : Streams)
      → f.kind ≡ kind_result
      → d.as_result f.body ≡ some r
      → exec_loop d wait (frame f ∷ later) s ≡ finished (normalized r) none s []
  unfolding exec_loop ended exit_of
  exec_loop-result f r later s k body =
      let e : (f.kind == kind_result) ≡ true = ground (arith, eq_iff f.kind kind_result, k) in
      let e' : (f.kind == kind_output) ≡ false = ap (λ (x : String). x == kind_output) k in
      simp (e, e', body) refl

  pub exec_loop-error :
      (f : Frame) (e : Error) (later : List Arrival) (s : Streams)
      → f.kind ≡ kind_error
      → d.as_error f.body ≡ some e
      → exec_loop d wait (frame f ∷ later) s
        ≡ finished (pos 1) none s (notices_of d.to_lower (some e))
  unfolding exec_loop ended
  exec_loop-error f e later s k body =
      let is : (f.kind == kind_error) ≡ true = ground (arith, eq_iff f.kind kind_error, k) in
      let no_result : (f.kind == kind_result) ≡ false = ap (λ (x : String). x == kind_result) k in
      let no_output : (f.kind == kind_output) ≡ false = ap (λ (x : String). x == kind_output) k in
      simp (is, no_result, no_output, body) refl

  -- When the daemon sends the Output frames `ms` and then the Result `r`, whatever it sends later,
  -- Exec returns without an error, its stdout and its stderr are the payloads of the frames of each
  -- in the order of the frames, and the exit code is the normalised one of `r`.
  pub exec_loop-outputs :
      (ms : List (Frame × Output)) (f : Frame) (r : Result) (later : List Arrival) (s : Streams)
      → All (IsOutput d) ms
      → IsResult d f r
      → exec_loop d wait (sent ms (frame f ∷ later)) s
        ≡ finished (normalized r) none (all_written (map said ms) s) []
  unfolding sent all_written of_stream
  exec_loop-outputs [] f r later s _ v =
      exec_loop-result f r later s v.is_kind v.is_body
      ∙ rw (append-nil s.stdout, append-nil s.stderr) refl
  exec_loop-outputs ((g, o) ∷ ms) f r later s (u, us) v =
      let rest : List Arrival = sent ms (frame f ∷ later) in
      exec_loop-decoded g o rest s u.is_kind u.is_body
      ∙ exec_loop-outputs ms f r later (put_output o s) us v
      ∙ ap (λ (x : Streams). finished (normalized r) none x [])
          (all_written-put_output o (map said ms) s)

  -- Once an Output frame comes whose body does not decode, Exec never reads again: it returns the
  -- timeout's error and 124, whatever arrives after it, a Result included.
  pub exec_loop-undecodable :
      (f : Frame) (later : List Arrival) (s : Streams)
      → f.kind ≡ kind_output
      → d.as_output f.body ≡ none
      → exec_loop d wait (frame f ∷ later) s ≡ timed_out wait s
  unfolding go_on written
  exec_loop-undecodable f later s k bad = exec_loop-output f later s k ∙ rw bad refl
