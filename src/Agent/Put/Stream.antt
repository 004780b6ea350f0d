-- ===== src/Agent/Put/Stream.antt =====
-- What the loop over the chunks of an upload takes from the stream.
use rsb.Prelude.{
  String, true, false, ◌≡◌, refl, sym, inl, inr, ap, ◌∙◌, Bytes, List, [], ◌∷◌, ◌++◌, Option, none,
  some, arith, if◌then◌else◌, Bool-cases, Option-cases, append_assoc, append-nil, ◌⧺◌,
}
use rsb.Protocol.{Message, FileChunk, file_chunk}
use rsb.Agent.Put.{Received, complete, broken, chunk_fault, writes_after, receive}

-- The data of the chunks up to the first with `done`.
abbrev pub data_until_done : List Message → Bytes
data_until_done [] = []
data_until_done (file_chunk c ∷ rest) =
    let later = data_until_done rest in c.payload ++ (if c.done then [] else later)
data_until_done (_ ∷ rest) = data_until_done rest

-- The checksum of the first chunk with `done`, if there is one.
abbrev pub done_sha : List Message → Option String
done_sha [] = none
done_sha (file_chunk c ∷ rest) =
    let later = done_sha rest in if c.done then some c.sha256 else later
done_sha (_ ∷ rest) = done_sha rest

-- The stream with its chunks under one id, and all else taken out.
abbrev pub relabel : String → List Message → List Message
relabel id [] = []
relabel id (file_chunk c ∷ rest) = file_chunk (record c { id = id }) ∷ relabel id rest
relabel id (_ ∷ rest) = relabel id rest

module _ (closed : String) (writes : List (Option String)) (c : FileChunk) (rest : List Message)
    (acc : Bytes) where
  pub receive_fault :
      {e : String}
      → chunk_fault c.payload writes ≡ some e
      → receive closed writes (file_chunk c ∷ rest) acc ≡ (broken ("write: " ⧺ e), rest)
  unfolding receive
  receive_fault h = rw (h, receive)

  pub receive_last :
      chunk_fault c.payload writes ≡ none
      → c.done ≡ true
      → receive closed writes (file_chunk c ∷ rest) acc
        ≡ (complete (acc ++ c.payload) c.sha256, rest)
  unfolding receive
  receive_last h d = rw (h, receive) (rw (d, receive))

  pub receive_more :
      chunk_fault c.payload writes ≡ none
      → c.done ≡ false
      → receive closed writes (file_chunk c ∷ rest) acc
        ≡ receive closed (writes_after c.payload writes) rest (acc ++ c.payload)
  unfolding receive
  receive_more h d = rw (h, receive) (rw (d, receive))

-- What the loop completes with is the data of the chunks up to the first last one, and its
-- checksum.
pub receive-complete :
    (closed : String) (writes : List (Option String)) (ms : List Message) (acc : Bytes)
    {bytes : Bytes} {sha : String}
    → (receive closed writes ms acc).0 ≡ complete bytes sha
    → (bytes ≡ acc ++ data_until_done ms) × (done_sha ms ≡ some sha)
unfolding receive
receive-complete closed writes [] acc h = absurd (cc h)
receive-complete closed writes (file_chunk c ∷ rest) acc {bytes = b} {sha = s} h =
    elim (Option-cases (chunk_fault c.payload writes)) [
      | inr (e, fault) ↦ absurd (cc (h, receive_fault closed writes c rest acc fault))
      | inl fine ↦ elim (Bool-cases c.done) [
        | inl last ↦
            ground (arith, receive_last closed writes c rest acc fine last, append-nil c.payload)
        | inr more ↦
            let e = receive_more closed writes c rest acc fine more in
            let (same, sha) =
              receive-complete closed (writes_after c.payload writes) rest (acc ++ c.payload)
                (ap (λ (r : Received × List Message). r.0) (sym e) ∙ h) in
            rw more (same ∙ append_assoc acc c.payload (data_until_done rest), sha)
      ]
    ]
receive-complete closed writes (_ ∷ rest) acc h = receive-complete closed writes rest acc h

pub no_chunk_fault : (payload : Bytes) → chunk_fault payload [] ≡ none
unfolding chunk_fault
no_chunk_fault payload = ground arith

pub no_writes_after : (payload : Bytes) → writes_after payload [] ≡ []
unfolding writes_after
no_writes_after payload = ground arith

-- What a stream with no write error completes with.
abbrev pub received : String → Option String → Bytes → Received
received closed none bytes = broken ("stream read: " ⧺ closed)
received closed (some sha) bytes = complete bytes sha

-- Without a write error the loop completes once the stream has a last chunk, and else fails as the
-- read behind the stream does.
pub receive_no_fault :
    (closed : String) (ms : List Message) (acc : Bytes)
    → (receive closed [] ms acc).0 ≡ received closed (done_sha ms) (acc ++ data_until_done ms)
unfolding receive
receive_no_fault closed [] acc = refl
receive_no_fault closed (file_chunk c ∷ rest) acc =
    let fine = no_chunk_fault c.payload in
    elim (Bool-cases c.done) [
      | inl last ↦ rw (receive_last closed [] c rest acc fine last, last, append-nil)
      | inr more ↦
          rw (receive_more closed [] c rest acc fine more, more, no_writes_after c.payload)
            (rw (← append_assoc acc c.payload (data_until_done rest))
              (receive_no_fault closed rest (acc ++ c.payload)))
    ]
receive_no_fault closed (_ ∷ rest) acc = receive_no_fault closed rest acc

-- The loop looks at no id, and drops what is not a chunk: requests too.
pub receive-relabel :
    (id closed : String) (writes : List (Option String)) (ms : List Message) (acc : Bytes)
    → (receive closed writes (relabel id ms) acc).0 ≡ (receive closed writes ms acc).0
unfolding receive
receive-relabel id closed writes [] acc = refl
receive-relabel id closed writes (file_chunk c ∷ rest) acc =
    let c' : FileChunk = record c { id = id } in
    elim (Option-cases (chunk_fault c.payload writes)) [
      | inr (e, fault) ↦ cc (
        receive_fault closed writes c rest acc fault,
        receive_fault closed writes c' (relabel id rest) acc fault,
      )
      | inl fine ↦ elim (Bool-cases c.done) [
        | inl last ↦ cc (
          receive_last closed writes c rest acc fine last,
          receive_last closed writes c' (relabel id rest) acc fine last,
        )
        | inr more ↦
            rw
              (
                receive_more closed writes c rest acc fine more,
                receive_more closed writes c' (relabel id rest) acc fine more,
              )
              (receive-relabel id closed (writes_after c.payload writes) rest (acc ++ c.payload))
      ]
    ]
receive-relabel id closed writes (_ ∷ rest) acc = receive-relabel id closed writes rest acc
