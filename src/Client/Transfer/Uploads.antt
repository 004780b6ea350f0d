-- ===== src/Client/Transfer/Uploads.antt =====
-- An upload end to end: the agent's loop over the frames that the client sends.
use rsb.Prelude.{
  ℕ, ◌≤◌, ◌*◌, length-append, zero, suc, ◌+◌, ◌<◌, String, Bool, true, false, ◌&&◌, ◌≡◌, refl, sym,
  inl, inr, ap, ◌∙◌, Bytes, List, [], ◌∷◌, ◌++◌, Option, none, ok, arith, concat, map, append_assoc,
  append-nil, eqb, length, length-take, length-drop, take, drop, take-append-drop, eq_nil_of_length,
  eq_refl, Bool-cases, take_nil,
}
use rsb.Protocol.{Message, Request}
use rsb.Agent.Get.{result_ok}
use rsb.Agent.Put.{Disk, Faults, Received, complete, receive, finish_put, after_receive, put_opened}
use rsb.Agent.Put.Stream.{receive_last, receive_more, no_chunk_fault, no_writes_after}
use rsb.Agent.Put.Landed.{Replaced}
use rsb.Agent.Put.Atomic.{succeeds, fails, put_opened-Outcome}
use rsb.Daemon.{client_in_size}
use rsb.Client.Transfer.{buffer_size, read_local, chunk_of, final_chunk, put_frames}

pub take_empty : (n : ℕ) (bytes : Bytes) → 0 < n → eqb (length (take n bytes)) 0 ≡ true → bytes ≡ []
take_empty n bytes pos e = eq_nil_of_length bytes (ground (arith, length-take n bytes))

pub drop_shorter :
    (n fuel : ℕ) (bytes : Bytes)
    → eqb (length (take n bytes)) 0 ≡ false
    → length bytes < suc fuel
    → length (drop n bytes) < fuel
drop_shorter n fuel bytes e h = ground (arith, length-take n bytes, length-drop n bytes)

-- The reads of a local file give all of it.
concat-read_local :
    (fuel : ℕ) (bytes : Bytes) → length bytes < fuel → concat (read_local fuel bytes) ≡ bytes
unfolding read_local
concat-read_local zero bytes h = elim h [ ]
concat-read_local (suc fuel) bytes h = elim (Bool-cases (eqb (length (take buffer_size bytes)) 0)) [
  | inl none_left ↦ rw none_left (sym (take_empty buffer_size bytes (omega arith) none_left))
  | inr some_read ↦ rw some_read (
      rw
        (concat-read_local fuel (drop buffer_size bytes)
          (drop_shorter buffer_size fuel bytes some_read h))
        (take-append-drop buffer_size bytes))
]

none_taken : (n : ℕ) (bytes : Bytes) → length bytes ≤ 0 → eqb (length (take n bytes)) 0 ≡ true
none_taken n bytes h =
    let none_left : bytes ≡ [] = eq_nil_of_length bytes (omega (arith, h)) in
    rw (none_left, take_nil n) refl

length-read_local :
    (k fuel : ℕ) (bytes : Bytes)
    → length bytes ≤ k * buffer_size
    → length (read_local fuel bytes) ≤ k
unfolding read_local
length-read_local k zero bytes h = omega arith
length-read_local zero (suc fuel) bytes h =
    let none_left : eqb (length (take buffer_size bytes)) 0 ≡ true =
      none_taken buffer_size bytes (omega (arith, h)) in
    rw none_left (omega arith)
length-read_local (suc k) (suc fuel) bytes h =
    elim (Bool-cases (eqb (length (take buffer_size bytes)) 0)) [
      | inl none_left ↦ rw none_left (omega arith)
      | inr some_read ↦
          let rest : length (read_local fuel (drop buffer_size bytes)) ≤ k =
            length-read_local k fuel (drop buffer_size bytes)
              (omega (arith, h, length-drop buffer_size bytes)) in
          rw some_read (omega (arith, rest))
    ]

length-map : {A B : Type 0} (f : A → B) (xs : List A) → length (map f xs) ≡ length xs
length-map f [] = refl
length-map f (x ∷ xs) = omega (arith, length-map f xs)

-- The request and the chunks of a file of at most 62 chunks fit in a queue of 64 that is empty.
pub put_frames-fit :
    (digest : Bytes → String) (id : String) (content : Bytes)
    → length content ≤ 62 * buffer_size
    → 1 + length (put_frames digest id (ok (content, none))) ≤ client_in_size
unfolding put_frames
put_frames-fit digest id content small =
    let chunks = read_local (length content + 1) content in
    let few : length chunks ≤ 62 = length-read_local 62 (length content + 1) content small in
    omega (
      arith,
      few,
      length-map (chunk_of id) chunks,
      length-append (map (chunk_of id) chunks) (final_chunk id (digest (concat chunks)) ∷ []),
    )

receive-chunks :
    (closed id : String) (chunks : List Bytes) (rest : List Message) (acc : Bytes)
    → receive closed [] (map (chunk_of id) chunks ++ rest) acc
      ≡ receive closed [] rest (acc ++ concat chunks)
receive-chunks closed id [] rest acc = rw append-nil
receive-chunks closed id (c ∷ cs) rest acc =
    receive_more closed [] _ (map (chunk_of id) cs ++ rest) acc (no_chunk_fault c) refl
    ∙ rw (no_writes_after c)
        (receive-chunks closed id cs rest (acc ++ c) ∙ rw (append_assoc acc c (concat cs)))

receive-put_frames :
    (digest : Bytes → String) (closed id : String) (content : Bytes) (rest : List Message)
    → receive closed [] (put_frames digest id (ok (content, none)) ++ rest) []
      ≡ (complete content (digest content), rest)
unfolding put_frames
receive-put_frames digest closed id content rest =
    let chunks = read_local (length content + 1) content in
    let whole : concat chunks ≡ content =
      concat-read_local (length content + 1) content (omega arith) in
    rw append_assoc (
      receive-chunks closed id chunks (final_chunk id (digest (concat chunks)) ∷ rest) []
      ∙ receive_last closed [] _ rest (concat chunks) (no_chunk_fault []) refl
      ∙ rw (append-nil, whole))

and_false : (b : Bool) → (b && false) ≡ false
and_false true = refl
and_false false = refl

finish_put_ok :
    (digest : Bytes → String) (faults : Faults) (req : Request) (p : String) (bytes : Bytes)
    (disk : Disk)
    → req.atomic_put ≡ true
    → faults.rename ≡ none
    → (finish_put digest faults req p bytes (digest bytes) disk).0 ≡ result_ok req.id
unfolding finish_put
finish_put_ok digest faults req p bytes disk atomic fine = simp (eq_refl, and_false, atomic, fine)

put_opened-complete :
    (digest : Bytes → String) (faults : Faults) (closed : String) (frames rest : List Message)
    (req : Request) (p : String) (bytes : Bytes) (disk : Disk)
    → req.atomic_put ≡ true
    → faults.rename ≡ none
    → receive closed faults.writes frames [] ≡ (complete bytes (digest bytes), rest)
    → let out = put_opened digest faults closed frames req p disk in
      (out.reply ≡ result_ok req.id) × (out.unread ≡ rest)
unfolding put_opened after_receive
put_opened-complete digest faults closed frames rest req p bytes disk atomic fine got =
    rw got (finish_put_ok digest faults req p bytes _ atomic fine, refl)

Replaced-complete :
    {digest : Bytes → String} {faults : Faults} {req : Request} {p : String} {b : Bytes}
    {s : String} {disk disk' : Disk} (bytes : Bytes) (sha : String)
    → complete bytes sha ≡ complete b s
    → Replaced digest faults req p b s disk disk'
    → Replaced digest faults req p bytes sha disk disk'
Replaced-complete {digest} {faults} {req} {p} {b} {s} {disk} {disk'} bytes sha e r =
    let same : b ≡ bytes = cc in let same_sha : s ≡ sha = cc in rw (same, same_sha) at r

-- FilePut against handleFilePutSync: of a local file that is read with no error, sent on a stream
-- that then holds `rest`, to an agent on which no write and no rename fails, with an atomic
-- request. The agent replies with the result, the file at `p` has the local bytes, checked against
-- the client's checksum, with the modification time that was asked for, the temporary file is gone,
-- all other files are as they were, and the agent reads on at `rest`.
pub put_opened-put_frames :
    (digest : Bytes → String) (faults : Faults) (closed id : String) (content : Bytes)
    (rest : List Message) (req : Request) (p : String) (disk : Disk)
    → req.atomic_put ≡ true
    → faults.writes ≡ []
    → faults.rename ≡ none
    → let out =
        put_opened digest faults closed
          (put_frames digest id (ok (content, none)) ++ rest)
          req
          p
          disk in
      (out.reply ≡ result_ok req.id)
      × Replaced digest faults req p content (digest content) disk out.disk
      × (out.unread ≡ rest)
put_opened-put_frames digest faults closed id content rest req p disk atomic writes fine =
    let frames = put_frames digest id (ok (content, none)) ++ rest in
    let got : receive closed faults.writes frames [] ≡ (complete content (digest content), rest) =
      ap (λ (w : List (Option String)). receive closed w frames []) writes
      ∙ receive-put_frames digest closed id content rest in
    let (replied, unread) =
      put_opened-complete digest faults closed frames rest req p content disk atomic fine got in
    elim (put_opened-Outcome digest faults closed frames req p disk atomic) [
      | succeeds b s whole ok' r ↦ (
        replied,
        Replaced-complete content (digest content)
            (sym (ap (λ (x : Received × List Message). x.0) got) ∙ whole) r,
        unread,
      )
      | fails e bad kept gone ↦ absurd (cc (replied, bad))
    ]
