-- ===== src/Agent/Run/Loop.antt =====
-- The fuel of the read loop is enough.
use rsb.Prelude.{
  ℕ, zero, suc, ◌+◌, ◌≤◌, String, ◌≡◌, refl, Bytes, List, [], ◌∷◌, ◌++◌, Option, Try, ok, err,
  arith, length, Bool-cases, Option-cases, inl, inr, ◌==◌, ◌||◌,
}
use rsb.Protocol.{Message, Request, request, stdin, end_stdin, cancel, file_chunk}
use rsb.Agent.{resolve_path}
use rsb.Agent.Put.{
  Faults, Disk, receive, chunk_fault, writes_after, put_resolved, put_at, put_opened, opening_fault,
  handle_file_put,
}
use rsb.Agent.Put.Stream.{receive_fault, receive_last, receive_more}
use rsb.Agent.Run.{World, State, put_sync, serve, dispatch, read_loop}

-- An upload leaves no more frames than there were.
receive-shrinks :
    (closed : String) (writes : List (Option String)) (ms : List Message) (acc : Bytes)
    → length (receive closed writes ms acc).1 ≤ length ms
unfolding receive
receive-shrinks closed writes [] acc = omega arith
receive-shrinks closed writes (file_chunk c ∷ rest) acc =
    elim (Option-cases (chunk_fault c.payload writes)) [
      | inr (e, fault) ↦ rw (receive_fault closed writes c rest acc fault) (omega arith)
      | inl fine ↦ elim (Bool-cases c.done) [
        | inl last ↦ rw (receive_last closed writes c rest acc fine last) (omega arith)
        | inr more ↦
            let ih =
              receive-shrinks closed (writes_after c.payload writes) rest (acc ++ c.payload) in
            rw (receive_more closed writes c rest acc fine more) (omega (arith, ih))
      ]
    ]
receive-shrinks closed writes (_ ∷ rest) acc =
    let ih = receive-shrinks closed writes rest acc in omega (arith, ih)

put_at-shrinks :
    (digest : Bytes → String) (faults : Faults) (closed : String) (ms : List Message)
    (req : Request) (p : String) (disk : Disk)
    → length (put_at digest faults closed ms req p disk).unread ≤ length ms
unfolding put_at put_opened
put_at-shrinks digest faults closed ms req p disk =
    elim (Option-cases (opening_fault faults.mkdir faults.create)) [
      | inl e ↦ rw (put_at, e) (receive-shrinks closed faults.writes ms [])
      | inr (x, e) ↦ rw (put_at, e) (omega arith)
    ]

put_resolved-shrinks :
    (digest : Bytes → String) (faults : Faults) (closed : String) (ms : List Message)
    (req : Request) (p : Try String) (disk : Disk)
    → length (put_resolved digest faults closed ms req p disk).unread ≤ length ms
unfolding put_resolved
put_resolved-shrinks digest faults closed ms req (ok p) disk =
    put_at-shrinks digest faults closed ms req p disk
put_resolved-shrinks digest faults closed ms req (err e) disk = omega arith

serve-shrinks :
    (w : World) (req : Request) (ms : List Message) (s : State)
    → length (serve w req ms s).1 ≤ length ms
unfolding serve put_sync handle_file_put
serve-shrinks w req ms s =
    let p : Try String = (resolve_path w.sys.host req s.agent).0 in
    let put = put_resolved-shrinks w.digest w.faults w.closed ms req p s.disk in
    elim (Bool-cases (req.type == "exec" || req.type == "")) [
      | inl e ↦ rw e (omega arith)
      | inr e ↦ elim (Bool-cases (req.type == "file_stat")) [
        | inl f ↦ rw (e, f) (omega arith)
        | inr f ↦ elim (Bool-cases (req.type == "file_get")) [
          | inl g ↦ rw (e, f, g) (omega arith)
          | inr g ↦ elim (Bool-cases (req.type == "file_put")) [
            | inl h ↦ rw (e, f, g, h) put
            | inr h ↦ rw (e, f, g, h) (omega arith)
          ]
        ]
      ]
    ]

dispatch-shrinks :
    (w : World) (m : Message) (ms : List Message) (s : State)
    → length (dispatch w m ms s).1 ≤ length ms
unfolding dispatch
dispatch-shrinks w (request req) ms s = serve-shrinks w req ms s
dispatch-shrinks w (stdin c) ms s = omega arith
dispatch-shrinks w (end_stdin e) ms s = omega arith
dispatch-shrinks w (cancel c) ms s = omega arith
dispatch-shrinks w _ ms s = omega arith

read_loop_same :
    (m n : ℕ) (w : World) (ms : List Message) (s : State)
    → length ms ≤ m
    → length ms ≤ n
    → read_loop m w ms s ≡ read_loop n w ms s
unfolding read_loop
read_loop_same zero zero w ms s h h' = refl
read_loop_same zero (suc n) w [] s h h' = refl
read_loop_same zero (suc n) w (m ∷ ms) s h h' = absurd (omega (arith, h))
read_loop_same (suc m) zero w [] s h h' = refl
read_loop_same (suc m) zero w (x ∷ ms) s h h' = absurd (omega (arith, h'))
read_loop_same (suc m) (suc n) w [] s h h' = refl
read_loop_same (suc m) (suc n) w (x ∷ ms) s h h' =
    let out : State × List Message = dispatch w x ms s in
    let smaller : length out.1 ≤ length ms = dispatch-shrinks w x ms s in
    read_loop_same m n w out.1 out.0 (omega (arith, h, smaller)) (omega (arith, h', smaller))

-- With one unit of fuel for each frame of the stream the read loop gets to its end: any more fuel
-- gives the same state, whatever part of the stream the uploads read themselves.
pub read_loop_enough :
    (fuel more : ℕ) (w : World) (ms : List Message) (s : State)
    → length ms ≤ fuel
    → read_loop (fuel + more) w ms s ≡ read_loop (length ms) w ms s
read_loop_enough fuel more w ms s h =
    read_loop_same (fuel + more) (length ms) w ms s (omega (arith, h)) (omega arith)
