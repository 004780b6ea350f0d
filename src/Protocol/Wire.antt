-- ===== src/Protocol/Wire.antt =====
-- WriteFrame and ReadFrame of internal/protocol/protocol.go. `encoding/json` is a parameter: a
-- function from values to bytes that may fail, and one back.
pub mod RoundTrip
pub mod Truncation
use rsb.Prelude.{
  ℕ, ◌+◌, ◌*◌, ◌/◌, ◌%◌, ◌^◌, String, Bool, true, false, ◌||◌, Bytes, List, [], ◌∷◌, ◌++◌, Option,
  none, some, take, drop, length, ltb, eqb, if◌then◌else◌,
}

-- The envelope, with its body as raw JSON.
pub record Frame : Type 0 where
  pub kind : String
  pub body : Bytes

abbrev pub max_payload : ℕ
max_payload = 64 * 2 ^ 20

-- A writer that has sent some bytes. Each later call of Write takes one entry of `faults`: it fails
-- and sends nothing if that is `true`. Past the end of the list every call succeeds.
pub record Writer : Type 0 where
  pub sent : Bytes
  pub faults : List Bool

-- w.Write(p); the flag says that it succeeded
unfoldable pub write_to : List Bool → Writer → Bytes → Bool × Writer
write_to [] w p = (true, record w { sent = w.sent ++ p })
write_to (true ∷ fs) w p = (false, record w { faults = fs })
write_to (false ∷ fs) w p = (true, record { sent = w.sent ++ p; faults = fs })

unfoldable pub write : Writer → Bytes → Bool × Writer
unfolding write_to
write w p = write_to w.faults w p

pub data WriteResult : Type 0 where
  written : WriteResult
  marshal_body_failed : WriteResult
  marshal_frame_failed : WriteResult
  too_large : ℕ → WriteResult
  write_failed : WriteResult

-- binary.BigEndian.PutUint32(header[:], uint32(n))
unfoldable pub put_uint32 : ℕ → Bytes
put_uint32 n = (n / 2 ^ 24 % 256) ∷ (n / 2 ^ 16 % 256) ∷ (n / 2 ^ 8 % 256) ∷ (n % 256) ∷ []

-- binary.BigEndian.Uint32(header[:]), of four bytes
unfoldable pub uint32 : Bytes → ℕ
uint32 (a ∷ b ∷ c ∷ d ∷ _) = a * 2 ^ 24 + b * 2 ^ 16 + c * 2 ^ 8 + d
uint32 _ = 0

-- The two calls of Write.
send_frame : Bytes → Writer → WriteResult × Writer
unfolding write
send_frame json w =
    let (header_sent, w1) = write w (put_uint32 (length json)) in
    let (body_sent, w2) = write w1 json in
    if header_sent
    then (if body_sent then (written, w2) else (write_failed, w2))
    else (write_failed, w1)

-- From the bytes of the frame on.
write_json : Option Bytes → Writer → WriteResult × Writer
unfolding send_frame
write_json none w = (marshal_frame_failed, w)
write_json (some json) w =
    if ltb max_payload (length json) then (too_large (length json), w) else send_frame json w

module _ (marshal : Frame → Option Bytes) where
  -- WriteFrame of a body whose own marshalling gave `raw`.
  unfoldable pub write_frame : String → Option Bytes → Writer → WriteResult × Writer
  unfolding write_json
  write_frame kind none w = (marshal_body_failed, w)
  write_frame kind (some raw) w = write_json (marshal (record { kind = kind; body = raw })) w

pub data ReadError : Type 0 where
  eof : ReadError
  unexpected_eof : ReadError
  invalid_length : ℕ → ReadError
  unmarshal_failed : ReadError

-- What a read returns, with the bytes that it leaves unread.
pub data Read {ℓ} (A : Type ℓ) : Type ℓ where
  got : A → Bytes → Read A
  failed : ReadError → Read A

-- io.ReadFull: EOF if no byte could be read, ErrUnexpectedEOF if some but too few.
unfoldable pub read_full : ℕ → Bytes → Read Bytes
read_full n input =
    if ltb (length input) n
    then failed (if eqb (length input) 0 then eof else unexpected_eof)
    else got (take n input) (drop n input)

infixl 5 ◌>>=◌
abbrev pub ◌>>=◌ {ℓ κ} : {A : Type ℓ} {B : Type κ} → Read A → (A → Bytes → Read B) → Read B
got a rest >>= f = f a rest
failed e >>= f = failed e

unfoldable pub unmarshalled : Option Frame → Bytes → Read Frame
unmarshalled none rest = failed unmarshal_failed
unmarshalled (some f) rest = got f rest

module _ (unmarshal : Bytes → Option Frame) where
  unfoldable pub read_frame : Bytes → Read Frame
  unfolding unmarshalled
  read_frame input = read_full 4 input >>= λ header rest.
      let n = uint32 header in
      if eqb n 0 || ltb max_payload n
      then failed (invalid_length n)
      else (read_full n rest >>= λ buf rest'. unmarshalled (unmarshal buf) rest')
