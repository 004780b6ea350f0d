-- ===== src/Protocol.antt =====
-- The messages of internal/protocol/protocol.go. A message is a frame whose body has been decoded
-- into the struct of its kind; Protocol.Wire has the bytes. The source's `Data` is `payload` here,
-- and its signed sizes, line numbers and times are natural numbers: the code only asks of them
-- whether they are above 0, so that a negative one behaves as 0 does.
pub mod Wire
use rsb.Prelude.{ℕ, String, Bool, Bytes, List, []}
use rsb.Prelude.Dict.{Dict}
use rsb.Prelude.Int.{ℤ}

abbrev pub FrameKind : Type 0
FrameKind = String

abbrev pub kind_request : FrameKind
kind_request = "request"

abbrev pub kind_stdin : FrameKind
kind_stdin = "stdin"

abbrev pub kind_end_stdin : FrameKind
kind_end_stdin = "end_stdin"

abbrev pub kind_cancel : FrameKind
kind_cancel = "cancel"

abbrev pub kind_output : FrameKind
kind_output = "output"

abbrev pub kind_result : FrameKind
kind_result = "result"

abbrev pub kind_error : FrameKind
kind_error = "error"

abbrev pub kind_hello : FrameKind
kind_hello = "hello"

abbrev pub kind_file_chunk : FrameKind
kind_file_chunk = "file_chunk"

abbrev pub kind_file_stat : FrameKind
kind_file_stat = "file_stat"

pub record Request : Type 0 where
  pub id : String
  pub type : String
  pub argv : List String
  pub cwd : String
  pub env : Dict String
  pub timeout_ms : ℕ
  pub container : String
  pub session : String
  pub scope : String
  pub path : String
  pub mode : ℕ
  pub mtime : ℕ
  pub atomic_put : Bool
  pub max_bytes : ℕ
  pub line_start : ℕ
  pub line_end : ℕ
  pub stdin_closed : Bool

-- A request with every field at its zero value, as a struct literal leaves those it does not name.
abbrev pub zero_request : Request
zero_request = record {
  id = "";
  type = "";
  argv = [];
  cwd = "";
  env = [];
  timeout_ms = 0;
  container = "";
  session = "";
  scope = "";
  path = "";
  mode = 0;
  mtime = 0;
  atomic_put = Bool.false;
  max_bytes = 0;
  line_start = 0;
  line_end = 0;
  stdin_closed = Bool.false;
}

pub record Stdin : Type 0 where
  pub id : String
  pub payload : Bytes

pub record EndStdin : Type 0 where
  pub id : String

pub record Cancel : Type 0 where
  pub id : String

pub record Output : Type 0 where
  pub id : String
  pub stream : String
  pub payload : Bytes

pub record Result : Type 0 where
  pub id : String
  pub exit_code : ℤ
  pub signal : String
  pub duration_ms : ℕ

pub record Error : Type 0 where
  pub id : String
  pub reason : String

pub record Hello : Type 0 where
  pub version : ℕ
  pub caps : List String

abbrev pub protocol_version : ℕ
protocol_version = 2

pub record FileChunk : Type 0 where
  pub id : String
  pub payload : Bytes
  pub done : Bool
  pub sha256 : String
  pub truncated : Bool

pub record FileStat : Type 0 where
  pub id : String
  pub exists : Bool
  pub size : ℕ
  pub mod_time : ℕ
  pub mode : ℕ
  pub is_dir : Bool

-- `attach` is the daemon's AttachHost. `other` is a frame whose kind the program does not have, or
-- whose body is not that of its kind, with the id that a probe of its body finds.
pub data Message : Type 0 where
  request : Request → Message
  stdin : Stdin → Message
  end_stdin : EndStdin → Message
  cancel : Cancel → Message
  output : Output → Message
  result : Result → Message
  error : Error → Message
  hello : Hello → Message
  file_chunk : FileChunk → Message
  file_stat : FileStat → Message
  attach : String → Message
  other : FrameKind → String → Message

unfoldable pub kind_of : Message → FrameKind
kind_of (request r) = kind_request
kind_of (stdin s) = kind_stdin
kind_of (end_stdin e) = kind_end_stdin
kind_of (cancel c) = kind_cancel
kind_of (output o) = kind_output
kind_of (result r) = kind_result
kind_of (error e) = kind_error
kind_of (hello h) = kind_hello
kind_of (file_chunk c) = kind_file_chunk
kind_of (file_stat s) = kind_file_stat
kind_of (attach h) = "attach"
kind_of (other k i) = k
