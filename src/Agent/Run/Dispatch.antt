-- ===== src/Agent/Run/Dispatch.antt =====
-- What the read loop does with each request, and that it ends.
use rsb.Prelude.{String, ◌≢◌, ◌≡◌, List, [], ◌∷◌, ◌++◌}
use rsb.Protocol.{Message, Request, FileStat, file_stat}
use rsb.Agent.{Agent}
use rsb.Agent.Get.{error_for, result_ok}
use rsb.Agent.Run.{State}

-- A frame that answers a request.
pub data IsReply (id : String) (m : Message) : Type 0 where
  is_error : (reason : String) → m ≡ error_for id reason → IsReply id m
  is_result : m ≡ result_ok id → IsReply id m
  is_stat : (st : FileStat) → st.id ≡ id → m ≡ file_stat st → IsReply id m

pub record Replied (id : String) (a b : Agent) : Type 0 where
  pub reply : Message
  pub fits : IsReply id reply
  pub added : b.out ≡ a.out ++ reply ∷ []

-- A request is launched, or answered with one frame before another one is read; an upload is answered
-- behind the frames that it reads, which may be all that still come. `left` is what the loop goes on with.
pub data Taken (req : Request) (frames left : List Message) (s t : State) : Type 0 where
  launched :
      t.pending ≡ s.pending ++ req ∷ []
      → t.agent ≡ s.agent
      → left ≡ frames
      → Taken req frames left s t
  answered :
      req.type ≢ "file_put"
      → t.pending ≡ s.pending
      → Replied req.id s.agent t.agent
      → left ≡ frames
      → Taken req frames left s t
  uploaded :
      req.type ≡ "file_put"
      → t.pending ≡ s.pending
      → Replied req.id s.agent t.agent
      → (used : List Message) → frames ≡ used ++ left
      → Taken req frames left s t

-- What an upload leaves is what it has not read.
abbrev Rest : List Message → List Message → Type 0
Rest frames left = (used : List Message) × (frames ≡ used ++ left)
