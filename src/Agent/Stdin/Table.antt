-- ===== src/Agent/Stdin/Table.antt =====
-- Requests do not disturb each other's entry in the table of running requests.
use rsb.Prelude.{
  String, true, ◌≡◌, refl, sym, Bytes, List, [], ◌∷◌, Option, none, some, arith, Bool-cases, inl,
  inr, if◌then◌else◌, ◌==◌, eq_iff,
}
use rsb.Prelude.Dict.{lookup, lookup-insert, lookup-delete}
use rsb.Agent.Stdin.{
  RunningReq, new_running_req, send_chunk, signal_eof, Table, feed_stdin, close_stdin, cancel_req,
  on_running, register_running, unregister_running,
}

-- What the read loop and handleExec do to the table.
pub data Op : Type 0 where
  register : Op
  feed : Bytes → Op
  close : Op
  cancel : Op
  unregister : Op

unfoldable pub apply : String → Op → Table → Table
apply id register t = register_running id t
apply id (feed chunk) t = feed_stdin id chunk t
apply id close t = close_stdin id t
apply id cancel t = cancel_req id t
apply id unregister t = unregister_running id t

unfoldable pub apply_all : List (String × Op) → Table → Table
apply_all [] t = t
apply_all ((id, op) ∷ ops) t = apply_all ops (apply id op t)

-- What one operation does to its own entry.
changed : (RunningReq → RunningReq) → Option RunningReq → Option RunningReq
changed f none = none
changed f (some rr) = some (f rr)

unfoldable pub entry : Op → Option RunningReq → Option RunningReq
unfolding changed
entry register e = some new_running_req
entry (feed chunk) e = changed (send_chunk chunk) e
entry close e = changed signal_eof e
entry cancel e = changed (λ rr. record rr { cancelled = true }) e
entry unregister e = none

unfoldable pub entry_all : String → List (String × Op) → Option RunningReq → Option RunningReq
entry_all j [] e = e
entry_all j ((id, op) ∷ ops) e = entry_all j ops (if id == j then entry op e else e)

lookup-on_running :
    (id j : String) (o : Option RunningReq) (f : RunningReq → RunningReq) (t : Table)
    → lookup id t ≡ o
    → lookup j (on_running o f id t) ≡ (if id == j then changed f (lookup j t) else lookup j t)
unfolding on_running changed
lookup-on_running id j none f t h = elim (Bool-cases (id == j)) [
  | inl e ↦ let same : id ≡ j = ground (arith, eq_iff id j, e) in rw (e, sym same, h) refl
  | inr e ↦ rw e refl
]
lookup-on_running id j (some rr) f t h =
    rw (lookup-insert id j (f rr) t) (elim (Bool-cases (id == j)) [
      | inl e ↦ let same : id ≡ j = ground (arith, eq_iff id j, e) in rw (e, sym same, h) refl
      | inr e ↦ rw e refl
    ])

lookup-apply :
    (id j : String) (op : Op) (t : Table)
    → lookup j (apply id op t) ≡ (if id == j then entry op (lookup j t) else lookup j t)
unfolding apply entry register_running unregister_running feed_stdin close_stdin cancel_req
lookup-apply id j register t = lookup-insert id j new_running_req t
lookup-apply id j (feed chunk) t = lookup-on_running id j (lookup id t) (send_chunk chunk) t refl
lookup-apply id j close t = lookup-on_running id j (lookup id t) signal_eof t refl
lookup-apply id j cancel t =
    lookup-on_running id j (lookup id t) (λ rr. record rr { cancelled = true }) t refl
lookup-apply id j unregister t = lookup-delete id j t

-- Whatever the sequence of registrations, Stdin, EndStdin and Cancel frames and ends of requests,
-- the entry of a request is what its own operations make of its own entry: those of the other
-- requests in between do not matter, and a frame for a request that is not in the table has no
-- effect on any.
pub lookup-apply_all :
    (j : String) (ops : List (String × Op)) (t : Table)
    → lookup j (apply_all ops t) ≡ entry_all j ops (lookup j t)
unfolding apply_all entry_all
lookup-apply_all j [] t = refl
lookup-apply_all j ((id, op) ∷ ops) t =
    rw (lookup-apply_all j ops (apply id op t), lookup-apply id j op t)
