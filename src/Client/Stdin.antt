-- ===== src/Client/Stdin.antt =====
-- pumpStdin of internal/client/client.go, and the frame that Exec sends behind it, over what each Read of
-- the local stdin returns: a Read of a pipe or a terminal may return fewer bytes than the buffer has.
use rsb.Prelude.{String, Bytes, List, [], ◌∷◌, ◌++◌, length, eqb, if◌then◌else◌}
use rsb.Protocol.{Message, stdin, end_stdin}

abbrev pub stdin_of : String → Bytes → Message
stdin_of id chunk = stdin (record { id = id; payload = chunk })

-- The frames of the rounds, by the bytes of each Read up to the one that fails. No frame is sent for a
-- Read that gives none.
unfoldable pub pump_stdin : String → List Bytes → List Message
pump_stdin id [] = []
pump_stdin id (chunk ∷ reads) =
    let later = pump_stdin id reads in
    if eqb (length chunk) 0 then later else stdin_of id chunk ∷ later

-- The frames of a request's stdin.
unfoldable pub stdin_frames : String → List Bytes → List Message
unfolding pump_stdin
stdin_frames id reads = pump_stdin id reads ++ end_stdin (record { id = id }) ∷ []
