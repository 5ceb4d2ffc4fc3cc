-- ===== src/Streaming/Receive.antt =====
-- The messages of an ASGI request, and the body that they carry.
use s3mer.Base.{Bool, true, false, List, [], ◌∷◌, ◌++◌}
use s3mer.Streaming.Bytes.{Bytes}

-- `request` holds "body" and "more_body", with their defaults; `other` is a message of another type
pub data Message : Type 0 where
  request : Bytes → Bool → Message
  disconnect : Message
  other : Message

-- What `receive` will give: when the list has ended, the client has disconnected, as ASGI has it.
abbrev pub Messages : Type 0
Messages = List Message

-- The body that the messages carry, up to the one that says it is the last.
abbrev pub body_of : Messages → Bytes
body_of [] = []
body_of (request body true ∷ ms) = body ++ body_of ms
body_of (request body false ∷ ms) = body
body_of (disconnect ∷ ms) = []
body_of (other ∷ ms) = body_of ms
