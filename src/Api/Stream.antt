-- ===== src/Api/Stream.antt =====
-- The event stream of a UI (`ws_handler` and `stream_events` of mint-sniper/src/api.rs) over the sequence of what it
-- receives from the bus.
use seasniper.Common.{Bool, String, List, [], ◌∷◌, if◌then◌else◌}
use seasniper.Bus.{ServerEvent}
use seasniper.Audit.{Received}

-- What goes out as JSON.
pub data Message : Type 0 where
  snapshot : (armed : Bool) (wallets : List String) → Message
  event : ServerEvent → Message

-- A turn of the loop: what it receives, and whether the client takes the message, where there is one.
pub record Turn : Type 0 where
  pub received : Received
  pub taken : Bool

-- A lag ends the loop as the end of the bus does, and with it the connection.
forwarded : List Turn → List Message
forwarded [] = []
forwarded (t ∷ ts) =
    let rest = forwarded ts in
    elim t.received [
      | Received.got e ↦ event e ∷ (if t.taken then rest else [])
      | Received.lagged missed ↦ []
      | Received.closed ↦ []
    ]

-- The messages that are sent. The snapshot may fail to arrive: the loop runs all the same.
unfoldable pub stream_events :
    (armed : Bool) (wallet_status : List String) → List Turn → List Message
unfolding forwarded
stream_events armed wallet_status turns = snapshot armed wallet_status ∷ forwarded turns
