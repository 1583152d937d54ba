-- ===== src/Websocket.antt =====
-- korvex/_requests.py: `WebSocket`, the states of a connection. `inbox` holds what the server gives
-- next, and an operation waits when it is empty. `receive_json` and `send_json` are not modelled.
pub mod Closing
use korvex.Prelude.{ℕ, ◌+◌, Bool, true, false, List, [], ◌∷◌, ◌++◌, Option, none, some}
use korvex.Prelude.Tests.{if◌then◌else◌}
use korvex.Prelude.Text.{Text, codes, lower}

-- What ASGI gives.
pub data Incoming : Type 0 where
  connect : Incoming
  got_text : Text → Incoming
  got_bytes : List ℕ → Incoming
  disconnect : Option ℕ → Incoming

-- What is sent.
pub data Sent : Type 0 where
  accept_sent : Option Text → List (Text × Text) → Sent
  text_sent : Text → Sent
  bytes_sent : List ℕ → Sent
  close_sent : ℕ → Text → Sent

-- What `receive` gives: `str` or `bytes`.
pub data Message : Type 0 where
  str_message : Text → Message
  bytes_message : List ℕ → Message

-- How an operation ends, if it does not wait: WebSocketDisconnect and TypeError are its exceptions.
pub data Reply {ℓ} (A : Type ℓ) : Type ℓ where
  gave : A → Reply A
  waits : Reply A
  disconnected : ℕ → Reply A
  type_error : Reply A

pub record Socket : Type 0 where
  pub inbox : List Incoming
  pub sent : List Sent
  pub connected : Bool
  pub accepted : Bool
  pub closed : Bool

-- WebSocket(scope, receive, send, ...)
unfoldable pub new_socket : List Incoming → Socket
new_socket inbox = record {
  inbox = inbox;
  sent = [];
  connected = false;
  accepted = false;
  closed = false;
}

abbrev pub after {ℓ κ} :
    {A : Type ℓ} {B : Type κ}
    → Reply A × Socket
    → (A → Socket → Reply B × Socket)
    → Reply B × Socket
after (gave a, s) k = k a s
after (waits, s) k = (waits, s)
after (disconnected code, s) k = (disconnected code, s)
after (type_error, s) k = (type_error, s)

-- await self._receive()
abbrev pub next_of : List Incoming → Socket → Reply Incoming × Socket
next_of [] s = (waits, s)
next_of (m ∷ ms) s = (gave m, record s { inbox = ms })

unfoldable pub next_message : Socket → Reply Incoming × Socket
next_message s = next_of s.inbox s

-- await self._send(message)
unfoldable pub send : Sent → Socket → Socket
send message s = record s { sent = s.sent ++ message ∷ [] }

abbrev pub connecting : Bool → Socket → Reply Incoming × Socket
connecting true s = (gave connect, s)
connecting false s = next_message (record s { connected = true })

-- `_wait_connect`; what it receives is not looked at.
unfoldable pub wait_connect : Socket → Reply Incoming × Socket
unfolding next_message
wait_connect s = connecting s.connected s

unfoldable pub lower_names : List (Text × Text) → List (Text × Text)
lower_names [] = []
lower_names ((name, value) ∷ rest) = (lower name, value) ∷ lower_names rest

abbrev pub accepting : Option Text → List (Text × Text) → Incoming → Socket → Reply Bool × Socket
accepting subprotocol headers m s =
    (gave true, record (send (accept_sent subprotocol (lower_names headers)) s) { accepted = true })

unfoldable pub accept : Option Text → List (Text × Text) → Socket → Reply Bool × Socket
unfolding wait_connect send lower_names
accept subprotocol headers s = after (wait_connect s) (accepting subprotocol headers)

abbrev pub or_1000 : Option ℕ → ℕ
or_1000 none = 1000
or_1000 (some code) = code

abbrev pub read_as : Incoming → Socket → Reply Message × Socket
read_as (disconnect code) s = (disconnected (or_1000 code), record s { closed = true })
read_as (got_text text) s = (gave (str_message text), s)
read_as (got_bytes content) s = (gave (bytes_message content), s)
read_as connect s = (gave (bytes_message []), s)

unfoldable pub receive : Socket → Reply Message × Socket
unfolding next_message
receive s = after (next_message s) read_as

abbrev pub as_text : Message → Socket → Reply Text × Socket
as_text (str_message text) s = (gave text, s)
as_text (bytes_message content) s = (type_error, s)

unfoldable pub receive_text : Socket → Reply Text × Socket
unfolding receive
receive_text s = after (receive s) as_text

abbrev pub as_bytes : Message → Socket → Reply (List ℕ) × Socket
as_bytes (str_message text) s = (type_error, s)
as_bytes (bytes_message content) s = (gave content, s)

unfoldable pub receive_bytes : Socket → Reply (List ℕ) × Socket
unfolding receive
receive_bytes s = after (receive s) as_bytes

unfoldable pub send_text : Text → Socket → Socket
unfolding send
send_text text s = send (text_sent text) s

unfoldable pub send_bytes : List ℕ → Socket → Socket
unfolding send
send_bytes content s = send (bytes_sent content) s

abbrev pub closing : ℕ → Text → Incoming → Socket → Reply Bool × Socket
closing code reason m s = (gave true, record (send (close_sent code reason) s) { closed = true })

abbrev pub close_unless : Bool → ℕ → Text → Socket → Reply Bool × Socket
close_unless true code reason s = (gave false, s)
close_unless false code reason s = after (wait_connect s) (closing code reason)

-- `close`: whether it sent the message.
unfoldable pub close : ℕ → Text → Socket → Reply Bool × Socket
unfolding wait_connect send
close code reason s = close_unless s.closed code reason s

-- `async for message in ws`: the messages until the client disconnects, for those that have come.
unfoldable pub messages : List Incoming → List Message
messages [] = []
messages (disconnect code ∷ ms) = []
messages (got_text text ∷ ms) = str_message text ∷ messages ms
messages (got_bytes content ∷ ms) = bytes_message content ∷ messages ms
messages (connect ∷ ms) = bytes_message [] ∷ messages ms

-- What a handler does with the connection.
pub data Operation : Type 0 where
  accepts : Option Text → List (Text × Text) → Operation
  receives : Operation
  receives_text : Operation
  receives_bytes : Operation
  sends_text : Text → Operation
  sends_bytes : List ℕ → Operation
  closes : ℕ → Text → Operation

unfoldable pub perform : Operation → Socket → Socket
unfolding accept receive receive_text receive_bytes send_text send_bytes close
perform (accepts subprotocol headers) s = (accept subprotocol headers s).1
perform receives s = (receive s).1
perform receives_text s = (receive_text s).1
perform receives_bytes s = (receive_bytes s).1
perform (sends_text text) s = send_text text s
perform (sends_bytes content) s = send_bytes content s
perform (closes code reason) s = (close code reason s).1

unfoldable pub run : List Operation → Socket → Socket
unfolding perform
run [] s = s
run (o ∷ os) s = run os (perform o s)
