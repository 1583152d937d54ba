-- ===== src/Websocket/Closing.antt =====
-- A connection is closed once.
use korvex.Prelude.{ℕ, ◌+◌, ◌≤◌, Bool, true, false, List, [], ◌∷◌, ◌++◌, ◌≡◌, refl, arith}
use mathlib.Core.Path.{subst}
use korvex.Prelude.Tests.{if◌then◌else◌}
use korvex.Prelude.Text.{Text}
use korvex.Websocket
use korvex.Websocket.{lower_names, got_bytes, bytes_message, send_text, send_bytes}
use korvex.Websocket.{
  Incoming, Sent, accept_sent, text_sent, bytes_sent, close_sent, Socket, new_socket, Reply, gave,
  waits, disconnected, type_error, Operation, perform, run,
}
use korvex.Websocket.{after}
use korvex.Websocket.{next_message}
use korvex.Websocket.{send}
use korvex.Websocket.{read_as}
use korvex.Websocket.{receive}
use korvex.Websocket.{Message}
use korvex.Websocket.{wait_connect}
use korvex.Websocket.{accept}
use korvex.Websocket.{next_of}
use korvex.Websocket.{connecting}
use korvex.Websocket.{disconnect}
use korvex.Websocket.{as_text}
use korvex.Websocket.{as_bytes}
use korvex.Websocket.{closing}
use korvex.Websocket.{close_unless}
use korvex.Websocket.{receive_text}
use korvex.Websocket.{connect}
use korvex.Websocket.{got_text}
use korvex.Websocket.{str_message}
use korvex.Websocket.{receive_bytes}
use korvex.Websocket.{got_bytes}
use korvex.Websocket.{bytes_message}
use korvex.Websocket.{send_text}
use korvex.Websocket.{close}
use korvex.Websocket.{accepts}
use korvex.Websocket.{accepting}
use korvex.Websocket
use korvex.Websocket.{lower_names}
use korvex.Websocket.{sends_text}
use korvex.Websocket.{sends_bytes}
use korvex.Websocket.{closes}

-- How many close messages were sent.
abbrev pub close_count : List Sent → ℕ
close_count [] = 0
close_count (close_sent code reason ∷ ms) = 1 + close_count ms
close_count (accept_sent subprotocol headers ∷ ms) = close_count ms
close_count (text_sent text ∷ ms) = close_count ms
close_count (bytes_sent content ∷ ms) = close_count ms

close_count-append : (xs ys : List Sent) → close_count (xs ++ ys) ≡ close_count xs + close_count ys
close_count-append [] ys = omega arith
close_count-append (close_sent c r ∷ xs) ys = omega (arith, close_count-append xs ys)
close_count-append (accept_sent p h ∷ xs) ys = close_count-append xs ys
close_count-append (text_sent t ∷ xs) ys = close_count-append xs ys
close_count-append (bytes_sent d ∷ xs) ys = close_count-append xs ys

-- No close message while it is open, and one at most when it is closed.
abbrev pub IsOnce : Socket → Type 0
IsOnce s = close_count s.sent ≤ (if s.closed then 1 else 0)

module _ {A : Type 0} (k : Incoming → Socket → Reply A × Socket) where
  next_of-IsOnce :
      (ms : List Incoming) (s : Socket)
      → IsOnce s
      → ((m : Incoming) (s' : Socket) → s'.closed ≡ s.closed → s'.sent ≡ s.sent → IsOnce (k m s').1)
      → IsOnce (after (next_of ms s) k).1
  next_of-IsOnce [] s once rest = once
  next_of-IsOnce (m ∷ ms) s once rest = rest m (record s { inbox = ms }) refl refl

  connecting-IsOnce :
      (b : Bool) (s : Socket)
      → IsOnce s
      → ((m : Incoming) (s' : Socket) → s'.closed ≡ s.closed → s'.sent ≡ s.sent → IsOnce (k m s').1)
      → IsOnce (after (connecting b s) k).1
  unfolding next_message
  connecting-IsOnce true s once rest = rest connect s refl refl
  connecting-IsOnce false s once rest =
      next_of-IsOnce s.inbox (record s { connected = true }) once rest

le_one : {n : ℕ} (b : Bool) → n ≤ (if b then 1 else 0) → n ≤ 1
le_one true h = h
le_one false h = omega (arith, h)

none_yet : (s : Socket) → s.closed ≡ false → IsOnce s → close_count s.sent ≤ 0
none_yet s c once = subst (λ b. close_count s.sent ≤ (if b then 1 else 0)) c once

moved : (s s' : Socket) → s'.closed ≡ s.closed → s'.sent ≡ s.sent → IsOnce s → IsOnce s'
moved s s' c m once = rw (c, m) once

-- A message that closes nothing.
abbrev is_close : Sent → Bool
is_close (close_sent code reason) = true
is_close _ = false

count_other : (m : Sent) → is_close m ≡ false → close_count (m ∷ []) ≡ 0
count_other (close_sent code reason) h = cc
count_other (accept_sent subprotocol headers) h = refl
count_other (text_sent text) h = refl
count_other (bytes_sent content) h = refl

send-IsOnce : (m : Sent) (s : Socket) → is_close m ≡ false → IsOnce s → IsOnce (send m s)
unfolding send
send-IsOnce m s h once =
    rw (close_count-append s.sent (m ∷ []), count_other m h) (omega (arith, once))

read_as-IsOnce : (m : Incoming) (s : Socket) → IsOnce s → IsOnce (read_as m s).1
read_as-IsOnce (disconnect code) s once = le_one s.closed once
read_as-IsOnce (got_text text) s once = once
read_as-IsOnce (got_bytes content) s once = once
read_as-IsOnce connect s once = once

receive-IsOnce : (s : Socket) → IsOnce s → IsOnce (receive s).1
unfolding receive next_message
receive-IsOnce s once =
    next_of-IsOnce read_as s.inbox s once
      (λ m s' c sent. read_as-IsOnce m s' (moved s s' c sent once))

after-IsOnce :
    {A : Type 0} {B : Type 0} (reply : Reply A × Socket) (k : A → Socket → Reply B × Socket)
    → IsOnce reply.1
    → ((a : A) (s : Socket) → IsOnce s → IsOnce (k a s).1)
    → IsOnce (after reply k).1
after-IsOnce (gave a, s) k once rest = rest a s once
after-IsOnce (waits, s) k once rest = once
after-IsOnce (disconnected code, s) k once rest = once
after-IsOnce (type_error, s) k once rest = once

as_text-IsOnce : (m : Message) (s : Socket) → IsOnce s → IsOnce (as_text m s).1
as_text-IsOnce (str_message text) s once = once
as_text-IsOnce (bytes_message content) s once = once

as_bytes-IsOnce : (m : Message) (s : Socket) → IsOnce s → IsOnce (as_bytes m s).1
as_bytes-IsOnce (str_message text) s once = once
as_bytes-IsOnce (bytes_message content) s once = once

closing-IsOnce :
    (code : ℕ) (reason : Text) (m : Incoming) (s : Socket)
    → close_count s.sent ≤ 0
    → IsOnce (closing code reason m s).1
unfolding send
closing-IsOnce code reason m s h =
    rw (close_count-append s.sent (close_sent code reason ∷ [])) (omega (arith, h))

close_unless-IsOnce :
    (b : Bool) (code : ℕ) (reason : Text) (s : Socket)
    → s.closed ≡ b
    → IsOnce s
    → IsOnce (close_unless b code reason s).1
unfolding wait_connect
close_unless-IsOnce true code reason s c once = once
close_unless-IsOnce false code reason s c once =
    connecting-IsOnce (closing code reason) s.connected s once
      (λ m s' c' sent. closing-IsOnce code reason m s' (rw sent (none_yet s c once)))

perform-IsOnce : (o : Operation) (s : Socket) → IsOnce s → IsOnce (perform o s)
unfolding perform accept wait_connect receive_text receive_bytes send_text send_bytes close
perform-IsOnce (Websocket.accepts subprotocol headers) s once =
    connecting-IsOnce (accepting subprotocol headers) s.connected s once (λ m s' c sent.
      send-IsOnce (accept_sent subprotocol (lower_names headers)) s' refl (moved s s' c sent once))
perform-IsOnce Websocket.receives s once = receive-IsOnce s once
perform-IsOnce Websocket.receives_text s once =
    after-IsOnce (receive s) as_text (receive-IsOnce s once) as_text-IsOnce
perform-IsOnce Websocket.receives_bytes s once =
    after-IsOnce (receive s) as_bytes (receive-IsOnce s once) as_bytes-IsOnce
perform-IsOnce (Websocket.sends_text text) s once = send-IsOnce (text_sent text) s refl once
perform-IsOnce (Websocket.sends_bytes content) s once = send-IsOnce (bytes_sent content) s refl once
perform-IsOnce (Websocket.closes code reason) s once =
    close_unless-IsOnce s.closed code reason s refl once

run-IsOnce : (os : List Operation) (s : Socket) → IsOnce s → IsOnce (run os s)
unfolding run
run-IsOnce [] s once = once
run-IsOnce (o ∷ os) s once = run-IsOnce os (perform o s) (perform-IsOnce o s once)

-- Whatever a handler does with a new connection and whatever comes, one close message is sent at
-- most, and none while the connection is not marked as closed.
pub run-closes_once :
    (os : List Operation) (inbox : List Incoming)
    → close_count (run os (new_socket inbox)).sent
      ≤ (if (run os (new_socket inbox)).closed then 1 else 0)
unfolding new_socket
run-closes_once os inbox = run-IsOnce os (new_socket inbox) (omega arith)
