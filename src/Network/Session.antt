-- ===== src/Network/Session.antt =====
-- server/src/network/Session.cpp: one client's connection. The asynchronous operations of the socket
-- are events: an operation that was started ends later, with or without an error.
pub mod Writing
pub mod Reading
use sea_battle.Base.{
  ℕ, zero, suc, ◌+◌, Bool, true, false, not, ◌&&◌, List, [], ◌∷◌, ◌++◌, Option, none, some, ltb,
  length, take, drop, if◌then◌else◌,
}
use sea_battle.Protocol.Frame.{length_header_size, max_message_size, of_header, pack_message}

-- The state that `send`, `doWrite` and `close` share. `in_flight` is the size of the buffer
-- that was given to `async_write`, while the end is not yet known. The buffer is the local vector of
-- `doWrite`, which is gone by then, so that nothing ties its bytes to the frame. `written` is what was
-- written, buffer by buffer.
pub record Writer : Type 0 where
  pub is_open : Bool
  pub is_writing : Bool
  pub write_queue : List (List ℕ)
  pub sent_messages : List (List ℕ)
  pub in_flight : Option ℕ
  pub written : List (List ℕ)

abbrev pub new_writer : Writer
new_writer = record {
  is_open = true;
  is_writing = false;
  write_queue = [];
  sent_messages = [];
  in_flight = none;
  written = [];
}

unfoldable pub do_write : Writer → Writer
do_write w = elim w.write_queue [
  | [] ↦ record w { is_writing = false }
  | frame ∷ queue ↦ record w { write_queue = queue; in_flight = some (length frame) }
]

unfoldable pub send : Writer → List ℕ → Writer
send w message =
    if not w.is_open
    then w
    else let queued = record w {
      sent_messages = w.sent_messages ++ message ∷ [];
      write_queue = w.write_queue ++ pack_message message ∷ [];
    } in
      if w.is_writing then queued else do_write (record queued { is_writing = true })

unfoldable pub close : Writer → Writer
close w = record w { is_open = false }

-- Closes the session; the error callback is called if it was open.
unfoldable pub handle_error : Writer → Writer × Bool
handle_error w = if not w.is_open then (w, false) else (close w, true)

-- The handler of `async_write`, without and with an error. `bytes` are those that were in the memory of
-- the buffer when it was written.
unfoldable pub write_done : List ℕ → Writer → Writer
write_done bytes w = do_write (record w { written = w.written ++ bytes ∷ []; in_flight = none })

unfoldable pub write_failed : Writer → Writer
write_failed w = (handle_error (record w { in_flight = none })).0

unfoldable pub clear_sent_messages : Writer → Writer
clear_sent_messages w = record w { sent_messages = [] }

-- How the loop of `doReadHeader` and `doReadBody` stands on the bytes that have come in: it waits
-- for more, or has closed the session because of a length over the limit (`message_size`).
pub data ReadState : Type 0 where
  waits : ReadState
  too_long : ReadState

-- The loop, on the bytes of the stream so far; a round takes a header of four bytes at least, so that
-- the number of bytes is fuel enough.
unfoldable pub read_loop : ℕ → List ℕ → List (List ℕ) × ReadState
read_loop zero bytes = ([], waits)
read_loop (suc fuel) bytes =
    let size = of_header bytes in
    let body = drop length_header_size bytes in
    let rest = read_loop fuel (drop size body) in
    if ltb (length bytes) length_header_size
    then ([], waits)
    else if ltb max_message_size size
    then ([], too_long)
    else if ltb (length body) size
    then ([], waits)
    else (take size body ∷ rest.0, rest.1)

unfoldable pub read_stream : List ℕ → List (List ℕ) × ReadState
read_stream bytes = read_loop (length bytes) bytes
