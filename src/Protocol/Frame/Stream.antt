-- ===== src/Protocol/Frame/Stream.antt =====
-- MessageParser.cpp: messages come out of a stream of bytes as they went in.
use sea_battle.Base.{
  ℕ, ◌+◌, ◌%◌, ◌<◌, ◌≡◌, refl, ap, List, ◌++◌, none, some, leb, length, drop, arith, length-append,
  take-append, take-length, append_assoc, if◌then◌else◌,
}
use sea_battle.Protocol.Frame.{max_message_size, to_header, of_header, pack_message, unpack_message}

pub of-to_header : (n : ℕ) (rest : List ℕ) → n < 4294967296 → of_header (to_header n ++ rest) ≡ n
unfolding to_header of_header
of-to_header n rest lt = omega arith

pub pack_message-eq :
    (message : List ℕ)
    → length message < 4294967296
    → pack_message message ≡ to_header (length message) ++ message
unfolding pack_message
pack_message-eq message lt =
    let whole : length message % 4294967296 ≡ length message = omega arith in
    rw whole (ap (λ t. to_header (length message) ++ t) (take-length message))

pub drop-to_header : (n : ℕ) (rest : List ℕ) → drop 4 (to_header n ++ rest) ≡ rest
unfolding to_header drop
drop-to_header n rest = refl

pub length-to_header : (n : ℕ) (rest : List ℕ) → length (to_header n ++ rest) ≡ 4 + length rest
unfolding to_header
length-to_header n rest = omega arith

unpack_framed :
    (message rest : List ℕ)
    → length message < 4294967296
    → unpack_message (to_header (length message) ++ (message ++ rest)) ≡ (
        if leb (length message) max_message_size
        then (some message, 4 + length message)
        else (none, 0))
unfolding unpack_message to_header
unpack_framed message rest lt =
    rw
      (
        of-to_header (length message) (message ++ rest) lt,
        drop-to_header (length message) (message ++ rest),
        length-to_header (length message) (message ++ rest),
        length-append message rest,
      )
      (ground (arith, take-append message rest))

-- A message of up to 1 MB is unpacked from the front of a stream as it was packed, whatever follows
-- it, and the bytes of its frame are counted; a longer one, below 4 GB, is refused.
pub unpack-pack :
    (message rest : List ℕ)
    → length message < 4294967296
    → unpack_message (pack_message message ++ rest) ≡ (
        if leb (length message) max_message_size
        then (some message, length (pack_message message))
        else (none, 0))
unpack-pack message rest lt =
    let framed : length (to_header (length message) ++ message) ≡ 4 + length message =
      length-to_header (length message) message in
    rw (pack_message-eq message lt, append_assoc (to_header (length message)) message rest, framed)
      (unpack_framed message rest lt)
