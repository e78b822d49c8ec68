-- ===== src/Protocol/Frame.antt =====
-- server/src/protocol/MessageParser.cpp, `packMessage` and `unpackMessage`: a message travels as its
-- length, four bytes with the highest first (`htonl`), and its bytes. A byte is a number below 256.
pub mod Stream
use sea_battle.Base.{
  ℕ, zero, suc, ◌+◌, ◌*◌, ◌/◌, ◌%◌, Bool, true, false, List, [], ◌∷◌, ◌++◌, Option, none, some, ltb,
  length, take, drop, if◌then◌else◌,
}

abbrev pub length_header_size : ℕ
length_header_size = 4

abbrev pub max_message_size : ℕ
max_message_size = 1048576

-- The bytes of a `uint32_t` in network order.
unfoldable pub to_header : ℕ → List ℕ
to_header n = (n / 16777216) % 256 ∷ (n / 65536) % 256 ∷ (n / 256) % 256 ∷ n % 256 ∷ []

unfoldable pub of_header : List ℕ → ℕ
of_header (a ∷ b ∷ c ∷ d ∷ rest) = a * 16777216 + b * 65536 + c * 256 + d
of_header _ = 0

-- The length is cast to 32 bits.
unfoldable pub pack_message : List ℕ → List ℕ
pack_message message = let size = length message % 4294967296 in to_header size ++ take size message

-- Returns the message and `bytesConsumed`.
unfoldable pub unpack_message : List ℕ → Option (List ℕ) × ℕ
unpack_message bytes =
    let size = of_header bytes in
    if ltb (length bytes) length_header_size
    then (none, 0)
    else if ltb max_message_size size
    then (none, 0)
    else if ltb (length bytes) (length_header_size + size)
    then (none, 0)
    else (some (take size (drop length_header_size bytes)), length_header_size + size)
