-- ===== src/Network/Session/Reading.antt =====
-- Session.cpp, `doReadHeader` and `doReadBody`: what a client sends arrives whole and in order.
use sea_battle.Base.{
  ℕ, zero, suc, ◌≤◌, ◌<◌, ◌≡◌, refl, ap, ◌∙◌, List, [], ◌∷◌, ◌++◌, length, arith, All,
  length-append, take-append, drop-append, append_assoc,
}
use sea_battle.Protocol.Frame.{length_header_size, max_message_size, to_header, pack_message}
use sea_battle.Protocol.Frame.Stream.{
  of-to_header, drop-to_header, length-to_header, pack_message-eq,
}
use sea_battle.Network.Session.{waits, read_loop, read_stream}

unfoldable pub pack_all : List (List ℕ) → List ℕ
pack_all [] = []
pack_all (m ∷ ms) = pack_message m ++ pack_all ms

-- Every message is within the limit.
abbrev pub AllShort : List (List ℕ) → Type 0
AllShort ms = All (λ m. length m ≤ max_message_size) ms

read_one :
    (fuel : ℕ) (message rest : List ℕ)
    → length message ≤ max_message_size
    → read_loop (suc fuel) (to_header (length message) ++ (message ++ rest))
      ≡ (message ∷ (read_loop fuel rest).0, (read_loop fuel rest).1)
unfolding read_loop
read_one fuel message rest short =
    rw
      (
        of-to_header (length message) (message ++ rest) (omega arith),
        drop-to_header (length message) (message ++ rest),
        length-to_header (length message) (message ++ rest),
        length-append message rest,
        take-append message rest,
        drop-append message rest,
      )
      (ground arith)

read_packed :
    (ms : List (List ℕ)) (fuel : ℕ) (rest : List ℕ)
    → AllShort ms
    → length ms ≤ fuel
    → length rest < length_header_size
    → read_loop fuel (pack_all ms ++ rest) ≡ (ms, waits)
unfolding pack_all read_loop
read_packed [] zero rest short le less = refl
read_packed [] (suc fuel) rest short le less = ground arith
read_packed (m ∷ ms) zero rest short le less = absurd (omega (arith, le))
read_packed (m ∷ ms) (suc fuel) rest short le less =
    let others = read_packed ms fuel rest short.1 (omega (arith, le)) less in
    rw (
      pack_message-eq m (omega (arith, short.0)),
      append_assoc (to_header (length m) ++ m) (pack_all ms) rest,
      append_assoc (to_header (length m)) m (pack_all ms ++ rest),
      read_one fuel m (pack_all ms ++ rest) short.0,
      others,
    )

length-pack_all : (ms : List (List ℕ)) → AllShort ms → length ms ≤ length (pack_all ms)
unfolding pack_all
length-pack_all [] short = omega arith
length-pack_all (m ∷ ms) short =
    let framed =
      ap length (pack_message-eq m (omega (arith, short.0))) ∙ length-to_header (length m) m in
    omega (arith, framed, length-append (pack_message m) (pack_all ms), length-pack_all ms short.1)

-- When a client sends packed messages of up to 1 MB each, the session hands on exactly these messages
-- in their order, and then waits, whatever part of a next header has come in.
pub read_stream-pack_all :
    (ms : List (List ℕ)) (rest : List ℕ)
    → AllShort ms
    → length rest < length_header_size
    → read_stream (pack_all ms ++ rest) ≡ (ms, waits)
unfolding read_stream
read_stream-pack_all ms rest short less =
    read_packed ms (length (pack_all ms ++ rest)) rest short
      (omega (arith, length-append (pack_all ms) rest, length-pack_all ms short)) less
