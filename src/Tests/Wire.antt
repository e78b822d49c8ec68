-- ===== src/Tests/Wire.antt =====
-- Witnesses of the theorems on nicknames, frames, sessions and the table of sessions.
use sea_battle.Base.{
  ok, Bool, true, false, map, ℕ, ◌||◌, ℤ, pos, ◌≡◌, refl, arith, ◌&&◌, List, [], ◌∷◌, ◌++◌, none,
  some, String, String_discrete, ◌==◌, if◌then◌else◌, leb, all, length, string_key, number_key,
}
use sea_battle.Types.{ShipPlacement}
use sea_battle.Protocol.Payload.{JsonLibrary, extract_ship, extract_each, extract_ships}
use sea_battle.Protocol.Payload.Ranges.{in_range, extract_ships_lem}
use sea_battle.Game.Nickname.{is_valid_nickname}
use sea_battle.Game.Nickname.Utf8.{encode_all, is_allowed, is_valid_nickname-encode_all}
use sea_battle.Protocol.Frame.{pack_message, unpack_message, max_message_size}
use sea_battle.Protocol.Frame.Stream.{unpack-pack}
use sea_battle.Network.Session.{Writer, new_writer, send, write_done, read_stream, waits}
use sea_battle.Network.Session.Writing.{next}
use sea_battle.Network.Session.Reading.{pack_all, read_stream-pack_all}
use sea_battle.Network.Registry.{get_session, get_session_by_player_guid}
use sea_battle.Network.Registry.Abstract.{Call, run, promised_run, session_via, run-promised}
use sea_battle.Types.{SessionRef}
use sea_battle.Base.{Option}
use sea_battle.Startup.{
  Outcome, LogLevel, OutcomeInBounds, default_config, read_option, parse_args, parse_args-InBounds,
}
use sea_battle.Guid.{generate, is_valid, generate-is_valid}

-- The name Яна.
abbrev yana : List ℕ
yana = 1071 ∷ 1085 ∷ 1072 ∷ []

is_valid_nickname-encode_all_example :
    is_valid_nickname (encode_all yana)
    ≡ (all is_allowed yana && leb 3 (length yana) && leb (length yana) 15)
is_valid_nickname-encode_all_example = is_valid_nickname-encode_all yana

abbrev hello : List ℕ
hello = 123 ∷ 125 ∷ []

unpack-pack_example : unpack_message (pack_message hello ++ (0 ∷ 0 ∷ [])) ≡ (
    if leb (length hello) max_message_size
    then (some hello, length (pack_message hello))
    else (none, 0))
unpack-pack_example = unpack-pack hello (0 ∷ 0 ∷ []) (omega arith)

read_stream-pack_all_example :
    read_stream (pack_all (hello ∷ [] ∷ hello ∷ []) ++ (0 ∷ 0 ∷ []))
    ≡ (hello ∷ [] ∷ hello ∷ [], waits)
read_stream-pack_all_example =
    read_stream-pack_all (hello ∷ [] ∷ hello ∷ []) (0 ∷ 0 ∷ [])
      (omega arith, (omega arith, (omega arith, tt))) (omega arith)

-- What was in the memory of the buffer when the frame of `hello` was written.
abbrev other_bytes : List ℕ
other_bytes = map (λ b. 0) (pack_message hello)

-- Two messages are sent and one buffer is written.
abbrev busy_writer : Writer
busy_writer = write_done other_bytes (send (send new_writer hello) [])

-- A small JSON library: numbers, truth values, a ship, and a payload with ships.
data Value : Type 0 where
  number : ℤ → Value
  truth : Bool → Value
  ship : ℤ → ℤ → ℤ → Bool → Value
  fleet : List (ℤ × ℤ × ℤ × Bool) → Value

abbrev value_has : Value → String → Bool
value_has (ship x y size h) key = key == "x" || key == "y" || key == "size" || key == "horizontal"
value_has (fleet ships) key = key == "ships"
value_has _ key = false

abbrev value_at : Value → String → Value
value_at (ship x y size h) key =
    if key == "x"
    then number x
    else if key == "y"
    then number y
    else if key == "size"
    then number size
    else truth h
value_at v key = v

abbrev is_number : Value → Bool
is_number (number n) = true
is_number _ = false

abbrev is_truth : Value → Bool
is_truth (truth t) = true
is_truth _ = false

abbrev is_ship_value : Value → Bool
is_ship_value (ship x y size h) = true
is_ship_value _ = false

abbrev is_fleet : Value → Bool
is_fleet (fleet ships) = true
is_fleet _ = false

abbrev number_of : Value → ℤ
number_of (number n) = n
number_of _ = pos 0

abbrev truth_of : Value → Bool
truth_of (truth t) = t
truth_of _ = false

abbrev ships_of : Value → List Value
ships_of (fleet ships) = map (λ (x, y, size, h). ship x y size h) ships
ships_of _ = []

abbrev small_library : JsonLibrary Value
small_library = record {
  parse = λ text. ok none;
  has = value_has;
  at = value_at;
  is_string = λ v. false;
  is_number_integer = is_number;
  is_boolean = is_truth;
  is_array = is_fleet;
  is_object = is_ship_value;
  get_string = λ v. "";
  get_int = number_of;
  get_bool = truth_of;
  elements = ships_of;
  empty_object = fleet [];
}

abbrev two_ships : Value
two_ships = fleet ((pos 0, pos 0, pos 4, true) ∷ (pos 9, pos 2, pos 3, false) ∷ [])

abbrev two_placements : List ShipPlacement
two_placements =
    record { x = pos 0; y = pos 0; size = pos 4; horizontal = true }
    ∷ record { x = pos 9; y = pos 2; size = pos 3; horizontal = false }
    ∷ []

extract_ships_lem_example :
    (all in_range two_placements ≡ true)
    × (length two_placements ≡ length (small_library.elements (small_library.at two_ships "ships")))
unfolding extract_ships extract_each extract_ship String_discrete
extract_ships_lem_example = extract_ships_lem small_library two_ships two_placements refl

abbrev calls : List Call
calls = Call.add (some 7) ∷ Call.bind "a" (some 1) ∷ Call.add (some 8) ∷ Call.drop 1 ∷ []

abbrev owner : SessionRef → Option String
owner s = some "a"

run-promised_example :
    (get_session (run owner calls) 2 ≡ (promised_run owner calls).session_of 2)
    × (get_session_by_player_guid (run owner calls) "a"
        ≡ session_via owner (promised_run owner calls) ((promised_run owner calls).number_of "a"))
    × ((run owner calls).next_session_id ≡ (promised_run owner calls).next)
run-promised_example = run-promised owner calls 2 "a"

abbrev read_number : String → Option ℤ
read_number text = if text == "8080" then some (pos 8080) else none

abbrev arguments : List String
arguments = "--port" ∷ "8080" ∷ "--quiet" ∷ []

parse_args-InBounds_example : OutcomeInBounds (parse_args read_number arguments default_config)
parse_args-InBounds_example =
    parse_args-InBounds read_number arguments default_config
      (omega arith, omega arith, omega arith, omega arith)

arguments_read :
    parse_args read_number arguments default_config
    ≡ Outcome.accepted (record { port = 8080; threads = 4; log_level = LogLevel.err })
unfolding parse_args read_option String_discrete
arguments_read = refl

generate-is_valid_example : is_valid (generate 81985529216486895 1) ≡ true
generate-is_valid_example = generate-is_valid 81985529216486895 1
