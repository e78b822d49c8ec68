-- ===== src/Protocol/Payload.antt =====
-- server/src/protocol/MessageParser.cpp: what is read from a message. The JSON library is a parameter:
-- the operations on its values that the code uses.
pub mod Ranges
use sea_battle.Base.{
  Bool, true, false, not, ◌&&◌, ◌||◌, List, [], ◌∷◌, ◌++◌, map, String, String_discrete, holds,
  Throws, ok, throw, ◌>>=◌, ◌==◌, Option, none, some, any, if◌then◌else◌, ℤ, pos, ltb_ℤ, leb_ℤ,
  string_key, contains,
}
use sea_battle.Types.{ShipPlacement, board_size}

-- The values of the JSON library. `at` is only asked for a key that is there, the `get_` operations only
-- for a value of that kind; `parse` is none when the library throws a `parse_error`, and throws when it
-- throws anything else, such as `out_of_range` for a number that no double can hold.
pub record JsonLibrary (Json : Type 0) : Type 0 where
  pub parse : String → Throws (Option Json)
  pub has : Json → String → Bool
  pub at : Json → String → Json
  pub is_string : Json → Bool
  pub is_number_integer : Json → Bool
  pub is_boolean : Json → Bool
  pub is_array : Json → Bool
  pub is_object : Json → Bool
  pub get_string : Json → String
  pub get_int : Json → ℤ
  pub get_bool : Json → Bool
  pub elements : Json → List Json
  pub empty_object : Json

pub record ParsedMessage (Json : Type 0) : Type 0 where
  pub type : String
  pub action : String
  pub payload : Json

pub data ParseError : Type 0 where
  invalid_json : ParseError
  no_type : ParseError
  no_action : ParseError
  unknown_type : String → ParseError
  unknown_action : String → ParseError

pub data ParseResult (Json : Type 0) : Type 0 where
  parsed : ParsedMessage Json → ParseResult Json
  failed : ParseError → ParseResult Json

abbrev pub valid_types : List String
valid_types = "request" ∷ "response" ∷ "event" ∷ []

abbrev pub valid_actions : List String
valid_actions =
    "auth" ∷ "get_players" ∷ "player_status_changed" ∷ "add_friend" ∷ "remove_friend"
    ∷ "get_friends" ∷ "get_stats" ∷ "invite" ∷ "invite_received" ∷ "invite_response" ∷ "find_game"
    ∷ "cancel_search" ∷ "game_started" ∷ "spectate" ∷ "spectate_update" ∷ "place_ships"
    ∷ "player_ready" ∷ "battle_start" ∷ "shoot" ∷ "opponent_shot" ∷ "surrender" ∷ "game_over" ∷ []

unfoldable pub is_valid_message_type : String → Bool
is_valid_message_type type = contains valid_types type

unfoldable pub is_valid_action : String → Bool
is_valid_action action = contains valid_actions action

module _ {Json : Type 0} (lib : JsonLibrary Json) where
  abbrev pub has_string : Json → String → Bool
  has_string json key = lib.has json key && lib.is_string (lib.at json key)

  abbrev pub has_int : Json → String → Bool
  has_int json key = lib.has json key && lib.is_number_integer (lib.at json key)

  abbrev pub has_bool : Json → String → Bool
  has_bool json key = lib.has json key && lib.is_boolean (lib.at json key)

  -- `parse`, once the library has read the text.
  unfoldable pub parse_json : Json → ParseResult Json
  parse_json json =
      if not (has_string json "type")
      then failed no_type
      else if not (has_string json "action")
      then failed no_action
      else let type = lib.get_string (lib.at json "type") in
        let action = lib.get_string (lib.at json "action") in
        if not (is_valid_message_type type)
        then failed (unknown_type type)
        else if not (is_valid_action action)
        then failed (unknown_action action)
        else parsed (record {
          type = type;
          action = action;
          payload = if lib.has json "payload" then lib.at json "payload" else lib.empty_object;
        })

  abbrev pub parse_read : Option Json → ParseResult Json
  parse_read none = failed invalid_json
  parse_read (some json) = parse_json json

  -- Only a `parse_error` is caught.
  unfoldable pub parse_message : String → Throws (ParseResult Json)
  parse_message raw = do read ← lib.parse raw; ok (parse_read read)

  unfoldable pub extract_string : Json → String → Option String
  extract_string payload key =
      if has_string payload key then some (lib.get_string (lib.at payload key)) else none

  unfoldable pub extract_int : Json → String → Option ℤ
  extract_int payload key =
      if has_int payload key then some (lib.get_int (lib.at payload key)) else none

  unfoldable pub extract_bool : Json → String → Option Bool
  extract_bool payload key =
      if has_bool payload key then some (lib.get_bool (lib.at payload key)) else none

  -- The fields of a ship, before the test of their ranges.
  abbrev pub read_ship : Json → ShipPlacement
  read_ship json = record {
    x = lib.get_int (lib.at json "x");
    y = lib.get_int (lib.at json "y");
    size = lib.get_int (lib.at json "size");
    horizontal = lib.get_bool (lib.at json "horizontal");
  }

  abbrev pub off_board : ℤ → Bool
  off_board c = ltb_ℤ c (pos 0) || leb_ℤ board_size c

  abbrev pub out_of_range : ShipPlacement → Bool
  out_of_range s = off_board s.x || off_board s.y || ltb_ℤ s.size (pos 1) || ltb_ℤ (pos 4) s.size

  -- The body of the loop of `extractShips`; none for `return std::nullopt`.
  unfoldable pub extract_ship : Json → Option ShipPlacement
  extract_ship json =
      if not (lib.is_object json)
      then none
      else if not (has_int json "x")
          || not (has_int json "y")
          || not (has_int json "size")
          || not (has_bool json "horizontal")
      then none
      else if out_of_range (read_ship json)
      then none
      else some (read_ship json)

  abbrev pub put_first :
      Option ShipPlacement → Option (List ShipPlacement) → Option (List ShipPlacement)
  put_first (some s) (some ships) = some (s ∷ ships)
  put_first _ _ = none

  unfoldable pub extract_each : List Json → Option (List ShipPlacement)
  extract_each [] = some []
  extract_each (json ∷ rest) = put_first (extract_ship json) (extract_each rest)

  unfoldable pub extract_ships : Json → Option (List ShipPlacement)
  extract_ships payload =
      if not (lib.has payload "ships") || not (lib.is_array (lib.at payload "ships"))
      then none
      else extract_each (lib.elements (lib.at payload "ships"))

  abbrev pub both_coordinates : Option ℤ → Option ℤ → Option (ℤ × ℤ)
  both_coordinates (some x) (some y) = if off_board x || off_board y then none else some (x, y)
  both_coordinates _ _ = none

  unfoldable pub extract_coordinates : Json → Option (ℤ × ℤ)
  extract_coordinates payload = both_coordinates (extract_int payload "x") (extract_int payload "y")
