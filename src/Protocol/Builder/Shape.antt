-- ===== src/Protocol/Builder/Shape.antt =====
-- MessageBuilder.cpp: the type and the action of each message, and what is promised of JSON values.
use sea_battle.Base.{◌⊎◌, Bool, false, ◌≡◌, true, false, ◌||◌, String, ◌==◌, string_key}
use sea_battle.Protocol.Messages.{Message}
use sea_battle.Protocol.Payload.{JsonLibrary}
use sea_battle.Protocol.Builder.Values.{JsonWriter}

-- What the JSON library promises of the values that the server makes.
pub record IsJson {Json Double : Type 0} (lib : JsonLibrary Json) (w : JsonWriter Json Double)
    : Type 0 where
  pub object_is : lib.is_object w.object ≡ true
  pub set_null : (key : String) (v : Json) → w.set w.null key v ≡ w.set w.object key v
  pub set_is :
      (json : Json) (key : String) (v : Json)
      → lib.is_object json ≡ true
      → lib.is_object (w.set json key v) ≡ true
  pub has_set :
      (json : Json) (key : String) (v : Json) (other : String)
      → lib.is_object json ≡ true
      → lib.has (w.set json key v) other ≡ (key == other || lib.has json other)
  pub at_same :
      (json : Json) (key : String) (v : Json)
      → lib.is_object json ≡ true
      → lib.at (w.set json key v) key ≡ v
  pub at_other :
      (json : Json) (key : String) (v : Json) (other : String)
      → lib.is_object json ≡ true
      → (key == other) ≡ false
      → lib.has json other ≡ true
      → lib.at (w.set json key v) other ≡ lib.at json other
  pub string_is : (s : String) → lib.is_string (w.of_string s) ≡ true
  pub string_of : (s : String) → lib.get_string (w.of_string s) ≡ s

-- The type and the action of a message.
abbrev pub type_of : Message → String
type_of (Message.player_status_changed guid status id) = "event"
type_of (Message.invite_received id guid nickname) = "event"
type_of (Message.game_started id guid nickname) = "event"
type_of (Message.player_ready guid) = "event"
type_of (Message.battle_start guid) = "event"
type_of (Message.opponent_shot x y r turn killed misses) = "event"
type_of (Message.game_over winner reason board1 board2) = "event"
type_of (Message.spectate_update shooter x y r next) = "event"
type_of _ = "response"

abbrev pub action_of : Message → String
action_of (Message.auth_response ok guid nickname) = "auth"
action_of (Message.auth_error code message) = "auth"
action_of (Message.player_list players) = "get_players"
action_of (Message.friend_list friends) = "get_friends"
action_of (Message.stats_response guid nickname stats) = "get_stats"
action_of (Message.player_status_changed guid status id) = "player_status_changed"
action_of (Message.invite_received id guid nickname) = "invite_received"
action_of (Message.invite_response ok id) = "invite_response"
action_of (Message.game_started id guid nickname) = "game_started"
action_of (Message.find_game_response in_queue size) = "find_game"
action_of (Message.place_ships_response ok error) = "place_ships"
action_of (Message.player_ready guid) = "player_ready"
action_of (Message.battle_start guid) = "battle_start"
action_of (Message.shot_result info) = "shoot"
action_of (Message.opponent_shot x y r turn killed misses) = "opponent_shot"
action_of (Message.game_over winner reason board1 board2) = "game_over"
action_of (Message.spectate_response ok guid1 name1 guid2 name2 turn fog1 fog2) = "spectate"
action_of (Message.spectate_update shooter x y r next) = "spectate_update"
action_of (Message.error code message) = "error"
action_of (Message.success action) = action

-- What the server sends: of confirmations only those of three requests.
abbrev pub IsSent : Message → Type 0
IsSent (Message.success action) =
    (action ≡ "add_friend") ⊎ ((action ≡ "remove_friend") ⊎ (action ≡ "cancel_search"))
IsSent m = Unit

abbrev pub is_error : Message → Bool
is_error (Message.error code message) = true
is_error m = false
