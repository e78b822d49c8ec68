-- ===== src/Protocol/Builder.antt =====
-- server/src/protocol/MessageBuilder.cpp: the JSON value of each message. The library and the
-- arithmetic on doubles are parameters; `dump`, which prints the value, ends each method.
pub mod Values
pub mod Shape
pub mod Parsed
use sea_battle.Base.{
  ℕ, Bool, true, false, not, ◌&&◌, List, [], ◌∷◌, map, String, ◌==◌, Option, none, some,
  if◌then◌else◌, ℤ, pos, Cell,
}
use sea_battle.Types.{
  PlayerInfo, FriendInfo, PlayerStatus, ShotResult, ShotResultInfo, CellInfo, CellState,
}
use sea_battle.Players.Stats.{PlayerStats, get_winrate, get_accuracy}
use sea_battle.Protocol.Payload.{JsonLibrary}
use sea_battle.Protocol.Messages.{Message}
use sea_battle.Protocol.Builder.Values.{
  shot_result_to_string, player_status_to_string, cell_state_to_string, entry, set_at, put,
  create_base, cell_info_to_json, cells_to_json_array, coords_to_json_array, set_if, JsonWriter,
}

module _ {Json Double : Type 0} (lib : JsonLibrary Json) (w : JsonWriter Json Double) where
  unfoldable pub build_auth_response : Bool → String → String → Json
  build_auth_response success guid nickname = put lib w "nickname" (w.of_string nickname) (
      put lib w "guid" (w.of_string guid)
        (put lib w "success" (w.of_bool success) (create_base lib w "response" "auth")))

  unfoldable pub build_auth_error : ℤ → String → Json
  build_auth_error code message = put lib w "error" (w.of_string message) (
      put lib w "error_code" (w.of_int code)
        (put lib w "success" (w.of_bool false) (create_base lib w "response" "auth")))

  -- The body of the loop of `buildPlayerList`.
  abbrev pub player_to_json : PlayerInfo → Json
  player_to_json p = set_if lib w ("game_id" ∷ []) w.of_string p.game_id (
      w.set (w.set (w.set w.null "guid" (w.of_string p.guid)) "nickname" (w.of_string p.nickname))
        "status" (w.of_string (player_status_to_string p.status)))

  unfoldable pub build_player_list : List PlayerInfo → Json
  build_player_list players =
      put lib w "players" (w.array (map player_to_json players))
        (create_base lib w "response" "get_players")

  -- The body of the loop of `buildFriendList`.
  abbrev pub friend_to_json : FriendInfo → Json
  friend_to_json f =
      w.set (w.set (w.set w.null "guid" (w.of_string f.guid)) "nickname" (w.of_string f.nickname))
        "status" (w.of_string (player_status_to_string f.status))

  unfoldable pub build_friend_list : List FriendInfo → Json
  build_friend_list friends =
      put lib w "friends" (w.array (map friend_to_json friends))
        (create_base lib w "response" "get_friends")

  abbrev pub of_count : ℕ → Json
  of_count n = w.of_int (pos n)

  unfoldable pub build_stats_response : String → String → PlayerStats → Json
  build_stats_response guid nickname stats =
      put lib w "accuracy" (w.of_double (get_accuracy w.no_percent w.percent stats)) (
        put lib w "shots_hit" (of_count stats.shots_hit) (
          put lib w "shots_fired" (of_count stats.shots_fired) (
            put lib w "winrate" (w.of_double (get_winrate w.no_percent w.percent stats)) (
              put lib w "losses" (of_count stats.losses) (
                put lib w "wins" (of_count stats.wins) (
                  put lib w "games_played" (of_count stats.games_played) (
                    put lib w "nickname" (w.of_string nickname) (
                      put lib w "guid" (w.of_string guid)
                        (create_base lib w "response" "get_stats")))))))))

  unfoldable pub build_player_status_changed : String → PlayerStatus → Option String → Json
  build_player_status_changed guid status game_id =
      set_if lib w ("payload" ∷ "game_id" ∷ []) w.of_string game_id (
        put lib w "status" (w.of_string (player_status_to_string status))
          (put lib w "guid" (w.of_string guid) (create_base lib w "event" "player_status_changed")))

  unfoldable pub build_invite_received : String → String → String → Json
  build_invite_received invite_id from_guid from_nickname =
      put lib w "from_nickname" (w.of_string from_nickname) (
        put lib w "from_guid" (w.of_string from_guid) (
          put lib w "invite_id" (w.of_string invite_id)
            (create_base lib w "event" "invite_received")))

  unfoldable pub build_invite_response : Bool → String → Json
  build_invite_response success invite_id =
      put lib w "invite_id" (w.of_string invite_id)
        (put lib w "success" (w.of_bool success) (create_base lib w "response" "invite_response"))

  unfoldable pub build_game_started : String → String → String → Json
  build_game_started game_id opponent_guid opponent_nickname =
      set_at lib w
        (set_at lib w
          (put lib w "game_id" (w.of_string game_id) (create_base lib w "event" "game_started"))
          ("payload" ∷ "opponent" ∷ "guid" ∷ []) (w.of_string opponent_guid))
        ("payload" ∷ "opponent" ∷ "nickname" ∷ []) (w.of_string opponent_nickname)

  unfoldable pub build_find_game_response : Bool → ℕ → Json
  build_find_game_response in_queue queue_size =
      put lib w "queue_size" (of_count queue_size)
        (put lib w "in_queue" (w.of_bool in_queue) (create_base lib w "response" "find_game"))

  unfoldable pub build_place_ships_response : Bool → String → Json
  build_place_ships_response success error =
      let msg =
        put lib w "success" (w.of_bool success) (create_base lib w "response" "place_ships") in
      if not success && not (error == "") then put lib w "error" (w.of_string error) msg else msg

  unfoldable pub build_player_ready : String → Json
  build_player_ready guid =
      put lib w "player_guid" (w.of_string guid) (create_base lib w "event" "player_ready")

  unfoldable pub build_battle_start : String → Json
  build_battle_start guid =
      put lib w "first_turn" (w.of_string guid) (create_base lib w "event" "battle_start")

  -- The two assignments to `ship_killed` that `buildShotResult` and `buildOpponentShot` end with.
  abbrev pub put_killed : Option (List Cell) → Option (List Cell) → Json → Json
  put_killed killed misses msg =
      set_if lib w ("payload" ∷ "ship_killed" ∷ "surrounding_misses" ∷ [])
        (coords_to_json_array lib w) misses
        (set_if lib w ("payload" ∷ "ship_killed" ∷ "cells" ∷ []) (coords_to_json_array lib w) killed
          msg)

  unfoldable pub build_shot_result : ShotResultInfo → Json
  build_shot_result info = put_killed info.killed_ship_cells info.surrounding_misses (
      put lib w "next_turn" (w.of_string info.next_turn_guid) (
        put lib w "y" (w.of_int info.y) (
          put lib w "x" (w.of_int info.x) (
            put lib w "result" (w.of_string (shot_result_to_string info.result))
              (create_base lib w "response" "shoot")))))

  unfoldable pub build_opponent_shot :
      ℤ → ℤ → ShotResult → Bool → Option (List Cell) → Option (List Cell) → Json
  build_opponent_shot x y result your_turn killed misses = put_killed killed misses (
      put lib w "your_turn" (w.of_bool your_turn) (
        put lib w "result" (w.of_string (shot_result_to_string result)) (
          put lib w "y" (w.of_int y)
            (put lib w "x" (w.of_int x) (create_base lib w "event" "opponent_shot")))))

  unfoldable pub build_game_over : String → String → List CellInfo → List CellInfo → Json
  build_game_over winner reason board1 board2 =
      put lib w "board2" (cells_to_json_array lib w board2) (
        put lib w "board1" (cells_to_json_array lib w board1) (
          put lib w "reason" (w.of_string reason)
            (put lib w "winner_guid" (w.of_string winner) (create_base lib w "event" "game_over"))))

  -- `msg["payload"]["game_state"][k1]...[kn] = value`.
  abbrev pub put_state : List String → Json → Json → Json
  put_state path value msg = set_at lib w msg ("payload" ∷ "game_state" ∷ path) value

  unfoldable pub build_spectate_response :
      Bool → String → String → String → String → String → List CellInfo → List CellInfo → Json
  build_spectate_response success guid1 nickname1 guid2 nickname2 turn fog1 fog2 =
      let msg = put lib w "success" (w.of_bool success) (create_base lib w "response" "spectate") in
      if success
      then put_state ("board2_fog" ∷ []) (cells_to_json_array lib w fog2) (
          put_state ("board1_fog" ∷ []) (cells_to_json_array lib w fog1) (
            put_state ("current_turn" ∷ []) (w.of_string turn) (
              put_state ("player2" ∷ "nickname" ∷ []) (w.of_string nickname2) (
                put_state ("player2" ∷ "guid" ∷ []) (w.of_string guid2) (
                  put_state ("player1" ∷ "nickname" ∷ []) (w.of_string nickname1)
                    (put_state ("player1" ∷ "guid" ∷ []) (w.of_string guid1) msg))))))
      else msg

  unfoldable pub build_spectate_update : String → ℤ → ℤ → ShotResult → String → Json
  build_spectate_update shooter x y result next = put lib w "next_turn" (w.of_string next) (
      put lib w "result" (w.of_string (shot_result_to_string result)) (
        put lib w "y" (w.of_int y) (
          put lib w "x" (w.of_int x) (
            put lib w "shooter_guid" (w.of_string shooter)
              (create_base lib w "event" "spectate_update")))))

  unfoldable pub build_error : ℤ → String → Json
  build_error code message = put lib w "error" (w.of_string message) (
      put lib w "error_code" (w.of_int code)
        (w.set (w.set w.null "type" (w.of_string "response")) "action" (w.of_string "error")))

  unfoldable pub build_success : String → Json
  build_success action = put lib w "success" (w.of_bool true) (create_base lib w "response" action)

  unfoldable pub build : Message → Json
  build (Message.auth_response success guid nickname) = build_auth_response success guid nickname
  build (Message.auth_error code message) = build_auth_error code message
  build (Message.player_list players) = build_player_list players
  build (Message.friend_list friends) = build_friend_list friends
  build (Message.stats_response guid nickname stats) = build_stats_response guid nickname stats
  build (Message.player_status_changed guid status id) = build_player_status_changed guid status id
  build (Message.invite_received id guid nickname) = build_invite_received id guid nickname
  build (Message.invite_response success id) = build_invite_response success id
  build (Message.game_started id guid nickname) = build_game_started id guid nickname
  build (Message.find_game_response in_queue size) = build_find_game_response in_queue size
  build (Message.place_ships_response success error) = build_place_ships_response success error
  build (Message.player_ready guid) = build_player_ready guid
  build (Message.battle_start guid) = build_battle_start guid
  build (Message.shot_result info) = build_shot_result info
  build (Message.opponent_shot x y r turn killed misses) =
      build_opponent_shot x y r turn killed misses
  build (Message.game_over winner reason board1 board2) =
      build_game_over winner reason board1 board2
  build (Message.spectate_response ok guid1 name1 guid2 name2 turn fog1 fog2) =
      build_spectate_response ok guid1 name1 guid2 name2 turn fog1 fog2
  build (Message.spectate_update shooter x y r next) = build_spectate_update shooter x y r next
  build (Message.error code message) = build_error code message
  build (Message.success action) = build_success action
