-- ===== src/Protocol/Messages.antt =====
-- server/src/protocol/MessageBuilder.hpp: the messages that the server sends, one constructor for each
-- `build` method, with its arguments in their order.
use sea_battle.Base.{ℕ, Bool, String, Option, List, ℤ, Cell}
use sea_battle.Types.{PlayerInfo, FriendInfo, PlayerStatus, ShotResult, ShotResultInfo, CellInfo}
use sea_battle.Players.Stats.{PlayerStats}

pub data Message : Type 0 where
  auth_response : Bool → String → String → Message
  auth_error : ℤ → String → Message
  player_list : List PlayerInfo → Message
  friend_list : List FriendInfo → Message
  stats_response : String → String → PlayerStats → Message
  player_status_changed : String → PlayerStatus → Option String → Message
  invite_received : String → String → String → Message
  invite_response : Bool → String → Message
  game_started : String → String → String → Message
  find_game_response : Bool → ℕ → Message
  place_ships_response : Bool → String → Message
  player_ready : String → Message
  battle_start : String → Message
  shot_result : ShotResultInfo → Message
  opponent_shot : ℤ → ℤ → ShotResult → Bool → Option (List Cell) → Option (List Cell) → Message
  game_over : String → String → List CellInfo → List CellInfo → Message
  spectate_response :
      Bool → String → String → String → String → String → List CellInfo → List CellInfo → Message
  spectate_update : String → ℤ → ℤ → ShotResult → String → Message
  error : ℤ → String → Message
  success : String → Message
