-- ===== src/Players.antt =====
-- server/src/player: a player's record, friends and statistics, and the directory of all players.
pub mod Stats
pub mod Friends
pub mod Directory
use sea_battle.Base.{Bool, true, false, String, Option, none, some}
use sea_battle.Types.{PlayerStatus, PlayerInfo, SessionRef}
use sea_battle.Players.Stats.{PlayerStats, no_stats}
use sea_battle.Players.Friends.{FriendList, new_friend_list}

-- Player.hpp. Each method holds the player's mutex, so it is one step.
pub record Player : Type 0 where
  pub guid : String
  pub nickname : String
  pub status : PlayerStatus
  pub current_game_id : Option String
  pub session : Option SessionRef
  pub friends : FriendList
  pub stats : PlayerStats

unfoldable pub new_player : String → String → Player
new_player guid nickname = record {
  guid = guid;
  nickname = nickname;
  status = PlayerStatus.offline;
  current_game_id = none;
  session = none;
  friends = new_friend_list guid;
  stats = no_stats;
}

unfoldable pub set_nickname : String → Player → Player
set_nickname nickname p = record p { nickname = nickname }

unfoldable pub set_status : PlayerStatus → Player → Player
set_status status p = record p { status = status }

unfoldable pub set_current_game_id : Option String → Player → Player
set_current_game_id game_id p = record p { current_game_id = game_id }

unfoldable pub set_session : Option SessionRef → Player → Player
set_session session p = record p { session = session }

abbrev pub is_online_status : PlayerStatus → Bool
is_online_status PlayerStatus.online = true
is_online_status _ = false

unfoldable pub is_online : Player → Bool
is_online p = elim p.status [ PlayerStatus.offline ↦ false | _ ↦ true ]

unfoldable pub to_player_info : Player → PlayerInfo
to_player_info p = record {
  guid = p.guid;
  nickname = p.nickname;
  status = p.status;
  game_id = p.current_game_id;
}
