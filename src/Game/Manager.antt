-- ===== src/Game/Manager.antt =====
-- server/src/game/GameManager.cpp: all games by their identifiers, and the game of each player. A
-- `shared_ptr<Game>` is the game's identifier, and a call through it is `on_game`. The identifier that
-- `GuidGenerator::generate` returns is an argument.
pub mod Players
use sea_battle.Base.{
  ℕ, Bool, true, false, List, [], ◌∷◌, String, Option, none, some, length, string_key, find, assign,
  remove, keys,
}
use sea_battle.Types.{PlayerStatus, SessionRef}
use sea_battle.Players.{Player, set_status, set_current_game_id}
use sea_battle.Players.Directory.{Directory, update}
use sea_battle.Game.Match.{Game, new_game, add_spectator, remove_spectator}

pub record Manager : Type 0 where
  pub games : List (String × Game)
  pub player_to_game : List (String × String)

abbrev pub no_games : Manager
no_games = record { games = []; player_to_game = [] }

abbrev pub enter_game : String → Player → Player
enter_game id p = set_status PlayerStatus.in_game (set_current_game_id (some id) p)

-- `heads` is the outcome of the draw for the first turn.
unfoldable pub create_game :
    String → Bool → Manager → Directory → Player → Player → Manager × Directory × Game
create_game id heads m d p1 p2 =
    let game = new_game id (p1.guid, p1.nickname) (p2.guid, p2.nickname) heads in
    (
      record {
        games = assign m.games id game;
        player_to_game = assign (assign m.player_to_game p1.guid id) p2.guid id;
      },
      update (enter_game id) (update (enter_game id) d p1.guid) p2.guid,
      game,
    )

unfoldable pub get_game : Manager → String → Option Game
get_game m id = find m.games id

abbrev pub game_named : Manager → Option String → Option Game
game_named m none = none
game_named m (some id) = find m.games id

unfoldable pub get_game_by_player : Manager → String → Option Game
get_game_by_player m guid = game_named m (find m.player_to_game guid)

abbrev pub remove_found : Manager → String → Option Game → Manager
remove_found m id none = m
remove_found m id (some g) = record {
  games = remove m.games id;
  player_to_game = remove (remove m.player_to_game g.player1.guid) g.player2.guid;
}

unfoldable pub remove_game : Manager → String → Manager
remove_game m id = remove_found m id (find m.games id)

abbrev pub change_found : (Game → Game) → Manager → String → Option Game → Manager × Bool
change_found f m id none = (m, false)
change_found f m id (some g) = (record m { games = assign m.games id (f g) }, true)

-- A call through the pointer to a game, if there is one.
unfoldable pub on_game : (Game → Game) → Manager → String → Manager × Bool
on_game f m id = change_found f m id (find m.games id)

module _ (alive : SessionRef → Bool) where
  unfoldable pub add_game_spectator : Manager → String → SessionRef → Manager × Bool
  add_game_spectator m id session = on_game (λ g. add_spectator alive g session) m id

  unfoldable pub remove_game_spectator : Manager → String → SessionRef → Manager
  remove_game_spectator m id session = (on_game (λ g. remove_spectator alive g session) m id).0

unfoldable pub get_active_game_ids : Manager → List String
get_active_game_ids m = keys m.games

unfoldable pub get_active_game_count : Manager → ℕ
get_active_game_count m = length m.games
