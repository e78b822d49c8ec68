-- ===== src/Game/Match.antt =====
-- server/src/game/Game.hpp and Game.cpp: a game of two players. Every method holds the game's mutex
-- from its first line to its last, so a method is one step from state to state.
pub mod Placing
pub mod Invariant
pub mod Steps
pub mod Turns
pub mod Play
pub mod Reach
pub mod Lottery
use sea_battle.Base.{
  ℕ, suc, Bool, true, false, not, ◌&&◌, ◌||◌, List, [], ◌∷◌, ◌++◌, String, Option, none, some, ◌==◌,
  String_discrete, if◌then◌else◌, holds, for_each, keep_if, eqb, ℤ, Cell, Throws, ok, throw,
  player_not_in_game, ◌>>=◌,
}
use sea_battle.Types.{GameState, ShotResult, ShotResultInfo, ShipPlacement, CellInfo, SessionRef}
use sea_battle.Game.Ship.{Ship}
use sea_battle.Game.Board.{
  Board, new_board, clear, place_placement, shoot, get_ship_at, get_surrounding_cells,
  are_all_ships_sunk,
}
use sea_battle.Game.Board.View.{get_fog_of_war, get_full_state}
use sea_battle.Game.Rules.{validate_placement}

pub record GamePlayer : Type 0 where
  pub guid : String
  pub nickname : String
  pub board : Board
  pub ready : Bool

pub record Game : Type 0 where
  pub id : String
  pub state : GameState
  pub current_turn_guid : String
  pub winner_guid : Option String
  pub game_over_reason : String
  pub player1 : GamePlayer
  pub player2 : GamePlayer
  pub spectators : List SessionRef

abbrev pub is_placing : GameState → Bool
is_placing GameState.placing = true
is_placing _ = false

abbrev pub is_battle : GameState → Bool
is_battle GameState.battle = true
is_battle _ = false

abbrev pub is_finished_state : GameState → Bool
is_finished_state GameState.finished = true
is_finished_state _ = false

abbrev pub new_player : String → String → GamePlayer
new_player guid nickname = record {
  guid = guid;
  nickname = nickname;
  board = new_board;
  ready = false;
}

-- The constructor. `heads` is the outcome of the random draw of 0 or 1: whether it was 0.
unfoldable pub new_game : String → String × String → String × String → Bool → Game
new_game id (guid1, nickname1) (guid2, nickname2) heads = record {
  id = id;
  state = GameState.placing;
  current_turn_guid = if heads then guid1 else guid2;
  winner_guid = none;
  game_over_reason = "";
  player1 = new_player guid1 nickname1;
  player2 = new_player guid2 nickname2;
  spectators = [];
}

unfoldable pub get_player_nickname : Game → String → String
get_player_nickname g guid =
    if guid == g.player1.guid
    then g.player1.nickname
    else if guid == g.player2.guid
    then g.player2.nickname
    else ""

unfoldable pub get_opponent_guid : Game → String → String
get_opponent_guid g guid =
    if guid == g.player1.guid
    then g.player2.guid
    else if guid == g.player2.guid
    then g.player1.guid
    else ""

unfoldable pub is_player : Game → String → Bool
is_player g guid = guid == g.player1.guid || guid == g.player2.guid

unfoldable pub is_player_turn : Game → String → Bool
is_player_turn g guid = g.current_turn_guid == guid

unfoldable pub is_player_ready : Game → String → Bool
is_player_ready g guid =
    if guid == g.player1.guid
    then g.player1.ready
    else if guid == g.player2.guid
    then g.player2.ready
    else false

unfoldable pub are_both_players_ready : Game → Bool
are_both_players_ready g = g.player1.ready && g.player2.ready

unfoldable pub get_game_player : Game → String → Throws GamePlayer
get_game_player g guid =
    if guid == g.player1.guid
    then ok g.player1
    else if guid == g.player2.guid
    then ok g.player2
    else throw player_not_in_game

unfoldable pub get_opponent_game_player : Game → String → Throws GamePlayer
get_opponent_game_player g guid =
    if guid == g.player1.guid
    then ok g.player2
    else if guid == g.player2.guid
    then ok g.player1
    else throw player_not_in_game

-- A write through the reference that `getGamePlayer(guid)` returned.
unfoldable pub set_game_player : Game → String → GamePlayer → Game
set_game_player g guid p =
    if guid == g.player1.guid then record g { player1 = p } else record g { player2 = p }

-- A write through the reference that `getOpponentGamePlayer(guid)` returned.
unfoldable pub set_opponent_game_player : Game → String → GamePlayer → Game
set_opponent_game_player g guid p =
    if guid == g.player1.guid then record g { player2 = p } else record g { player1 = p }

-- The loop of `placeShips`: at the first ship that is refused the board is cleared.
unfoldable pub place_all : Board → List ShipPlacement → Throws (Board × Bool)
place_all b [] = ok (b, true)
place_all b (p ∷ ps) = do
  placed ← place_placement b p
  if placed.1 then place_all placed.0 ps else ok (clear placed.0, false)

-- The end of `placeShips`, with the player's board after the loop.
abbrev pub finish_placing : Game → String → GamePlayer → Board × Bool → Game × Bool
finish_placing g guid player (b, true) =
    (set_game_player g guid (record player { board = b; ready = true }), true)
finish_placing g guid player (b, false) =
    (set_game_player g guid (record player { board = b }), false)

unfoldable pub place_ships : Game → String → List ShipPlacement → Throws (Game × Bool)
place_ships g guid ships =
    if not (is_placing g.state)
    then ok (g, false)
    else if not (validate_placement ships).valid
    then ok (g, false)
    else do
      player ← get_game_player g guid
      result ← place_all (clear player.board) ships
      ok (finish_placing g guid player result)

unfoldable pub start_battle : Game → Game
start_battle g =
    if is_placing g.state && g.player1.ready && g.player2.ready
    then record g { state = GameState.battle }
    else g

unfoldable pub switch_turn : Game → Game
switch_turn g = record g {
  current_turn_guid =
      if g.current_turn_guid == g.player1.guid then g.player2.guid else g.player1.guid;
}

unfoldable pub finish_game : Game → String → String → Game
finish_game g winner reason = record g {
  state = GameState.finished;
  winner_guid = some winner;
  game_over_reason = reason;
}

-- The result of a shot, as it is before the ships are looked up.
abbrev pub shot_info : ShotResult → ℤ → ℤ → String → ShotResultInfo
shot_info result x y next = record {
  result = result;
  x = x;
  y = y;
  killed_ship_cells = none;
  surrounding_misses = none;
  next_turn_guid = next;
}

abbrev pub with_killed : ShotResultInfo → Option Ship → ShotResultInfo
with_killed info none = info
with_killed info (some s) = record info {
  killed_ship_cells = some s.cells;
  surrounding_misses = some (get_surrounding_cells s);
}

-- What `shoot` does once the opponent's board has answered.
unfoldable pub after_shot : Game → String → ℤ → ℤ → Board → ShotResult → Game × ShotResultInfo
after_shot g shooter x y b ShotResult.miss =
    let g' = switch_turn g in (g', shot_info ShotResult.miss x y g'.current_turn_guid)
after_shot g shooter x y b ShotResult.kill =
    let g' = if are_all_ships_sunk b then finish_game g shooter "all_ships_sunk" else g in
    (g', with_killed (shot_info ShotResult.kill x y g'.current_turn_guid) (get_ship_at b (x, y)))
after_shot g shooter x y b result = (g, shot_info result x y g.current_turn_guid)

unfoldable pub shoot_at : Game → String → ℤ → ℤ → Throws (Game × ShotResultInfo)
shoot_at g shooter x y =
    if not (is_battle g.state)
    then ok (g, shot_info ShotResult.invalid_coordinates x y "")
    else if not (g.current_turn_guid == shooter)
    then ok (g, shot_info ShotResult.invalid_coordinates x y "")
    else do
      opponent ← get_opponent_game_player g shooter
      let (b, result) = shoot opponent.board (x, y)
      ok (
          after_shot (set_opponent_game_player g shooter (record opponent { board = b })) shooter x
            y b result)

-- The winner when the given player gives up: for any text but the first player's GUID that is the
-- first player.
abbrev pub other_player : Game → String → String
other_player g guid = if guid == g.player1.guid then g.player2.guid else g.player1.guid

unfoldable pub surrender : Game → String → Game
surrender g guid =
    if is_finished_state g.state then g else finish_game g (other_player g guid) "surrender"

unfoldable pub handle_disconnect : Game → String → Game
handle_disconnect g guid =
    if is_finished_state g.state then g else finish_game g (other_player g guid) "disconnect"

unfoldable pub is_finished : Game → Bool
is_finished g = is_finished_state g.state

unfoldable pub get_board_fog_of_war : Game → String → Throws (List CellInfo)
get_board_fog_of_war g guid = do player ← get_game_player g guid; ok (get_fog_of_war player.board)

unfoldable pub get_board_full_state : Game → String → Throws (List CellInfo)
get_board_full_state g guid = do player ← get_game_player g guid; ok (get_full_state player.board)

-- Spectators.
module _ (alive : SessionRef → Bool) where
  unfoldable pub cleanup_spectators : Game → Game
  cleanup_spectators g = record g { spectators = keep_if alive g.spectators }

  unfoldable pub add_spectator : Game → SessionRef → Game
  add_spectator g session =
      let g' = cleanup_spectators g in record g' { spectators = g'.spectators ++ session ∷ [] }

  unfoldable pub remove_spectator : Game → SessionRef → Game
  remove_spectator g session = if not (alive session) then g else record g {
    spectators = keep_if (λ s. not (not (alive s) || eqb s session)) g.spectators;
  }

  -- Returns the game and the sessions to which the message is sent, in order.
  unfoldable pub notify_spectators : Game → Game × List SessionRef
  notify_spectators g = let g' = cleanup_spectators g in (g', keep_if alive g'.spectators)

  unfoldable pub get_spectator_count : Game → ℕ
  get_spectator_count g = for_each (λ count s. if alive s then suc count else count) 0 g.spectators
