-- ===== src/Tests/Games.antt =====
-- Witnesses of the theorems on a game.
use sea_battle.Base.{
  some, List, ◌≡◌, refl, inl, inr, true, false, pos, cell_key, ok, if◌then◌else◌, ◌&&◌, ◌==◌,
  String_discrete, contains, insert, Cell_discrete, any, all, for_each, ◌+ℤ◌, ℤ_discrete, map,
  Option,
}
use sea_battle.Types.{ShotResult, ShotResultInfo, ShipPlacement}
use sea_battle.Game.Ship.{cells_from, line_cells, new_ship, contains_cell, hit, is_sunk}
use sea_battle.Game.Board.{
  new_board, clear, is_valid_coordinate, around, neighbours, has_adjacent_ship, can_place_ship,
  draw_cells, add_ship, place_ship, place_placement, surround_cell, get_surrounding_cells,
  mark_surrounding_as_miss, hit_first, finish_shot, shoot_cell, shoot, are_all_ships_sunk,
  find_ship, get_ship_at,
}
use sea_battle.Game.Rules.{
  push_times, get_required_ship_sizes, count_sizes, check_ship_counts, is_in_bounds, check_bounds,
  forbid_around, take_cells, check_overlap_from, check_overlap_and_touching, validate_placement,
}
use sea_battle.Game.Match.{
  Game, is_battle, is_finished, shot_info, new_game, get_game_player, get_opponent_game_player,
  set_game_player, set_opponent_game_player, place_all, place_ships, start_battle, switch_turn,
  finish_game, after_shot, shoot_at, surrender,
}
use sea_battle.Game.Match.Placing.{add_all, place_all-eq-validate}
use sea_battle.Game.Match.Invariant.{IsGame}
use sea_battle.Game.Match.Steps.{deployed_player}
use sea_battle.Game.Match.Turns.{opponent_shot, shoot_at-eq}
use sea_battle.Game.Match.Play.{TurnRules, target_board, shoot_at-TurnRules}
use sea_battle.Game.Match.Reach.{
  Reach, here, next, place, start, give_up, new_game-Reach, SameResult, Reach-SameResult,
  Reach-IsGame,
}
use sea_battle.Game.Board.Random.{Draw, random_loop, place_ships_randomly}
use sea_battle.Game.Match.Lottery.{place_player_randomly, place_player_randomly-IsGame, IsGameIfAny}
use sea_battle.Game.Match.Steps.{new_game-IsGame}
use sea_battle.Tests.Data.{ten_ships, ann, bob, two_names}

abbrev pub fresh_game : Game
fresh_game = new_game "game" (ann, "Ann") (bob, "Bob") true

abbrev pub half_game : Game
half_game = set_game_player fresh_game ann (deployed_player fresh_game.player1 ten_ships)

abbrev ready_game : Game
ready_game = set_game_player half_game bob (deployed_player half_game.player2 ten_ships)

abbrev pub battle_game : Game
battle_game = start_battle ready_game

first_placed : place_ships fresh_game ann ten_ships ≡ ok (half_game, true)
unfolding push_times get_required_ship_sizes count_sizes check_ship_counts is_in_bounds check_bounds
    forbid_around take_cells check_overlap_from check_overlap_and_touching validate_placement
    new_board clear is_valid_coordinate around neighbours has_adjacent_ship can_place_ship
    draw_cells add_ship place_ship place_placement surround_cell get_surrounding_cells
    mark_surrounding_as_miss hit_first finish_shot shoot_cell shoot are_all_ships_sunk find_ship
    get_ship_at cells_from line_cells new_ship contains_cell hit is_sunk String_discrete contains
    insert Cell_discrete any all for_each ◌+ℤ◌ ℤ_discrete new_game get_game_player
    get_opponent_game_player set_game_player set_opponent_game_player place_all place_ships
    start_battle switch_turn finish_game after_shot shoot_at surrender
first_placed = refl

second_placed : place_ships half_game bob ten_ships ≡ ok (ready_game, true)
unfolding push_times get_required_ship_sizes count_sizes check_ship_counts is_in_bounds check_bounds
    forbid_around take_cells check_overlap_from check_overlap_and_touching validate_placement
    new_board clear is_valid_coordinate around neighbours has_adjacent_ship can_place_ship
    draw_cells add_ship place_ship place_placement surround_cell get_surrounding_cells
    mark_surrounding_as_miss hit_first finish_shot shoot_cell shoot are_all_ships_sunk find_ship
    get_ship_at cells_from line_cells new_ship contains_cell hit is_sunk String_discrete contains
    insert Cell_discrete any all for_each ◌+ℤ◌ ℤ_discrete new_game get_game_player
    get_opponent_game_player set_game_player set_opponent_game_player place_all place_ships
    start_battle switch_turn finish_game after_shot shoot_at surrender
second_placed = refl

up_to_battle : Reach fresh_game battle_game
unfolding new_game set_game_player String_discrete
up_to_battle =
    next
      (next (next here (place ann ten_ships true (inl refl) first_placed))
        (place bob ten_ships true (inr refl) second_placed))
      start

new_game-Reach_example : IsGame battle_game
new_game-Reach_example =
    new_game-Reach "game" (ann, "Ann") (bob, "Bob") true {g = battle_game} two_names up_to_battle

pub battle_game-IsGame : IsGame battle_game
battle_game-IsGame = new_game-Reach "game" (ann, "Ann") (bob, "Bob") true two_names up_to_battle

shoot_at-TurnRules_example :
    (out : Game × ShotResultInfo) × (shoot_at battle_game ann (pos 0) (pos 6) ≡ ok out)
    × TurnRules battle_game ann (shoot (target_board battle_game ann) (pos 0, pos 6)) out
unfolding new_game set_game_player start_battle String_discrete
shoot_at-TurnRules_example =
    shoot_at-TurnRules battle_game ann (pos 0) (pos 6) battle_game-IsGame refl refl

abbrev given_up : Game
given_up = surrender battle_game ann

Reach-SameResult_example : SameResult given_up (start_battle given_up)
unfolding new_game set_game_player start_battle surrender finish_game is_finished String_discrete
Reach-SameResult_example =
    Reach-SameResult {g = given_up} {h = start_battle given_up} (next here start)
      (Reach-IsGame (next here (give_up ann)) battle_game-IsGame) refl

shoot_at-eq_example :
    shoot_at battle_game bob (pos 3) (pos 3)
    ≡ ok (
        if is_battle battle_game.state && (battle_game.current_turn_guid == bob)
        then opponent_shot battle_game bob (pos 3) (pos 3)
        else (battle_game, shot_info ShotResult.invalid_coordinates (pos 3) (pos 3) ""))
shoot_at-eq_example = shoot_at-eq battle_game bob (pos 3) (pos 3) battle_game-IsGame

place_all-eq-validate_example :
    place_all new_board ten_ships
    ≡ ok (
        if (validate_placement ten_ships).valid
        then (add_all new_board ten_ships, true)
        else (new_board, false))
unfolding push_times get_required_ship_sizes count_sizes check_ship_counts for_each ℤ_discrete
place_all-eq-validate_example = place_all-eq-validate ten_ships refl refl

abbrev ten_draws : List Draw
ten_draws = map (λ (p : ShipPlacement). (p.x, p.y, p.horizontal)) ten_ships

place_player_randomly-IsGame_example :
    (out : Option Game) × (place_player_randomly ten_draws fresh_game ann ≡ ok out)
    × IsGameIfAny out
unfolding new_game
place_player_randomly-IsGame_example =
    place_player_randomly-IsGame ten_draws fresh_game ann
      (new_game-IsGame "game" (ann, "Ann") (bob, "Bob") true two_names) (inl refl)

-- With the draws of a legal placement it ends at once, with the same game as that placement.
lottery_ends : place_player_randomly ten_draws fresh_game ann ≡ ok (some half_game)
unfolding push_times get_required_ship_sizes count_sizes check_ship_counts is_in_bounds check_bounds
    forbid_around take_cells check_overlap_from check_overlap_and_touching validate_placement
    new_board clear is_valid_coordinate around neighbours has_adjacent_ship can_place_ship
    draw_cells add_ship place_ship place_placement surround_cell get_surrounding_cells
    mark_surrounding_as_miss hit_first finish_shot shoot_cell shoot are_all_ships_sunk find_ship
    get_ship_at cells_from line_cells new_ship contains_cell hit is_sunk String_discrete contains
    insert Cell_discrete any all for_each ◌+ℤ◌ ℤ_discrete new_game get_game_player
    get_opponent_game_player set_game_player set_opponent_game_player place_all place_ships
    start_battle switch_turn finish_game after_shot shoot_at surrender random_loop
    place_ships_randomly place_player_randomly
lottery_ends = refl
