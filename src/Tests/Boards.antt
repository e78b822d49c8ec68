-- ===== src/Tests/Boards.antt =====
-- Witnesses of the theorems on a board and a ship.
use sea_battle.Base.{◌≡◌, ◌≢◌, ◌↔◌, arith, true, List, [], ◌∷◌, ◌≤◌, pos, negsuc, Cell, cell_key}
use sea_battle.Types.{CellState}
use sea_battle.Game.Ship.{Ship, line_cells}
use sea_battle.Game.Board.{new_board, are_all_ships_sunk}
use sea_battle.Game.Board.Sunk.{are_all_ships_sunk_iff}
use sea_battle.Game.Board.Progress.{carried_out, carried_out_bound}
use sea_battle.Game.Board.View.{get_fog_of_war, get_fog_of_war_hides}
use sea_battle.Tests.Data.{full_board, full_board-IsValid, full_board-IsFresh}

are_all_ships_sunk_iff_example :
    (are_all_ships_sunk full_board ≡ true)
    ↔ ((full_board.ships ≢ []) × ((c : Cell) → full_board.cells c ≢ CellState.ship))
are_all_ships_sunk_iff_example = are_all_ships_sunk_iff full_board full_board-IsValid

abbrev same_shot_again : List Cell
same_shot_again = (pos 9, pos 9) ∷ (pos 9, pos 9) ∷ (negsuc 0, pos 3) ∷ []

carried_out_bound_example : carried_out full_board same_shot_again ≤ 100
carried_out_bound_example = carried_out_bound full_board same_shot_again

abbrev long_ship : Ship
long_ship = record { cells = line_cells (pos 0) (pos 0) (pos 4) true; hits = [] }

-- The empty board and one with ships and no shots look the same.
get_fog_of_war_hides_example : get_fog_of_war full_board ≡ get_fog_of_war new_board
unfolding new_board
get_fog_of_war_hides_example =
    get_fog_of_war_hides full_board new_board (λ c. ground (arith, full_board-IsFresh c))
