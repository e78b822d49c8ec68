-- ===== src/Tests/Data.antt =====
-- A legal placement of ten ships, two players and their game.
use sea_battle.Base.{
  ◌≡◌, ◌≢◌, refl, ap, false, true, List, [], ◌∷◌, String, ℤ, pos, cell_key, ◌==◌, String_discrete,
  contains, insert, Cell_discrete, any, all, for_each, ◌+ℤ◌, ℤ_discrete,
}
use sea_battle.Types.{ShipPlacement}
use sea_battle.Game.Ship.{cells_from, line_cells, new_ship, contains_cell, hit, is_sunk}
use sea_battle.Game.Board.{Board, new_board, around, is_valid_coordinate}
use sea_battle.Game.Rules.{
  push_times, get_required_ship_sizes, count_sizes, check_ship_counts, is_in_bounds, check_bounds,
  forbid_around, take_cells, check_overlap_from, check_overlap_and_touching, validate_placement,
}
use sea_battle.Game.Match.Placing.{add_all, add_all-IsDeployed}
use sea_battle.Game.Board.Invariant.{IsValid, IsFresh}

abbrev pub across : ℤ → ℤ → ℤ → ShipPlacement
across x y size = record { x = x; y = y; size = size; horizontal = true }

abbrev pub ten_ships : List ShipPlacement
ten_ships =
    across (pos 0) (pos 0) (pos 4)
    ∷ across (pos 0) (pos 2) (pos 3)
    ∷ across (pos 4) (pos 2) (pos 3)
    ∷ across (pos 0) (pos 4) (pos 2)
    ∷ across (pos 3) (pos 4) (pos 2)
    ∷ across (pos 6) (pos 4) (pos 2)
    ∷ across (pos 0) (pos 6) (pos 1)
    ∷ across (pos 2) (pos 6) (pos 1)
    ∷ across (pos 4) (pos 6) (pos 1)
    ∷ across (pos 6) (pos 6) (pos 1)
    ∷ []

pub ten_ships_valid : (validate_placement ten_ships).valid ≡ true
unfolding push_times get_required_ship_sizes count_sizes check_ship_counts is_in_bounds check_bounds
    forbid_around take_cells check_overlap_from check_overlap_and_touching validate_placement
    cells_from line_cells new_ship contains_cell hit is_sunk String_discrete contains insert
    Cell_discrete any all for_each ◌+ℤ◌ ℤ_discrete is_valid_coordinate around
ten_ships_valid = refl

abbrev pub ann : String
ann = "ann"

abbrev pub bob : String
bob = "bob"

pub two_names : ann ≢ bob
unfolding String_discrete
two_names = λ e. let differ : true ≡ false = ap (λ s. s == ann) e in cc

abbrev pub full_board : Board
full_board = add_all new_board ten_ships

pub full_board-IsValid : IsValid full_board
full_board-IsValid = (add_all-IsDeployed ten_ships ten_ships_valid).1.valid

pub full_board-IsFresh : IsFresh full_board
full_board-IsFresh = (add_all-IsDeployed ten_ships ten_ships_valid).2
