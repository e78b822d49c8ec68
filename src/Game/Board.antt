-- ===== src/Game/Board.antt =====
-- server/src/game/Board.hpp and Board.cpp: one player's board. The array `cells_` is a function of
-- the cell (column, row); the program reads and writes it at valid coordinates only.
pub mod Random
pub mod Geometry
pub mod Invariant
pub mod Place
pub mod Surround
pub mod Separate
pub mod Shoot
pub mod Outcome
pub mod Sunk
pub mod View
pub mod Progress
use sea_battle.Base.{
  ℕ, Bool, true, false, not, ◌&&◌, List, [], ◌∷◌, ◌++◌, Option, none, some, if◌then◌else◌, holds,
  eqb, length, any, all, for_each, ℤ, pos, negsuc, leb_ℤ, ltb_ℤ, ◌+ℤ◌, Cell, cell_key,
  Cell_discrete, insert, Throws, ok, ◌>>=◌,
}
use sea_battle.Types.{CellState, ShotResult, ShipPlacement, board_size}
use sea_battle.Game.Ship.{Ship, line_cells, new_ship, contains_cell, hit, is_sunk}

abbrev pub Grid : Type 0
Grid = Cell → CellState

pub record Board : Type 0 where
  pub cells : Grid
  pub ships : List Ship

-- `cells_[c] = v`.
abbrev pub write : Grid → Cell → CellState → Grid
write g c v d = if holds (Cell_discrete c d) then v else g d

abbrev pub is_ship : CellState → Bool
is_ship CellState.ship = true
is_ship _ = false

abbrev pub is_empty : CellState → Bool
is_empty CellState.empty = true
is_empty _ = false

abbrev pub was_shot : CellState → Bool
was_shot CellState.hit = true
was_shot CellState.miss = true
was_shot _ = false

-- The constructor and `clear`.
unfoldable pub new_board : Board
new_board = record { cells = λ c. CellState.empty; ships = [] }

unfoldable pub clear : Board → Board
clear b = new_board

unfoldable pub is_valid_coordinate : Cell → Bool
is_valid_coordinate (x, y) =
    leb_ℤ (pos 0) x && ltb_ℤ x board_size && leb_ℤ (pos 0) y && ltb_ℤ y board_size

-- The cells `(x + dx, y + dy)` of one `dx`, for `dy` from -1 to 1.
abbrev pub around_column : ℤ → ℤ → List Cell
around_column nx y = (nx, y +ℤ negsuc 0) ∷ (nx, y +ℤ pos 0) ∷ (nx, y +ℤ pos 1) ∷ []

-- The two loops over `dx` and `dy`: the cell and the eight that touch it.
unfoldable pub around : Cell → List Cell
around (x, y) =
    around_column (x +ℤ negsuc 0) y
    ++ (around_column (x +ℤ pos 0) y ++ around_column (x +ℤ pos 1) y)

-- The same loops where `dx == 0 && dy == 0` is skipped.
unfoldable pub neighbours : Cell → List Cell
neighbours (x, y) =
    around_column (x +ℤ negsuc 0) y
    ++ ((x +ℤ pos 0, y +ℤ negsuc 0) ∷ (x +ℤ pos 0, y +ℤ pos 1) ∷ around_column (x +ℤ pos 1) y)

unfoldable pub has_adjacent_ship : Board → Cell → Bool
has_adjacent_ship b c = any (λ n. is_valid_coordinate n && is_ship (b.cells n)) (around c)

unfoldable pub can_place_ship : Board → ℤ → ℤ → ℤ → Bool → Bool
can_place_ship b x y size horizontal =
    all (λ c. is_valid_coordinate c && not (has_adjacent_ship b c)) (line_cells x y size horizontal)

-- The cells of a new ship are set to `Ship`.
unfoldable pub draw_cells : Grid → List Cell → Grid
draw_cells g cs = for_each (λ g c. write g c CellState.ship) g cs

unfoldable pub add_ship : Board → Ship → Board
add_ship b s = record { cells = draw_cells b.cells s.cells; ships = b.ships ++ s ∷ [] }

unfoldable pub place_ship : Board → ℤ → ℤ → ℤ → Bool → Throws (Board × Bool)
place_ship b x y size horizontal =
    if not (can_place_ship b x y size horizontal)
    then ok (b, false)
    else do s ← new_ship x y size horizontal; ok (add_ship b s, true)

unfoldable pub place_placement : Board → ShipPlacement → Throws (Board × Bool)
place_placement b p = place_ship b p.x p.y p.size p.horizontal

-- One cell's share of `getSurroundingCells`.
unfoldable pub surround_cell : Ship → List Cell → Cell → List Cell
surround_cell s found c =
    for_each
      (λ acc n. if is_valid_coordinate n && not (contains_cell s n) then insert n acc else acc)
      found (neighbours c)

unfoldable pub get_surrounding_cells : Ship → List Cell
get_surrounding_cells s = for_each (surround_cell s) [] s.cells

unfoldable pub mark_surrounding_as_miss : Grid → Ship → Grid
mark_surrounding_as_miss g s =
    for_each (λ g c. if is_empty (g c) then write g c CellState.miss else g) g
      (get_surrounding_cells s)

-- The loop of `shoot` over the ships: the first that contains the cell is hit. Also returns it.
unfoldable pub hit_first : List Ship → Cell → List Ship × Option Ship
hit_first [] c = ([], none)
hit_first (s ∷ ss) c =
    let rest = hit_first ss c in
    if contains_cell s c then (hit s c ∷ ss, some (hit s c)) else (s ∷ rest.0, rest.1)

-- What `shoot` makes of the ship that was hit.
unfoldable pub finish_shot : Grid → List Ship → Option Ship → Board × ShotResult
finish_shot g ships none = (record { cells = g; ships = ships }, ShotResult.hit)
finish_shot g ships (some s) =
    if is_sunk s
    then (record { cells = mark_surrounding_as_miss g s; ships = ships }, ShotResult.kill)
    else (record { cells = g; ships = ships }, ShotResult.hit)

unfoldable pub shoot_cell : Board → Cell → CellState → Board × ShotResult
shoot_cell b c CellState.hit = (b, ShotResult.already_shot)
shoot_cell b c CellState.miss = (b, ShotResult.already_shot)
shoot_cell b c CellState.empty =
    (record b { cells = write b.cells c CellState.miss }, ShotResult.miss)
shoot_cell b c CellState.ship =
    let struck = hit_first b.ships c in
    finish_shot (write b.cells c CellState.hit) struck.0 struck.1

unfoldable pub shoot : Board → Cell → Board × ShotResult
shoot b c =
    if not (is_valid_coordinate c)
    then (b, ShotResult.invalid_coordinates)
    else shoot_cell b c (b.cells c)

unfoldable pub are_all_ships_sunk : Board → Bool
are_all_ships_sunk b = all is_sunk b.ships && not (eqb (length b.ships) 0)

unfoldable pub get_cell : Board → Cell → CellState
get_cell b c = if not (is_valid_coordinate c) then CellState.empty else b.cells c

unfoldable pub find_ship : List Ship → Cell → Option Ship
find_ship [] c = none
find_ship (s ∷ ss) c = if contains_cell s c then some s else find_ship ss c

unfoldable pub get_ship_at : Board → Cell → Option Ship
get_ship_at b c = find_ship b.ships c

unfoldable pub get_ship_count : Board → ℕ
get_ship_count b = length b.ships
