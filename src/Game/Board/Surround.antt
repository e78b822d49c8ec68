-- ===== src/Game/Board/Surround.antt =====
-- Board.cpp, `getSurroundingCells` and `markSurroundingAsMiss`.
use sea_battle.Base.{
  ◌≡◌, refl, ◌∙◌, false, not, ◌&&◌, ◌||◌, List, [], ◌∷◌, arith, holds, any, for_each, Cell,
  cell_key, Cell_discrete, contains, insert, contains-insert, if◌then◌else◌,
}
use sea_battle.Types.{CellState}
use sea_battle.Game.Ship.{Ship, contains_cell}
use sea_battle.Game.Board.{
  Grid, write, is_empty, neighbours, is_valid_coordinate, surround_cell, get_surrounding_cells,
  mark_surrounding_as_miss,
}
use sea_battle.Game.Board.Geometry.{near, contains-neighbours, any_near}

module _ (s : Ship) where
  abbrev insert_valid : List Cell → Cell → List Cell
  insert_valid acc n =
      if is_valid_coordinate n && not (contains_cell s n) then insert n acc else acc

  insert_valid_each :
      (acc ns : List Cell) (n : Cell)
      → contains (for_each insert_valid acc ns) n
        ≡ (contains acc n || contains ns n && (is_valid_coordinate n && not (contains_cell s n)))
  unfolding for_each contains
  insert_valid_each acc [] n = ground arith
  insert_valid_each acc (m ∷ ns) n = ground (
    arith,
    insert_valid_each acc ns n,
    insert_valid_each (insert m acc) ns n,
    contains-insert m acc n,
  )

  contains-surround_cell :
      (acc : List Cell) (c n : Cell)
      → contains (surround_cell s acc c) n ≡ (
          contains acc n
          || near c n
            && not (holds (Cell_discrete c n))
            && (is_valid_coordinate n && not (contains_cell s n)))
  unfolding surround_cell
  contains-surround_cell acc c n =
      insert_valid_each acc (neighbours c) n ∙ rw (contains-neighbours c n)

  surround_each :
      (acc cs : List Cell) (n : Cell)
      → contains (for_each (surround_cell s) acc cs) n ≡ (
          contains acc n
          || any (λ c. near c n && not (holds (Cell_discrete c n))) cs
            && (is_valid_coordinate n && not (contains_cell s n)))
  unfolding for_each any
  surround_each acc [] n = ground arith
  surround_each acc (c ∷ cs) n =
      ground (arith, surround_each (surround_cell s acc c) cs n, contains-surround_cell acc c n)

  drop_centre :
      (cs : List Cell) (n : Cell)
      → contains cs n ≡ false
      → any (λ c. near c n && not (holds (Cell_discrete c n))) cs ≡ any_near cs n
  unfolding any contains
  drop_centre [] n out = refl
  drop_centre (c ∷ cs) n out = ground (arith, drop_centre cs n)

  -- The surrounding cells of a ship are the cells of the board that touch it and are not its own.
  pub contains-get_surrounding_cells :
      (n : Cell)
      → contains (get_surrounding_cells s) n
        ≡ (is_valid_coordinate n && not (contains_cell s n) && any_near s.cells n)
  unfolding get_surrounding_cells contains contains_cell
  contains-get_surrounding_cells n =
      ground (arith, surround_each [] s.cells n, drop_centre s.cells n)

  miss_each :
      (g : Grid) (cs : List Cell) (d : Cell)
      → for_each (λ g c. if is_empty (g c) then write g c CellState.miss else g) g cs d
        ≡ (if contains cs d && is_empty (g d) then CellState.miss else g d)
  unfolding for_each contains
  miss_each g [] d = refl
  miss_each g (c ∷ cs) d =
      ground (arith, miss_each g cs d, miss_each (write g c CellState.miss) cs d)

  -- Exactly the empty ones among them become misses.
  pub mark_surrounding_lem :
      (g : Grid) (d : Cell)
      → mark_surrounding_as_miss g s d
        ≡ (if contains (get_surrounding_cells s) d && is_empty (g d) then CellState.miss else g d)
  unfolding mark_surrounding_as_miss
  mark_surrounding_lem g d = miss_each g (get_surrounding_cells s) d
