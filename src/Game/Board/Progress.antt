-- ===== src/Game/Board/Progress.antt =====
-- Board.cpp, `shoot`: every shot that is not refused uses up a cell.
use sea_battle.Base.{
  ℕ, zero, suc, ◌+◌, ◌≤◌, ◌<◌, ◌≡◌, refl, Bool, true, false, List, [], ◌∷◌, Option, none, some,
  arith, length, pos, negsuc, Bool-cases, inl, inr, Cell, cell_key, contains, contains-append,
  if◌then◌else◌,
}
use sea_battle.Types.{CellState, ShotResult}
use sea_battle.Game.Ship.{Ship}
use sea_battle.Game.Board.{
  Board, Grid, write, was_shot, is_valid_coordinate, hit_first, finish_shot, shoot_cell, shoot,
}
use sea_battle.Game.Board.Surround.{mark_surrounding_lem}
use sea_battle.Game.Board.View.{row_cells, rows, all_cells}

contains-row_cells :
    (y x n a : ℕ) → x ≤ a → a < x + n → contains {A = Cell} (row_cells y x n) (pos a, pos y) ≡ true
unfolding row_cells contains
contains-row_cells y x zero a lo hi = absurd (omega arith)
contains-row_cells y x (suc n) a lo hi = ground (arith, contains-row_cells y (x + 1) n a)

contains-rows :
    (y n a b : ℕ)
    → a < 10
    → y ≤ b
    → b < y + n
    → contains {A = Cell} (rows y n) (pos a, pos b) ≡ true
unfolding rows
contains-rows y zero a b ha lo hi = absurd (omega arith)
contains-rows y (suc n) a b ha lo hi =
    rw (contains-append (row_cells y 0 10) (rows (y + 1) n) (pos a, pos b))
      (ground (arith, contains-row_cells y 0 10 a, contains-rows (y + 1) n a b))

-- The loops over the board visit every valid coordinate.
pub contains-all_cells : (c : Cell) → is_valid_coordinate c ≡ true → contains all_cells c ≡ true
unfolding is_valid_coordinate all_cells
contains-all_cells (pos a, pos b) v =
    contains-rows 0 10 a b (ground arith) (omega arith) (ground arith)
contains-all_cells (pos a, negsuc b) v = ground arith
contains-all_cells (negsuc a, pos b) v = ground arith
contains-all_cells (negsuc a, negsuc b) v = ground arith

-- How many of the cells were not shot at.
pub open_among : Grid → List Cell → ℕ
open_among g [] = 0
open_among g (c ∷ cs) = (if was_shot (g c) then 0 else 1) + open_among g cs

pub open_cells : Board → ℕ
open_cells b = open_among b.cells all_cells

abbrev MoreShot : Grid → Grid → Type 0
MoreShot g h = (d : Cell) → was_shot (g d) ≡ true → was_shot (h d) ≡ true

open_among_mono : (g h : Grid) (cs : List Cell) → MoreShot g h → open_among h cs ≤ open_among g cs
unfolding open_among
open_among_mono g h [] m = omega arith
open_among_mono g h (c ∷ cs) m = ground (arith, m c, open_among_mono g h cs m)

open_among-lt :
    (g h : Grid) (cs : List Cell) (c : Cell)
    → MoreShot g h
    → contains cs c ≡ true
    → was_shot (g c) ≡ false
    → was_shot (h c) ≡ true
    → open_among h cs < open_among g cs
unfolding open_among contains
open_among-lt g h [] c m in_cs before after = cc
open_among-lt g h (d ∷ cs) c m in_cs before after =
    ground (arith, m d, open_among_mono g h cs m, open_among-lt g h cs c m)

-- Whether the shot was carried out.
abbrev pub counts : ShotResult → Bool
counts ShotResult.miss = true
counts ShotResult.hit = true
counts ShotResult.kill = true
counts _ = false

finish_shot-more :
    (g : Grid) (ships : List Ship) (o : Option Ship) → MoreShot g (finish_shot g ships o).0.cells
unfolding finish_shot
finish_shot-more g ships none d e = e
finish_shot-more g ships (some s) d e = ground (arith, mark_surrounding_lem s g d)

shoot-more :
    (b : Board) (c : Cell)
    → (MoreShot b.cells (shoot b c).0.cells)
      × (counts (shoot b c).1 ≡ true
          → (is_valid_coordinate c ≡ true)
            × (was_shot (b.cells c) ≡ false)
            × (was_shot ((shoot b c).0.cells c) ≡ true))
unfolding shoot shoot_cell
shoot-more b c = (
  λ d e. ground (
    arith,
    finish_shot-more (write b.cells c CellState.hit) (hit_first b.ships c).0 (hit_first b.ships c).1
        d,
  ),
  λ e. ground (
    arith,
    finish_shot-more (write b.cells c CellState.hit) (hit_first b.ships c).0 (hit_first b.ships c).1
        c,
  ),
)

-- A shot at a board opens no cell again, and one with the result miss, hit or kill leaves at
-- least one cell fewer to shoot at.
pub shoot-open_cells :
    (b : Board) (c : Cell)
    → open_cells (shoot b c).0 + (if counts (shoot b c).1 then 1 else 0) ≤ open_cells b
unfolding open_cells
shoot-open_cells b c =
    let (more, used) = shoot-more b c in
    elim (Bool-cases (counts (shoot b c).1)) [
      | inl e ↦
          let (valid, before, after) = used e in
          ground
            (arith, open_among-lt _ _ all_cells c more (contains-all_cells c valid) before after)
      | inr e ↦ ground (arith, open_among_mono _ _ all_cells more)
    ]

-- The number of shots of a sequence that were carried out.
pub carried_out : Board → List Cell → ℕ
carried_out b [] = 0
carried_out b (c ∷ cs) = (if counts (shoot b c).1 then 1 else 0) + carried_out (shoot b c).0 cs

carried_out-le : (b : Board) (cs : List Cell) → carried_out b cs ≤ open_cells b
unfolding carried_out
carried_out-le b [] = omega arith
carried_out-le b (c ∷ cs) = ground (arith, shoot-open_cells b c, carried_out-le (shoot b c).0 cs)

open_among-le : (g : Grid) (cs : List Cell) → open_among g cs ≤ length cs
unfolding open_among
open_among-le g [] = omega arith
open_among-le g (c ∷ cs) = ground (arith, open_among-le g cs)

length-all_cells : length all_cells ≡ 100
unfolding all_cells rows row_cells
length-all_cells = refl

-- Of any sequence of shots at a board, at most 100 are carried out: all others are refused as
-- already shot or off the board. So a battle cannot go on for ever.
pub carried_out_bound : (b : Board) (cs : List Cell) → carried_out b cs ≤ 100
unfolding open_cells
carried_out_bound b cs =
    omega (arith, carried_out-le b cs, open_among-le b.cells all_cells, length-all_cells)
