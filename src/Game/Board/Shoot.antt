-- ===== src/Game/Board/Shoot.antt =====
-- Board.cpp, `shoot`: every branch, and that a shot keeps the board sound.
use sea_battle.Base.{
  ◌≡◌, refl, ap, inl, inr, true, ◌&&◌, List, [], ◌∷◌, Option, none, some, arith, holds, any, All,
  Bool-cases, Cell, cell_key, Cell_discrete, contains, if◌then◌else◌,
}
use sea_battle.Types.{CellState}
use sea_battle.Game.Ship.{Ship, contains_cell, hit, is_sunk}
use sea_battle.Game.Ship.Hits.{IsShip, hit-IsShip, contains-hit, cells-hit}
use sea_battle.Game.Board.{
  Board, Grid, write, is_ship, is_valid_coordinate, hit_first, find_ship, finish_shot, shoot_cell,
  shoot, mark_surrounding_as_miss,
}
use sea_battle.Game.Board.Invariant.{IsValid, mark, fleet, mark-covered}
use sea_battle.Game.Board.Surround.{mark_surrounding_lem, contains-get_surrounding_cells}

pub fleet-hit_first : (ss : List Ship) (c : Cell) → fleet (hit_first ss c).0 ≡ fleet ss
unfolding hit_first
fleet-hit_first [] c = refl
fleet-hit_first (s ∷ ss) c = elim (Bool-cases (contains_cell s c)) [
  | inl here ↦ rw here (ap (λ x. x ∷ fleet ss) (cells-hit s c))
  | inr there ↦ rw there (ap (λ xs. s.cells ∷ xs) (fleet-hit_first ss c))
]

hit_first_sound : (ss : List Ship) (c : Cell) → All IsShip ss → All IsShip (hit_first ss c).0
unfolding hit_first
hit_first_sound [] c v = tt
hit_first_sound (s ∷ ss) c v = elim (Bool-cases (contains_cell s c)) [
  | inl here ↦ rw here (hit-IsShip s c v.0, v.1)
  | inr there ↦ rw there (v.0, hit_first_sound ss c v.1)
]

contains_cell-hit : (s : Ship) (c d : Cell) → contains_cell (hit s c) d ≡ contains_cell s d
unfolding contains_cell
contains_cell-hit s c d = ap (λ cs. contains cs d) (cells-hit s c)

mark-hit_first :
    (ss : List Ship) (c d : Cell)
    → mark (hit_first ss c).0 d ≡ (
        if any (λ t. contains_cell t c) ss && holds (Cell_discrete c d)
        then some true
        else mark ss d)
unfolding hit_first mark any
mark-hit_first [] c d = refl
mark-hit_first (s ∷ ss) c d = elim (Bool-cases (contains_cell s c)) [
  | inl here ↦ rw here (ground (arith, contains_cell-hit s c d, contains-hit s c d))
  | inr there ↦ rw there (ground (arith, mark-hit_first ss c d))
]

pub find_ship-hit_first :
    (ss : List Ship) (c : Cell) → (hit_first ss c).1 ≡ find_ship (hit_first ss c).0 c
unfolding hit_first find_ship
find_ship-hit_first [] c = refl
find_ship-hit_first (s ∷ ss) c = elim (Bool-cases (contains_cell s c)) [
  | inl here ↦ rw here (ground (arith, contains_cell-hit s c c))
  | inr there ↦ rw there (ground (arith, find_ship-hit_first ss c))
]

pub hit_first-some :
    (ss : List Ship) (c : Cell)
    → any (λ t. contains_cell t c) ss ≡ true
    → (s : Ship) × ((hit_first ss c).1 ≡ some s)
unfolding hit_first any
hit_first-some [] c h = cc
hit_first-some (s ∷ ss) c h = elim (Bool-cases (contains_cell s c)) [
  | inl here ↦ (hit s c, rw here)
  | inr there ↦ let (t, e) = hit_first-some ss c (ground arith) in (t, rw there e)
]

-- A cell in state `Ship` or `Hit` of a sound board has a ship on it.
pub covered :
    (b : Board) (c : Cell)
    → IsValid b
    → is_ship (b.cells c) ≡ true
    → any (λ t. contains_cell t c) b.ships ≡ true
covered b c v e = elim (Bool-cases (any (λ t. contains_cell t c) b.ships)) [
  | inl yes_c ↦ yes_c
  | inr out ↦ ground (arith, mark-covered b.ships c out, v.marks c)
]

abbrev replaced : Grid → List Ship → Board
replaced g ships = record { cells = g; ships = ships }

surrounded-IsValid :
    (g : Grid) (ships : List Ship) (s : Ship)
    → IsValid (replaced g ships)
    → IsValid (replaced (mark_surrounding_as_miss g s) ships)
surrounded-IsValid g ships s v = record {
  sound = v.sound;
  on_board = v.on_board;
  apart = v.apart;
  marks = λ c. ground (arith, mark_surrounding_lem s g c, v.marks c);
  inside = λ c out.
      ground (arith, mark_surrounding_lem s g c, v.inside c, contains-get_surrounding_cells s c);
}

finish_shot-IsValid :
    (g : Grid) (ships : List Ship) (o : Option Ship)
    → IsValid (replaced g ships)
    → IsValid (finish_shot g ships o).0
unfolding finish_shot
finish_shot-IsValid g ships none v = v
finish_shot-IsValid g ships (some s) v = elim (Bool-cases (is_sunk s)) [
  | inl sunk ↦ rw sunk (surrounded-IsValid g ships s v)
  | inr afloat ↦ rw afloat v
]

miss-IsValid :
    (b : Board) (c : Cell)
    → IsValid b
    → is_valid_coordinate c ≡ true
    → b.cells c ≡ CellState.empty
    → IsValid (record b { cells = write b.cells c CellState.miss })
miss-IsValid b c v ok_c e = record {
  sound = v.sound;
  on_board = v.on_board;
  apart = v.apart;
  marks = λ d. ground (arith, v.marks c, v.marks d);
  inside = λ d out. ground (arith, v.inside d);
}

hit-IsValid :
    (b : Board) (c : Cell)
    → IsValid b
    → is_valid_coordinate c ≡ true
    → b.cells c ≡ CellState.ship
    → IsValid (replaced (write b.cells c CellState.hit) (hit_first b.ships c).0)
hit-IsValid b c v ok_c e = record {
  sound = hit_first_sound b.ships c v.sound;
  on_board = rw (fleet-hit_first b.ships c) v.on_board;
  apart = rw (fleet-hit_first b.ships c) v.apart;
  marks = λ d. ground (arith, v.marks d, mark-hit_first b.ships c d, covered b c v);
  inside = λ d out. ground (arith, v.inside d);
}

shoot_cell-IsValid :
    (b : Board) (c : Cell) (st : CellState)
    → IsValid b
    → is_valid_coordinate c ≡ true
    → b.cells c ≡ st
    → IsValid (shoot_cell b c st).0
unfolding shoot_cell
shoot_cell-IsValid b c CellState.empty v ok_c e = miss-IsValid b c v ok_c e
shoot_cell-IsValid b c CellState.ship v ok_c e =
    finish_shot-IsValid (write b.cells c CellState.hit) (hit_first b.ships c).0
      (hit_first b.ships c).1 (hit-IsValid b c v ok_c e)
shoot_cell-IsValid b c CellState.hit v ok_c e = v
shoot_cell-IsValid b c CellState.miss v ok_c e = v

-- A shot at any coordinates keeps the board sound.
pub shoot-IsValid : (b : Board) (c : Cell) → IsValid b → IsValid (shoot b c).0
unfolding shoot
shoot-IsValid b c v = elim (Bool-cases (is_valid_coordinate c)) [
  | inl inside ↦ rw inside (shoot_cell-IsValid b c (b.cells c) v inside refl)
  | inr outside ↦ rw outside v
]
