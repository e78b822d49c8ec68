-- ===== src/Game/Board/Outcome.antt =====
-- Board.cpp, `shoot`: what a hit and a kill mean on the board.
use sea_battle.Base.{
  ◌≡◌, ◌⊎◌, any_of_contains, sym, ap, ◌∙◌, inl, inr, true, false, not, List, [], ◌∷◌, some, arith,
  any, All, contains_of_any, Bool-cases, Cell, cell_key, contains, if◌then◌else◌,
}
use sea_battle.Types.{CellState, ShotResult}
use sea_battle.Game.Ship.{Ship, contains_cell, is_sunk}
use sea_battle.Game.Ship.Hits.{IsShip, is_sunk_iff}
use sea_battle.Game.Board.{
  Board, Grid, write, is_valid_coordinate, find_ship, get_ship_at, finish_shot, shoot_cell, shoot,
  mark_surrounding_as_miss,
}
use sea_battle.Game.Board.Invariant.{IsValid}
use sea_battle.Game.Board.Separate.{mark_of_find}
use sea_battle.Game.Board.Shoot.{covered, find_ship-hit_first, hit_first-some, shoot-IsValid}

find_ship-IsShip :
    (ss : List Ship) (s : Ship) (c : Cell) → All IsShip ss → find_ship ss c ≡ some s → IsShip s
unfolding find_ship
find_ship-IsShip [] s c v f = ground arith
find_ship-IsShip (t ∷ ss) s c v f = elim (Bool-cases (contains_cell t c)) [
  | inl here ↦ let same : t ≡ s = ground arith in rw (← same) v.0
  | inr there ↦ find_ship-IsShip ss s c v.1 (ground arith)
]

-- A shot that strikes: the ship at the cell decides between a hit and a kill.
strikes :
    (b : Board) (c : Cell)
    → IsValid b
    → is_valid_coordinate c ≡ true
    → b.cells c ≡ CellState.ship
    → (s : Ship) × (get_ship_at (shoot b c).0 c ≡ some s)
      × ((shoot b c).1 ≡ (if is_sunk s then ShotResult.kill else ShotResult.hit))
      × (is_sunk s ≡ true
          → (shoot b c).0.cells ≡ mark_surrounding_as_miss (write b.cells c CellState.hit) s)
      × (is_sunk s ≡ false → (shoot b c).0.cells ≡ write b.cells c CellState.hit)
unfolding shoot shoot_cell finish_shot get_ship_at
strikes b c v inside e =
    let (s, struck) = hit_first-some b.ships c (covered b c v (ground arith)) in
    let found = find_ship-hit_first b.ships c in
    (s, ground arith, ground arith, ground arith, ground arith)

on_ship :
    (b : Board) (c : Cell)
    → ((shoot b c).1 ≡ ShotResult.kill) ⊎ ((shoot b c).1 ≡ ShotResult.hit)
    → (is_valid_coordinate c ≡ true) × (b.cells c ≡ CellState.ship)
unfolding shoot shoot_cell
on_ship b c k = ground arith

-- A sound ship that is not sunk has a cell that was not hit.
spared :
    (s : Ship)
    → IsShip s
    → is_sunk s ≡ false
    → (d : Cell) × (contains s.cells d ≡ true) × (contains s.hits d ≡ false)
spared s v afloat = elim (Bool-cases (any (λ d. not (contains s.hits d)) s.cells)) [
  | inl one ↦
      let (d, in_s, safe) = contains_of_any (λ d. not (contains s.hits d)) s.cells one in
      (d, in_s, ground arith)
  | inr nowhere ↦
      let sunk =
        (is_sunk_iff s v).1
          λ d in_s. ground (arith, any_of_contains (λ d. not (contains s.hits d)) s.cells d in_s) in
      absurd (cc (sym sunk ∙ afloat))
]

module _ (b : Board) (s : Ship) (c : Cell) (v : IsValid b) (found : get_ship_at b c ≡ some s) where
  found-IsShip : IsShip s
  unfolding get_ship_at
  found-IsShip = find_ship-IsShip b.ships s c v.sound found

  afloat_cells :
      (d : Cell)
      → contains s.cells d ≡ true
      → contains s.hits d ≡ false
      → b.cells d ≡ CellState.ship
  unfolding get_ship_at
  afloat_cells d in_s safe =
      ground (arith, mark_of_find b.ships s c d v.apart found in_s, v.marks d)

-- On a sound board, a shot that hits without a kill marks the cell, and some cell of the ship at
-- this place is still in state `Ship`.
pub shoot-hit :
    (b : Board) (c : Cell)
    → IsValid b
    → (shoot b c).1 ≡ ShotResult.hit
    → (s : Ship) × (get_ship_at (shoot b c).0 c ≡ some s)
      × ((shoot b c).0.cells c ≡ CellState.hit)
      × ((d : Cell) × (contains s.cells d ≡ true) × ((shoot b c).0.cells d ≡ CellState.ship))
shoot-hit b c v h =
    let (inside, on) = on_ship b c (inr h) in
    let (s, found, result, _, plain) = strikes b c v inside on in
    let after = shoot-IsValid b c v in
    let sound = found-IsShip (shoot b c).0 s c after found in
    let afloat : is_sunk s ≡ false = ground arith in
    let (d, in_s, safe) = spared s sound afloat in
    let cells = plain afloat in
    (
      s,
      found,
      ground (arith, ap (λ (g : Grid). g c) cells),
      (d, in_s, afloat_cells (shoot b c).0 s c after found d in_s safe),
    )
