-- ===== src/Game/Board/Sunk.antt =====
-- Board.cpp, `areAllShipsSunk`: the fleet is lost when no cell in state `Ship` is left.
use sea_battle.Base.{
  ◌≡◌, ◌≢◌, ◌↔◌, refl, true, false, List, [], ◌∷◌, some, arith, all, All, Cell, cell_key,
}
use sea_battle.Types.{CellState}
use sea_battle.Game.Ship.{Ship, contains_cell, is_sunk}
use sea_battle.Game.Ship.Hits.{IsShip, is_sunk_iff}
use sea_battle.Game.Board.{Board, are_all_ships_sunk}
use sea_battle.Game.Board.Geometry.{near_refl}
use sea_battle.Game.Board.Invariant.{IsValid, mark, fleet, Apart, mark-covered}
use sea_battle.Game.Board.Separate.{beside_free}

all_sunk-mark :
    (ss : List Ship) (c : Cell) → All IsShip ss → all is_sunk ss ≡ true → mark ss c ≢ some false
unfolding all mark contains_cell
all_sunk-mark [] c v h e = cc
all_sunk-mark (s ∷ ss) c v h e =
    ground (arith, (is_sunk_iff s v.0).0 (ground arith) c, all_sunk-mark ss c v.1 (ground arith))

mark-all_sunk :
    (ss : List Ship)
    → All IsShip ss
    → Apart (fleet ss)
    → ((c : Cell) → mark ss c ≢ some false)
    → all is_sunk ss ≡ true
unfolding all mark contains_cell
mark-all_sunk [] v a h = refl
mark-all_sunk (s ∷ ss) v a h =
    let rest =
      mark-all_sunk ss v.1 a.1 λ c e.
        ground (arith, h c, beside_free s.cells ss c c a.0, near_refl c, mark-covered ss c) in
    let sunk = (is_sunk_iff s v.0).1 (λ c in_s. ground (arith, h c)) in ground arith

-- On a sound board all ships are sunk exactly when there is a ship and no cell is in state `Ship`.
pub are_all_ships_sunk_iff :
    (b : Board)
    → IsValid b
    → (are_all_ships_sunk b ≡ true) ↔ ((b.ships ≢ []) × ((c : Cell) → b.cells c ≢ CellState.ship))
unfolding are_all_ships_sunk
are_all_ships_sunk_iff b v = (
  λ h. (λ e. ground arith, λ c e. ground (arith, v.marks c, all_sunk-mark b.ships c v.sound)),
  λ (some_ship, none_left). ground (
    arith,
    mark-all_sunk b.ships v.sound v.apart (λ c e. ground (arith, v.marks c, none_left c)),
  ),
)
