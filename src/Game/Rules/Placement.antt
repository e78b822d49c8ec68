-- ===== src/Game/Rules/Placement.antt =====
-- GameRules.cpp and Board.cpp check a placement in two ways: the rules collect forbidden cells, the
-- board looks for ships next to a cell. The two agree.
use mathlib.Core.Path.{fun_ext}
use sea_battle.Base.{
  ◌<◌, ◌≡◌, refl, ◌∙◌, Bool, true, false, not, ◌&&◌, ◌||◌, List, [], ◌∷◌, arith, any, all, for_each,
  any-or, contains-for_each-insert, all_of_contains, pos_part, Cell, cell_key, contains, insert, ok,
  if◌then◌else◌,
}
use sea_battle.Types.{CellState, ShipPlacement}
use sea_battle.Game.Ship.{Ship, new_ship}
use sea_battle.Game.Board.{
  Board, Grid, new_board, write, is_ship, draw_cells, add_ship, around, is_valid_coordinate,
  has_adjacent_ship, place_ship, place_placement,
}
use sea_battle.Game.Board.Geometry.{near, contains-around, any_near, any-contains-around}
use sea_battle.Game.Board.Place.{can_place_ship-split}
use sea_battle.Game.Rules.{Taken, forbid_around, take_cells, placement_cells, is_in_bounds}
use sea_battle.Game.Rules.Bounds.{is_in_bounds-eq-all_valid}

contains-forbid_around :
    (f : List Cell) (s c : Cell) → contains (forbid_around f s) c ≡ (contains f c || near s c)
unfolding forbid_around
contains-forbid_around f s c = contains-for_each-insert f (around s) c ∙ rw (contains-around s c)

pub contains-take_cells :
    (t : Taken) (cells : List Cell) (c : Cell)
    → contains (take_cells t cells).forbidden c ≡ (contains t.forbidden c || any_near cells c)
unfolding take_cells for_each any
contains-take_cells t [] c = ground arith
contains-take_cells t (s ∷ cells) c = ground (
  arith,
  contains-take_cells
      (record { occupied = insert s t.occupied; forbidden = forbid_around t.forbidden s }) cells c,
  contains-forbid_around t.forbidden s c,
)

pub is_ship-draw_cells :
    (g : Grid) (cells : List Cell) (n : Cell)
    → is_ship (draw_cells g cells n) ≡ (contains cells n || is_ship (g n))
unfolding draw_cells for_each contains
is_ship-draw_cells g [] n = refl
is_ship-draw_cells g (s ∷ cells) n =
    ground (arith, is_ship-draw_cells (write g s CellState.ship) cells n)

module _ (b : Board) (s : Ship) (on_board : all is_valid_coordinate s.cells ≡ true) where
  adjacent_or :
      (n : Cell)
      → (is_valid_coordinate n && is_ship (draw_cells b.cells s.cells n))
        ≡ (contains s.cells n || is_valid_coordinate n && is_ship (b.cells n))
  adjacent_or n =
      rw (is_ship-draw_cells b.cells s.cells n)
        (ground (arith, all_of_contains is_valid_coordinate s.cells n on_board))

  pub has_adjacent_ship-add_ship :
      (c : Cell)
      → has_adjacent_ship (add_ship b s) c ≡ (has_adjacent_ship b c || any_near s.cells c)
  unfolding has_adjacent_ship add_ship
  has_adjacent_ship-add_ship c =
      rw
        (
          fun_ext adjacent_or,
          any-or (contains s.cells) (λ n. is_valid_coordinate n && is_ship (b.cells n)) (around c),
          any-contains-around s.cells c,
        )
        (ground arith)

abbrev pub placed_ship : ShipPlacement → Ship
placed_ship p = record { cells = placement_cells p; hits = [] }

-- The rules' forbidden cells are the cells beside which the board refuses a ship.
abbrev pub Agrees : Taken → Board → Type 0
Agrees t b = (c : Cell) → contains t.forbidden c ≡ has_adjacent_ship b c

pub Agrees-new : Agrees (record { occupied = []; forbidden = [] }) new_board
unfolding contains has_adjacent_ship new_board any around
Agrees-new c = ground arith

pub Agrees-take :
    (t : Taken) (b : Board) (p : ShipPlacement)
    → all is_valid_coordinate (placement_cells p) ≡ true
    → Agrees t b
    → Agrees (take_cells t (placement_cells p)) (add_ship b (placed_ship p))
Agrees-take t b p on_board a c = ground (
  arith,
  contains-take_cells t (placement_cells p) c,
  has_adjacent_ship-add_ship b (placed_ship p) on_board c,
  a c,
)

-- What the rules say of the next ship, when `t` was taken before.
abbrev pub allowed : Taken → ShipPlacement → Bool
allowed t p = is_in_bounds p && not (any (contains t.forbidden) (placement_cells p))

-- The board places the next ship exactly when the rules allow it.
pub place_placement-eq-allowed :
    (t : Taken) (b : Board) (p : ShipPlacement)
    → 0 < pos_part p.size
    → Agrees t b
    → place_placement b p
      ≡ ok (if allowed t p then (add_ship b (placed_ship p), true) else (b, false))
unfolding place_placement place_ship new_ship
place_placement-eq-allowed t b p lt a =
    rw
      (
        is_in_bounds-eq-all_valid p lt,
        fun_ext a,
        can_place_ship-split b p.x p.y p.size p.horizontal,
      )
      (ground arith)
