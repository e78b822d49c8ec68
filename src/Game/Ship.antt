-- ===== src/Game/Ship.antt =====
-- server/src/game/Ship.hpp and Ship.cpp: a ship is its cells and the set of its cells that were hit.
pub mod Decks
pub mod Hits
use sea_battle.Base.{
  ℕ, zero, suc, ◌+◌, Bool, true, false, List, [], ◌∷◌, if◌then◌else◌, length, eqb, ℤ, pos, pos_part,
  ltb_ℤ, ◌+ℤ◌, Cell, cell_key, contains, insert, Throws, ok, throw, length_error,
}

pub record Ship : Type 0 where
  pub cells : List Cell
  pub hits : List Cell

-- The cell `i` steps from the start of a ship.
abbrev pub cell_at : ℤ → ℤ → Bool → ℕ → Cell
cell_at x y horizontal i = if horizontal then (x +ℤ pos i, y) else (x, y +ℤ pos i)

-- `for (int i = 0; i < size; ++i)`, from `i` with `n` rounds left.
unfoldable pub cells_from : ℤ → ℤ → Bool → ℕ → ℕ → List Cell
cells_from x y horizontal i zero = []
cells_from x y horizontal i (suc n) = cell_at x y horizontal i ∷ cells_from x y horizontal (i + 1) n

-- The cells of a ship of the given size; there are none if the size is not positive.
unfoldable pub line_cells : ℤ → ℤ → ℤ → Bool → List Cell
line_cells x y size horizontal = cells_from x y horizontal 0 (pos_part size)

-- The constructor. `cells_.reserve(size)` throws if `size` is negative.
unfoldable pub new_ship : ℤ → ℤ → ℤ → Bool → Throws Ship
new_ship x y size horizontal =
    if ltb_ℤ size (pos 0)
    then throw length_error
    else ok (record { cells = line_cells x y size horizontal; hits = [] })

unfoldable pub contains_cell : Ship → Cell → Bool
contains_cell s c = contains s.cells c

unfoldable pub hit : Ship → Cell → Ship
hit s c = if contains_cell s c then record s { hits = insert c s.hits } else s

unfoldable pub is_sunk : Ship → Bool
is_sunk s = eqb (length s.hits) (length s.cells)

unfoldable pub get_size : Ship → ℕ
get_size s = length s.cells

unfoldable pub get_hit_count : Ship → ℕ
get_hit_count s = length s.hits
