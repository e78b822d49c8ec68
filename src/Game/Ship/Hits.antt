-- ===== src/Game/Ship/Hits.antt =====
-- Ship.cpp: which ships the program can build, and when one is sunk.
use sea_battle.Base.{
  ℕ, zero, suc, ◌+◌, ◌<◌, ◌≡◌, refl, ap, ◌↔◌, inl, inr, Bool, true, false, ◌&&◌, ◌||◌, arith, holds,
  length, Bool-cases, ℤ, pos, pos_part, +ℤ_parts, Cell, cell_key, Cell_discrete, contains, Distinct,
  Subset, insert-Distinct, contains-insert, length-le_of_Subset, Subset_of_length, ok,
}
use sea_battle.Game.Ship.{
  Ship, cell_at, cells_from, line_cells, new_ship, contains_cell, hit, is_sunk,
}

-- What holds of every ship that the program builds.
pub record IsShip (s : Ship) : Type 0 where
  pub cells_once : Distinct s.cells
  pub hits_once : Distinct s.hits
  pub hits_inside : Subset s.hits s.cells

cells_from-apart :
    (x y : ℤ) (h : Bool) (i j n : ℕ)
    → j < i
    → contains (cells_from x y h i n) (cell_at x y h j) ≡ false
unfolding cells_from contains
cells_from-apart x y h i j zero lt = refl
cells_from-apart x y true i j (suc n) lt =
    ground (arith, cells_from-apart x y true (i + 1) j n, +ℤ_parts x (pos i), +ℤ_parts x (pos j))
cells_from-apart x y false i j (suc n) lt =
    ground (arith, cells_from-apart x y false (i + 1) j n, +ℤ_parts y (pos i), +ℤ_parts y (pos j))

cells_from-Distinct : (x y : ℤ) (h : Bool) (i n : ℕ) → Distinct (cells_from x y h i n)
unfolding cells_from
cells_from-Distinct x y h i zero = tt
cells_from-Distinct x y h i (suc n) =
    (cells_from-apart x y h (i + 1) i n (omega arith), cells_from-Distinct x y h (i + 1) n)

pub line_cells-Distinct : (x y size : ℤ) (h : Bool) → Distinct (line_cells x y size h)
unfolding line_cells
line_cells-Distinct x y size h = cells_from-Distinct x y h 0 (pos_part size)

pub length-cells_from : (x y : ℤ) (h : Bool) (i n : ℕ) → length (cells_from x y h i n) ≡ n
unfolding cells_from
length-cells_from x y h i zero = refl
length-cells_from x y h i (suc n) = ap suc (length-cells_from x y h (i + 1) n)

pub length-line_cells : (x y size : ℤ) (h : Bool) → length (line_cells x y size h) ≡ pos_part size
unfolding line_cells
length-line_cells x y size h = length-cells_from x y h 0 (pos_part size)

-- The constructor gives a sound ship.
pub new_ship-IsShip : (x y size : ℤ) (h : Bool) (s : Ship) → new_ship x y size h ≡ ok s → IsShip s
unfolding new_ship contains
new_ship-IsShip x y size h s e = ground (arith, line_cells-Distinct x y size h)

-- `hit` keeps the ship sound, and marks the cell if it is one of the ship's, and nothing else.
pub hit-IsShip : (s : Ship) (c : Cell) → IsShip s → IsShip (hit s c)
unfolding hit contains_cell
hit-IsShip s c v = elim (Bool-cases (contains s.cells c)) [
  | inl inside ↦ rw inside (record {
    cells_once = v.cells_once;
    hits_once = insert-Distinct c s.hits v.hits_once;
    hits_inside = λ d m. ground (arith, contains-insert c s.hits d, v.hits_inside d);
  })
  | inr outside ↦ rw outside v
]

pub contains-hit :
    (s : Ship) (c d : Cell)
    → contains (hit s c).hits d
      ≡ (contains s.hits d || contains_cell s c && holds (Cell_discrete c d))
unfolding hit contains_cell
contains-hit s c d = ground (arith, contains-insert c s.hits d)

pub cells-hit : (s : Ship) (c : Cell) → (hit s c).cells ≡ s.cells
unfolding hit
cells-hit s c = ground arith

-- A sound ship is sunk exactly when each of its cells was hit.
pub is_sunk_iff : (s : Ship) → IsShip s → (is_sunk s ≡ true) ↔ Subset s.cells s.hits
unfolding is_sunk
is_sunk_iff s v = (
  λ e. Subset_of_length s.hits s.cells v.hits_once v.hits_inside (ground arith),
  λ all_hit. ground (
    arith,
    length-le_of_Subset s.hits s.cells v.hits_once v.hits_inside,
    length-le_of_Subset s.cells s.hits v.cells_once all_hit,
  ),
)
