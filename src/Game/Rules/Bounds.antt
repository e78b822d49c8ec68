-- ===== src/Game/Rules/Bounds.antt =====
-- GameRules.cpp, `checkBounds`: a ship is in bounds when all its cells are on the board.
use sea_battle.Base.{
  ℕ, zero, suc, ◌+◌, ◌<◌, ◌≡◌, sym, ◌∙◌, Bool, true, false, ◌&&◌, arith, all, ℤ, pos, negsuc,
  pos_part, neg_part, ltb_ℤ, leb_ℤ, leb, ltb, ◌+ℤ◌, +ℤ_parts,
}
use sea_battle.Types.{ShipPlacement}
use sea_battle.Game.Ship.{cells_from, line_cells}
use sea_battle.Game.Board.{is_valid_coordinate}
use sea_battle.Game.Rules.{is_in_bounds, placement_cells}

-- Loop form: the first cell starts on the board and the last ends on it.
span_in : ℤ → ℤ → ℕ → ℕ → Bool
span_in along across i m =
    leb (neg_part along) (pos_part along + i)
    && ltb (pos_part along + i + m) (10 + neg_part along)
    && leb_ℤ (pos 0) across
    && ltb_ℤ across (pos 10)

horizontal_cells :
    (x y : ℤ) (i m : ℕ) → all is_valid_coordinate (cells_from x y true i (suc m)) ≡ span_in x y i m
unfolding all cells_from is_valid_coordinate span_in
horizontal_cells x y i zero = ground (arith, +ℤ_parts x (pos i))
horizontal_cells x y i (suc m) = ground (arith, +ℤ_parts x (pos i), horizontal_cells x y (i + 1) m)

vertical_cells :
    (x y : ℤ) (i m : ℕ) → all is_valid_coordinate (cells_from x y false i (suc m)) ≡ span_in y x i m
unfolding all cells_from is_valid_coordinate span_in
vertical_cells x y i zero = ground (arith, +ℤ_parts y (pos i))
vertical_cells x y i (suc m) = ground (arith, +ℤ_parts y (pos i), vertical_cells x y (i + 1) m)

horizontal_in_bounds :
    (x y : ℤ) (m : ℕ)
    → is_in_bounds (record { x = x; y = y; size = pos (suc m); horizontal = true })
      ≡ span_in x y 0 m
unfolding is_in_bounds span_in
horizontal_in_bounds x y m =
    ground (arith, +ℤ_parts x (pos (suc m)), +ℤ_parts (x +ℤ pos (suc m)) (negsuc 0))

vertical_in_bounds :
    (x y : ℤ) (m : ℕ)
    → is_in_bounds (record { x = x; y = y; size = pos (suc m); horizontal = false })
      ≡ span_in y x 0 m
unfolding is_in_bounds span_in
vertical_in_bounds x y m =
    ground (arith, +ℤ_parts y (pos (suc m)), +ℤ_parts (y +ℤ pos (suc m)) (negsuc 0))

in_bounds_sized :
    (x y size : ℤ) (h : Bool)
    → 0 < pos_part size
    → is_in_bounds (record { x = x; y = y; size = size; horizontal = h })
      ≡ all is_valid_coordinate (line_cells x y size h)
unfolding line_cells
in_bounds_sized x y (pos zero) h lt = elim lt [ ]
in_bounds_sized x y (pos (suc m)) true lt =
    horizontal_in_bounds x y m ∙ sym (horizontal_cells x y 0 m)
in_bounds_sized x y (pos (suc m)) false lt = vertical_in_bounds x y m ∙ sym (vertical_cells x y 0 m)
in_bounds_sized x y (negsuc n) h lt = elim lt [ ]

-- `checkBounds` looks at both ends of a ship; that is enough for all its cells.
pub is_in_bounds-eq-all_valid :
    (s : ShipPlacement)
    → 0 < pos_part s.size
    → is_in_bounds s ≡ all is_valid_coordinate (placement_cells s)
is_in_bounds-eq-all_valid s lt = in_bounds_sized s.x s.y s.size s.horizontal lt
