-- ===== src/Game/Rules.antt =====
-- server/src/game/GameRules.hpp and GameRules.cpp: the rules for placing the ships. Nicknames are
-- in Game/Nickname.antt.
pub mod Bounds
pub mod Counts
pub mod Placement
use sea_battle.Base.{
  ℕ, zero, suc, ◌+◌, Bool, true, false, not, ◌&&◌, ◌||◌, List, [], ◌∷◌, ◌++◌, String, if◌then◌else◌,
  holds, eqb, length, any, all, for_each, ℤ, pos, negsuc, ltb_ℤ, leb_ℤ, ◌+ℤ◌, ℤ_discrete, Cell,
  cell_key, contains, insert,
}
use sea_battle.Types.{
  ShipPlacement, board_size, ship_4_count, ship_3_count, ship_2_count, ship_1_count, total_ships,
}
use sea_battle.Game.Ship.{line_cells}
use sea_battle.Game.Board.{around}

pub record ValidationResult : Type 0 where
  pub valid : Bool
  pub error : String

-- `for (int i = 0; i < n; ++i) sizes.push_back(v);`
unfoldable pub push_times : ℕ → ℤ → List ℤ → List ℤ
push_times zero v sizes = sizes
push_times (suc n) v sizes = push_times n v (sizes ++ v ∷ [])

unfoldable pub get_required_ship_sizes : List ℤ
get_required_ship_sizes = push_times ship_1_count (pos 1) (
    push_times ship_2_count (pos 2)
      (push_times ship_3_count (pos 3) (push_times ship_4_count (pos 4) [])))

-- `std::map<int, int>`; a key that was never written counts 0.
abbrev pub Counts : Type 0
Counts = ℤ → ℕ

abbrev pub increment : Counts → ℤ → Counts
increment m k j = if holds (ℤ_discrete k j) then m j + 1 else m j

unfoldable pub count_sizes : List ShipPlacement → Counts
count_sizes ships = for_each (λ m s. increment m s.size) (λ j. 0) ships

unfoldable pub check_ship_counts : List ShipPlacement → Bool
check_ship_counts ships =
    let counts = count_sizes ships in
    eqb (counts (pos 4)) ship_4_count
    && eqb (counts (pos 3)) ship_3_count
    && eqb (counts (pos 2)) ship_2_count
    && eqb (counts (pos 1)) ship_1_count

abbrev pub end_x : ShipPlacement → ℤ
end_x s = if s.horizontal then s.x +ℤ s.size +ℤ negsuc 0 else s.x

abbrev pub end_y : ShipPlacement → ℤ
end_y s = if s.horizontal then s.y else s.y +ℤ s.size +ℤ negsuc 0

unfoldable pub is_in_bounds : ShipPlacement → Bool
is_in_bounds s =
    not (ltb_ℤ s.x (pos 0) || ltb_ℤ s.y (pos 0))
    && not (leb_ℤ board_size (end_x s) || leb_ℤ board_size (end_y s))

unfoldable pub check_bounds : List ShipPlacement → Bool
check_bounds ships = all is_in_bounds ships

abbrev pub placement_cells : ShipPlacement → List Cell
placement_cells s = line_cells s.x s.y s.size s.horizontal

-- `occupiedCells` and `forbiddenCells`.
pub record Taken : Type 0 where
  pub occupied : List Cell
  pub forbidden : List Cell

-- The cell and all that touch it become forbidden.
unfoldable pub forbid_around : List Cell → Cell → List Cell
forbid_around forbidden c = for_each (λ f n. insert n f) forbidden (around c)

unfoldable pub take_cells : Taken → List Cell → Taken
take_cells t cells =
    for_each
      (λ t c. record { occupied = insert c t.occupied; forbidden = forbid_around t.forbidden c }) t
      cells

unfoldable pub check_overlap_from : Taken → List ShipPlacement → Bool
check_overlap_from t [] = true
check_overlap_from t (s ∷ ships) =
    let rest = check_overlap_from (take_cells t (placement_cells s)) ships in
    if any (contains t.forbidden) (placement_cells s) then false else rest

unfoldable pub check_overlap_and_touching : List ShipPlacement → Bool
check_overlap_and_touching ships =
    check_overlap_from (record { occupied = []; forbidden = [] }) ships

abbrev pub invalid : String → ValidationResult
invalid e = record { valid = false; error = e }

unfoldable pub validate_placement : List ShipPlacement → ValidationResult
validate_placement ships =
    if not (eqb (length ships) total_ships)
    then invalid "Неверное количество кораблей"
    else if not (check_ship_counts ships)
    then invalid "Неверное количество кораблей каждого типа"
    else if not (check_bounds ships)
    then invalid "Корабль выходит за границы поля"
    else if not (check_overlap_and_touching ships)
    then invalid "Корабли пересекаются или касаются друг друга"
    else record { valid = true; error = "" }
