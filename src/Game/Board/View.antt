-- ===== src/Game/Board/View.antt =====
-- Board.cpp: what a board shows, in full and under the fog of war.
use sea_battle.Base.{
  ℕ, zero, suc, ◌+◌, ◌≡◌, refl, List, [], ◌∷◌, ◌++◌, Option, none, some, arith, for_each, pos, Cell,
  if◌then◌else◌,
}
use sea_battle.Types.{CellState, CellInfo}
use sea_battle.Game.Board.{Board, was_shot}

-- `for (int x = ...; x < SIZE; ++x)` in row `y`, from column `x` with `n` columns left.
unfoldable pub row_cells : ℕ → ℕ → ℕ → List Cell
row_cells y x zero = []
row_cells y x (suc n) = (pos x, pos y) ∷ row_cells y (x + 1) n

unfoldable pub rows : ℕ → ℕ → List Cell
rows y zero = []
rows y (suc n) = row_cells y 0 10 ++ rows (y + 1) n

-- The two loops over the board, row by row.
unfoldable pub all_cells : List Cell
all_cells = rows 0 10

abbrev pub cell_info : Board → Cell → CellInfo
cell_info b (x, y) = record { x = x; y = y; state = b.cells (x, y) }

-- The body of the loops of `getFogOfWar`.
abbrev pub push_shot : Board → List CellInfo → Cell → List CellInfo
push_shot b result c = if was_shot (b.cells c) then result ++ cell_info b c ∷ [] else result

unfoldable pub get_fog_of_war : Board → List CellInfo
get_fog_of_war b = for_each (push_shot b) [] all_cells

unfoldable pub get_full_state : Board → List CellInfo
get_full_state b = for_each (λ result c. result ++ cell_info b c ∷ []) [] all_cells

-- What is known of a cell that was shot at, and nothing of any other.
abbrev pub revealed : Board → Cell → Option CellState
revealed b c = if was_shot (b.cells c) then some (b.cells c) else none

fog_each :
    (b b' : Board) (acc : List CellInfo) (cs : List Cell)
    → ((c : Cell) → revealed b c ≡ revealed b' c)
    → for_each (push_shot b) acc cs ≡ for_each (push_shot b') acc cs
unfolding for_each
fog_each b b' acc [] h = refl
fog_each b b' acc (c ∷ cs) h =
    let same : push_shot b acc c ≡ push_shot b' acc c = ground (arith, h c) in
    rw same (fog_each b b' (push_shot b' acc c) cs h)

-- The fog of war shows only the cells that were shot at: two boards that agree on those look the
-- same, wherever their other ships are.
pub get_fog_of_war_hides :
    (b b' : Board)
    → ((c : Cell) → revealed b c ≡ revealed b' c)
    → get_fog_of_war b ≡ get_fog_of_war b'
unfolding get_fog_of_war
get_fog_of_war_hides b b' h = fog_each b b' [] all_cells h
