-- ===== src/Game/Board/Random.antt =====
-- Board.cpp, `placeShipsRandomly`: the random draws are a list, and a draw is a column, a row and
-- whether the ship lies horizontally. When the list has run out, the result is none.
use sea_battle.Base.{
  ℕ, ◌+◌, Bool, true, false, List, [], ◌∷◌, Option, none, some, ltb, ℤ, Throws, ok, ◌>>=◌,
}
use sea_battle.Game.Rules.{get_required_ship_sizes}
use sea_battle.Game.Board.{Board, clear, can_place_ship, place_ship}

abbrev pub Draw : Type 0
Draw = ℤ × ℤ × Bool

abbrev pub max_attempts : ℕ
max_attempts = 1000

-- `shipSizes` is filled by the same loops as in `getRequiredShipSizes`. The loop stands at the first of
-- the sizes that are left, after some attempts for it; after too many it starts again with an empty
-- board.
unfoldable pub random_loop : List Draw → Board → List ℤ → ℕ → Throws (Option Board)
random_loop draws b [] attempts = ok (some b)
random_loop [] b (size ∷ sizes) attempts = ok none
random_loop ((x, y, horizontal) ∷ draws) b (size ∷ sizes) attempts =
    elim (can_place_ship b x y size horizontal) [
      | true ↦ place_ship b x y size horizontal >>= λ placed. random_loop draws placed.0 sizes 0
      | false ↦ elim (ltb (attempts + 1) max_attempts) [
        | true ↦ random_loop draws b (size ∷ sizes) (attempts + 1)
        | false ↦ random_loop draws (clear b) get_required_ship_sizes 0
      ]
    ]

unfoldable pub place_ships_randomly : List Draw → Board → Throws (Option Board)
place_ships_randomly draws b = random_loop draws (clear b) get_required_ship_sizes 0
