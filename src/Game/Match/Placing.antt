-- ===== src/Game/Match/Placing.antt =====
-- Game.cpp, `placeShips`: the loop that puts the ships on the board agrees with the rules that
-- were checked before.
use sea_battle.Base.{
  ℕ, ◌+◌, ◌≡◌, refl, ◌∙◌, inl, inr, Bool, true, false, ◌&&◌, List, [], ◌∷◌, ◌++◌, arith, all, map,
  Bool-cases, cell_key, Throws-cases, length, length-append, ok, if◌then◌else◌,
}
use sea_battle.Types.{ShipPlacement, total_ships, total_ship_cells}
use sea_battle.Game.Ship.{Ship}
use sea_battle.Game.Ship.Decks.{HasFleet, HasRest, HasRest-placed, HasFleet-done}
use sea_battle.Game.Ship.Hits.{length-line_cells}
use sea_battle.Game.Board.{Board, new_board, clear, add_ship, place_placement}
use sea_battle.Game.Board.Invariant.{IsValid, IsFresh, new_board-IsValid}
use sea_battle.Game.Rules.{
  Taken, take_cells, placement_cells, check_bounds, check_overlap_from, check_ship_counts,
  check_overlap_and_touching, validate_placement,
}
use sea_battle.Game.Rules.Counts.{AllSized, counted, counted-HasRest, total_size}
use sea_battle.Game.Rules.Bounds.{is_in_bounds-eq-all_valid}
use sea_battle.Game.Rules.Placement.{
  Agrees, Agrees-new, Agrees-take, allowed, placed_ship, place_placement-eq-allowed,
}
use sea_battle.Game.Board.Place.{place_ship-IsValid}
use sea_battle.Game.Match.{place_all}

-- The board with all the ships on it.
abbrev pub add_all : Board → List ShipPlacement → Board
add_all b [] = b
add_all b (p ∷ ps) = add_all (add_ship b (placed_ship p)) ps

place_all-eq :
    (ps : List ShipPlacement) (t : Taken) (b : Board)
    → AllSized ps
    → Agrees t b
    → place_all b ps
      ≡ ok (
          if check_bounds ps && check_overlap_from t ps
          then (add_all b ps, true)
          else (new_board, false))
unfolding place_all check_bounds check_overlap_from all clear
place_all-eq [] t b sized a = refl
place_all-eq (p ∷ ps) t b sized a = elim (Bool-cases (allowed t p)) [
  | inl yes_p ↦
      let valid = is_in_bounds-eq-all_valid p sized.0 in
      let rest =
        place_all-eq ps (take_cells t (placement_cells p)) (add_ship b (placed_ship p)) sized.1
          (Agrees-take t b p (ground arith) a) in
      rw (place_placement-eq-allowed t b p sized.0 a, yes_p) (rest ∙ ground arith)
  | inr no_p ↦ rw (place_placement-eq-allowed t b p sized.0 a, no_p) (ground arith)
]

-- For ten ships of the prescribed sizes, in any order and at any coordinates, the loop of
-- `placeShips` on an empty board never throws; it places them all exactly when `validatePlacement`
-- accepts them, and otherwise ends with an empty board.
pub place_all-eq-validate :
    (ps : List ShipPlacement)
    → length ps ≡ total_ships
    → check_ship_counts ps ≡ true
    → place_all new_board ps
      ≡ ok (
          if (validate_placement ps).valid
          then (add_all new_board ps, true)
          else (new_board, false))
unfolding validate_placement check_overlap_and_touching
place_all-eq-validate ps ten h =
    let sized = (counted ps ten h).0 in
    place_all-eq ps (record { occupied = []; forbidden = [] }) new_board sized Agrees-new
    ∙ ground arith

pub new_board-IsFresh : IsFresh new_board
unfolding new_board
new_board-IsFresh c = refl

place_all-IsValid :
    (ps : List ShipPlacement) (b b' : Board) (done : Bool)
    → IsValid b
    → IsFresh b
    → place_all b ps ≡ ok (b', done)
    → IsValid b' × IsFresh b'
unfolding place_all place_placement clear
place_all-IsValid [] b b' done v fresh e =
    let same : b ≡ b' = ground arith in rw (← same) (v, fresh)
place_all-IsValid (p ∷ ps) b b' done v fresh e = elim (Throws-cases (place_placement b p)) [
  | inr (x, failed) ↦ ground (arith, failed)
  | inl ((c, placed), made) ↦
      let (v_c, fresh_c, _, _) =
        place_ship-IsValid p.x p.y p.size p.horizontal b c placed v fresh made in
      elim (Bool-cases placed) [
        | inl went_on ↦ place_all-IsValid ps c b' done v_c fresh_c (ground (arith, made))
        | inr stopped ↦
            let empty : b' ≡ new_board = ground (arith, made) in
            rw empty (new_board-IsValid, new_board-IsFresh)
      ]
]

-- How many cells the ships have together.
abbrev pub fleet_size : List Ship → ℕ
fleet_size [] = 0
fleet_size (s ∷ ss) = length s.cells + fleet_size ss

pub fleet_size-append :
    (ss : List Ship) (s : Ship) → fleet_size (ss ++ s ∷ []) ≡ fleet_size ss + length s.cells
fleet_size-append [] s = omega arith
fleet_size-append (t ∷ ss) s = omega (arith, fleet_size-append ss s)

add_all-size :
    (ps : List ShipPlacement) (b : Board)
    → (length (add_all b ps).ships ≡ length b.ships + length ps)
      × (fleet_size (add_all b ps).ships ≡ fleet_size b.ships + total_size ps)
unfolding add_ship
add_all-size [] b = (omega arith, omega arith)
add_all-size (p ∷ ps) b =
    let rest = add_all-size ps (add_ship b (placed_ship p)) in
    (
      omega (arith, rest.0, length-append b.ships (placed_ship p ∷ [])),
      omega (
        arith,
        rest.1,
        fleet_size-append b.ships (placed_ship p),
        length-line_cells p.x p.y p.size p.horizontal,
      ),
    )

add_all-HasFleet :
    (ps : List ShipPlacement) (b : Board)
    → HasRest b.ships (map (λ p. p.size) ps)
    → HasFleet (add_all b ps).ships
unfolding add_ship
add_all-HasFleet [] b rest = HasFleet-done b.ships rest
add_all-HasFleet (p ∷ ps) b rest = add_all-HasFleet ps (add_ship b (placed_ship p)) (
    HasRest-placed b.ships (placed_ship p) p.size (map (λ p. p.size) ps)
      (length-line_cells p.x p.y p.size p.horizontal) rest)

-- A board with the whole fleet on it: one ship of four cells, two of three, three of two and four of
-- one, which are ten ships and 20 cells.
pub record IsDeployed (b : Board) : Type 0 where
  pub valid : IsValid b
  pub by_size : HasFleet b.ships
  pub all_ships : length b.ships ≡ total_ships
  pub all_cells : fleet_size b.ships ≡ total_ship_cells

accepted :
    (ps : List ShipPlacement)
    → (validate_placement ps).valid ≡ true
    → (length ps ≡ total_ships) × (check_ship_counts ps ≡ true)
unfolding validate_placement
accepted ps h = ground arith

-- The loop places the ships of an accepted placement on an empty board. That board is then sound,
-- has the whole fleet on it, and no shot.
pub add_all-IsDeployed :
    (ps : List ShipPlacement)
    → (validate_placement ps).valid ≡ true
    → (place_all new_board ps ≡ ok (add_all new_board ps, true))
      × IsDeployed (add_all new_board ps)
      × IsFresh (add_all new_board ps)
unfolding new_board
add_all-IsDeployed ps h =
    let (ten, counts) = accepted ps h in
    let placed : place_all new_board ps ≡ ok (add_all new_board ps, true) =
      place_all-eq-validate ps ten counts ∙ rw h in
    let (v, fresh) =
      place_all-IsValid ps new_board (add_all new_board ps) true new_board-IsValid new_board-IsFresh
        placed in
    let sizes = add_all-size ps new_board in
    (
      placed,
      record {
        valid = v;
        by_size = add_all-HasFleet ps new_board (counted-HasRest ps counts);
        all_ships = omega (arith, sizes.0);
        all_cells = omega (arith, sizes.1, (counted ps ten counts).1);
      },
      fresh,
    )
