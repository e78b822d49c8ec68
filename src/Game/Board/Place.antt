-- ===== src/Game/Board/Place.antt =====
-- Board.cpp, `placeShip`: it refuses, or adds a ship and keeps the board sound.
use sea_battle.Base.{
  ◌≡◌, refl, ap, ◌∙◌, Bool, true, not, ◌&&◌, [], arith, any, all, all-and, all-not-any, ℤ, ok, inl,
  inr, Bool-cases, cell_key, contains, if◌then◌else◌,
}
use sea_battle.Game.Ship.{Ship, line_cells, new_ship}
use sea_battle.Game.Ship.Hits.{IsShip, line_cells-Distinct}
use sea_battle.Game.Board.{
  Board, is_valid_coordinate, has_adjacent_ship, can_place_ship, place_ship, add_ship,
}
use sea_battle.Game.Board.Invariant.{IsValid, IsFresh, add_ship-IsValid, add_ship-IsFresh}

pub can_place_ship-split :
    (b : Board) (x y size : ℤ) (h : Bool)
    → can_place_ship b x y size h ≡ (
        all is_valid_coordinate (line_cells x y size h)
        && not (any (has_adjacent_ship b) (line_cells x y size h)))
unfolding can_place_ship
can_place_ship-split b x y size h =
    all-and is_valid_coordinate (λ c. not (has_adjacent_ship b c)) (line_cells x y size h)
    ∙ ap (λ q. all is_valid_coordinate (line_cells x y size h) && q)
        (all-not-any (has_adjacent_ship b) (line_cells x y size h))

module _ (x y size : ℤ) (h : Bool) where
  -- The ship that the constructor makes.
  abbrev pub built_ship : Ship
  built_ship = record { cells = line_cells x y size h; hits = [] }

  pub built_ship-IsShip : IsShip built_ship
  unfolding contains
  built_ship-IsShip = record {
    cells_once = line_cells-Distinct x y size h;
    hits_once = tt;
    hits_inside = λ c m. cc;
  }

  placed-IsValid :
      (b : Board)
      → IsValid b
      → IsFresh b
      → can_place_ship b x y size h ≡ true
      → IsValid (add_ship b built_ship)
  placed-IsValid b v fresh can =
      let split = can_place_ship-split b x y size h in
      add_ship-IsValid b built_ship v fresh (ground arith) (ground arith) built_ship-IsShip refl

  -- The outcomes of `placeShip`.
  pub place_ship-cases :
      (b b' : Board) (done : Bool)
      → place_ship b x y size h ≡ ok (b', done)
      → (done ≡ can_place_ship b x y size h) × (b' ≡ (if done then add_ship b built_ship else b))
  unfolding place_ship new_ship
  place_ship-cases b b' done e = ground arith

  -- On a sound board where no shot was fired, `placeShip` with any arguments leaves such a board.
  -- It reports success exactly when every cell asked for is on the board and has no ship on it or
  -- beside it; then a ship with these cells is added, and otherwise nothing changes.
  pub place_ship-IsValid :
      (b b' : Board) (done : Bool)
      → IsValid b
      → IsFresh b
      → place_ship b x y size h ≡ ok (b', done)
      → IsValid b'
        × IsFresh b'
        × (done ≡ (
            all is_valid_coordinate (line_cells x y size h)
            && not (any (has_adjacent_ship b) (line_cells x y size h))))
        × (b' ≡ (if done then add_ship b built_ship else b))
  place_ship-IsValid b b' done v fresh e =
      let (same, new) = place_ship-cases b b' done e in
      elim (Bool-cases done) [
        | inl placed ↦
            let eq : b' ≡ add_ship b built_ship = ground arith in
            (
              rw eq (placed-IsValid b v fresh (ground arith)),
              rw eq (add_ship-IsFresh b built_ship fresh),
              same ∙ can_place_ship-split b x y size h,
              new,
            )
        | inr refused ↦
            let eq : b' ≡ b = ground arith in
            (rw eq v, rw eq fresh, same ∙ can_place_ship-split b x y size h, new)
      ]
