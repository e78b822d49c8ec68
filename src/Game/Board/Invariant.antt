-- ===== src/Game/Board/Invariant.antt =====
-- Board.cpp: what holds of every board that the game builds, and that placing a ship keeps it.
use sea_battle.Base.{
  ◌≡◌, ◌≢◌, refl, ap, ◌∙◌, inl, inr, Bool, true, false, ◌&&◌, List, [], ◌∷◌, ◌++◌, map, Option,
  none, some, arith, any, all, for_each, All, All-append, any_witness, any-map, any-append,
  all-append, any_of_contains, contains_of_any, all_of_contains, Bool-cases, Cell, cell_key,
  contains, if◌then◌else◌,
}
use sea_battle.Types.{CellState}
use sea_battle.Game.Ship.{Ship, contains_cell}
use sea_battle.Game.Ship.Hits.{IsShip}
use sea_battle.Game.Board.{
  Board, Grid, new_board, write, is_ship, was_shot, draw_cells, add_ship, around,
  is_valid_coordinate, has_adjacent_ship,
}
use sea_battle.Game.Board.Geometry.{near, near_refl, near_comm, contains-around, any_near}

-- Whether a ship covers the cell, and if so, whether it was hit there.
unfoldable pub mark : List Ship → Cell → Option Bool
mark [] c = none
mark (s ∷ ss) c = if contains_cell s c then some (contains s.hits c) else mark ss c

-- The state of a cell fits what the ships say of it.
abbrev pub fits : CellState → Option Bool → Bool
fits CellState.empty none = true
fits CellState.miss none = true
fits CellState.ship (some false) = true
fits CellState.hit (some true) = true
fits _ _ = false

abbrev pub fleet : List Ship → List (List Cell)
fleet ships = map (λ s. s.cells) ships

-- Two ships share a cell or have cells that touch.
unfoldable pub touches : List Cell → List Cell → Bool
touches s t = any (any_near s) t

abbrev pub Apart : List (List Cell) → Type 0
Apart [] = Unit {0}
Apart (s ∷ ss) = (any (touches s) ss ≡ false) × Apart ss

pub record IsValid (b : Board) : Type 0 where
  pub sound : All IsShip b.ships
  pub on_board : all (all is_valid_coordinate) (fleet b.ships) ≡ true
  pub apart : Apart (fleet b.ships)
  pub marks : (c : Cell) → fits (b.cells c) (mark b.ships c) ≡ true
  pub inside : (c : Cell) → is_valid_coordinate c ≡ false → b.cells c ≡ CellState.empty

-- No cell was shot at.
abbrev pub IsFresh : Board → Type 0
IsFresh b = (c : Cell) → was_shot (b.cells c) ≡ false

pub new_board-IsValid : IsValid new_board
unfolding new_board all mark
new_board-IsValid = record {
  sound = tt;
  on_board = refl;
  apart = tt;
  marks = λ c. refl;
  inside = λ c _. refl;
}

pub draw_cells_lem :
    (g : Grid) (cells : List Cell) (c : Cell)
    → draw_cells g cells c ≡ (if contains cells c then CellState.ship else g c)
unfolding draw_cells for_each contains
draw_cells_lem g [] c = refl
draw_cells_lem g (s ∷ cells) c = ground (arith, draw_cells_lem (write g s CellState.ship) cells c)

mark-append :
    (ss : List Ship) (s : Ship) (c : Cell)
    → mark (ss ++ s ∷ []) c
      ≡ (if any (λ t. contains_cell t c) ss then mark ss c else mark (s ∷ []) c)
unfolding mark any
mark-append [] s c = refl
mark-append (t ∷ ss) s c = ground (arith, mark-append ss s c)

pub mark-covered :
    (ss : List Ship) (c : Cell) → any (λ t. contains_cell t c) ss ≡ false → mark ss c ≡ none
unfolding mark any
mark-covered [] c h = refl
mark-covered (t ∷ ss) c h = ground (arith, mark-covered ss c)

pub covered-mark :
    (ss : List Ship) (c : Cell) → any (λ t. contains_cell t c) ss ≡ true → mark ss c ≢ none
unfolding mark any
covered-mark [] c h = ground arith
covered-mark (t ∷ ss) c h = ground (arith, covered-mark ss c)

fleet-append : (ss : List Ship) (s : Ship) → fleet (ss ++ s ∷ []) ≡ fleet ss ++ s.cells ∷ []
fleet-append [] s = refl
fleet-append (t ∷ ss) s = ap (◌∷◌ t.cells) (fleet-append ss s)

Apart-append :
    (ts : List (List Cell)) (s : List Cell)
    → any (λ t. touches t s) ts ≡ false
    → Apart ts
    → Apart (ts ++ s ∷ [])
unfolding any
Apart-append [] s h a = (refl, tt)
Apart-append (t ∷ ts) s h a =
    (rw (any-append (touches t) ts (s ∷ [])) (ground arith), Apart-append ts s (ground arith) a.1)

is_ship_of_mark :
    (st : CellState) (m : Option Bool)
    → fits st m ≡ true
    → was_shot st ≡ false
    → m ≢ none
    → is_ship st ≡ true
is_ship_of_mark st m f w n = ground arith

module _ (b : Board) (s : Ship) (v : IsValid b) (fresh : IsFresh b)
    (on_board : all is_valid_coordinate s.cells ≡ true)
    (free : any (has_adjacent_ship b) s.cells ≡ false) where
  -- Beside a cell of the new ship no ship stands.
  uncovered :
      (c e : Cell)
      → contains s.cells c ≡ true
      → is_valid_coordinate e ≡ true
      → near e c ≡ true
      → any (λ t. contains_cell t e) b.ships ≡ false
  unfolding has_adjacent_ship
  uncovered c e in_s ok_e n = elim (Bool-cases (any (λ t. contains_cell t e) b.ships)) [
    | inr out ↦ out
    | inl covered ↦
        let found : has_adjacent_ship b c ≡ true =
          any_of_contains (λ n. is_valid_coordinate n && is_ship (b.cells n)) (around c) e
            (contains-around c e ∙ near_comm c e ∙ n)
            (ground (
              arith,
              is_ship_of_mark (b.cells e) (mark b.ships e) (v.marks e) (fresh e)
                  (covered-mark b.ships e covered),
            )) in
        let hit_one = any_of_contains (has_adjacent_ship b) s.cells c in_s found in cc
  ]

  untouched : any (λ t. touches t s.cells) (fleet b.ships) ≡ false
  unfolding touches contains_cell
  untouched = elim (Bool-cases (any (λ t. touches t s.cells) (fleet b.ships))) [
    | inr out ↦ out
    | inl touching ↦
        let (t, e, any_q, all_q) = any_witness _ (fleet b.ships) touching in
        let (d, in_s, near_t) = contains_of_any (any_near t) s.cells e in
        let (c, in_t, n) = contains_of_any (λ s. near s d) t near_t in
        let valid_c = all_of_contains is_valid_coordinate t c (all_q _ v.on_board) in_t in
        let out = uncovered d c in_s valid_c n in
        let found = any_q (λ t. contains t c) in_t in
        ground (arith, any-map (λ t. contains t c) (λ (t : Ship). t.cells) b.ships)
  ]

  pub add_ship-IsValid : IsShip s → s.hits ≡ [] → IsValid (add_ship b s)
  unfolding add_ship all mark contains contains_cell
  add_ship-IsValid sound unhit = record {
    sound = All-append IsShip b.ships (s ∷ []) v.sound (sound, tt);
    on_board =
        rw
          (
            fleet-append b.ships s,
            all-append (all is_valid_coordinate) (fleet b.ships) (s.cells ∷ []),
          )
          (ground (arith, v.on_board));
    apart = rw fleet-append (Apart-append (fleet b.ships) s.cells untouched v.apart);
    marks = λ c. ground (
      arith,
      draw_cells_lem b.cells s.cells c,
      mark-append b.ships s c,
      uncovered c c,
      near_refl c,
      all_of_contains is_valid_coordinate s.cells c on_board,
      mark-covered b.ships c,
      v.marks c,
      ap (λ hs. contains hs c) unhit,
    );
    inside = λ c out. ground (
      arith,
      draw_cells_lem b.cells s.cells c,
      all_of_contains is_valid_coordinate s.cells c on_board,
      v.inside c,
    );
  }

pub add_ship-IsFresh : (b : Board) (s : Ship) → IsFresh b → IsFresh (add_ship b s)
unfolding add_ship
add_ship-IsFresh b s fresh c = ground (arith, draw_cells_lem b.cells s.cells c, fresh c)
