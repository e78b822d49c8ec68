-- ===== src/Game/Board/Separate.antt =====
-- Board.cpp: what it gives that ships neither overlap nor touch.
use sea_battle.Base.{
  ◌≡◌, refl, ap, ◌∙◌, inl, inr, true, false, List, [], ◌∷◌, Option, some, arith, any,
  any_of_contains, Bool-cases, Cell, cell_key, contains,
}
use sea_battle.Game.Ship.{Ship, contains_cell}
use sea_battle.Game.Board.{find_ship}
use sea_battle.Game.Board.Geometry.{near, near_refl, near_comm, any_near}
use sea_battle.Game.Board.Invariant.{mark, fleet, Apart, touches}

-- A ship that touches none of a list covers none of their cells, nor do they cover a cell beside it.
pub beside_free :
    (t : List Cell) (ss : List Ship) (d e : Cell)
    → any (touches t) (fleet ss) ≡ false
    → contains t d ≡ true
    → near d e ≡ true
    → any (λ s. contains_cell s e) ss ≡ false
unfolding any touches contains_cell
beside_free t [] d e h in_t n = refl
beside_free t (s ∷ ss) d e h in_t n = elim (Bool-cases (contains s.cells e)) [
  | inl in_s ↦
      let beside = any_of_contains (λ s. near s e) t d in_t n in
      let touching = any_of_contains (any_near t) s.cells e in_s beside in ground arith
  | inr out ↦ rw out (beside_free t ss d e (ground arith) in_t n)
]

-- The other way round.
clear_of :
    (t : List Cell) (ss : List Ship) (s : Ship) (c d e : Cell)
    → any (touches t) (fleet ss) ≡ false
    → find_ship ss c ≡ some s
    → contains s.cells d ≡ true
    → near d e ≡ true
    → contains t e ≡ false
unfolding any touches find_ship
clear_of t [] s c d e h f in_s n = cc
clear_of t (r ∷ ss) s c d e h f in_s n = elim (Bool-cases (contains_cell r c)) [
  | inr there ↦ clear_of t ss s c d e (ground arith) (ground arith) in_s n
  | inl here ↦ elim (Bool-cases (contains t e)) [
    | inr out ↦ out
    | inl in_t ↦
        let beside = any_of_contains (λ s. near s d) t e in_t (near_comm e d ∙ n) in
        let touching = any_of_contains (any_near t) s.cells d in_s beside in
        ground (arith, ap (λ (o : Option Ship). o) f)
  ]
]

-- The cells of the ship found at `c` have their marks from this ship.
pub mark_of_find :
    (ss : List Ship) (s : Ship) (c d : Cell)
    → Apart (fleet ss)
    → find_ship ss c ≡ some s
    → contains s.cells d ≡ true
    → mark ss d ≡ some (contains s.hits d)
unfolding find_ship mark contains_cell
mark_of_find [] s c d a f in_s = cc
mark_of_find (t ∷ ss) s c d a f in_s = elim (Bool-cases (contains_cell t c)) [
  | inl here ↦ ground arith
  | inr there ↦
      let rest = mark_of_find ss s c d a.1 (ground arith) in_s in
      let out = clear_of t.cells ss s c d d a.0 (ground arith) in_s (near_refl d) in rw out rest
]

-- Beside the ship found at `c`, no cell that is not its own is covered.
pub beside_find :
    (ss : List Ship) (s : Ship) (c d e : Cell)
    → Apart (fleet ss)
    → find_ship ss c ≡ some s
    → contains s.cells d ≡ true
    → near d e ≡ true
    → contains s.cells e ≡ false
    → any (λ t. contains_cell t e) ss ≡ false
unfolding find_ship any contains_cell
beside_find [] s c d e a f in_s n out = refl
beside_find (t ∷ ss) s c d e a f in_s n out = elim (Bool-cases (contains_cell t c)) [
  | inl here ↦ ground (arith, beside_free t.cells ss d e a.0)
  | inr there ↦ ground (
    arith,
    beside_find ss s c d e a.1 (ground arith) in_s n out,
    clear_of t.cells ss s c d e a.0 (ground arith) in_s n,
  )
]
