-- ===== src/Game/Ship/Decks.antt =====
-- GameRules.cpp and Types.hpp: the fleet by the sizes of its ships.
use sea_battle.Base.{
  ℕ, suc, ◌+◌, ◌≡◌, List, [], ◌∷◌, ◌++◌, arith, eqb, length, if◌then◌else◌, holds, ℤ, pos, negsuc,
  pos_part, ℤ_discrete,
}
use sea_battle.Game.Ship.{Ship}

-- How many of the ships have `k` cells.
abbrev pub decks : ℕ → List Ship → ℕ
decks k [] = 0
decks k (s ∷ ss) = (if eqb (length s.cells) k then 1 else 0) + decks k ss

-- How many of the sizes are `k`.
abbrev pub sized : ℕ → List ℤ → ℕ
sized k [] = 0
sized k (z ∷ zs) = (if eqb (pos_part z) k then 1 else 0) + sized k zs

-- One ship of four cells, two of three, three of two and four of one.
abbrev pub HasFleet : List Ship → Type 0
HasFleet ss = (decks 4 ss ≡ 1) × (decks 3 ss ≡ 2) × (decks 2 ss ≡ 3) × (decks 1 ss ≡ 4)

-- The ships and the sizes that are left make up this fleet.
abbrev pub HasRest : List Ship → List ℤ → Type 0
HasRest ss zs =
    (decks 4 ss + sized 4 zs ≡ 1)
    × (decks 3 ss + sized 3 zs ≡ 2)
    × (decks 2 ss + sized 2 zs ≡ 3)
    × (decks 1 ss + sized 1 zs ≡ 4)

pub decks-append :
    (k : ℕ) (ss : List Ship) (s : Ship)
    → decks k (ss ++ s ∷ []) ≡ decks k ss + (if eqb (length s.cells) k then 1 else 0)
decks-append k [] s = ground arith
decks-append k (t ∷ ss) s = ground (arith, decks-append k ss s)

one_more :
    (k : ℕ) (ss : List Ship) (s : Ship) (z : ℤ) (zs : List ℤ)
    → length s.cells ≡ pos_part z
    → decks k (ss ++ s ∷ []) + sized k zs ≡ decks k ss + sized k (z ∷ zs)
one_more k ss s z zs same = ground (arith, decks-append k ss s)

pub HasRest-placed :
    (ss : List Ship) (s : Ship) (z : ℤ) (zs : List ℤ)
    → length s.cells ≡ pos_part z
    → HasRest ss (z ∷ zs)
    → HasRest (ss ++ s ∷ []) zs
HasRest-placed ss s z zs same (four, three, two, one) = (
  omega (arith, one_more 4 ss s z zs same, four),
  omega (arith, one_more 3 ss s z zs same, three),
  omega (arith, one_more 2 ss s z zs same, two),
  omega (arith, one_more 1 ss s z zs same, one),
)

pub HasFleet-done : (ss : List Ship) → HasRest ss [] → HasFleet ss
HasFleet-done ss (four, three, two, one) =
    (omega (arith, four), omega (arith, three), omega (arith, two), omega (arith, one))

pub size-eq : (z : ℤ) (k : ℕ) → holds (ℤ_discrete z (pos (suc k))) ≡ eqb (pos_part z) (suc k)
size-eq (pos n) k = ground arith
size-eq (negsuc n) k = ground arith
