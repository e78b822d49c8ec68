-- ===== src/Game/Rules/Counts.antt =====
-- GameRules.cpp, `checkShipCounts`: what the four counts say of ten ships.
use sea_battle.Base.{
  suc, refl, ◌∙◌, map, ℕ, ◌+◌, ◌*◌, ◌≤◌, ◌<◌, ◌≡◌, Bool, true, false, List, [], ◌∷◌, arith,
  for_each, length, All, holds, ℤ, pos, pos_part, ℤ_discrete,
}
use sea_battle.Types.{ShipPlacement, total_ships, total_ship_cells}
use sea_battle.Game.Ship.Decks.{HasRest, sized, size-eq}
use sea_battle.Game.Rules.{Counts, increment, count_sizes, check_ship_counts}

-- Every ship has at least one cell.
abbrev pub AllSized : List ShipPlacement → Type 0
AllSized = All (λ p. 0 < pos_part p.size)

abbrev one_if : Bool → ℕ
one_if true = 1
one_if false = 0

-- How many ships have the size.
number_of : ℤ → List ShipPlacement → ℕ
number_of k [] = 0
number_of k (p ∷ ps) = one_if (holds (ℤ_discrete p.size k)) + number_of k ps

count_each :
    (m : Counts) (ps : List ShipPlacement) (k : ℤ)
    → for_each (λ m s. increment m s.size) m ps k ≡ m k + number_of k ps
unfolding for_each number_of
count_each m [] k = omega arith
count_each m (p ∷ ps) k = ground (arith, count_each (increment m p.size) ps k)

count_sizes_lem : (ps : List ShipPlacement) (k : ℤ) → count_sizes ps k ≡ number_of k ps
unfolding count_sizes
count_sizes_lem ps k = omega (arith, count_each (λ j. 0) ps k)

-- The cells of all ships together.
abbrev pub total_size : List ShipPlacement → ℕ
total_size [] = 0
total_size (p ∷ ps) = pos_part p.size + total_size ps

abbrev regular : List ShipPlacement → ℕ
regular ps =
    number_of (pos 4) ps + number_of (pos 3) ps + number_of (pos 2) ps + number_of (pos 1) ps

regular_le : (ps : List ShipPlacement) → regular ps ≤ length ps
unfolding number_of
regular_le [] = omega arith
regular_le (p ∷ ps) = ground (arith, regular_le ps)

regular_sized :
    (ps : List ShipPlacement)
    → length ps ≤ regular ps
    → AllSized ps
      × (total_size ps
          ≡ 4 * number_of (pos 4) ps
            + 3 * number_of (pos 3) ps
            + 2 * number_of (pos 2) ps
            + number_of (pos 1) ps)
unfolding number_of
regular_sized [] h = (tt, omega arith)
regular_sized (p ∷ ps) h = ground (arith, regular_le ps, regular_sized ps)

-- Ten ships that pass the count check have no other size than the four, and 20 cells.
pub counted :
    (ps : List ShipPlacement)
    → length ps ≡ total_ships
    → check_ship_counts ps ≡ true
    → AllSized ps × (total_size ps ≡ total_ship_cells)
unfolding check_ship_counts
counted ps ten h = ground (
  arith,
  regular_sized ps,
  count_sizes_lem ps (pos 4),
  count_sizes_lem ps (pos 3),
  count_sizes_lem ps (pos 2),
  count_sizes_lem ps (pos 1),
)

number_of-sized :
    (k : ℕ) (ps : List ShipPlacement)
    → number_of (pos (suc k)) ps ≡ sized (suc k) (map (λ p. p.size) ps)
unfolding number_of
number_of-sized k [] = refl
number_of-sized k (p ∷ ps) = ground (arith, number_of-sized k ps, size-eq p.size k)

-- The ships of a placement that passes the count check are the fleet.
pub counted-HasRest :
    (ps : List ShipPlacement) → check_ship_counts ps ≡ true → HasRest [] (map (λ p. p.size) ps)
unfolding check_ship_counts
counted-HasRest ps h =
    let four = count_sizes_lem ps (pos 4) ∙ number_of-sized 3 ps in
    let three = count_sizes_lem ps (pos 3) ∙ number_of-sized 2 ps in
    let two = count_sizes_lem ps (pos 2) ∙ number_of-sized 1 ps in
    let one = count_sizes_lem ps (pos 1) ∙ number_of-sized 0 ps in
    ground (arith, four, three, two, one)
