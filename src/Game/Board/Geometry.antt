-- ===== src/Game/Board/Geometry.antt =====
-- Board.cpp: which cells the loops over `dx` and `dy` visit.
use mathlib.Core.Path.{fun_ext}
use sea_battle.Base.{
  List, [], ◌∷◌, Bool, refl, any, any-same, any-any_comm, ap, ◌∙◌, ◌+◌, ◌≡◌, true, not, ◌&&◌, ◌||◌,
  arith, leb, holds, ℤ, pos, negsuc, pos_part, neg_part, ◌+ℤ◌, +ℤ_parts, eq_of_parts, ℤ_discrete,
  Cell, cell_key, Cell_discrete, contains, contains-append,
}
use sea_battle.Game.Board.{around, around_column, neighbours}

-- The coordinates differ by one at most.
abbrev pub near_ℤ : ℤ → ℤ → Bool
near_ℤ a b =
    leb (pos_part a + neg_part b) (pos_part b + neg_part a + 1)
    && leb (pos_part b + neg_part a) (pos_part a + neg_part b + 1)

-- The cells are equal or touch, at a side or at a corner.
abbrev pub near : Cell → Cell → Bool
near (x, y) (x', y') = near_ℤ x x' && near_ℤ y y'

pub near_comm : (c d : Cell) → near c d ≡ near d c
near_comm (x, y) (x', y') = ground arith

pub near_refl : (c : Cell) → near c c ≡ true
near_refl (x, y) = ground arith

pub Cell_discrete-pair :
    (x y x' y' : ℤ)
    → holds (Cell_discrete (x, y) (x', y')) ≡ (holds (ℤ_discrete x x') && holds (ℤ_discrete y y'))
unfolding Cell_discrete
Cell_discrete-pair x y x' y' = ground arith

near_ℤ-cases :
    (a b : ℤ)
    → near_ℤ a b ≡ (
        holds (ℤ_discrete (a +ℤ negsuc 0) b)
        || (holds (ℤ_discrete (a +ℤ pos 0) b) || holds (ℤ_discrete (a +ℤ pos 1) b)))
near_ℤ-cases a b = ground (
  arith,
  +ℤ_parts a (negsuc 0),
  +ℤ_parts a (pos 0),
  +ℤ_parts a (pos 1),
  eq_of_parts (a +ℤ negsuc 0) b,
  eq_of_parts (a +ℤ pos 0) b,
  eq_of_parts (a +ℤ pos 1) b,
)

contains-around_column :
    (nx y x' y' : ℤ)
    → contains (around_column nx y) (x', y') ≡ (holds (ℤ_discrete nx x') && near_ℤ y y')
unfolding contains
contains-around_column nx y x' y' =
    rw
      (
        near_ℤ-cases y y',
        Cell_discrete-pair nx (y +ℤ negsuc 0) x' y',
        Cell_discrete-pair nx (y +ℤ pos 0) x' y',
        Cell_discrete-pair nx (y +ℤ pos 1) x' y',
      )
      (ground arith)

-- The loops visit the cells that are near, and no other.
pub contains-around : (c n : Cell) → contains (around c) n ≡ near c n
unfolding around
contains-around (x, y) (x', y') =
    rw
      (
        contains-append (around_column (x +ℤ negsuc 0) y) _ (x', y'),
        contains-append (around_column (x +ℤ pos 0) y) _ (x', y'),
        contains-around_column (x +ℤ negsuc 0) y x' y',
        contains-around_column (x +ℤ pos 0) y x' y',
        contains-around_column (x +ℤ pos 1) y x' y',
        near_ℤ-cases x x',
      )
      (ground arith)

+ℤ-zero : (a : ℤ) → a +ℤ pos 0 ≡ a
+ℤ-zero a = eq_of_parts (a +ℤ pos 0) a (omega (arith, +ℤ_parts a (pos 0)))

neighbours_center :
    (x y x' y' : ℤ)
    → contains {A = Cell} ((x, y +ℤ negsuc 0) ∷ (x, y +ℤ pos 1) ∷ []) (x', y')
      ≡ (holds (ℤ_discrete x x') && near_ℤ y y' && not (holds (Cell_discrete (x, y) (x', y'))))
unfolding contains
neighbours_center x y x' y' =
    rw
      (
        Cell_discrete-pair x (y +ℤ negsuc 0) x' y',
        Cell_discrete-pair x (y +ℤ pos 1) x' y',
        Cell_discrete-pair x y x' y',
        near_ℤ-cases y y',
        +ℤ-zero y,
      )
      (ground (arith, +ℤ_parts y (negsuc 0), +ℤ_parts y (pos 1)))

near_zero : (x x' : ℤ) → holds (ℤ_discrete x x') ≡ true → near_ℤ x x' ≡ true
near_zero x x' e = ground arith

-- With the centre skipped, they visit the same cells but the centre.
pub contains-neighbours :
    (c n : Cell) → contains (neighbours c) n ≡ (near c n && not (holds (Cell_discrete c n)))
unfolding neighbours
contains-neighbours (x, y) (x', y') =
    rw
      (
        +ℤ-zero x,
        contains-append (around_column (x +ℤ negsuc 0) y) _ (x', y'),
        contains-append {A = Cell} ((x, y +ℤ negsuc 0) ∷ (x, y +ℤ pos 1) ∷ [])
            (around_column (x +ℤ pos 1) y) (x', y'),
        contains-around_column (x +ℤ negsuc 0) y x' y',
        neighbours_center x y x' y',
        contains-around_column (x +ℤ pos 1) y x' y',
        Cell_discrete-pair x y x' y',
      )
      (ground (arith, near_ℤ-cases x x', +ℤ-zero x, +ℤ_parts x (negsuc 0), +ℤ_parts x (pos 1)))

-- Some cell of the list is near `c`.
abbrev pub any_near : List Cell → Cell → Bool
any_near cells c = any (λ s. near s c) cells

contains-any :
    (cells : List Cell) (n : Cell) → contains cells n ≡ any (λ s. holds (Cell_discrete s n)) cells
unfolding contains any
contains-any [] n = refl
contains-any (s ∷ cells) n = rw (contains-any cells n)

pub any-contains-around :
    (cells : List Cell) (c : Cell) → any (contains cells) (around c) ≡ any_near cells c
any-contains-around cells c =
    rw
      (
        fun_ext (contains-any cells),
        any-any_comm (λ n s. holds (Cell_discrete s n)) (around c) cells,
      )
      (ap (λ p. any p cells)
        (fun_ext (λ s. any-same (around c) s ∙ contains-around c s ∙ near_comm c s)))
