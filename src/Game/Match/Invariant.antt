-- ===== src/Game/Match/Invariant.antt =====
-- Game.cpp: what holds of a game between any two calls.
use mathlib.Core.List.{cons-eq-cons}
use sea_battle.Base.{
  ℕ, ◌≡◌, ◌≢◌, ◌⊎◌, refl, ap, ◌∙◌, inl, inr, Bool, true, false, List, [], ◌∷◌, String, Option, none,
  some, arith, Bool-cases, Cell, cell_key, contains, length,
}
use sea_battle.Types.{CellState, ShotResult}
use sea_battle.Game.Ship.{Ship, contains_cell}
use sea_battle.Game.Board.{
  Board, Grid, finish_shot, shoot_cell, shoot, is_valid_coordinate, are_all_ships_sunk,
}
use sea_battle.Game.Board.Invariant.{IsValid, IsFresh, mark, fleet}
use sea_battle.Game.Board.Shoot.{fleet-hit_first, shoot-IsValid}
use sea_battle.Game.Board.Outcome.{shoot-hit}
use sea_battle.Game.Board.Sunk.{are_all_ships_sunk_iff}
use sea_battle.Game.Ship.Decks.{decks}
use sea_battle.Game.Match.Placing.{IsDeployed, fleet_size}
use sea_battle.Game.Match.{Game, GamePlayer, is_placing, is_battle, is_finished_state}

pub record IsPlayer (placing battle : Bool) (p : GamePlayer) : Type 0 where
  pub sound : IsValid p.board
  pub deployed : p.ready ≡ true → IsDeployed p.board
  pub fresh : placing ≡ true → IsFresh p.board
  pub in_battle : battle ≡ true → (p.ready ≡ true) × (are_all_ships_sunk p.board ≡ false)

abbrev pub IsPlayerGuid : Game → String → Type 0
IsPlayerGuid g guid = (guid ≡ g.player1.guid) ⊎ (guid ≡ g.player2.guid)

pub record IsGame (g : Game) : Type 0 where
  pub distinct : g.player1.guid ≢ g.player2.guid
  pub turn : IsPlayerGuid g g.current_turn_guid
  pub first : IsPlayer (is_placing g.state) (is_battle g.state) g.player1
  pub second : IsPlayer (is_placing g.state) (is_battle g.state) g.player2
  pub undecided : is_finished_state g.state ≡ false → g.winner_guid ≡ none
  pub decided :
      is_finished_state g.state ≡ true → (w : String) × (g.winner_guid ≡ some w) × IsPlayerGuid g w

no_cells : (cs : List Cell) → ((c : Cell) → contains cs c ≡ false) → length cs ≡ 0
unfolding contains
no_cells [] h = refl
no_cells (x ∷ xs) h = ground (arith, h x)

fleet_of_none : (ss : List Ship) → ((c : Cell) → mark ss c ≡ none) → fleet_size ss ≡ 0
unfolding mark contains_cell
fleet_of_none [] h = refl
fleet_of_none (s ∷ ss) h = omega (
  arith,
  no_cells s.cells (λ c. ground (arith, h c)),
  fleet_of_none ss (λ c. ground (arith, h c)),
)

-- A fleet that was not shot at is not sunk.
pub fresh-afloat : (b : Board) → IsDeployed b → IsFresh b → are_all_ships_sunk b ≡ false
fresh-afloat b d fresh = elim (Bool-cases (are_all_ships_sunk b)) [
  | inr afloat ↦ afloat
  | inl sunk ↦
      let gone = ((are_all_ships_sunk_iff b d.valid).0 sunk).1 in
      let empty = fleet_of_none b.ships (λ c. ground (arith, d.valid.marks c, fresh c, gone c)) in
      absurd (omega (arith, d.all_cells))
]

fleet-finish_shot :
    (g : Grid) (ships : List Ship) (o : Option Ship) → (finish_shot g ships o).0.ships ≡ ships
unfolding finish_shot
fleet-finish_shot g ships none = refl
fleet-finish_shot g ships (some s) = ground arith

shoot_cell-fleet :
    (b : Board) (c : Cell) (st : CellState) → fleet (shoot_cell b c st).0.ships ≡ fleet b.ships
unfolding shoot_cell
shoot_cell-fleet b c CellState.empty = refl
shoot_cell-fleet b c CellState.ship = ap fleet (fleet-finish_shot _ _ _) ∙ fleet-hit_first b.ships c
shoot_cell-fleet b c CellState.hit = refl
shoot_cell-fleet b c CellState.miss = refl

-- A shot neither adds, removes nor moves a ship.
pub shoot-fleet : (b : Board) (c : Cell) → fleet (shoot b c).0.ships ≡ fleet b.ships
unfolding shoot
shoot-fleet b c = elim (Bool-cases (is_valid_coordinate c)) [
  | inl inside ↦ rw inside (shoot_cell-fleet b c (b.cells c))
  | inr outside ↦ rw outside
]

fleet_size-fleet :
    (ss ts : List Ship)
    → fleet ss ≡ fleet ts
    → (length ss ≡ length ts) × (fleet_size ss ≡ fleet_size ts)
fleet_size-fleet [] [] e = (refl, refl)
fleet_size-fleet [] (t ∷ ts) e = cc
fleet_size-fleet (s ∷ ss) [] e = cc
fleet_size-fleet (s ∷ ss) (t ∷ ts) e =
    let rest = fleet_size-fleet ss ts (cons-eq-cons.0 e).1 in
    (omega (arith, rest.0), omega (arith, rest.1, ap length (cons-eq-cons.0 e).0))

decks-fleet : (k : ℕ) (ss ts : List Ship) → fleet ss ≡ fleet ts → decks k ss ≡ decks k ts
decks-fleet k [] [] e = refl
decks-fleet k [] (t ∷ ts) e = cc
decks-fleet k (s ∷ ss) [] e = cc
decks-fleet k (s ∷ ss) (t ∷ ts) e =
    cc (decks-fleet k ss ts (cons-eq-cons.0 e).1, ap length (cons-eq-cons.0 e).0)

pub shoot-IsDeployed : (b : Board) (c : Cell) → IsDeployed b → IsDeployed (shoot b c).0
shoot-IsDeployed b c d =
    let same = fleet_size-fleet _ _ (shoot-fleet b c) in
    record {
      valid = shoot-IsValid b c d.valid;
      by_size =
          let (four, three, two, one) = d.by_size in
          let kept = λ (k : ℕ). decks-fleet k (shoot b c).0.ships b.ships (shoot-fleet b c) in
          (kept 4 ∙ four, kept 3 ∙ three, kept 2 ∙ two, kept 1 ∙ one);
      all_ships = same.0 ∙ d.all_ships;
      all_cells = same.1 ∙ d.all_cells;
    }

quiet_shot :
    (b : Board) (c : Cell)
    → (shoot b c).1 ≢ ShotResult.kill
    → (shoot b c).1 ≢ ShotResult.hit
    → (shoot b c).0.ships ≡ b.ships
unfolding shoot shoot_cell finish_shot
quiet_shot b c no_kill no_hit = ground arith

sunk-ships : (b b' : Board) → b.ships ≡ b'.ships → are_all_ships_sunk b ≡ are_all_ships_sunk b'
unfolding are_all_ships_sunk
sunk-ships b b' e = rw e

hit_or_not : (r : ShotResult) → (r ≡ ShotResult.hit) ⊎ (r ≢ ShotResult.hit)
hit_or_not ShotResult.hit = inl refl
hit_or_not ShotResult.miss = inr (λ e. cc)
hit_or_not ShotResult.kill = inr (λ e. cc)
hit_or_not ShotResult.already_shot = inr (λ e. cc)
hit_or_not ShotResult.invalid_coordinates = inr (λ e. cc)

-- Only a kill can sink the last ship.
pub shoot-afloat :
    (b : Board) (c : Cell)
    → IsValid b
    → are_all_ships_sunk b ≡ false
    → (shoot b c).1 ≢ ShotResult.kill
    → are_all_ships_sunk (shoot b c).0 ≡ false
shoot-afloat b c v afloat no_kill = elim (hit_or_not (shoot b c).1) [
  | inr no_hit ↦ sunk-ships (shoot b c).0 b (quiet_shot b c no_kill no_hit) ∙ afloat
  | inl struck ↦ elim (Bool-cases (are_all_ships_sunk (shoot b c).0)) [
    | inr out ↦ out
    | inl sunk ↦
        let (s, _, _, (d, _, left)) = shoot-hit b c v struck in
        absurd (((are_all_ships_sunk_iff _ (shoot-IsValid b c v)).0 sunk).1 d left)
  ]
]
