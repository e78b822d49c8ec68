-- ===== src/Game/Match/Lottery.antt =====
-- Board.cpp and Game.cpp, `placeShipsRandomly`, over a list of draws.
use sea_battle.Base.{
  ℕ, ◌+◌, ◌≡◌, refl, inl, inr, Bool, true, false, not, List, [], ◌∷◌, Option, none, some, String,
  ltb, arith, length, length-append, All, ℤ, pos, pos_part, ltb_ℤ, Throws, ok, ◌>>=◌, Bool-cases,
  if◌then◌else◌,
}
use sea_battle.Types.{total_ships, total_ship_cells}
use sea_battle.Game.Ship.{new_ship}
use sea_battle.Game.Ship.Hits.{length-line_cells}
use sea_battle.Game.Rules.{get_required_ship_sizes, push_times}
use sea_battle.Game.Board.{Board, new_board, clear, add_ship, can_place_ship, place_ship}
use sea_battle.Game.Board.Invariant.{IsValid, IsFresh, new_board-IsValid}
use sea_battle.Game.Board.Place.{built_ship, place_ship-IsValid}
use sea_battle.Game.Board.Random.{Draw, max_attempts, random_loop, place_ships_randomly}
use sea_battle.Game.Ship.Decks.{HasRest, HasRest-placed, HasFleet-done}
use sea_battle.Game.Match.Placing.{IsDeployed, fleet_size, fleet_size-append, new_board-IsFresh}
use sea_battle.Game.Match.Invariant.{IsPlayerGuid, IsGame}
use sea_battle.Game.Match.Steps.{get_game_player_some, set_game_player-IsGame}
use sea_battle.Game.Match.{
  Game, GamePlayer, is_placing, is_finished, get_game_player, set_game_player,
}

abbrev pub sum_sizes : List ℤ → ℕ
sum_sizes [] = 0
sum_sizes (s ∷ ss) = pos_part s + sum_sizes ss

-- The board and the sizes that are left make up the fleet.
record IsOnTheWay (b : Board) (sizes : List ℤ) : Type 0 where
  valid : IsValid b
  fresh : IsFresh b
  sized : All (λ s. ltb_ℤ s (pos 0) ≡ false) sizes
  by_size : HasRest b.ships sizes
  ships : length b.ships + length sizes ≡ total_ships
  cells : fleet_size b.ships + sum_sizes sizes ≡ total_ship_cells

start_over : (b : Board) → IsOnTheWay (clear b) get_required_ship_sizes
unfolding clear new_board get_required_ship_sizes push_times
start_over b = record {
  valid = new_board-IsValid;
  fresh = new_board-IsFresh;
  sized = ground arith;
  by_size = (refl, refl, refl, refl);
  ships = refl;
  cells = refl;
}

-- A board that came out has the whole fleet and no shot on it.
abbrev pub IsFullBoard : Option Board → Type 0
IsFullBoard none = Unit {0}
IsFullBoard (some b) = IsDeployed b × IsFresh b

placed_one :
    (b : Board) (x y size : ℤ) (h : Bool) (sizes : List ℤ)
    → IsOnTheWay b (size ∷ sizes)
    → can_place_ship b x y size h ≡ true
    → (place_ship b x y size h ≡ ok (add_ship b (built_ship x y size h), true))
      × IsOnTheWay (add_ship b (built_ship x y size h)) sizes
unfolding place_ship new_ship add_ship
placed_one b x y size h sizes w can =
    let made : place_ship b x y size h ≡ ok (add_ship b (built_ship x y size h), true) =
      ground (arith, w.sized.0) in
    let (v, fresh, _, _) =
      place_ship-IsValid x y size h b (add_ship b (built_ship x y size h)) true w.valid w.fresh
        made in
    (
      made,
      record {
        valid = v;
        fresh = fresh;
        sized = w.sized.1;
        by_size =
            HasRest-placed b.ships (built_ship x y size h) size sizes (length-line_cells x y size h)
              w.by_size;
        ships = omega (arith, w.ships, length-append b.ships (built_ship x y size h ∷ []));
        cells = omega (
          arith,
          w.cells,
          fleet_size-append b.ships (built_ship x y size h),
          length-line_cells x y size h,
        );
      },
    )

random_loop_lem :
    (draws : List Draw) (b : Board) (sizes : List ℤ) (attempts : ℕ)
    → IsOnTheWay b sizes
    → (o : Option Board) × (random_loop draws b sizes attempts ≡ ok o) × IsFullBoard o
unfolding random_loop
random_loop_lem draws b [] attempts w = (
  some b,
  refl,
  (
    record {
      valid = w.valid;
      by_size = HasFleet-done b.ships w.by_size;
      all_ships = omega (arith, w.ships);
      all_cells = omega (arith, w.cells);
    },
    w.fresh,
  ),
)
random_loop_lem [] b (size ∷ sizes) attempts w = (none, refl, tt)
random_loop_lem ((x, y, h) ∷ draws) b (size ∷ sizes) attempts w =
    elim (Bool-cases (can_place_ship b x y size h)) [
      | inl can ↦
          let (made, after) = placed_one b x y size h sizes w can in
          let (o, e, full) =
            random_loop_lem draws (add_ship b (built_ship x y size h)) sizes 0 after in
          (o, rw (random_loop, can, made) e, full)
      | inr cannot ↦ elim (Bool-cases (ltb (attempts + 1) max_attempts)) [
        | inl again ↦
            let (o, e, full) = random_loop_lem draws b (size ∷ sizes) (attempts + 1) w in
            (o, rw (random_loop, cannot, again) e, full)
        | inr enough ↦
            let (o, e, full) =
              random_loop_lem draws (clear b) get_required_ship_sizes 0 (start_over b) in
            (o, rw (random_loop, cannot, enough) e, full)
      ]
    ]

-- Game.cpp, `placeShipsRandomly`, with the result none when the draws have run out.
abbrev pub finish_lottery : Game → String → GamePlayer → Option Board → Option Game
finish_lottery g guid player none = none
finish_lottery g guid player (some b) =
    some (set_game_player g guid (record player { board = b; ready = true }))

unfoldable pub place_player_randomly : List Draw → Game → String → Throws (Option Game)
place_player_randomly draws g guid = if not (is_placing g.state) then ok (some g) else do
  player ← get_game_player g guid
  board ← place_ships_randomly draws player.board
  ok (finish_lottery g guid player board)

-- The game is sound, where there is one.
abbrev pub IsGameIfAny : Option Game → Type 0
IsGameIfAny none = Unit {0}
IsGameIfAny (some g) = IsGame g

finish_lottery-IsGame :
    (g : Game) (guid : String) (player : GamePlayer) (board : Option Board)
    → IsGame g
    → is_placing g.state ≡ true
    → get_game_player g guid ≡ ok player
    → IsFullBoard board
    → IsGameIfAny (finish_lottery g guid player board)
finish_lottery-IsGame g guid player none v placing found full = tt
finish_lottery-IsGame g guid player (some b) v placing found (deployed, fresh) =
    set_game_player-IsGame g guid player (record player { board = b; ready = true }) v placing found
      refl
      (record {
        sound = deployed.valid;
        deployed = λ _. deployed;
        fresh = λ _. fresh;
        in_battle = λ e. cc;
      })

-- Whatever is drawn, placing a player's ships at random never throws, and when it ends it leaves a
-- sound game, in which a ready player has the whole fleet: one ship of four cells, two of three, three
-- of two and four of one.
pub place_player_randomly-IsGame :
    (draws : List Draw) (g : Game) (guid : String)
    → IsGame g
    → IsPlayerGuid g guid
    → (out : Option Game) × (place_player_randomly draws g guid ≡ ok out) × IsGameIfAny out
unfolding place_player_randomly place_ships_randomly
place_player_randomly-IsGame draws g guid v player = elim (Bool-cases (is_placing g.state)) [
  | inr late ↦ (some g, rw late, v)
  | inl placing ↦
      let (p, found) = get_game_player_some g guid player in
      let (board, drawn, full) =
        random_loop_lem draws (clear p.board) get_required_ship_sizes 0 (start_over p.board) in
      (
        finish_lottery g guid p board,
        rw (placing, found, drawn),
        finish_lottery-IsGame g guid p board v placing found full,
      )
]

-- After the placing, the call changes nothing.
pub place_player_randomly_late :
    (draws : List Draw) (g : Game) (guid : String)
    → is_finished g ≡ true
    → place_player_randomly draws g guid ≡ ok (some g)
unfolding place_player_randomly is_finished
place_player_randomly_late draws g guid over =
    let late : is_placing g.state ≡ false = ground arith in rw late
