-- ===== src/Game/Match/Steps.antt =====
-- Game.cpp: each method keeps what holds of a game, and so does every sequence of calls.
use sea_battle.Base.{
  ◌≡◌, ◌≢◌, refl, inl, inr, Bool, true, false, ◌&&◌, List, String, arith, Bool-cases, ◌==◌,
  if◌then◌else◌, ok,
}
use sea_battle.Types.{GameState, ShipPlacement}
use sea_battle.Game.Board.{new_board, clear}
use sea_battle.Game.Board.Invariant.{new_board-IsValid}
use sea_battle.Game.Rules.{validate_placement}
use sea_battle.Game.Match.Placing.{add_all, add_all-IsDeployed, new_board-IsFresh}
use sea_battle.Game.Match.Invariant.{IsPlayer, IsPlayerGuid, IsGame, fresh-afloat}
use sea_battle.Game.Match.{
  Game, GamePlayer, is_placing, is_battle, is_finished_state, new_player, new_game, get_game_player,
  set_game_player, place_ships, start_battle, finish_game, other_player, surrender,
  handle_disconnect,
}

new_player-IsPlayer : (guid nickname : String) → IsPlayer true false (new_player guid nickname)
new_player-IsPlayer guid nickname = record {
  sound = new_board-IsValid;
  deployed = λ e. cc;
  fresh = λ _. new_board-IsFresh;
  in_battle = λ e. cc;
}

pub new_game-IsGame :
    (id : String) (p1 p2 : String × String) (heads : Bool)
    → p1.0 ≢ p2.0
    → IsGame (new_game id p1 p2 heads)
unfolding new_game
new_game-IsGame id (guid1, nickname1) (guid2, nickname2) heads ne = record {
  distinct = ne;
  turn = ground arith;
  first = new_player-IsPlayer guid1 nickname1;
  second = new_player-IsPlayer guid2 nickname2;
  undecided = λ _. refl;
  decided = λ e. cc;
}

abbrev pub deployed_player : GamePlayer → List ShipPlacement → GamePlayer
deployed_player p ships = record p { board = add_all new_board ships; ready = true }

deployed-IsPlayer :
    (p : GamePlayer) (ships : List ShipPlacement)
    → (validate_placement ships).valid ≡ true
    → IsPlayer true false (deployed_player p ships)
deployed-IsPlayer p ships accepted =
    let (_, deployed, fresh) = add_all-IsDeployed ships accepted in
    record {
      sound = deployed.valid;
      deployed = λ _. deployed;
      fresh = λ _. fresh;
      in_battle = λ e. cc;
    }

pub get_game_player_some :
    (g : Game) (guid : String)
    → IsPlayerGuid g guid
    → (p : GamePlayer) × (get_game_player g guid ≡ ok p)
unfolding get_game_player
get_game_player_some g guid (inl e) = (g.player1, ground arith)
get_game_player_some g guid (inr e) = elim (Bool-cases (guid == g.player1.guid)) [
  | inl first ↦ (g.player1, ground arith)
  | inr other ↦ (g.player2, ground arith)
]

-- What a call of `placeShips` does for a player: during placing it accepts exactly what
-- `validatePlacement` accepts, and then the player's board has these ships and the player is
-- ready; otherwise nothing changes. It throws only for a GUID that is not a player's.
pub place_ships-eq :
    (g : Game) (guid : String) (ships : List ShipPlacement)
    → IsPlayerGuid g guid
    → (p : GamePlayer) × (get_game_player g guid ≡ ok p)
      × (place_ships g guid ships
          ≡ ok (
              if is_placing g.state && (validate_placement ships).valid
              then (set_game_player g guid (deployed_player p ships), true)
              else (g, false)))
unfolding place_ships clear
place_ships-eq g guid ships player =
    let (p, found) = get_game_player_some g guid player in
    (
      p,
      found,
      elim (Bool-cases (validate_placement ships).valid) [
        | inr refused ↦ ground arith
        | inl accepted ↦ ground (arith, found, (add_all-IsDeployed ships accepted).0)
      ],
    )

placing_only :
    (st : GameState)
    → is_placing st ≡ true
    → (is_battle st ≡ false) × (is_finished_state st ≡ false)
placing_only st e = ground arith

pub set_game_player-IsGame :
    (g : Game) (guid : String) (p p' : GamePlayer)
    → IsGame g
    → is_placing g.state ≡ true
    → get_game_player g guid ≡ ok p
    → p'.guid ≡ p.guid
    → IsPlayer true false p'
    → IsGame (set_game_player g guid p')
unfolding get_game_player set_game_player
set_game_player-IsGame g guid p p' v placing found same sound =
    let (calm, going) = placing_only g.state placing in
    elim (Bool-cases (guid == g.player1.guid)) [
      | inl first ↦ rw first (record {
        distinct = ground (arith, v.distinct);
        turn = ground (arith, v.turn);
        first = rw (placing, calm) sound;
        second = v.second;
        undecided = v.undecided;
        decided = λ e. cc;
      })
      | inr second ↦ rw second (record {
        distinct = ground (arith, v.distinct);
        turn = ground (arith, v.turn);
        first = v.first;
        second = rw (placing, calm) sound;
        undecided = v.undecided;
        decided = λ e. cc;
      })
    ]

-- A placement for a player keeps what holds of the game.
pub place_ships-IsGame :
    (g g' : Game) (guid : String) (ships : List ShipPlacement) (done : Bool)
    → IsGame g
    → IsPlayerGuid g guid
    → place_ships g guid ships ≡ ok (g', done)
    → IsGame g'
place_ships-IsGame g g' guid ships done v player e =
    let (p, found, result) = place_ships-eq g guid ships player in
    elim (Bool-cases (is_placing g.state && (validate_placement ships).valid)) [
      | inr refused ↦ let same : g ≡ g' = ground arith in rw (← same) v
      | inl accepted ↦
          let new : set_game_player g guid (deployed_player p ships) ≡ g' = ground arith in
          rw (← new) (
            set_game_player-IsGame g guid p (deployed_player p ships) v (ground arith) found refl
              (deployed-IsPlayer p ships (ground arith)))
    ]

-- A ready player goes into battle with the whole fleet afloat.
enter_battle :
    (battle : Bool) (p : GamePlayer)
    → IsPlayer true battle p
    → p.ready ≡ true
    → IsPlayer false true p
enter_battle battle p v ready = record {
  sound = v.sound;
  deployed = v.deployed;
  fresh = λ e. cc;
  in_battle = λ _. (ready, fresh-afloat p.board (v.deployed ready) (v.fresh refl));
}

pub start_battle-IsGame : (g : Game) → IsGame g → IsGame (start_battle g)
unfolding start_battle
start_battle-IsGame g v =
    elim (Bool-cases (is_placing g.state && g.player1.ready && g.player2.ready)) [
      | inr wait ↦ rw wait v
      | inl go ↦
          let placing : is_placing g.state ≡ true = ground arith in
          rw go (record {
            distinct = v.distinct;
            turn = v.turn;
            first =
                enter_battle (is_battle g.state) g.player1 (rw placing at v.first) (ground arith);
            second =
                enter_battle (is_battle g.state) g.player2 (rw placing at v.second) (ground arith);
            undecided = λ _. v.undecided (placing_only g.state placing).1;
            decided = λ e. cc;
          })
    ]

pub at_rest :
    {placing battle : Bool} {p : GamePlayer} → IsPlayer placing battle p → IsPlayer false false p
at_rest v = record { sound = v.sound; deployed = v.deployed; fresh = λ e. cc; in_battle = λ e. cc }

other_player_lem : (g : Game) (guid : String) → IsPlayerGuid g (other_player g guid)
other_player_lem g guid = ground arith

pub finish_game-IsGame :
    (g : Game) (winner reason : String)
    → IsGame g
    → IsPlayerGuid g winner
    → IsGame (finish_game g winner reason)
unfolding finish_game
finish_game-IsGame g winner reason v w = record {
  distinct = v.distinct;
  turn = v.turn;
  first = at_rest v.first;
  second = at_rest v.second;
  undecided = λ e. cc;
  decided = λ _. (winner, refl, w);
}

pub surrender-IsGame : (g : Game) (guid : String) → IsGame g → IsGame (surrender g guid)
unfolding surrender
surrender-IsGame g guid v = elim (Bool-cases (is_finished_state g.state)) [
  | inl over ↦ rw over v
  | inr going ↦
      rw going (finish_game-IsGame g (other_player g guid) "surrender" v (other_player_lem g guid))
]

pub handle_disconnect-IsGame :
    (g : Game) (guid : String) → IsGame g → IsGame (handle_disconnect g guid)
unfolding handle_disconnect
handle_disconnect-IsGame g guid v = elim (Bool-cases (is_finished_state g.state)) [
  | inl over ↦ rw over v
  | inr going ↦
      rw going (finish_game-IsGame g (other_player g guid) "disconnect" v (other_player_lem g guid))
]
