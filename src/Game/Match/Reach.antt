-- ===== src/Game/Match/Reach.antt =====
-- Game.cpp: the life of a game, as the sequences of calls that players and spectators can make. A
-- call that throws is no step; for players none throws.
use sea_battle.Base.{
  some, ◌≡◌, ◌≢◌, refl, inl, inr, Bool, true, List, String, arith, Bool-cases, ℤ, ok,
}
use sea_battle.Types.{ShotResultInfo, ShipPlacement, SessionRef}
use sea_battle.Game.Match.Invariant.{IsPlayerGuid, IsGame}
use sea_battle.Game.Match.Steps.{
  place_ships-eq, place_ships-IsGame, start_battle-IsGame, surrender-IsGame,
  handle_disconnect-IsGame, new_game-IsGame,
}
use sea_battle.Game.Board.Random.{Draw}
use sea_battle.Game.Match.Lottery.{
  place_player_randomly, place_player_randomly-IsGame, place_player_randomly_late,
}
use sea_battle.Game.Match.Turns.{shoot_at-eq, shoot_at-IsGame}
use sea_battle.Game.Match.{
  Game, is_finished, new_game, place_ships, start_battle, shoot_at, surrender, handle_disconnect,
  add_spectator, remove_spectator, cleanup_spectators, notify_spectators,
}

pub data Step (g : Game) : Game → Type 0 where
  place :
      {g' : Game} (guid : String) (ships : List ShipPlacement) (done : Bool)
      → IsPlayerGuid g guid
      → place_ships g guid ships ≡ ok (g', done)
      → Step g g'
  lottery :
      {g' : Game} (draws : List Draw) (guid : String)
      → IsPlayerGuid g guid
      → place_player_randomly draws g guid ≡ ok (some g')
      → Step g g'
  start : Step g (start_battle g)
  shot :
      {g' : Game} (shooter : String) (x y : ℤ) (info : ShotResultInfo)
      → shoot_at g shooter x y ≡ ok (g', info)
      → Step g g'
  give_up : (guid : String) → Step g (surrender g guid)
  disconnect : (guid : String) → Step g (handle_disconnect g guid)
  watch : (alive : SessionRef → Bool) (s : SessionRef) → Step g (add_spectator alive g s)
  unwatch : (alive : SessionRef → Bool) (s : SessionRef) → Step g (remove_spectator alive g s)
  notify : (alive : SessionRef → Bool) → Step g (notify_spectators alive g).0

pub data Reach (g : Game) : Game → Type 0 where
  here : Reach g g
  next : {h k : Game} → Reach g h → Step h k → Reach g k

set_spectators-IsGame :
    (g : Game) (ss : List SessionRef) → IsGame g → IsGame (record g { spectators = ss })
set_spectators-IsGame g ss v = record {
  distinct = v.distinct;
  turn = v.turn;
  first = v.first;
  second = v.second;
  undecided = v.undecided;
  decided = v.decided;
}

Step-IsGame : {g g' : Game} → Step g g' → IsGame g → IsGame g'
unfolding add_spectator remove_spectator notify_spectators cleanup_spectators
Step-IsGame {g} {g'} (place guid ships done player e) v =
    place_ships-IsGame g g' guid ships done v player e
Step-IsGame {g} {g'} (lottery draws guid player e) v =
    let (out, made, sound) = place_player_randomly-IsGame draws g guid v player in
    let same : out ≡ some g' = ground arith in rw same at sound
Step-IsGame {g} start v = start_battle-IsGame g v
Step-IsGame {g} {g'} (shot shooter x y info e) v = shoot_at-IsGame g g' shooter x y info v e
Step-IsGame {g} (give_up guid) v = surrender-IsGame g guid v
Step-IsGame {g} (disconnect guid) v = handle_disconnect-IsGame g guid v
Step-IsGame {g} (watch alive s) v = set_spectators-IsGame g _ v
Step-IsGame {g} (unwatch alive s) v = elim (Bool-cases (alive s)) [
  | inl live ↦ rw live (set_spectators-IsGame g _ v)
  | inr dead ↦ rw dead v
]
Step-IsGame {g} (notify alive) v = set_spectators-IsGame g _ v

pub Reach-IsGame : {g g' : Game} → Reach g g' → IsGame g → IsGame g'
Reach-IsGame here v = v
Reach-IsGame (next r s) v = Step-IsGame s (Reach-IsGame r v)

-- Whatever the players and the spectators do in whatever order, a game between two different
-- players stays sound: both boards stay sound, a ready player has the whole fleet, no shot falls
-- before the battle, in a battle both are ready and have a ship afloat, it is the turn of one of
-- the two, and there is a winner, one of the two, exactly when the game is finished.
pub new_game-Reach :
    (id : String) (p1 p2 : String × String) (heads : Bool) {g : Game}
    → p1.0 ≢ p2.0
    → Reach (new_game id p1 p2 heads) g
    → IsGame g
new_game-Reach id p1 p2 heads ne r = Reach-IsGame r (new_game-IsGame id p1 p2 heads ne)

-- What a finished game keeps: it stays finished, with the winner, the reason and the boards.
abbrev pub SameResult : Game → Game → Type 0
SameResult g h =
    (is_finished h ≡ true)
    × (h.winner_guid ≡ g.winner_guid)
    × (h.game_over_reason ≡ g.game_over_reason)
    × (h.player1 ≡ g.player1)
    × (h.player2 ≡ g.player2)

same_game : (g h : Game) → g ≡ h → is_finished g ≡ true → SameResult g h
same_game g h same over = rw (← same) (over, refl, refl, refl, refl)

Step-SameResult : {g h : Game} → Step g h → IsGame g → is_finished g ≡ true → SameResult g h
unfolding is_finished start_battle surrender handle_disconnect add_spectator remove_spectator
    notify_spectators cleanup_spectators
Step-SameResult {g} {h} (place guid ships done player e) v over =
    let (_, _, result) = place_ships-eq g guid ships player in same_game g h (ground arith) over
Step-SameResult {g} {h} (lottery draws guid player e) v over =
    let late : place_player_randomly draws g guid ≡ ok (some g) =
      place_player_randomly_late draws g guid over in
    same_game g h (ground arith) over
Step-SameResult {g} start v over = ground arith
Step-SameResult {g} {h} (shot shooter x y info e) v over =
    let result = shoot_at-eq g shooter x y v in same_game g h (ground arith) over
Step-SameResult {g} (give_up guid) v over = ground arith
Step-SameResult {g} (disconnect guid) v over = ground arith
Step-SameResult {g} (watch alive s) v over = ground arith
Step-SameResult {g} (unwatch alive s) v over = ground arith
Step-SameResult {g} (notify alive) v over = ground arith

-- A game that is finished stays finished, with the same winner, the same reason and the same
-- boards, whatever the players and the spectators do afterwards.
pub Reach-SameResult : {g h : Game} → Reach g h → IsGame g → is_finished g ≡ true → SameResult g h
Reach-SameResult here v over = (over, refl, refl, refl, refl)
Reach-SameResult (next r s) v over =
    let before = Reach-SameResult r v over in
    let after = Step-SameResult s (Reach-IsGame r v) before.0 in ground arith
