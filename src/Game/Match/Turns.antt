-- ===== src/Game/Match/Turns.antt =====
-- Game.cpp, `shoot`: whose turn it is, when the game ends, and that a shot keeps the game sound.
use sea_battle.Base.{
  ◌≡◌, ◌≢◌, ◌⊎◌, refl, inl, inr, Bool, true, false, ◌&&◌, String, none, arith, Bool-cases, ℤ, Cell,
  ◌==◌, if◌then◌else◌, ok,
}
use sea_battle.Types.{GameState, ShotResult, ShotResultInfo}
use sea_battle.Game.Board.{Board, shoot, are_all_ships_sunk}
use sea_battle.Game.Board.Shoot.{shoot-IsValid}
use sea_battle.Game.Match.Invariant.{IsPlayer, IsPlayerGuid, IsGame, shoot-IsDeployed, shoot-afloat}
use sea_battle.Game.Match.Steps.{at_rest}
use sea_battle.Game.Match.{
  Game, GamePlayer, is_battle, get_opponent_game_player, set_opponent_game_player, switch_turn,
  finish_game, after_shot, shoot_at, shot_info,
}

-- A player whose board was shot at.
abbrev pub struck : GamePlayer → Cell → GamePlayer
struck p c = record p { board = (shoot p.board c).0 }

struck-IsPlayer :
    (battle : Bool) (p : GamePlayer) (c : Cell)
    → IsPlayer false true p
    → (battle ≡ true → are_all_ships_sunk (shoot p.board c).0 ≡ false)
    → IsPlayer false battle (struck p c)
struck-IsPlayer battle p c v afloat = record {
  sound = shoot-IsValid p.board c v.sound;
  deployed = λ ready. shoot-IsDeployed p.board c (v.deployed ready);
  fresh = λ e. cc;
  in_battle = λ e. ((v.in_battle refl).0, afloat e);
}

-- A game in battle, just after a shot at one of its boards, with the result `r`.
record IsStruck (h : Game) (b : Board) (r : ShotResult) : Type 0 where
  distinct : h.player1.guid ≢ h.player2.guid
  turn : IsPlayerGuid h h.current_turn_guid
  battle : h.state ≡ GameState.battle
  open_end : h.winner_guid ≡ none
  first : (are_all_ships_sunk b ≡ false) ⊎ (r ≢ ShotResult.kill) → IsPlayer false true h.player1
  second : (are_all_ships_sunk b ≡ false) ⊎ (r ≢ ShotResult.kill) → IsPlayer false true h.player2
  rest1 : IsPlayer false false h.player1
  rest2 : IsPlayer false false h.player2

module _ (h : Game) (b : Board) (r : ShotResult) (s : IsStruck h b r) where
  goes_on : (are_all_ships_sunk b ≡ false) ⊎ (r ≢ ShotResult.kill) → IsGame h
  goes_on afloat = record {
    distinct = s.distinct;
    turn = s.turn;
    first = rw s.battle (s.first afloat);
    second = rw s.battle (s.second afloat);
    undecided = λ _. s.open_end;
    decided = rw s.battle (λ e. cc);
  }

  ends : (winner reason : String) → IsPlayerGuid h winner → IsGame (finish_game h winner reason)
  unfolding finish_game
  ends winner reason w = record {
    distinct = s.distinct;
    turn = s.turn;
    first = s.rest1;
    second = s.rest2;
    undecided = λ e. cc;
    decided = λ _. (winner, refl, w);
  }

switch_turn-IsGame : (g : Game) → IsGame g → IsGame (switch_turn g)
unfolding switch_turn
switch_turn-IsGame g v = record {
  distinct = v.distinct;
  turn = ground arith;
  first = v.first;
  second = v.second;
  undecided = v.undecided;
  decided = v.decided;
}

after_shot-IsGame :
    (h : Game) (shooter : String) (x y : ℤ) (b : Board) (r : ShotResult)
    → IsStruck h b r
    → IsPlayerGuid h shooter
    → IsGame (after_shot h shooter x y b r).0
unfolding after_shot
after_shot-IsGame h shooter x y b ShotResult.miss s p =
    switch_turn-IsGame h (goes_on h b ShotResult.miss s (inr (λ e. cc)))
after_shot-IsGame h shooter x y b ShotResult.kill s p = elim (Bool-cases (are_all_ships_sunk b)) [
  | inl sunk ↦ rw sunk (ends h b ShotResult.kill s shooter "all_ships_sunk" p)
  | inr afloat ↦ rw afloat (goes_on h b ShotResult.kill s (inl afloat))
]
after_shot-IsGame h shooter x y b ShotResult.hit s p = goes_on h b ShotResult.hit s (inr (λ e. cc))
after_shot-IsGame h shooter x y b ShotResult.already_shot s p =
    goes_on h b ShotResult.already_shot s (inr (λ e. cc))
after_shot-IsGame h shooter x y b ShotResult.invalid_coordinates s p =
    goes_on h b ShotResult.invalid_coordinates s (inr (λ e. cc))

-- The board of a player in battle stays afloat unless the shot killed.
still_afloat :
    (p : GamePlayer) (c : Cell)
    → IsPlayer false true p
    → (are_all_ships_sunk (shoot p.board c).0 ≡ false) ⊎ ((shoot p.board c).1 ≢ ShotResult.kill)
    → IsPlayer false true (struck p c)
still_afloat p c v (inl afloat) = struck-IsPlayer true p c v (λ _. afloat)
still_afloat p c v (inr no_kill) =
    struck-IsPlayer true p c v (λ _. shoot-afloat p.board c v.sound (v.in_battle refl).1 no_kill)

module _ (g : Game) (c : Cell) (v : IsGame g) (battle : g.state ≡ GameState.battle) where
  IsPlayer-in_battle1 : IsPlayer false true g.player1
  IsPlayer-in_battle1 = rw battle at v.first

  IsPlayer-in_battle2 : IsPlayer false true g.player2
  IsPlayer-in_battle2 = rw battle at v.second

  struck_second :
      IsStruck
        (record g { player2 = struck g.player2 c })
        (shoot g.player2.board c).0
        (shoot g.player2.board c).1
  struck_second = record {
    distinct = v.distinct;
    turn = v.turn;
    battle = battle;
    open_end = v.undecided (rw battle);
    first = λ _. IsPlayer-in_battle1;
    second = still_afloat g.player2 c IsPlayer-in_battle2;
    rest1 = at_rest IsPlayer-in_battle1;
    rest2 = struck-IsPlayer false g.player2 c IsPlayer-in_battle2 (λ e. cc);
  }

  struck_first :
      IsStruck
        (record g { player1 = struck g.player1 c })
        (shoot g.player1.board c).0
        (shoot g.player1.board c).1
  struck_first = record {
    distinct = v.distinct;
    turn = v.turn;
    battle = battle;
    open_end = v.undecided (rw battle);
    first = still_afloat g.player1 c IsPlayer-in_battle1;
    second = λ _. IsPlayer-in_battle2;
    rest1 = struck-IsPlayer false g.player1 c IsPlayer-in_battle1 (λ e. cc);
    rest2 = at_rest IsPlayer-in_battle2;
  }

abbrev pub opponent_shot : Game → String → ℤ → ℤ → Game × ShotResultInfo
opponent_shot g shooter x y =
    if shooter == g.player1.guid
    then after_shot (record g { player2 = struck g.player2 (x, y) }) shooter x y
        (shoot g.player2.board (x, y)).0 (shoot g.player2.board (x, y)).1
    else after_shot (record g { player1 = struck g.player1 (x, y) }) shooter x y
        (shoot g.player1.board (x, y)).0 (shoot g.player1.board (x, y)).1

refused : Game → ℤ → ℤ → Game × ShotResultInfo
refused g x y = (g, shot_info ShotResult.invalid_coordinates x y "")

-- Out of battle, or out of turn, a shot is refused and nothing changes.
shoot_at-refused :
    (g : Game) (shooter : String) (x y : ℤ)
    → (is_battle g.state && (g.current_turn_guid == shooter)) ≡ false
    → shoot_at g shooter x y ≡ ok (refused g x y)
unfolding shoot_at refused
shoot_at-refused g shooter x y out = ground arith

opponent_found :
    (g : Game) (shooter : String)
    → IsPlayerGuid g shooter
    → get_opponent_game_player g shooter
      ≡ ok (if shooter == g.player1.guid then g.player2 else g.player1)
unfolding get_opponent_game_player
opponent_found g shooter p = ground arith

shoot_at_taken :
    (g : Game) (shooter : String) (x y : ℤ)
    → IsPlayerGuid g shooter
    → (is_battle g.state && (g.current_turn_guid == shooter)) ≡ true
    → shoot_at g shooter x y ≡ ok (opponent_shot g shooter x y)
unfolding shoot_at set_opponent_game_player
shoot_at_taken g shooter x y p on =
    let battle : is_battle g.state ≡ true = ground arith in
    let turn : (g.current_turn_guid == shooter) ≡ true = ground arith in
    elim (Bool-cases (shooter == g.player1.guid)) [
      | inl first ↦ rw (battle, turn, opponent_found g shooter p, first)
      | inr second ↦ rw (battle, turn, opponent_found g shooter p, second)
    ]

-- `shoot` never throws. During a battle the player whose turn it is shoots at the board of the
-- other; every other call changes nothing and reports invalid coordinates.
pub shoot_at-eq :
    (g : Game) (shooter : String) (x y : ℤ)
    → IsGame g
    → shoot_at g shooter x y
      ≡ ok (
          if is_battle g.state && (g.current_turn_guid == shooter)
          then opponent_shot g shooter x y
          else (g, shot_info ShotResult.invalid_coordinates x y ""))
unfolding refused
shoot_at-eq g shooter x y v =
    elim (Bool-cases (is_battle g.state && (g.current_turn_guid == shooter))) [
      | inl on ↦ rw on (shoot_at_taken g shooter x y (ground (arith, v.turn)) on)
      | inr out ↦ rw out (shoot_at-refused g shooter x y out)
    ]

opponent_shot-IsGame :
    (g : Game) (shooter : String) (x y : ℤ)
    → IsGame g
    → IsPlayerGuid g shooter
    → g.state ≡ GameState.battle
    → IsGame (opponent_shot g shooter x y).0
opponent_shot-IsGame g shooter x y v p battle = elim (Bool-cases (shooter == g.player1.guid)) [
  | inl first ↦ rw first (
      after_shot-IsGame (record g { player2 = struck g.player2 (x, y) }) shooter x y _ _
        (struck_second g (x, y) v battle) p)
  | inr second ↦ rw second (
      after_shot-IsGame (record g { player1 = struck g.player1 (x, y) }) shooter x y _ _
        (struck_first g (x, y) v battle) p)
]

pub shoot_at-IsGame :
    (g g' : Game) (shooter : String) (x y : ℤ) (info : ShotResultInfo)
    → IsGame g
    → shoot_at g shooter x y ≡ ok (g', info)
    → IsGame g'
shoot_at-IsGame g g' shooter x y info v e =
    let made = shoot_at-eq g shooter x y v in
    elim (Bool-cases (is_battle g.state && (g.current_turn_guid == shooter))) [
      | inr out ↦ let same : g ≡ g' = ground arith in rw (← same) v
      | inl on ↦
          let next : (opponent_shot g shooter x y).0 ≡ g' = ground arith in
          rw (← next) (opponent_shot-IsGame g shooter x y v (ground (arith, v.turn)) (ground arith))
    ]
