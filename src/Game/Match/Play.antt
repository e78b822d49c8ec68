-- ===== src/Game/Match/Play.antt =====
-- Game.cpp: sequences of calls, as the server makes them for two players and the spectators.
use sea_battle.Base.{
  ◌≡◌, inl, inr, Bool, true, false, ◌&&◌, String, none, some, arith, Bool-cases, ℤ, ◌==◌,
  if◌then◌else◌, ok,
}
use sea_battle.Types.{ShotResult, ShotResultInfo}
use sea_battle.Game.Board.{Board, shoot, are_all_ships_sunk}
use sea_battle.Game.Match.Invariant.{IsGame}
use sea_battle.Game.Match.Turns.{opponent_shot, struck, shoot_at-eq}
use sea_battle.Game.Match.{
  Game, is_battle, is_finished, switch_turn, finish_game, after_shot, shoot_at, other_player,
}

abbrev pub is_miss : ShotResult → Bool
is_miss ShotResult.miss = true
is_miss _ = false

abbrev pub is_kill : ShotResult → Bool
is_kill ShotResult.kill = true
is_kill _ = false

-- The board that the shooter aims at.
abbrev pub target_board : Game → String → Board
target_board g shooter = if shooter == g.player1.guid then g.player2.board else g.player1.board

-- The turn passes to the opponent exactly on a miss; the result of the board is reported, with the
-- player who is next; the game ends exactly when the last ship was killed, and the shooter wins.
abbrev pub TurnRules : Game → String → Board × ShotResult → Game × ShotResultInfo → Type 0
TurnRules g shooter (b, r) (g', info) =
    (info.result ≡ r)
    × (g'.current_turn_guid ≡ (if is_miss r then other_player g shooter else shooter))
    × (info.next_turn_guid ≡ g'.current_turn_guid)
    × (is_finished g' ≡ (is_kill r && are_all_ships_sunk b))
    × (g'.winner_guid ≡ (if is_kill r && are_all_ships_sunk b then some shooter else none))

after_shot-rules :
    (h : Game) (shooter : String) (x y : ℤ) (b : Board) (r : ShotResult)
    → is_battle h.state ≡ true
    → h.current_turn_guid ≡ shooter
    → h.winner_guid ≡ none
    → TurnRules h shooter (b, r) (after_shot h shooter x y b r)
unfolding after_shot switch_turn finish_game is_finished
after_shot-rules h shooter x y b r battle turn undecided = ground arith

opponent_shot-rules :
    (g : Game) (shooter : String) (x y : ℤ)
    → IsGame g
    → is_battle g.state ≡ true
    → g.current_turn_guid ≡ shooter
    → TurnRules g shooter (shoot (target_board g shooter) (x, y)) (opponent_shot g shooter x y)
opponent_shot-rules g shooter x y v battle turn =
    let open_end = v.undecided (ground arith) in
    elim (Bool-cases (shooter == g.player1.guid)) [
      | inl first ↦ rw first (
          rw first at (
            after_shot-rules (record g { player2 = struck g.player2 (x, y) }) shooter x y
              (shoot g.player2.board (x, y)).0 (shoot g.player2.board (x, y)).1 battle turn
              open_end))
      | inr second ↦ rw second (
          rw second at (
            after_shot-rules (record g { player1 = struck g.player1 (x, y) }) shooter x y
              (shoot g.player1.board (x, y)).0 (shoot g.player1.board (x, y)).1 battle turn
              open_end))
    ]

-- In a battle, when the player whose turn it is shoots at any coordinates: the call returns; the
-- turn passes to the opponent exactly on a miss; the result is the opponent's board's, and names
-- the player who is next; the game ends, with the shooter as its winner, exactly when the shot
-- kills the last ship of the opponent.
pub shoot_at-TurnRules :
    (g : Game) (shooter : String) (x y : ℤ)
    → IsGame g
    → is_battle g.state ≡ true
    → g.current_turn_guid ≡ shooter
    → (out : Game × ShotResultInfo) × (shoot_at g shooter x y ≡ ok out)
      × TurnRules g shooter (shoot (target_board g shooter) (x, y)) out
shoot_at-TurnRules g shooter x y v battle turn = (
  opponent_shot g shooter x y,
  ground (arith, shoot_at-eq g shooter x y v),
  opponent_shot-rules g shooter x y v battle turn,
)
