-- ===== src/Handler/Ending/Forfeit.antt =====
-- MessageHandler.cpp, `notifyGameOver`, for a game that a player gives up or leaves.
use sea_battle.Base.{◌≡◌, ◌≢◌, true, String, some, arith, ok, inl, inr}
use sea_battle.Game.Match.{Game, get_opponent_guid, finish_game, other_player, is_finished}
use sea_battle.Game.Match.Invariant.{IsPlayerGuid}
use sea_battle.Handler.{World, Context, set_game}
use sea_battle.Handler.Ending.{notify_game_over}
use sea_battle.Handler.Ending.Settled.{Settled, set_game-Settled, notify_game_over-Settled}

abbrev pub forfeit : Game → String → String → Game
forfeit g guid reason = finish_game g (other_player g guid) reason

-- Who wins, and who is the other one.
forfeit_lem :
    (g : Game) (guid reason : String)
    → g.player1.guid ≢ g.player2.guid
    → IsPlayerGuid g guid
    → let g' = forfeit g guid reason in
      let winner = get_opponent_guid g guid in
      (g'.winner_guid ≡ some winner) × IsPlayerGuid g' winner × (get_opponent_guid g' winner ≡ guid)
unfolding finish_game get_opponent_guid
forfeit_lem g guid reason differ (inl first) = ground arith
forfeit_lem g guid reason differ (inr second) = ground arith

pub forfeit-winner :
    (g : Game) (guid reason : String)
    → IsPlayerGuid g guid
    → (is_finished (forfeit g guid reason) ≡ true)
      × ((forfeit g guid reason).winner_guid ≡ some (get_opponent_guid g guid))
      × ((forfeit g guid reason).game_over_reason ≡ reason)
unfolding finish_game get_opponent_guid is_finished
forfeit-winner g guid reason (inl first) = ground arith
forfeit-winner g guid reason (inr second) = ground arith

pub forfeit-Settled :
    (c : Context) (w : World) (g : Game) (guid reason : String)
    → g.player1.guid ≢ g.player2.guid
    → IsPlayerGuid g guid
    → let g' = forfeit g guid reason in
      (w' : World) × (notify_game_over c g' (set_game w g') ≡ ok w')
      × Settled g' (get_opponent_guid g guid) guid w w'
unfolding finish_game
forfeit-Settled c w g guid reason differ player =
    let g' = forfeit g guid reason in
    let (is_winner, winner, loser) = forfeit_lem g guid reason differ player in
    let (w', done, settled) =
      notify_game_over-Settled c g' (set_game w g') (get_opponent_guid g guid) differ is_winner
        winner in
    (w', done, set_game-Settled g' g' _ _ _ w w' loser settled)
