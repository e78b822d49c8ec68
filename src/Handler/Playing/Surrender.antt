-- ===== src/Handler/Playing/Surrender.antt =====
-- MessageHandler.cpp, `handleSurrender`: the opponent wins and both are free again.
use sea_battle.Base.{◌≡◌, ◌≢◌, true, false, some, ok}
use sea_battle.Types.{SessionRef}
use sea_battle.Players.{Player}
use sea_battle.Game.Match.{Game, get_opponent_guid, is_finished, surrender}
use sea_battle.Game.Match.Invariant.{IsPlayerGuid}
use sea_battle.Game.Manager.{get_game_by_player}
use sea_battle.Handler.{World, Context, games_of}
use sea_battle.Handler.Playing.{handle_surrender}
use sea_battle.Handler.Ending.Settled.{Settled}
use sea_battle.Handler.Ending.Forfeit.{forfeit-winner, forfeit-Settled}

-- A player who plays a game that is not over and gives up: the request is carried out, the opponent is
-- the winner of the game, which is over for the reason `surrender`, both are online without a game,
-- with a win and a loss more in their statistics, and nobody else is touched.
pub handle_surrender-Settled :
    (c : Context) (w : World) (s : SessionRef) (p : Player) (g : Game)
    → get_game_by_player (games_of w) p.guid ≡ some g
    → g.player1.guid ≢ g.player2.guid
    → IsPlayerGuid g p.guid
    → is_finished g ≡ false
    → let g' = surrender g p.guid in
      (w' : World) × (handle_surrender c w s p ≡ ok w')
      × (is_finished g' ≡ true)
      × (g'.winner_guid ≡ some (get_opponent_guid g p.guid))
      × (g'.game_over_reason ≡ "surrender")
      × Settled g' (get_opponent_guid g p.guid) p.guid w w'
unfolding handle_surrender surrender is_finished
handle_surrender-Settled c w s p g plays differ player going =
    let (over, is_winner, reason) = forfeit-winner g p.guid "surrender" player in
    let (w', done, settled) = forfeit-Settled c w g p.guid "surrender" differ player in
    rw (plays, going) (w', done, over, is_winner, reason, settled)
