-- ===== src/Handler/Ending.antt =====
-- MessageHandler.cpp, `notifyGameOver`, and its call when a player's session has gone (Server.cpp).
pub mod Settled
pub mod Forfeit
use sea_battle.Base.{keep_if, List, String, none, some, ok, Throws, ◌>>=◌}
use sea_battle.Types.{PlayerStatus, CellInfo}
use sea_battle.Players.{Player, set_status, set_current_game_id}
use sea_battle.Players.Stats.{record_win, record_loss}
use sea_battle.Players.Directory.{player_exists}
use sea_battle.Game.Match.{Game, get_opponent_guid, get_board_full_state, notify_spectators}
use sea_battle.Protocol.Messages.{Message}
use sea_battle.Handler.{
  World, Context, on_player, set_game, players_of, post_all, send_to_player, broadcast_if,
}

-- The winner, or the empty text when there is none.
abbrev pub winner_of : Game → String
winner_of g = elim g.winner_guid [ none ↦ "" | some guid ↦ guid ]

abbrev pub free : Player → Player
free p = set_current_game_id none (set_status PlayerStatus.online p)

abbrev pub won : Player → Player
won p = free (record p { stats = record_win p.stats })

abbrev pub lost : Player → Player
lost p = free (record p { stats = record_loss p.stats })

-- What happens to the two players; a player who is not in the directory is passed over.
unfoldable pub settle : Game → World → World
settle g w = on_player lost (get_opponent_guid g (winner_of g)) (on_player won (winner_of g) w)

module _ (c : Context) where
  -- `game->notifySpectators`.
  abbrev pub tell_spectators : Game → Message → World → World
  tell_spectators g m w =
      let (g', watching) = notify_spectators c.alive g in
      let told = set_game w g' in
      record told { sent = post_all (keep_if c.is_open watching) m told.sent }

  abbrev pub tell_online : String → World → World
  tell_online guid w =
      broadcast_if c (player_exists (players_of w) guid)
        (Message.player_status_changed guid PlayerStatus.online none) w

  -- The messages about the end, with both boards.
  unfoldable pub announce_end : Game → List CellInfo → List CellInfo → World → World
  announce_end g board1 board2 w =
      let over = Message.game_over (winner_of g) g.game_over_reason board1 board2 in
      tell_online (get_opponent_guid g (winner_of g)) (
        tell_online (winner_of g) (
          tell_spectators g over
            (send_to_player c g.player2.guid over (send_to_player c g.player1.guid over w))))

  unfoldable pub notify_game_over : Game → World → Throws World
  notify_game_over g w = do
    board1 ← get_board_full_state g g.player1.guid
    board2 ← get_board_full_state g g.player2.guid
    ok (announce_end g board1 board2 (settle g w))
