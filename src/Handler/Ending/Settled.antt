-- ===== src/Handler/Ending/Settled.antt =====
-- MessageHandler.cpp, `notifyGameOver`: the players are free again, and the result is counted once.
use sea_battle.Base.{
  suc, none, ◌≡◌, ◌≢◌, refl, ap, ◌∙◌, List, String, ◌==◌, some, if◌then◌else◌, arith, ok, find,
  find-assign, string_key,
}
use sea_battle.Types.{CellInfo, PlayerStatus}
use sea_battle.Players.{Player, set_status, set_current_game_id}
use sea_battle.Players.Stats.{record_win, record_loss}
use sea_battle.Players.Directory.{get_player, update, find-update, when_found}
use sea_battle.Game.Board.View.{get_full_state}
use sea_battle.Game.Match.{
  Game, get_opponent_guid, get_game_player, get_board_full_state, notify_spectators,
  cleanup_spectators,
}
use sea_battle.Game.Match.Invariant.{IsPlayerGuid}
use sea_battle.Handler.{
  World, Context, set_game, players_of, games_of, send_to_player, broadcast_if,
}
use sea_battle.Handler.Ending.{winner_of, won, lost, settle, announce_end, notify_game_over}

-- A player who has won, and one who has lost: online, in no game, and with one game more.
abbrev pub winner_after : Player → Player
winner_after p = record p {
  status = PlayerStatus.online;
  current_game_id = none;
  stats = record p.stats { wins = suc p.stats.wins; games_played = suc p.stats.games_played };
}

abbrev pub loser_after : Player → Player
loser_after p = record p {
  status = PlayerStatus.online;
  current_game_id = none;
  stats = record p.stats { losses = suc p.stats.losses; games_played = suc p.stats.games_played };
}

-- What the end of a game leaves: the winner and the loser have one game more in their statistics and
-- are online without a game, nobody else is touched, and the game is kept with its result; the queue,
-- the invitations and the sessions are as before.
pub record Settled (g : Game) (winner loser : String) (w w' : World) : Type 0 where
  pub players :
      (guid : String)
      → get_player (players_of w') guid ≡ (
          if winner == guid
          then when_found winner_after (get_player (players_of w) guid)
          else if loser == guid
          then when_found loser_after (get_player (players_of w) guid)
          else get_player (players_of w) guid)
  pub kept :
      (h : Game) × (find (games_of w').games g.id ≡ some h)
      × (h.state ≡ g.state)
      × (h.winner_guid ≡ g.winner_guid)
      × (h.player1 ≡ g.player1)
      × (h.player2 ≡ g.player2)
  pub queue : w'.hall.queue ≡ w.hall.queue
  pub invites : w'.hall.invites ≡ w.hall.invites
  pub registry : w'.registry ≡ w.registry
  pub player_of : w'.player_of ≡ w.player_of

settle-players :
    (g : Game) (w : World) (winner loser guid : String)
    → winner_of g ≡ winner
    → get_opponent_guid g winner ≡ loser
    → winner ≢ loser
    → get_player (players_of (settle g w)) guid ≡ (
        if winner == guid
        then when_found won (get_player (players_of w) guid)
        else if loser == guid
        then when_found lost (get_player (players_of w) guid)
        else get_player (players_of w) guid)
unfolding settle get_player
settle-players g w winner loser guid is_winner is_loser differ =
    rw (is_winner, is_loser)
      (ground (
        arith,
        find-update lost (update won w.hall.players winner) loser guid,
        find-update won w.hall.players winner guid,
      ))

module _ (c : Context) where
  boards_found :
      (g : Game)
      → (get_board_full_state g g.player1.guid ≡ ok (get_full_state g.player1.board))
        × (g.player1.guid ≢ g.player2.guid
            → get_board_full_state g g.player2.guid ≡ ok (get_full_state g.player2.board))
  unfolding get_board_full_state get_game_player
  boards_found g = (ground arith, λ differ. ground arith)

  -- The messages change nothing but the list of spectators.
  pub hall_after :
      (g : Game) (b1 b2 : List CellInfo) (w : World)
      → let w' = announce_end c g b1 b2 w in
        (w'.hall ≡ (set_game w (notify_spectators c.alive g).0).hall)
        × (w'.registry ≡ w.registry)
        × (w'.player_of ≡ w.player_of)
  unfolding announce_end send_to_player broadcast_if notify_spectators cleanup_spectators
  hall_after g b1 b2 w = (refl, refl, refl)

  announce_end-Settled :
      (g : Game) (b1 b2 : List CellInfo) (w : World) (winner : String)
      → g.winner_guid ≡ some winner
      → winner ≢ get_opponent_guid g winner
      → Settled g winner (get_opponent_guid g winner) w (announce_end c g b1 b2 (settle g w))
  unfolding notify_spectators cleanup_spectators settle record_win record_loss set_status
      set_current_game_id
  announce_end-Settled g b1 b2 w winner is_winner differ =
      let (hall, registry, player_of) = hall_after g b1 b2 (settle g w) in
      let kept = (notify_spectators c.alive g).0 in
      record {
        players = λ guid.
            ap (λ h. get_player h.players guid) hall
            ∙ settle-players g w winner (get_opponent_guid g winner) guid (rw is_winner) refl
                differ;
        kept = (
          kept,
          ap (λ h. find h.games.games g.id) hall
              ∙ find-assign w.hall.games.games g.id kept g.id
              ∙ ground arith,
          refl,
          refl,
          refl,
          refl,
        );
        queue = ap (λ h. h.queue) hall;
        invites = ap (λ h. h.invites) hall;
        registry = registry;
        player_of = player_of;
      }

  pub notify_game_over-Settled :
      (g : Game) (w : World) (winner : String)
      → g.player1.guid ≢ g.player2.guid
      → g.winner_guid ≡ some winner
      → IsPlayerGuid g winner
      → (w' : World) × (notify_game_over c g w ≡ ok w')
        × Settled g winner (get_opponent_guid g winner) w w'
  unfolding notify_game_over get_opponent_guid
  notify_game_over-Settled g w winner differ is_winner plays =
      let (board1, board2) = boards_found g in
      (
        announce_end c g (get_full_state g.player1.board) (get_full_state g.player2.board)
            (settle g w),
        rw (board1, board2 differ),
        announce_end-Settled g _ _ w winner is_winner (ground arith),
      )

-- That the game was stored just before makes no difference.
pub set_game-Settled :
    (g h : Game) (winner loser loser' : String) (w w' : World)
    → loser ≡ loser'
    → Settled g winner loser (set_game w h) w'
    → Settled g winner loser' w w'
set_game-Settled g h winner loser loser' w w' same e = rw (← same) record {
  players = e.players;
  kept = e.kept;
  queue = e.queue;
  invites = e.invites;
  registry = e.registry;
  player_of = e.player_of;
}
