-- ===== src/Handler/Results/Meetings.antt =====
-- MessageHandler.cpp: the results of games when new games begin.
use sea_battle.Base.{
  ℕ, zero, suc, ◌≡◌, ap, ◌∙◌, inl, inr, Bool, true, false, String, Option, none, some, arith,
  Bool-cases, Option-cases, number_key, string_key, find, sym,
}
use mathlib.Core.Path.{subst}
use sea_battle.Types.{SessionRef}
use sea_battle.Players.{Player}
use sea_battle.Players.Directory.{get_player}
use sea_battle.Lobby.{try_match_players, accept_invite, decline, add_to_queue}
use sea_battle.Lobby.Queue.{get_queue_size}
use sea_battle.Lobby.Invites.{GameInvite}
use sea_battle.Protocol.Messages.{Message}
use sea_battle.Handler.{
  World, Context, games_of, players_of, with_hall, send, send_error, send_to_player,
  broadcast_message,
}
use sea_battle.Handler.Meeting.{
  notify_game_start, check_matchmaking, handle_find_game, respond_to, respond, is_player_online,
  is_in_game_status, queue_length,
}
use sea_battle.Handler.Server.{IsFresh}
use sea_battle.Handler.Safe.Games.{IsSafe}
use sea_battle.Handler.Safe.Lobby.{try_match_players-Opened, accept_invite-Opened}
use sea_battle.Handler.Safe.Meetings.{
  FreshFrom, add_to_queue-games, start_invited-SameGames, Opened-FreshFrom,
}
use sea_battle.Handler.Results.Kept.{Kept, refl-Kept, same-Kept, trans-Kept, Opened-Kept}

module _ (c : Context) where
  matching-Kept :
      ((i j : ℕ) → c.fresh i ≡ c.fresh j → i ≡ j)
      → (fuel k : ℕ) (w : World) → IsSafe (games_of w)
      → FreshFrom c k w
      → Kept (games_of w).games (games_of (check_matchmaking c fuel k w)).games
  unfolding check_matchmaking notify_game_start send_to_player broadcast_message
  matching-Kept distinct zero k w v fresh = refl-Kept (games_of w).games
  matching-Kept distinct (suc fuel) k w v fresh =
      let found = try_match_players (c.fresh k) (c.heads k) (λ d. d) w.hall in
      let free = fresh k (omega arith) in
      let opened = try_match_players-Opened (c.fresh k) (c.heads k) w.hall v free in
      let kept = Opened-Kept (c.fresh k) (games_of w) found.0.games free opened in
      elim (Option-cases found.1) [
        | inl over ↦ rw (check_matchmaking, over) kept
        | inr (g, made) ↦
            rw (check_matchmaking, made)
              (trans-Kept _ _ _ kept (
                matching-Kept distinct fuel (suc k) (notify_game_start c g (with_hall w found.0))
                  opened.0 (Opened-FreshFrom c distinct k w found.0 fresh opened)))
      ]

  pub find_game-Kept :
      (w : World) (s : SessionRef) (p : Player)
      → IsSafe (games_of w)
      → IsFresh c w
      → Kept (games_of w).games (games_of (handle_find_game c w s p)).games
  unfolding handle_find_game send send_error
  find_game-Kept w s p v fresh = elim (Bool-cases (is_in_game_status p.status)) [
    | inl busy ↦ rw busy (refl-Kept (games_of w).games)
    | inr free ↦
        let queued = with_hall w (add_to_queue w.hall (some p.guid)) in
        let same = add_to_queue-games w.hall p.guid in
        let told = send c queued s (
          Message.find_game_response true
            (get_queue_size (get_player (players_of queued)) queued.hall.queue)) in
        rw free (
          trans-Kept _ _ _ (same-Kept same) (
            matching-Kept fresh.distinct (suc (queue_length queued)) 0 told
              (subst IsSafe (sym same) v)
              (λ j later. ap (λ m. find m.games (c.fresh j)) same ∙ fresh.no_game j)))
  ]

  respond_to-Kept :
      (w : World) (s : SessionRef) (p : Player) (id : String) (accepted : Bool)
      (invite : Option GameInvite)
      → IsSafe (games_of w)
      → IsFresh c w
      → Kept (games_of w).games (games_of (respond_to c w s p id accepted invite)).games
  unfolding send send_error decline
  respond_to-Kept w s p id accepted none v fresh = refl-Kept (games_of w).games
  respond_to-Kept w s p id false (some i) v fresh = refl-Kept (games_of w).games
  respond_to-Kept w s p id true (some i) v fresh =
      elim (Bool-cases (is_player_online (get_player (players_of w) i.from_guid))) [
        | inl online ↦
            let from = get_player (players_of w) i.from_guid in
            let out =
              accept_invite c.second c.now (c.fresh 0) (c.heads 0) w.hall id from (some p) in
            let free = fresh.no_game 0 in
            let opened =
              accept_invite-Opened (c.fresh 0) (c.heads 0) c.second c.now w.hall id from (some p) v
                free in
            rw online (
              trans-Kept _ _ _ (Opened-Kept (c.fresh 0) (games_of w) out.0.games free opened)
                (same-Kept (start_invited-SameGames c w s out)))
        | inr away ↦ rw away (refl-Kept (games_of w).games)
      ]

  pub respond-Kept :
      (w : World) (s : SessionRef) (p : Player) (id : Option String) (accepted : Option Bool)
      → IsSafe (games_of w)
      → IsFresh c w
      → Kept (games_of w).games (games_of (respond c w s p id accepted)).games
  unfolding send send_error
  respond-Kept w s p none accepted v fresh = refl-Kept (games_of w).games
  respond-Kept w s p (some id) none v fresh = refl-Kept (games_of w).games
  respond-Kept w s p (some id) (some accepted) v fresh = respond_to-Kept w s p id accepted _ v fresh
