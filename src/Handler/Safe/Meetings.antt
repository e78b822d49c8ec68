-- ===== src/Handler/Safe/Meetings.antt =====
-- MessageHandler.cpp: the search for an opponent and the answer to an invitation.
use mathlib.Core.Path.{subst}
use sea_battle.Base.{
  ℕ, zero, suc, ◌≤◌, ◌≡◌, refl, sym, ap, ◌∙◌, inl, inr, Bool, true, false, String, Option, none,
  some, arith, Bool-cases, Option-cases, number_key, string_key, find,
}
use sea_battle.Types.{SessionRef}
use sea_battle.Players.{Player}
use sea_battle.Players.Directory.{get_player}
use sea_battle.Game.Match.{Game}
use sea_battle.Lobby.{Hall, try_match_players, accept_invite, decline, add_to_queue}
use sea_battle.Lobby.Queue.{get_queue_size}
use sea_battle.Protocol.Messages.{Message}
use sea_battle.Lobby.Invites.{GameInvite}
use sea_battle.Handler.{
  World, Context, games_of, players_of, with_hall, send, send_error, send_to_player,
  broadcast_message,
}
use sea_battle.Handler.Server.{IsFresh}
use sea_battle.Handler.Meeting.{
  notify_game_start, check_matchmaking, handle_find_game, start_invited, respond_to, respond,
  is_player_online, is_in_game_status, queue_length,
}
use sea_battle.Handler.Safe.Games.{IsSafe}
use sea_battle.Handler.Safe.Lobby.{Opened, try_match_players-Opened, accept_invite-Opened}
use sea_battle.Handler.Safe.Accounts.{SameGames}

pub add_to_queue-games : (l : Hall) (guid : String) → (add_to_queue l (some guid)).games ≡ l.games
unfolding add_to_queue
add_to_queue-games l guid = ground arith

module _ (c : Context) where
  notify_game_start-SameGames : (g : Game) (w : World) → SameGames w (notify_game_start c g w)
  unfolding notify_game_start send_to_player broadcast_message
  notify_game_start-SameGames g w = refl

  -- From the round `k` on the identifiers are new.
  abbrev pub FreshFrom : ℕ → World → Type 0
  FreshFrom k w = (j : ℕ) → k ≤ j → find (games_of w).games (c.fresh j) ≡ none

  pub Opened-FreshFrom :
      ((i j : ℕ) → c.fresh i ≡ c.fresh j → i ≡ j)
      → (k : ℕ) (w : World) (l : Hall) → FreshFrom k w
      → Opened (c.fresh k) (games_of w) l.games
      → FreshFrom (suc k) (with_hall w l)
  Opened-FreshFrom distinct k w l fresh (safe, others) j later =
      others (c.fresh j) (ground (arith, distinct k j)) ∙ fresh j (omega arith)

  matching-IsSafe :
      ((i j : ℕ) → c.fresh i ≡ c.fresh j → i ≡ j)
      → (fuel k : ℕ) (w : World) → IsSafe (games_of w)
      → FreshFrom k w
      → IsSafe (games_of (check_matchmaking c fuel k w))
  unfolding check_matchmaking notify_game_start send_to_player broadcast_message
  matching-IsSafe distinct zero k w v fresh = v
  matching-IsSafe distinct (suc fuel) k w v fresh =
      let found = try_match_players (c.fresh k) (c.heads k) (λ d. d) w.hall in
      let opened =
        try_match_players-Opened (c.fresh k) (c.heads k) w.hall v (fresh k (omega arith)) in
      elim (Option-cases found.1) [
        | inl over ↦ rw (check_matchmaking, over) opened.0
        | inr (g, made) ↦
            rw (check_matchmaking, made)
              (matching-IsSafe distinct fuel (suc k) (notify_game_start c g (with_hall w found.0))
                opened.0 (Opened-FreshFrom distinct k w found.0 fresh opened))
      ]

  pub find_game-IsSafe :
      (w : World) (s : SessionRef) (p : Player)
      → IsSafe (games_of w)
      → IsFresh c w
      → IsSafe (games_of (handle_find_game c w s p))
  unfolding handle_find_game send send_error
  find_game-IsSafe w s p v fresh = elim (Bool-cases (is_in_game_status p.status)) [
    | inl busy ↦ rw busy v
    | inr free ↦
        let queued = with_hall w (add_to_queue w.hall (some p.guid)) in
        let same = add_to_queue-games w.hall p.guid in
        let told = send c queued s (
          Message.find_game_response true
            (get_queue_size (get_player (players_of queued)) queued.hall.queue)) in
        rw free (
          matching-IsSafe fresh.distinct (suc (queue_length queued)) 0 told
            (subst IsSafe (sym same) v)
            (λ j later. ap (λ m. find m.games (c.fresh j)) same ∙ fresh.no_game j))
  ]

  pub start_invited-SameGames :
      (w : World) (s : SessionRef) (out : Hall × Option Game)
      → games_of (start_invited c w s out) ≡ out.0.games
  unfolding send send_error notify_game_start send_to_player broadcast_message
  start_invited-SameGames w s (hall, none) = refl
  start_invited-SameGames w s (hall, some g) = refl

  respond_to-IsSafe :
      (w : World) (s : SessionRef) (p : Player) (id : String) (accepted : Bool)
      (invite : Option GameInvite)
      → IsSafe (games_of w)
      → IsFresh c w
      → IsSafe (games_of (respond_to c w s p id accepted invite))
  unfolding send send_error decline
  respond_to-IsSafe w s p id accepted none v fresh = v
  respond_to-IsSafe w s p id false (some i) v fresh = v
  respond_to-IsSafe w s p id true (some i) v fresh =
      elim (Bool-cases (is_player_online (get_player (players_of w) i.from_guid))) [
        | inl online ↦
            let from = get_player (players_of w) i.from_guid in
            let out =
              accept_invite c.second c.now (c.fresh 0) (c.heads 0) w.hall id from (some p) in
            let (safe, _) =
              accept_invite-Opened (c.fresh 0) (c.heads 0) c.second c.now w.hall id from (some p) v
                (fresh.no_game 0) in
            rw online (subst IsSafe (sym (start_invited-SameGames w s out)) safe)
        | inr away ↦ rw away v
      ]

  pub respond-IsSafe :
      (w : World) (s : SessionRef) (p : Player) (id : Option String) (accepted : Option Bool)
      → IsSafe (games_of w)
      → IsFresh c w
      → IsSafe (games_of (respond c w s p id accepted))
  unfolding send send_error
  respond-IsSafe w s p none accepted v fresh = v
  respond-IsSafe w s p (some id) none v fresh = v
  respond-IsSafe w s p (some id) (some accepted) v fresh =
      respond_to-IsSafe w s p id accepted _ v fresh
