-- ===== src/Handler/Dispatch/Unchanged/Meetings.antt =====
-- MessageHandler.cpp: the sessions under requests about friends, statistics, invitations and the search
-- for an opponent.
use sea_battle.Base.{
  ℕ, zero, suc, ◌≡◌, refl, inl, inr, Bool, true, false, String, Option, none, some, arith,
  Bool-cases, Option-cases, ok, throw, Throws, number_key,
}
use sea_battle.Types.{SessionRef}
use sea_battle.Players.{Player}
use sea_battle.Game.Match.{Game}
use sea_battle.Lobby.{try_match_players}
use sea_battle.Handler.{World, Context, send, send_error, send_to_player, broadcast_message}
use sea_battle.Handler.Account.{befriend, unfriend, show_stats}
use sea_battle.Handler.Meeting.{
  notify_game_start, check_matchmaking, handle_find_game, invite_target, respond, invite_found,
  start_invited, respond_to, is_player_online,
}
use sea_battle.Handler.Meeting.{is_in_game_status}
use sea_battle.Lobby.{Hall}
use sea_battle.Lobby.Invites.{GameInvite}
use sea_battle.Players.Directory.{get_player}
use sea_battle.Handler.{players_of}

-- What no request but a login changes.
abbrev pub Keeps : World → World → Type 0
Keeps w w' = (w'.registry ≡ w.registry) × (w'.player_of ≡ w.player_of)

abbrev pub KeepsAll : World → Throws World → Type 0
KeepsAll w (ok w') = Keeps w w'
KeepsAll w (throw e) = Unit

module _ (c : Context) where
  check_matchmaking-Keeps : (fuel k : ℕ) (w : World) → Keeps w (check_matchmaking c fuel k w)
  unfolding check_matchmaking notify_game_start send_to_player broadcast_message
  check_matchmaking-Keeps zero k w = (refl, refl)
  check_matchmaking-Keeps (suc fuel) k w =
      elim (Option-cases (try_match_players (c.fresh k) (c.heads k) (λ d. d) w.hall).1) [
        | inl over ↦ rw (check_matchmaking, over) (refl, refl)
        | inr (g, made) ↦ rw (check_matchmaking, made) (check_matchmaking-Keeps fuel (suc k) _)
      ]

  pub befriend-Keeps :
      (w : World) (s : SessionRef) (p : Player) (target : Option String)
      → Keeps w (befriend c w s p target)
  unfolding send send_error
  befriend-Keeps w s p none = (refl, refl)
  befriend-Keeps w s p (some guid) = ground arith

  pub unfriend-Keeps :
      (w : World) (s : SessionRef) (p : Player) (target : Option String)
      → Keeps w (unfriend c w s p target)
  unfolding send send_error
  unfriend-Keeps w s p none = (refl, refl)
  unfriend-Keeps w s p (some guid) = (refl, refl)

  pub show_stats-Keeps :
      (w : World) (s : SessionRef) (target : Option Player) → Keeps w (show_stats c w s target)
  unfolding send send_error
  show_stats-Keeps w s none = (refl, refl)
  show_stats-Keeps w s (some p) = (refl, refl)

  invite_found-Keeps :
      (w : World) (s : SessionRef) (p : Player) (guid : String) (target : Option Player)
      → Keeps w (invite_found c w s p guid target)
  unfolding send send_error send_to_player
  invite_found-Keeps w s p guid none = (refl, refl)
  invite_found-Keeps w s p guid (some q) = ground arith

  pub invite_target-Keeps :
      (w : World) (s : SessionRef) (p : Player) (target : Option String)
      → Keeps w (invite_target c w s p target)
  unfolding send send_error
  invite_target-Keeps w s p none = (refl, refl)
  invite_target-Keeps w s p (some guid) = invite_found-Keeps w s p guid _

  start_invited-Keeps :
      (w : World) (s : SessionRef) (out : Hall × Option Game) → Keeps w (start_invited c w s out)
  unfolding send send_error notify_game_start send_to_player broadcast_message
  start_invited-Keeps w s (hall, none) = (refl, refl)
  start_invited-Keeps w s (hall, some g) = (refl, refl)

  respond_to-Keeps :
      (w : World) (s : SessionRef) (p : Player) (id : String) (accepted : Bool)
      (invite : Option GameInvite)
      → Keeps w (respond_to c w s p id accepted invite)
  unfolding send send_error
  respond_to-Keeps w s p id accepted none = (refl, refl)
  respond_to-Keeps w s p id false (some i) = (refl, refl)
  respond_to-Keeps w s p id true (some i) =
      elim (Bool-cases (is_player_online (get_player (players_of w) i.from_guid))) [
        | inl online ↦ rw online (start_invited-Keeps w s _)
        | inr away ↦ rw away (refl, refl)
      ]

  pub respond-Keeps :
      (w : World) (s : SessionRef) (p : Player) (id : Option String) (accepted : Option Bool)
      → Keeps w (respond c w s p id accepted)
  unfolding send send_error
  respond-Keeps w s p none accepted = (refl, refl)
  respond-Keeps w s p (some id) none = (refl, refl)
  respond-Keeps w s p (some id) (some accepted) = respond_to-Keeps w s p id accepted _

  pub find_game-Keeps :
      (w : World) (s : SessionRef) (p : Player) → Keeps w (handle_find_game c w s p)
  unfolding handle_find_game send send_error
  find_game-Keeps w s p = elim (Bool-cases (is_in_game_status p.status)) [
    | inl busy ↦ rw busy (refl, refl)
    | inr free ↦ rw free (check_matchmaking-Keeps _ 0 _)
  ]
