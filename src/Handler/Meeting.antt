-- ===== src/Handler/Meeting.antt =====
-- MessageHandler.cpp: the search for an opponent, invitations, and the start of a game.
pub mod Matchmaking
pub mod Accepted
use sea_battle.Base.{
  ℕ, zero, suc, Bool, true, false, not, String, ◌==◌, Option, none, some, length, if◌then◌else◌,
  pos,
}
use sea_battle.Types.{SessionRef, PlayerStatus}
use sea_battle.Players.{Player, is_online_status}
use sea_battle.Players.Directory.{get_player}
use sea_battle.Game.Match.{Game, get_player_nickname}
use sea_battle.Lobby.{
  Hall, add_to_queue, remove_from_queue, send_invite, accept_invite, decline, try_match_players,
}
use sea_battle.Lobby.Queue.{get_queue_size}
use sea_battle.Lobby.Invites.{GameInvite, get_invite}
use sea_battle.Protocol.Messages.{Message}
use sea_battle.Protocol.Payload.{JsonLibrary, extract_string, extract_bool}
use sea_battle.Handler.{
  World, Context, with_hall, players_of, send, send_error, send_to_player, broadcast_message,
  first_given,
}

abbrev pub is_in_game_status : PlayerStatus → Bool
is_in_game_status PlayerStatus.in_game = true
is_in_game_status _ = false

abbrev pub is_offline_status : PlayerStatus → Bool
is_offline_status PlayerStatus.offline = true
is_offline_status _ = false

abbrev pub queue_length : World → ℕ
queue_length w = length w.hall.queue

abbrev pub is_player_online : Option Player → Bool
is_player_online none = false
is_player_online (some p) = is_online_status p.status

-- A value under one of two keys.
abbrev pub or_else : Option Bool → Option Bool → Option Bool
or_else none second = second
or_else (some b) second = some b

module _ (c : Context) where
  unfoldable pub notify_game_start : Game → World → World
  notify_game_start g w =
      let guid1 = g.player1.guid in
      let guid2 = g.player2.guid in
      broadcast_message c (Message.player_status_changed guid2 PlayerStatus.in_game (some g.id)) (
        broadcast_message c (Message.player_status_changed guid1 PlayerStatus.in_game (some g.id)) (
          send_to_player c guid2 (Message.game_started g.id guid1 (get_player_nickname g guid1)) (
            send_to_player c guid1 (Message.game_started g.id guid2 (get_player_nickname g guid2))
              w)))

  -- The loop, on fuel; a match takes two players out of the queue. `k` is the number of the round.
  unfoldable pub check_matchmaking : ℕ → ℕ → World → World
  check_matchmaking zero k w = w
  check_matchmaking (suc fuel) k w =
      let found = try_match_players (c.fresh k) (c.heads k) (λ d. d) w.hall in
      elim found.1 [
        | none ↦ with_hall w found.0
        | some g ↦ check_matchmaking fuel (suc k) (notify_game_start g (with_hall w found.0))
      ]

  unfoldable pub handle_find_game : World → SessionRef → Player → World
  handle_find_game w s player =
      if is_in_game_status player.status
      then send_error c w s (pos 3003)
      else let queued = with_hall w (add_to_queue w.hall (some player.guid)) in
        check_matchmaking (suc (queue_length queued)) 0 (
          send c queued s (
            Message.find_game_response true
              (get_queue_size (get_player (players_of queued)) queued.hall.queue)))

  unfoldable pub handle_cancel_search : World → SessionRef → Player → World
  handle_cancel_search w s player =
      send c (with_hall w (remove_from_queue w.hall player.guid)) s
        (Message.success "cancel_search")

  -- The end of `handleInvite`, with what `sendInvite` returned.
  abbrev pub announce_invite : World → SessionRef → Player → String → Hall × String → World
  announce_invite w s player target (hall, invite_id) =
      if invite_id == ""
      then send_error c (with_hall w hall) s (pos 4001)
      else send_to_player c target (Message.invite_received invite_id player.guid player.nickname)
          (send c (with_hall w hall) s (Message.invite_response true invite_id))

  abbrev pub invite_found : World → SessionRef → Player → String → Option Player → World
  invite_found w s player target none = send_error c w s (pos 3001)
  invite_found w s player target (some p) =
      if is_offline_status p.status
      then send_error c w s (pos 3002)
      else if is_in_game_status p.status
      then send_error c w s (pos 3003)
      else announce_invite w s player target
          (send_invite c.second c.now w.hall (c.fresh 0) player.guid target)

  abbrev pub invite_target : World → SessionRef → Player → Option String → World
  invite_target w s player none = send_error c w s (pos 3001)
  invite_target w s player (some target) =
      invite_found w s player target (get_player (players_of w) target)

  -- The end of `handleInviteResponse`, with what `acceptInvite` returned.
  abbrev pub start_invited : World → SessionRef → Hall × Option Game → World
  start_invited w s (hall, none) = send_error c (with_hall w hall) s (pos 3002)
  start_invited w s (hall, some g) = notify_game_start g (with_hall w hall)

  abbrev pub accept_from : World → SessionRef → Player → String → Option Player → World
  accept_from w s player id from =
      if not (is_player_online from)
      then with_hall (send_error c w s (pos 3002)) (decline w.hall id).0
      else start_invited w s
          (accept_invite c.second c.now (c.fresh 0) (c.heads 0) w.hall id from (some player))

  abbrev pub respond_to : World → SessionRef → Player → String → Bool → Option GameInvite → World
  respond_to w s player id accepted none = send_error c w s (pos 4002)
  respond_to w s player id accepted (some invite) =
      if not accepted
      then send c (with_hall w (decline w.hall id).0) s (Message.invite_response true id)
      else accept_from w s player id (get_player (players_of w) invite.from_guid)

  abbrev pub respond : World → SessionRef → Player → Option String → Option Bool → World
  respond w s player (some id) (some accepted) =
      respond_to w s player id accepted (get_invite c.second c.now w.hall.invites id)
  respond w s player _ _ = send_error c w s (pos 4001)

  module _ {Json : Type 0} (lib : JsonLibrary Json) where
    unfoldable pub handle_invite : World → SessionRef → Player → Json → World
    handle_invite w s player payload =
        invite_target w s player (
          first_given (extract_string lib payload "guid")
            (extract_string lib payload "target_guid"))

    unfoldable pub handle_invite_response : World → SessionRef → Player → Json → World
    handle_invite_response w s player payload =
        respond w s player (extract_string lib payload "invite_id")
          (or_else (extract_bool lib payload "accept") (extract_bool lib payload "accepted"))
