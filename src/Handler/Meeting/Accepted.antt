-- ===== src/Handler/Meeting/Accepted.antt =====
-- MessageHandler.cpp, `handleInviteResponse`: an invitation that is accepted becomes a game.
use sea_battle.Base.{
  ◌≡◌, true, ◌||◌, String, ◌==◌, Option, none, some, if◌then◌else◌, find, string_key,
}
use sea_battle.Types.{SessionRef}
use sea_battle.Players.{Player, is_online_status}
use sea_battle.Players.Directory.{get_player, when_found}
use sea_battle.Game.Match.{Game}
use sea_battle.Game.Manager.{get_game_by_player}
use sea_battle.Game.Manager.Players.{IsManager}
use sea_battle.Lobby.{Hall, accept_invite}
use sea_battle.Lobby.Invites.{GameInvite, get_invite}
use sea_battle.Lobby.Invites.{accept_invite as accept_in_table}
use sea_battle.Lobby.Invites.Active.{accept_invite_once}
use sea_battle.Lobby.Meetings.{InGame, has_game, playing}
use sea_battle.Lobby.Invited.{accept_invite-has_game, invited_players-InGame}
use sea_battle.Protocol.Payload.{JsonLibrary, extract_string, extract_bool}
use sea_battle.Handler.{World, Context, players_of, games_of, send_to_player, broadcast_message}
use sea_battle.Handler.Meeting.{notify_game_start, handle_invite_response, start_invited}

-- Both are in the new game, and find it by their GUIDs; nobody else is touched.
abbrev pub Meet : String → Player → Player → World → World → Type 0
Meet id p1 p2 w w' =
    (g : Game) × ((guid : String)
      → (get_game_by_player (games_of w') guid ≡ (
          if p1.guid == guid || p2.guid == guid
          then some g
          else get_game_by_player (games_of w) guid))
        × (get_player (players_of w') guid ≡ (
            if p1.guid == guid || p2.guid == guid
            then when_found (playing id) (get_player (players_of w) guid)
            else get_player (players_of w) guid)))

module _ (c : Context) (w : World) (s : SessionRef) where
  started-Meet :
      (id : String) (p1 p2 : Player) (out : Hall × Option Game)
      → InGame id w.hall p1 p2 out
      → has_game out.1 ≡ true
      → Meet id p1 p2 w (start_invited c w s out)
  unfolding notify_game_start send_to_player broadcast_message
  started-Meet id p1 p2 (hall, none) in_game made = cc
  started-Meet id p1 p2 (hall, some g) in_game made = (g, in_game)

  pub handle_invite_response-Meet :
      {Json : Type 0} (lib : JsonLibrary Json) (p1 p2 : Player) (payload : Json) (id : String)
      (i : GameInvite)
      → IsManager (games_of w)
      → find (games_of w).games (c.fresh 0) ≡ none
      → ((v : String) (q : Player) → get_player (players_of w) v ≡ some q → q.guid ≡ v)
      → extract_string lib payload "invite_id" ≡ some id
      → extract_bool lib payload "accept" ≡ some true
      → get_invite c.second c.now w.hall.invites id ≡ some i
      → get_player (players_of w) i.from_guid ≡ some p1
      → is_online_status p1.status ≡ true
      → is_online_status p2.status ≡ true
      → Meet (c.fresh 0) p1 p2 w (handle_invite_response c lib w s p2 payload)
  unfolding handle_invite_response
  handle_invite_response-Meet lib p1 p2 payload id i sound fresh own named accepted known inviter
        online1 online2 =
      let pair : String × String = (i.from_guid, i.to_guid) in
      let (taken, _) = accept_invite_once c.second c.now w.hall.invites id id in
      let found : (accept_in_table c.second c.now w.hall.invites id).1 ≡ some pair =
        rw known at taken in
      let out =
        accept_invite c.second c.now (c.fresh 0) (c.heads 0) w.hall id (some p1) (some p2) in
      let (opened, _) =
        accept_invite-has_game c.second c.now (c.fresh 0) (c.heads 0) w.hall id (some p1)
          (some p2) in
      let (in_game, _, _) =
        invited_players-InGame c.second c.now (c.fresh 0) (c.heads 0) w.hall id pair p1 p2 sound
          fresh own found online1 online2 in
      rw (named, accepted, known, inviter, online1)
        (started-Meet (c.fresh 0) p1 p2 out in_game (rw (found, online1, online2) at opened))
